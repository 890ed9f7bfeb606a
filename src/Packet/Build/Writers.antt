-- ===== src/Packet/Build/Writers.antt =====
-- `create_packet` (ublox_derive/src/output.rs) over a writer that may fail.
use ublox.Prelude.{
  ℕ, ◌+◌, ◌≡◌, refl, sym, ◌∙◌, ap, subst, List, [], ◌∷◌, ◌++◌, append_assoc, append-nil,
}
use ublox.Error.{Result, ok, err, MemWriterError}
use ublox.Checksum
use ublox.Checksum.{UbxChecksumCalc, ubx_checksum}
use ublox.Checksum.Laws.{update-eq_update_fields, result-update-update, update-append}
use ublox.Parser.{sync_char_1, sync_char_2}
use ublox.Frame.{low_byte, high_byte, frame}
use ublox.Packet.Build.{
  Builder, MemWriter, payload_size, write_fields, write_checksum, create_packet,
}
use ublox.Packet.Build.Frames.{joined, payload_size-joined}

-- The bytes that were sent are the first of those to be sent.
abbrev SentSome : (before after bytes : List ℕ) → Type 0
SentSome before after bytes =
    (sent : List ℕ) × (back : List ℕ) × (sent ++ back ≡ bytes) × (after ≡ before ++ sent)

SentSome-longer :
    (before after bytes more : List ℕ)
    → SentSome before after bytes
    → SentSome before after (bytes ++ more)
SentSome-longer before after bytes more (sent, back, whole, e) =
    (sent, back ++ more, sym (append_assoc sent back more) ∙ ap (λ xs. xs ++ more) whole, e)

SentSome-behind :
    (before middle after bytes more : List ℕ)
    → middle ≡ before ++ bytes
    → SentSome middle after more
    → SentSome before after (bytes ++ more)
SentSome-behind before middle after bytes more m (sent, back, whole, e) = (
  bytes ++ sent,
  back,
  append_assoc bytes sent back ∙ ap (◌++◌ bytes) whole,
  e ∙ ap (λ xs. xs ++ sent) m ∙ append_assoc before bytes sent,
)

module _ {W : Type 0} (contents : W → List ℕ) where
  -- An answer `ok` says that all bytes were appended; at an error, only the first may have been.
  abbrev pub Wrote : {E : Type 0} → W → List ℕ → Result (Unit {0}) E × W → Type 0
  Wrote w bytes (ok u, after) = contents after ≡ contents w ++ bytes
  Wrote w bytes (err e, after) = SentSome (contents w) (contents after) bytes

  -- The same of the fields, with the checksum of what was written.
  abbrev WroteFields :
      {E : Type 0} → UbxChecksumCalc → W → List ℕ → Result UbxChecksumCalc E × W → Type 0
  WroteFields calc w bytes (ok c, after) =
      (contents after ≡ contents w ++ bytes) × (c ≡ Checksum.update calc bytes)
  WroteFields calc w bytes (err e, after) = SentSome (contents w) (contents after) bytes

-- A writer that keeps to this: reserving room writes nothing.
pub record WriterLaws {W E : Type 0} (writer : MemWriter W E) : Type 0 where
  pub contents : W → List ℕ
  pub contents-reserve_allocate :
      (w : W) (n : ℕ) → contents (writer.reserve_allocate w n).1 ≡ contents w
  pub Wrote-write : (w : W) (bytes : List ℕ) → Wrote contents w bytes (writer.write w bytes)

module _ {W E : Type 0} {writer : MemWriter W E} (laws : WriterLaws writer) where
  open laws use {contents, contents-reserve_allocate, Wrote-write}

  WroteFields-cons :
      (calc : UbxChecksumCalc) (w : W) (bytes more : List ℕ)
      (answer : Result (Unit {0}) (MemWriterError E)) (written : W)
      (rest : Result UbxChecksumCalc (MemWriterError E) × W)
      → Wrote contents w bytes (answer, written)
      → WroteFields contents {E = MemWriterError E}
          (Checksum.update_fields calc bytes)
          written
          more
          rest
      → WroteFields contents {E = MemWriterError E} calc w
          (bytes ++ more)
          (elim answer [ err e ↦ (err e, written) | ok u ↦ rest ])
  WroteFields-cons calc w bytes more (err e) written rest h k =
      SentSome-longer (contents w) (contents written) bytes more h
  WroteFields-cons calc w bytes more (ok u) written (err e, after) h k =
      SentSome-behind (contents w) (contents written) (contents after) bytes more h k
  WroteFields-cons calc w bytes more (ok u) written (ok c, after) h k = (
    k.0 ∙ ap (λ xs. xs ++ more) h ∙ append_assoc (contents w) bytes more,
    k.1
        ∙ ap (λ d. Checksum.update d more) (sym (update-eq_update_fields calc bytes))
        ∙ update-append calc bytes more,
  )

  WroteFields-write_fields :
      (calc : UbxChecksumCalc) (fields : List (List ℕ)) (w : W)
      → WroteFields contents calc w (joined fields) (write_fields writer calc fields w)
  unfolding write_fields
  WroteFields-write_fields calc [] w =
      (sym (append-nil (contents w)), unfold Checksum.update in refl)
  WroteFields-write_fields calc (bytes ∷ fields) w =
      WroteFields-cons calc w bytes (joined fields) (writer.write w bytes).0
        (writer.write w bytes).1 _ (Wrote-write w bytes)
        (WroteFields-write_fields (Checksum.update_fields calc bytes) fields
          (writer.write w bytes).1)

  Wrote-behind :
      (w middle : W) (bytes more : List ℕ) (r : Result (Unit {0}) (MemWriterError E) × W)
      → contents middle ≡ contents w ++ bytes
      → Wrote contents middle more r
      → Wrote contents w (bytes ++ more) r
  Wrote-behind w middle bytes more (ok u, after) m h =
      h ∙ ap (λ xs. xs ++ more) m ∙ append_assoc (contents w) bytes more
  Wrote-behind w middle bytes more (err e, after) m h =
      SentSome-behind (contents w) (contents middle) (contents after) bytes more m h

  -- What follows a write is done only when that succeeds.
  Wrote-then :
      (w middle : W) (bytes more : List ℕ) (answer : Result (Unit {0}) (MemWriterError E))
      (rest : Result (Unit {0}) (MemWriterError E) × W)
      → Wrote contents w bytes (answer, middle)
      → Wrote contents middle more rest
      → Wrote contents {E = MemWriterError E} w
          (bytes ++ more)
          (elim answer [ err e ↦ (err e, middle) | ok u ↦ rest ])
  Wrote-then w middle bytes more (err e) rest h k =
      SentSome-longer (contents w) (contents middle) bytes more h
  Wrote-then w middle bytes more (ok u) rest h k = Wrote-behind w middle bytes more rest h k

  Wrote-nothing :
      (w middle : W) (reserved : Result (Unit {0}) (MemWriterError E))
      → contents middle ≡ contents w
      → Wrote contents w [] (reserved, middle)
  Wrote-nothing w middle (ok u) m = m ∙ sym (append-nil (contents w))
  Wrote-nothing w middle (err e) m = ([], [], refl, m ∙ sym (append-nil (contents w)))

  abbrev result_bytes : UbxChecksumCalc → List ℕ
  result_bytes c = let (ck_a, ck_b) = Checksum.result c in ck_a ∷ ck_b ∷ []

  Wrote-write_checksum :
      (calc : UbxChecksumCalc) (w : W) (bytes : List ℕ)
      (r : Result UbxChecksumCalc (MemWriterError E) × W)
      → WroteFields contents calc w bytes r
      → Wrote contents w
          (bytes ++ result_bytes (Checksum.update calc bytes))
          (write_checksum writer r)
  unfolding write_checksum
  Wrote-write_checksum calc w bytes (err e, after) h =
      SentSome-longer (contents w) (contents after) bytes _ h
  Wrote-write_checksum calc w bytes (ok c, after) h =
      subst (λ d. Wrote contents w (bytes ++ result_bytes d) (writer.write after (result_bytes c)))
        h.1 (Wrote-behind w after bytes (result_bytes c) _ h.0 (Wrote-write after (result_bytes c)))

  -- Over any writer that appends all bytes or, at an error, the first of them at most, and that
  -- writes nothing where it reserves room: `create_packet` of a builder that succeeds has appended
  -- the framed packet of the builder's class and id, with its fields as the payload; one that fails
  -- has appended the first bytes of this at most.
  pub Wrote-create_packet :
      (p : Builder) (w : W)
      → Wrote contents w (frame p.class p.id (joined p.fields)) (create_packet writer p w)
  unfolding create_packet frame
  Wrote-create_packet p w =
      let payload = joined p.fields in
      let n = payload_size p.fields in
      let behind = p.class ∷ p.id ∷ low_byte n ∷ high_byte n ∷ [] in
      let header = sync_char_1 ∷ sync_char_2 ∷ behind in
      let calc = Checksum.update_fields Checksum.new behind in
      let out0 = (writer.reserve_allocate w (n + 8)).1 in
      let out1 = (writer.write out0 header).1 in
      let sum : Checksum.result (Checksum.update calc payload) ≡ ubx_checksum (behind ++ payload) =
        ap (λ c. Checksum.result (Checksum.update c payload))
          (sym (update-eq_update_fields Checksum.new behind))
        ∙ result-update-update behind payload in
      let bytes : header ++ (payload ++ result_bytes (Checksum.update calc payload))
          ≡ frame p.class p.id payload =
        unfold frame in
        ap (λ (c : ℕ × ℕ). header ++ (payload ++ (c.0 ∷ c.1 ∷ []))) sum
        ∙ ap
            (λ m.
              let whole = p.class ∷ p.id ∷ low_byte m ∷ high_byte m ∷ payload in
              let c = ubx_checksum whole in sync_char_1 ∷ sync_char_2 ∷ (whole ++ (c.0 ∷ c.1 ∷ [])))
            (payload_size-joined p.fields) in
      subst (λ xs. Wrote contents w xs (create_packet writer p w)) bytes
        (Wrote-then w out0 [] _ (writer.reserve_allocate w (n + 8)).0 _
          (Wrote-nothing w out0 (writer.reserve_allocate w (n + 8)).0
            (contents-reserve_allocate w (n + 8)))
          (Wrote-then out0 out1 header _ (writer.write out0 header).0 _ (Wrote-write out0 header) (
            Wrote-write_checksum calc out1 payload _
              (WroteFields-write_fields calc p.fields out1))))
