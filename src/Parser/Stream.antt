-- ===== src/Parser/Stream.antt =====
-- The reference for `ParserIter::next` (ublox/src/parser.rs) on a stream that grows.
use ublox.Prelude.{
  ℕ, suc, ◌+◌, ◌≤◌, ◌<◌, ◌≡◌, refl, sym, ap, subst, none, some, List, [], ◌∷◌, ◌++◌, length, take,
  drop, arith, inl, inr, Bool-cases, false, ltb, ◌==◌, ◌&&◌, take-append_left, drop-append_left,
  length-drop,
}
use ublox.Error.{ParserError, Result}
use ublox.Checksum.{ubx_checksum}
use ublox.Packets.{Packets}
use ublox.Parser.{sync_char_1, sync_char_2, u16_of_le}
use ublox.Parser.Scan.{Scanned, covered, close, header, after_sync, scan}
use ublox.Parser.Skip.{scan-synced, scan-other, scan-skip}

module _ {P : Type 0} (packets : Packets P) where
  -- What more bytes change: an item that was found stays, with the new bytes behind what it left;
  -- where none was found, the search starts again from what was kept.
  abbrev Extends : Scanned packets → List ℕ → Scanned packets → Type 0
  Extends (none, rest) more whole = whole ≡ scan packets (rest ++ more)
  Extends (some item, rest) more whole = whole ≡ (some item, rest ++ more)

  close-Extends :
      (class msg_id lo hi : ℕ) (body more back : List ℕ)
      → drop (u16_of_le lo hi) body ≡ back
      → ltb packets.max_payload_len (u16_of_le lo hi) ≡ false
      → Extends
          (close packets class msg_id lo hi body back)
          more
          (close packets class msg_id lo hi (body ++ more) (drop (u16_of_le lo hi) (body ++ more)))
  unfolding scan after_sync header
  close-Extends class msg_id lo hi body more [] t fits = unfold close in rw fits
  close-Extends class msg_id lo hi body more (a ∷ []) t fits = unfold close in rw fits
  close-Extends class msg_id lo hi body more (a ∷ b ∷ back) t fits =
      let n = u16_of_le lo hi in
      let enough : n ≤ length body = omega (arith, length-drop n body, ap length t) in
      let ck = ubx_checksum (covered class msg_id lo hi (take n body)) in
      rw (drop-append_left n body more enough, t)
        (unfold close in
          rw (take-append_left n body more enough)
            (elim (Bool-cases (ck.0 == a && ck.1 == b)) [ inl good ↦ rw good | inr bad ↦ rw bad ]))

  synced-Extends :
      (bytes more : List ℕ)
      → Extends
          (scan packets (sync_char_2 ∷ bytes))
          more
          (scan packets (sync_char_2 ∷ bytes ++ more))
      → Extends
          (header packets bytes (scan packets (sync_char_2 ∷ bytes)))
          more
          (scan packets (sync_char_1 ∷ sync_char_2 ∷ (bytes ++ more)))
  unfolding header
  synced-Extends (class ∷ msg_id ∷ lo ∷ hi ∷ body) more ih =
      rw scan-synced (elim (Bool-cases (ltb packets.max_payload_len (u16_of_le lo hi))) [
        | inl long ↦ rw long ih
        | inr fits ↦ rw fits (close-Extends class msg_id lo hi body more _ refl fits)
      ])
  synced-Extends [] more ih = refl
  synced-Extends (a ∷ []) more ih = refl
  synced-Extends (a ∷ b ∷ []) more ih = refl
  synced-Extends (a ∷ b ∷ c ∷ []) more ih = refl

  after-Extends :
      (bytes more : List ℕ)
      → Extends (scan packets bytes) more (scan packets (bytes ++ more))
      → Extends
          (scan packets (sync_char_1 ∷ bytes))
          more
          (scan packets (sync_char_1 ∷ (bytes ++ more)))
  after-Extends [] more ih = unfold scan after_sync in refl
  after-Extends (second ∷ bytes) more ih = elim (Bool-cases (second == sync_char_2)) [
    | inl synced ↦
        let same : second ≡ sync_char_2 = ground arith in
        let ih' =
          subst (λ s. Extends (scan packets (s ∷ bytes)) more (scan packets (s ∷ (bytes ++ more))))
            same ih in
        rw same (
          subst (λ z. Extends z more (scan packets (sync_char_1 ∷ sync_char_2 ∷ (bytes ++ more))))
            (sym (scan-synced packets bytes)) (synced-Extends bytes more ih'))
    | inr other ↦
        rw (scan-other packets second bytes other, scan-other packets second (bytes ++ more) other)
          ih
  ]

  -- More bytes behind those scanned change nothing of an item that was found.
  scan-Extends :
      (bytes more : List ℕ) → Extends (scan packets bytes) more (scan packets (bytes ++ more))
  scan-Extends [] more = unfold scan in refl
  scan-Extends (x ∷ bytes) more = elim (Bool-cases (x == sync_char_1)) [
    | inl synced ↦
        let same : x ≡ sync_char_1 = ground arith in
        rw same (after-Extends bytes more (scan-Extends bytes more))
    | inr other ↦
        rw (scan-skip packets x bytes other, scan-skip packets x (bytes ++ more) other)
          (scan-Extends bytes more)
  ]

  -- An item that was found stays, and the new bytes stand behind what it left.
  pub scan-append_some :
      (bytes more rest : List ℕ) {item : Result P ParserError}
      → scan packets bytes ≡ (some item, rest)
      → scan packets (bytes ++ more) ≡ (some item, rest ++ more)
  scan-append_some bytes more rest {item} e =
      subst (λ z. Extends z more (scan packets (bytes ++ more))) e (scan-Extends bytes more)

  -- Where no item was found, what was kept is all that matters of what was scanned.
  pub scan-append_none :
      (bytes more rest : List ℕ)
      → scan packets bytes ≡ (none, rest)
      → scan packets (bytes ++ more) ≡ scan packets (rest ++ more)
  scan-append_none bytes more rest e =
      subst (λ z. Extends z more (scan packets (bytes ++ more))) e (scan-Extends bytes more)

  -- An item takes bytes away; where there is none, what is kept is less than a packet of the
  -- largest size.
  abbrev pub Shrinks : Scanned packets → ℕ → Type 0
  Shrinks (none, rest) n = (length rest ≤ n) × (length rest ≤ packets.max_payload_len + 7)
  Shrinks (some item, rest) n = length rest < n

  pub close-Shrinks :
      (class msg_id lo hi n : ℕ) (body back : List ℕ)
      → n ≡ 6 + length body
      → drop (u16_of_le lo hi) body ≡ back
      → u16_of_le lo hi ≤ packets.max_payload_len
      → Shrinks (close packets class msg_id lo hi body back) n
  unfolding close
  close-Shrinks class msg_id lo hi n body [] e t fits =
      omega (arith, length-drop (u16_of_le lo hi) body, ap length t)
  close-Shrinks class msg_id lo hi n body (a ∷ []) e t fits =
      omega (arith, length-drop (u16_of_le lo hi) body, ap length t)
  close-Shrinks class msg_id lo hi n body (a ∷ b ∷ back) e t fits =
      let k = u16_of_le lo hi in
      let ck = ubx_checksum (covered class msg_id lo hi (take k body)) in
      let size : length back < length body = omega (arith, length-drop k body, ap length t) in
      elim (Bool-cases (ck.0 == a && ck.1 == b)) [
        | inl good ↦ rw good (omega arith)
        | inr bad ↦ rw bad (omega arith)
      ]

  Shrinks-suc : (s : Scanned packets) (n : ℕ) → Shrinks s n → Shrinks s (suc n)
  Shrinks-suc (none, rest) n h = omega arith
  Shrinks-suc (some item, rest) n h = omega arith

  header-Shrinks :
      (bytes : List ℕ) (next : Scanned packets)
      → Shrinks next (suc (length bytes))
      → Shrinks (header packets bytes next) (suc (suc (length bytes)))
  unfolding header
  header-Shrinks (class ∷ msg_id ∷ lo ∷ hi ∷ body) next h =
      elim (Bool-cases (ltb packets.max_payload_len (u16_of_le lo hi))) [
        | inl long ↦ rw long (Shrinks-suc next _ h)
        | inr fits ↦
            rw fits (close-Shrinks class msg_id lo hi _ body _ (omega arith) refl (ground arith))
      ]
  header-Shrinks [] next h = omega arith
  header-Shrinks (a ∷ []) next h = omega arith
  header-Shrinks (a ∷ b ∷ []) next h = omega arith
  header-Shrinks (a ∷ b ∷ c ∷ []) next h = omega arith

  after-Shrinks :
      (bytes : List ℕ)
      → Shrinks (scan packets bytes) (length bytes)
      → Shrinks (scan packets (sync_char_1 ∷ bytes)) (suc (length bytes))
  after-Shrinks [] h = unfold scan after_sync in omega arith
  after-Shrinks (second ∷ bytes) h = elim (Bool-cases (second == sync_char_2)) [
    | inl synced ↦
        let same : second ≡ sync_char_2 = ground arith in
        let h' = subst (λ s. Shrinks (scan packets (s ∷ bytes)) (suc (length bytes))) same h in
        rw (same, scan-synced) (header-Shrinks bytes (scan packets (sync_char_2 ∷ bytes)) h')
    | inr other ↦
        rw (scan-other packets second bytes other) (Shrinks-suc (scan packets (second ∷ bytes)) _ h)
  ]

  scan-Shrinks : (bytes : List ℕ) → Shrinks (scan packets bytes) (length bytes)
  scan-Shrinks [] = unfold scan in omega arith
  scan-Shrinks (x ∷ bytes) = elim (Bool-cases (x == sync_char_1)) [
    | inl synced ↦
        let same : x ≡ sync_char_1 = ground arith in
        rw same (after-Shrinks bytes (scan-Shrinks bytes))
    | inr other ↦
        rw (scan-skip packets x bytes other)
          (Shrinks-suc (scan packets bytes) _ (scan-Shrinks bytes))
  ]

  pub length-scan-some :
      (bytes rest : List ℕ) {item : Result P ParserError}
      → scan packets bytes ≡ (some item, rest)
      → length rest < length bytes
  length-scan-some bytes rest e = subst (λ z. Shrinks z (length bytes)) e (scan-Shrinks bytes)

  pub length-scan-none :
      (bytes rest : List ℕ)
      → scan packets bytes ≡ (none, rest)
      → (length rest ≤ length bytes) × (length rest ≤ packets.max_payload_len + 7)
  length-scan-none bytes rest e = subst (λ z. Shrinks z (length bytes)) e (scan-Shrinks bytes)
