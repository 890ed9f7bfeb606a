-- ===== src/Frame/Sound.antt =====
-- What an item that the parser finds comes from.
use ublox.Prelude.{
  ℕ, ◌≤◌, ◌<◌, ◌≡◌, ◌≢◌, refl, sym, ◌∙◌, ap, subst, none, some, List, [], ◌∷◌, ◌++◌, length, arith,
  append_assoc, take, drop, Bool-cases, inl, inr, ltb, ◌==◌, ◌&&◌, All, ◌⊎◌, pair_path, length-take,
  length-drop, take-append-drop,
}
use ublox.Error.{ParserError, Result, err, invalid_checksum}
use ublox.Checksum.{ubx_checksum}
use ublox.Packets.{Packets}
use ublox.Parser.{sync_char_1, sync_char_2, u16_of_le}
use ublox.Parser.Scan.{Scanned, covered, close, header, after_sync, scan}
use ublox.Parser.Skip.{scan-synced, scan-other, scan-skip}
use ublox.Frame.{low_byte, high_byte, body, frame}

abbrev pub IsByte : ℕ → Type 0
IsByte b = b < 256

module _ {P : Type 0} (packets : Packets P) where
  -- The item is what `match_packet` makes of a framed packet, which ends where the rest begins.
  pub record Framed (bytes : List ℕ) (item : Result P ParserError) (rest : List ℕ) : Type 0 where
    pub skipped : List ℕ
    pub class : ℕ
    pub msg_id : ℕ
    pub payload : List ℕ
    pub split : bytes ≡ skipped ++ (frame class msg_id payload ++ rest)
    pub made : item ≡ packets.match_packet class msg_id payload
    pub fits : length payload ≤ packets.max_payload_len

  -- The item says that the two bytes behind a body are not its checksum, and which they are and
  -- should be; the rest begins behind the two sync chars.
  pub record Corrupt (bytes : List ℕ) (item : Result P ParserError) (rest : List ℕ) : Type 0 where
    pub skipped : List ℕ
    pub class : ℕ
    pub msg_id : ℕ
    pub payload : List ℕ
    pub ck_a : ℕ
    pub ck_b : ℕ
    pub back : List ℕ
    pub split : bytes ≡ skipped ++ (sync_char_1 ∷ sync_char_2 ∷ rest)
    pub read : rest ≡ body class msg_id payload ++ (ck_a ∷ ck_b ∷ back)
    pub made :
        let ck = ubx_checksum (body class msg_id payload) in
        item ≡ err (invalid_checksum (u16_of_le ck_a ck_b) (u16_of_le ck.0 ck.1))
    pub differ : ubx_checksum (body class msg_id payload) ≢ (ck_a, ck_b)
    pub fits : length payload ≤ packets.max_payload_len

  abbrev pub Origin : List ℕ → Scanned packets → Type 0
  Origin bytes (none, rest) = (skipped : List ℕ) × (bytes ≡ skipped ++ rest)
  Origin bytes (some item, rest) = Framed bytes item rest ⊎ Corrupt bytes item rest

  Origin-cons :
      (x : ℕ) (bytes : List ℕ) (s : Scanned packets) → Origin bytes s → Origin (x ∷ bytes) s
  Origin-cons x bytes (none, rest) (skipped, e) = (x ∷ skipped, ap (◌∷◌ x) e)
  Origin-cons x bytes (some item, rest) (inl f) = inl (record {
    skipped = x ∷ f.skipped;
    class = f.class;
    msg_id = f.msg_id;
    payload = f.payload;
    split = ap (◌∷◌ x) f.split;
    made = f.made;
    fits = f.fits;
  })
  Origin-cons x bytes (some item, rest) (inr c) = inr (record {
    skipped = x ∷ c.skipped;
    class = c.class;
    msg_id = c.msg_id;
    payload = c.payload;
    ck_a = c.ck_a;
    ck_b = c.ck_b;
    back = c.back;
    split = ap (◌∷◌ x) c.split;
    read = c.read;
    made = c.made;
    differ = c.differ;
    fits = c.fits;
  })

  -- The bytes behind a header are a payload, two bytes and more; the header states its length.
  body_of_parts :
      (class msg_id lo hi : ℕ) (bytes back : List ℕ)
      → IsByte lo
      → IsByte hi
      → length back ≢ 0
      → let payload = take (u16_of_le lo hi) bytes in
        drop (u16_of_le lo hi) bytes ≡ back
        → (covered class msg_id lo hi payload ≡ body class msg_id payload)
          × (covered class msg_id lo hi bytes ≡ body class msg_id payload ++ back)
  body_of_parts class msg_id lo hi bytes back hlo hhi more t =
      let n = u16_of_le lo hi in
      let payload = take n bytes in
      let size : length payload ≡ n =
        omega (arith, length-take n bytes, length-drop n bytes, ap length t, more) in
      let low : low_byte (length payload) ≡ lo = omega arith in
      let high : high_byte (length payload) ≡ hi = omega arith in
      let whole : bytes ≡ payload ++ back = sym (take-append-drop n bytes) ∙ ap (◌++◌ payload) t in
      rw (low, high) (refl, ap (covered class msg_id lo hi) whole)

  close-Origin :
      (class msg_id lo hi : ℕ) (bytes back : List ℕ)
      → IsByte lo
      → IsByte hi
      → u16_of_le lo hi ≤ packets.max_payload_len
      → drop (u16_of_le lo hi) bytes ≡ back
      → Origin
          (sync_char_1 ∷ sync_char_2 ∷ covered class msg_id lo hi bytes)
          (close packets class msg_id lo hi bytes back)
  unfolding close frame
  close-Origin class msg_id lo hi bytes [] hlo hhi fits t = ([], refl)
  close-Origin class msg_id lo hi bytes (a ∷ []) hlo hhi fits t = ([], refl)
  close-Origin class msg_id lo hi bytes (a ∷ b ∷ back) hlo hhi fits t =
      let n = u16_of_le lo hi in
      let payload = take n bytes in
      let ck = ubx_checksum (covered class msg_id lo hi payload) in
      let short : length payload ≤ packets.max_payload_len = omega (arith, length-take n bytes) in
      let (same, whole) =
        body_of_parts class msg_id lo hi bytes (a ∷ b ∷ back) hlo hhi (omega arith) t in
      elim (Bool-cases (ck.0 == a && ck.1 == b)) [
        | inl good ↦
            let parts : ck ≡ (a, b) = pair_path (ground arith) (ground arith) in
            let ends : ubx_checksum (body class msg_id payload) ≡ (a, b) =
              ap ubx_checksum (sym same) ∙ parts in
            rw good (
              inl (record {
                skipped = [];
                class = class;
                msg_id = msg_id;
                payload = payload;
                split =
                    ap (λ xs. sync_char_1 ∷ sync_char_2 ∷ xs)
                      (whole
                        ∙ sym (append_assoc (body class msg_id payload) (a ∷ b ∷ []) back)
                        ∙ ap
                            (λ (c : ℕ × ℕ). (body class msg_id payload ++ (c.0 ∷ c.1 ∷ [])) ++ back)
                            (sym ends));
                made = refl;
                fits = short;
              }))
        | inr bad ↦ rw bad (
            inr (record {
              skipped = [];
              class = class;
              msg_id = msg_id;
              payload = payload;
              ck_a = a;
              ck_b = b;
              back = back;
              split = refl;
              read = whole;
              made =
                  ap
                    (λ xs.
                      let c = ubx_checksum xs in
                      err (invalid_checksum (u16_of_le a b) (u16_of_le c.0 c.1)))
                    same;
              differ = λ e.
                  let whole_e : ck ≡ (a, b) = ap ubx_checksum same ∙ e in
                  let low = ap (λ (p : ℕ × ℕ). p.0) whole_e in
                  let high = ap (λ (p : ℕ × ℕ). p.1) whole_e in absurd (ground arith);
              fits = short;
            }))
      ]

  header-Origin :
      (bytes : List ℕ)
      → All IsByte bytes
      → Origin (sync_char_2 ∷ bytes) (scan packets (sync_char_2 ∷ bytes))
      → Origin
          (sync_char_1 ∷ sync_char_2 ∷ bytes)
          (header packets bytes (scan packets (sync_char_2 ∷ bytes)))
  unfolding header
  header-Origin (class ∷ msg_id ∷ lo ∷ hi ∷ bytes) (_, (_, (hlo, (hhi, _)))) ih =
      elim (Bool-cases (ltb packets.max_payload_len (u16_of_le lo hi))) [
        | inl long ↦ rw long (Origin-cons sync_char_1 _ _ ih)
        | inr fits ↦ rw fits (close-Origin class msg_id lo hi bytes _ hlo hhi (ground arith) refl)
      ]
  header-Origin [] all ih = ([], refl)
  header-Origin (a ∷ []) all ih = ([], refl)
  header-Origin (a ∷ b ∷ []) all ih = ([], refl)
  header-Origin (a ∷ b ∷ c ∷ []) all ih = ([], refl)

  after-Origin :
      (bytes : List ℕ)
      → All IsByte bytes
      → Origin bytes (scan packets bytes)
      → Origin (sync_char_1 ∷ bytes) (scan packets (sync_char_1 ∷ bytes))
  after-Origin [] all ih = unfold scan after_sync in ([], refl)
  after-Origin (second ∷ bytes) all ih = elim (Bool-cases (second == sync_char_2)) [
    | inl synced ↦
        let same : second ≡ sync_char_2 = ground arith in
        rw same (
          rw scan-synced (
            header-Origin bytes all.1
              (subst (λ s. Origin (s ∷ bytes) (scan packets (s ∷ bytes))) same ih)))
    | inr other ↦ rw (scan-other packets second bytes other) (Origin-cons sync_char_1 _ _ ih)
  ]

  -- Every item comes from a framed packet of the stream or from one whose checksum is wrong, and
  -- the rest is what stands behind it. Where there is no item, only bytes at the front are given up.
  pub scan-Origin : (bytes : List ℕ) → All IsByte bytes → Origin bytes (scan packets bytes)
  scan-Origin [] all = unfold scan in ([], refl)
  scan-Origin (x ∷ bytes) all = elim (Bool-cases (x == sync_char_1)) [
    | inl synced ↦
        let same : x ≡ sync_char_1 = ground arith in
        rw same (after-Origin bytes all.1 (scan-Origin bytes all.1))
    | inr other ↦ rw (scan-skip packets x bytes other) (Origin-cons x _ _ (scan-Origin bytes all.1))
  ]
