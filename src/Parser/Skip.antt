-- ===== src/Parser/Skip.antt =====
-- What the reference skips, and where it waits for more bytes.
use ublox.Prelude.{
  ℕ, zero, suc, ◌<◌, ◌≡◌, refl, none, some, List, [], ◌∷◌, length, false, ◌==◌, drop, arith, inl,
  inr, position, Option-cases,
}
use ublox.Packets.{Packets}
use ublox.Parser.{sync_char_1, sync_char_2}
use ublox.Parser.Scan.{Scanned, covered, close, header, after_sync, scan}

module _ {P : Type 0} (packets : Packets P) where
  pub header-short :
      (bytes : List ℕ) (next : Scanned packets)
      → length bytes < 4
      → header packets bytes next ≡ (none, sync_char_1 ∷ sync_char_2 ∷ bytes)
  unfolding header
  header-short [] next h = refl
  header-short (a ∷ []) next h = refl
  header-short (a ∷ b ∷ []) next h = refl
  header-short (a ∷ b ∷ c ∷ []) next h = refl
  header-short (a ∷ b ∷ c ∷ d ∷ bytes) next h = absurd (omega arith)

  pub close-incomplete :
      (class msg_id lo hi : ℕ) (body back : List ℕ)
      → length back < 2
      → close packets class msg_id lo hi body back
        ≡ (none, sync_char_1 ∷ sync_char_2 ∷ covered class msg_id lo hi body)
  unfolding close
  close-incomplete class msg_id lo hi body [] h = refl
  close-incomplete class msg_id lo hi body (a ∷ []) h = refl
  close-incomplete class msg_id lo hi body (a ∷ b ∷ back) h = absurd (omega arith)

  -- Bytes before the first sync char are skipped.
  pub scan-drop-position :
      (bytes : List ℕ) (i : ℕ)
      → position sync_char_1 bytes ≡ some i
      → scan packets (drop i bytes) ≡ scan packets bytes
  unfolding scan position
  scan-drop-position [] i e = cc
  scan-drop-position (x ∷ bytes) zero e = refl
  scan-drop-position (x ∷ bytes) (suc i) e = elim (Option-cases (position sync_char_1 bytes)) [
    | inl p ↦ ground arith
    | inr (j, p) ↦ ground (arith, scan-drop-position bytes i)
  ]

  pub scan-no_position :
      (bytes : List ℕ) → position sync_char_1 bytes ≡ none → scan packets bytes ≡ (none, [])
  unfolding scan position
  scan-no_position [] e = refl
  scan-no_position (x ∷ bytes) e = elim (Option-cases (position sync_char_1 bytes)) [
    | inl p ↦ ground (arith, scan-no_position bytes)
    | inr (j, p) ↦ ground arith
  ]

  pub scan-synced :
      (bytes : List ℕ)
      → scan packets (sync_char_1 ∷ sync_char_2 ∷ bytes)
        ≡ header packets bytes (scan packets (sync_char_2 ∷ bytes))
  unfolding scan header after_sync
  scan-synced bytes = refl

  pub scan-other :
      (second : ℕ) (bytes : List ℕ)
      → (second == sync_char_2) ≡ false
      → scan packets (sync_char_1 ∷ second ∷ bytes) ≡ scan packets (second ∷ bytes)
  unfolding scan after_sync
  scan-other second bytes h = rw h

  pub scan-skip :
      (byte : ℕ) (bytes : List ℕ)
      → (byte == sync_char_1) ≡ false
      → scan packets (byte ∷ bytes) ≡ scan packets bytes
  unfolding scan
  scan-skip byte bytes h = rw h
