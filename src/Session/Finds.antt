-- ===== src/Session/Finds.antt =====
-- What the reference finds in a stream until it wants more bytes: the items, and the bytes kept.
use ublox.Prelude.{
  ℕ, ◌+◌, ◌≤◌, ◌≡◌, refl, sym, ◌∙◌, ap, ap₂, subst, none, some, List, [], ◌∷◌, ◌++◌, length,
  append-nil,
}
use ublox.Error.{ParserError, Result}
use ublox.Packets.{Packets}
use ublox.Parser.Scan.{scan}
use ublox.Parser.Stream.{scan-append_some, scan-append_none, length-scan-none}

pub data Finds {P : Type 0} (packets : Packets P)
    : List ℕ → List (Result P ParserError) → List ℕ → Type 0 where
  stop : {bytes rest : List ℕ} → scan packets bytes ≡ (none, rest) → Finds packets bytes [] rest
  item :
      {bytes mid rest : List ℕ} {r : Result P ParserError} {rs : List (Result P ParserError)}
      → scan packets bytes ≡ (some r, mid)
      → Finds packets mid rs rest
      → Finds packets bytes (r ∷ rs) rest

module _ {P : Type 0} (packets : Packets P) where
  -- Streams in which the reference finds the same go on alike.
  pub Finds-of_same :
      {a b rest : List ℕ} {rs : List (Result P ParserError)}
      → scan packets b ≡ scan packets a
      → Finds packets a rs rest
      → Finds packets b rs rest
  Finds-of_same e (stop h) = stop (e ∙ h)
  Finds-of_same e (item h t) = item (e ∙ h) t

  -- Reading on from what was kept is reading both at once.
  pub Finds-append :
      {bytes kept rest : List ℕ} {rs more : List (Result P ParserError)} (new_data : List ℕ)
      → Finds packets bytes rs kept
      → Finds packets (kept ++ new_data) more rest
      → Finds packets (bytes ++ new_data) (rs ++ more) rest
  Finds-append new_data (stop h) t = Finds-of_same (scan-append_none packets _ new_data _ h) t
  Finds-append new_data (item h s) t =
      item (scan-append_some packets _ new_data _ h) (Finds-append new_data s t)

  -- What is kept is less than a packet of the largest size.
  pub length-Finds :
      {bytes kept : List ℕ} {rs : List (Result P ParserError)}
      → Finds packets bytes rs kept
      → length kept ≤ packets.max_payload_len + 7
  length-Finds (stop h) = (length-scan-none packets _ _ h).1
  length-Finds (item h t) = length-Finds t

  -- The stream determines the items and the bytes kept.
  pub Finds-unique :
      {bytes kept kept' : List ℕ} {rs rs' : List (Result P ParserError)}
      → Finds packets bytes rs kept
      → Finds packets bytes rs' kept'
      → (rs ≡ rs') × (kept ≡ kept')
  Finds-unique (stop h) (stop k) = (refl, ap (λ s. s.1) (sym h ∙ k))
  Finds-unique (stop h) (item k t) = absurd (cc)
  Finds-unique (item h s) (stop k) = absurd (cc)
  Finds-unique {kept' = kept'} (item {mid = mid} {r = r} h s)
        (item {mid = mid'} {r = r'} {rs = rs'} k t) =
      let first : r ≡ r' = cc in
      let same : mid' ≡ mid = ap (λ z. z.1) (sym k ∙ h) in
      let (items, bytes) = Finds-unique s (subst (λ z. Finds packets z rs' kept') same t) in
      (ap₂ ◌∷◌ first items, bytes)

  -- The bytes kept hold no item.
  pub scan-Finds :
      {bytes kept : List ℕ} {rs : List (Result P ParserError)}
      → Finds packets bytes rs kept
      → scan packets kept ≡ (none, kept)
  scan-Finds {bytes} {kept} (stop h) =
      let again = scan-append_none packets bytes [] kept h in
      sym (ap (scan packets) (append-nil kept))
      ∙ sym again
      ∙ ap (scan packets) (append-nil bytes)
      ∙ h
  scan-Finds (item h t) = scan-Finds t
