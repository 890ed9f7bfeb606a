-- ===== src/Packet/Access/Whole.antt =====
-- The accessors of a packet that `validate` accepts read its payload from one end to the other.
use ublox.Prelude.{
  ℕ, ◌+◌, ◌≤◌, ◌≡◌, refl, ◌∙◌, ap, Option, none, some, List, [], ◌∷◌, ◌++◌, length, arith, drop,
  true, Option-cases, inl, inr, ◌⊎◌, ◌≢◌, drop-of_le, ltb, leb, ◌==◌, Bool-cases,
}
use mathlib.Core.List.{Memᴰ}
use ublox.Error.{ok, err}
use ublox.Packet.Desc.{
  PackDesc, SizeFn, sum_of_size_fns, size_fns, unwrap_or_default, validate, validate_by, min_size,
  packet_payload_size, packet_payload_size_except_size_fn,
}
use ublox.Packet.Table.{all_packets}
use ublox.Packet.Match.Sizes.{
  known_size, covers_by, covers-Memᴰ, at_least-some, least, read_size, every-Memᴰ,
}
use ublox.Packet.Build.Frames.{joined}
use ublox.Packet.Access.{read_all, raw_accessors, accessors}
use ublox.Packet.Access.Values.{Gives, Gives-accessors}
use ublox.Packet.Access.Laid.{
  laid, end_of, Reads-laid, end_of-fixed, end_of-open, plain_by, is_laid, all_laid,
}

-- What `validate` has found out about the length of a payload.
abbrev pub Room : Option ℕ → PackDesc → List ℕ → Type 0
Room size d payload =
    (m : ℕ) × (sum_of_size_fns (size_fns d.fields) payload ≡ some m)
    × (known_size d.fields + m ≤ length payload)
    × ((size ≡ some (length payload)) ⊎ (size ≡ none))

Room-min_size :
    (fns : List SizeFn) (d : PackDesc) (payload : List ℕ) {n l : ℕ}
    → least fns d ≡ some l
    → min_size fns d payload ≡ some (ok n)
    → (m : ℕ) × (sum_of_size_fns fns payload ≡ some m) × (n ≡ l + m)
unfolding min_size
Room-min_size [] d payload c e = (0, unfold sum_of_size_fns in refl, ground arith)
Room-min_size (fn ∷ fns) d payload {l = l} c e =
    let size : unwrap_or_default (packet_payload_size_except_size_fn d) ≡ l =
      ap unwrap_or_default c ∙ unfold unwrap_or_default in refl in
    elim (Bool-cases (ltb (length payload) l)) [
      | inl few ↦ absurd (ground arith)
      | inr enough ↦ elim (Option-cases (sum_of_size_fns (fn ∷ fns) payload)) [
        | inl p ↦ absurd (ground arith)
        | inr (m, p) ↦ (m, p, ground arith)
      ]
    ]

plain_by-nil : (n : ℕ) (fns : List SizeFn) → plain_by (some n) fns ≡ true → fns ≡ []
plain_by-nil n [] s = refl
plain_by-nil n (fn ∷ fns) s = absurd (ground arith)

Room-validate_by :
    (size : Option ℕ) (d : PackDesc) (payload : List ℕ)
    → covers_by size d ≡ true
    → plain_by size (size_fns d.fields) ≡ true
    → validate_by size d payload ≡ some (ok tt)
    → Room size d payload
unfolding validate_by
Room-validate_by (some expect) d payload c s e =
    let no_fns = plain_by-nil expect (size_fns d.fields) s in
    elim (Bool-cases (length payload == expect)) [
      | inl same ↦ (
        0,
        ap (λ fns. sum_of_size_fns fns payload) no_fns ∙ unfold sum_of_size_fns in refl,
        ground arith,
        inl (ap some (ground arith)),
      )
      | inr other ↦ absurd (ground arith)
    ]
Room-validate_by none d payload c s e =
    let fns = size_fns d.fields in
    let (l, known, sizes, reads) =
      at_least-some (known_size d.fields) (read_size fns) (least fns d) c in
    elim (Option-cases (min_size fns d payload)) [
      | inl p ↦ absurd (ground arith)
      | inr (err problem, p) ↦ absurd (ground arith)
      | inr (ok n, p) ↦
          let (m, q, sum) = Room-min_size fns d payload known p in
          elim (Bool-cases (leb n (length payload))) [
            | inl enough ↦ (m, q, ground arith, inr refl)
            | inr few ↦ absurd (ground arith)
          ]
    ]

pub Room-validate :
    (d : PackDesc) (payload : List ℕ)
    → Memᴰ d all_packets
    → validate d payload ≡ some (ok tt)
    → Room (packet_payload_size d) d payload
unfolding validate
Room-validate d payload mem e =
    Room-validate_by (packet_payload_size d) d payload (covers-Memᴰ mem)
      (ground (arith, every-Memᴰ is_laid mem all_laid)) e

nil-or-ne_nil : (fns : List SizeFn) → (fns ≡ []) ⊎ (fns ≢ [])
nil-or-ne_nil [] = inl refl
nil-or-ne_nil (fn ∷ fns) = inr (λ e. cc)

sum-nil :
    (fns : List SizeFn) (payload : List ℕ) {m : ℕ}
    → fns ≡ []
    → sum_of_size_fns fns payload ≡ some m
    → m ≡ 0
unfolding sum_of_size_fns
sum-nil [] payload e p = ground arith
sum-nil (fn ∷ fns) payload e p = absurd (ground arith)

laid-Memᴰ : {d : PackDesc} → Memᴰ d all_packets → laid d.fields ≡ true
laid-Memᴰ mem = ground (arith, every-Memᴰ is_laid mem all_laid)

-- The fields end with the payload, or some have functions for their sizes.
end_of-whole :
    (d : PackDesc) (payload : List ℕ)
    → Memᴰ d all_packets
    → validate d payload ≡ some (ok tt)
    → (m : ℕ) × (sum_of_size_fns (size_fns d.fields) payload ≡ some m)
      × (known_size d.fields + m ≤ length payload)
      × ((end_of 0 d.fields m payload ≡ length payload) ⊎ (size_fns d.fields ≢ []))
unfolding packet_payload_size
end_of-whole d payload mem e =
    let (m, q, le, size) = Room-validate d payload mem e in
    elim (nil-or-ne_nil (size_fns d.fields)) [
      | inr fns ↦ (m, q, le, inr fns)
      | inl no_fns ↦ elim size [
        | inl known ↦ (
          m,
          q,
          le,
          inl (
              omega (
                arith,
                end_of-fixed 0 d.fields m payload known,
                sum-nil (size_fns d.fields) payload no_fns q,
              )),
        )
        | inr unknown ↦
            (m, q, le, inl (end_of-open 0 d.fields m payload (laid-Memᴰ mem) unknown no_fns))
      ]
    ]

-- For each packet of the list, on any payload that validation accepts, the bytes that the accessors
-- read, one behind the other, are the front of the payload: all of it, but for a packet whose
-- description has size functions. No range is out of bounds: whatever the conversions of the fields
-- are, each accessor returns what its conversion makes of its bytes, and panics only where that
-- does.
pub read_all-whole :
    {V : Type 0} (from_fns : List (List ℕ → Option V)) (d : PackDesc) (payload : List ℕ)
    → Memᴰ d all_packets
    → validate d payload ≡ some (ok tt)
    → (vals : List (List ℕ)) × (rest : List ℕ) × (read_all (raw_accessors d) payload ≡ some vals)
      × Gives (accessors from_fns d) from_fns payload vals
      × (joined vals ++ rest ≡ payload)
      × ((rest ≡ []) ⊎ (size_fns d.fields ≢ []))
unfolding raw_accessors
read_all-whole from_fns d payload mem e =
    let (m, q, le, ends) = end_of-whole d payload mem e in
    let (vals, run, whole) = Reads-laid 0 d.fields payload m (laid-Memᴰ mem) q (omega arith) in
    let end = end_of 0 d.fields m payload in
    (
      vals,
      drop end payload,
      run,
      Gives-accessors from_fns d payload vals run,
      whole,
      elim ends [ inl stop ↦ inl (drop-of_le end payload (omega arith)) | inr fns ↦ inr fns ],
    )
