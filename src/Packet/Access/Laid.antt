-- ===== src/Packet/Access/Laid.antt =====
-- Packets whose fields are laid out as their accessors count (ublox_derive/src/output.rs): fields
-- of fixed size first, and then those that are open or have a size function.
use ublox.Prelude.{
  ℕ, ◌+◌, ◌≤◌, ◌≡◌, refl, Option, none, some, List, [], ◌∷◌, length, arith, Bool, true, false, ◌&&◌,
  Option-cases, inl, inr,
}
use ublox.Buffer.Vector.{slice_index_lem}
use ublox.Packet.Desc.{
  PackField, PackDesc, SizeFn, sum_of_size_fns, size_fns, unwrap_or_default, fields_size,
  packet_payload_size,
}
use ublox.Packet.Table.{all_packets}
use ublox.Packet.Match.Sizes.{known_size, every}
use ublox.Packet.Access.{raw_getter, off_behind, fns_behind, raw_getters}
use ublox.Packet.Access.Sized.{
  Reads, Reads-cons, Reads-nil, Reads-sized, all_sized, fns_of, size_fns-cons, Reads-sized_cons,
}

-- Fields of fixed size first, then those with functions for their sizes, or one that is open.
abbrev is_nil : List PackField → Bool
is_nil [] = true
is_nil (f ∷ fields) = false

abbrev laid_by : Option ℕ → Option SizeFn → List PackField → Bool → Bool
laid_by (some n) none fields rest = rest
laid_by (some n) (some fn) fields rest = false
laid_by none (some fn) fields rest = all_sized fields
laid_by none none fields rest = is_nil fields

abbrev pub laid : List PackField → Bool
laid [] = true
laid (f ∷ fields) = laid_by f.size_bytes f.size_fn fields (laid fields)

-- Where the fields from an offset on end, if `m` is the sum of the functions.
abbrev end_by : ℕ → ℕ → List ℕ → Option ℕ → Option SizeFn → ℕ → ℕ
end_by off m payload (some n) fn behind = behind
end_by off m payload none (some fn) behind = off + m
end_by off m payload none none behind = length payload

abbrev pub end_of : ℕ → List PackField → ℕ → List ℕ → ℕ
end_of off [] m payload = off + m
end_of off (f ∷ fields) m payload =
    end_by off m payload f.size_bytes f.size_fn
      (end_of (off_behind off f.size_bytes) fields m payload)

abbrev ReadsLaid : ℕ → List PackField → List ℕ → ℕ → Type 0
ReadsLaid off fields payload m =
    Reads off (end_of off fields m payload) (raw_getters off [] fields) payload

Reads-laid_cons :
    (off : ℕ) (size : Option ℕ) (fn : Option SizeFn) (fields : List PackField) (payload : List ℕ)
    (m : ℕ)
    → laid_by size fn fields (laid fields) ≡ true
    → sum_of_size_fns (fns_of fn fields) payload ≡ some m
    → off + (unwrap_or_default size + known_size fields) + m ≤ length payload
    → ((off' : ℕ)
        → laid fields ≡ true
        → sum_of_size_fns (size_fns fields) payload ≡ some m
        → off' + known_size fields + m ≤ length payload
        → ReadsLaid off' fields payload m)
    → Reads off
        (end_by off m payload size fn (end_of (off_behind off size) fields m payload))
        (raw_getter off [] size fn
          ∷ raw_getters (off_behind off size) (fns_behind [] size fn) fields)
        payload
unfolding raw_getter off_behind fns_behind unwrap_or_default sum_of_size_fns raw_getters
Reads-laid_cons off (some n) none fields payload m s q le ih =
    Reads-cons off (off + n) _ (raw_getter off [] (some n) none) _ payload (omega arith)
      (slice_index_lem payload off (off + n) (omega arith) (omega arith))
      (ih (off + n) s q (omega arith))
Reads-laid_cons off (some n) (some fn) fields payload m s q le ih = absurd (ground arith)
Reads-laid_cons off none (some fn) fields payload m s q le ih =
    let start : off + 0 ≡ off = omega arith in
    let reads : Reads (off + 0) (off + 0 + m) _ payload =
      Reads-sized_cons off none (some fn) fields payload [] 0 m refl refl q (omega arith)
        (Reads-sized off fields payload s) in
    rw start at reads
Reads-laid_cons off none none [] payload m s q le ih =
    Reads-cons off (length payload) (length payload) (raw_getter off [] none none) [] payload
      (omega arith) (slice_index_lem payload off (length payload) (omega arith) (omega arith))
      (Reads-nil (length payload) payload)
Reads-laid_cons off none none (f ∷ fields) payload m s q le ih = absurd (ground arith)

pub Reads-laid :
    (off : ℕ) (fields : List PackField) (payload : List ℕ) (m : ℕ)
    → laid fields ≡ true
    → sum_of_size_fns (size_fns fields) payload ≡ some m
    → off + known_size fields + m ≤ length payload
    → ReadsLaid off fields payload m
unfolding raw_getters sum_of_size_fns size_fns
Reads-laid off [] payload m s q le =
    let e : off + m ≡ off = ground arith in rw e (Reads-nil off payload)
Reads-laid off (f ∷ fields) payload m s q le =
    Reads-laid_cons off f.size_bytes f.size_fn fields payload m s (rw (← size_fns-cons f fields) q)
      le (λ off'. Reads-laid off' fields payload m)

-- With no open field, the fields end behind their sizes.
pub end_of-fixed :
    (off : ℕ) (fields : List PackField) (m : ℕ) (payload : List ℕ) {n : ℕ}
    → fields_size fields ≡ some n
    → end_of off fields m payload ≡ off + n + m
unfolding fields_size off_behind
end_of-fixed off [] m payload e = ground arith
end_of-fixed off (f ∷ fields) m payload e = elim (Option-cases f.size_bytes) [
  | inl p ↦ absurd (ground arith)
  | inr (k, p) ↦ elim (Option-cases (fields_size fields)) [
    | inl q ↦ absurd (ground arith)
    | inr (l, q) ↦ ground (arith, end_of-fixed (off + k) fields m payload q)
  ]
]

-- With an open field, they end with the payload.
pub end_of-open :
    (off : ℕ) (fields : List PackField) (m : ℕ) (payload : List ℕ)
    → laid fields ≡ true
    → fields_size fields ≡ none
    → size_fns fields ≡ []
    → end_of off fields m payload ≡ length payload
unfolding fields_size off_behind size_fns
end_of-open off [] m payload s e h = ground arith
end_of-open off (f ∷ fields) m payload s e h = elim (Option-cases f.size_bytes) [
  | inl p ↦ elim (Option-cases f.size_fn) [
    | inl q ↦ ground arith
    | inr (fn, q) ↦ absurd (ground arith)
  ]
  | inr (k, p) ↦ elim (Option-cases f.size_fn) [
    | inl q ↦ elim (Option-cases (fields_size fields)) [
      | inl r ↦ ground (arith, end_of-open (off + k) fields m payload)
      | inr (l, r) ↦ absurd (ground arith)
    ]
    | inr (fn, q) ↦ absurd (ground arith)
  ]
]

-- A packet whose fields are laid so, and that has functions for sizes only where its own is open.
abbrev pub plain_by : Option ℕ → List SizeFn → Bool
plain_by (some n) [] = true
plain_by (some n) (fn ∷ fns) = false
plain_by none fns = true

abbrev pub is_laid : PackDesc → Bool
is_laid d = laid d.fields && plain_by (packet_payload_size d) (size_fns d.fields)

pub all_laid : every is_laid all_packets ≡ true
unfolding packet_payload_size fields_size size_fns
all_laid = refl
