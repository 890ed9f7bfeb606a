-- ===== src/Packet/Access/Sized.antt =====
-- Accessors of fields that have functions for their sizes (ublox_derive/src/output.rs).
use ublox.Prelude.{
  ℕ, ◌+◌, ◌-◌, ◌≤◌, ◌≡◌, refl, sym, ◌∙◌, ap, Option, none, some, List, [], ◌∷◌, ◌++◌, length, arith,
  slice, drop, Bool, true, false, ◌&&◌, drop-drop, append_assoc, take-append-drop, Option-cases,
  inl, inr,
}
use ublox.Buffer.Vector.{slice_index_lem}
use ublox.Packet.Desc.{PackField, SizeFn, size_of, sum_of_size_fns, size_fns}
use ublox.Packet.Build.Frames.{joined}
use ublox.Packet.Access.{
  Getter, raw_getter, sized_getter, off_behind, fns_behind, raw_getters, read_all,
}

pub slice-append-drop : (i j : ℕ) (xs : List ℕ) → i ≤ j → slice i j xs ++ drop j xs ≡ drop i xs
slice-append-drop i j xs h =
    let e : i + (j - i) ≡ j = omega arith in
    ap (λ k. slice i j xs ++ drop k xs) (sym e)
    ∙ ap (◌++◌ (slice i j xs)) (sym (drop-drop (j - i) i xs))
    ∙ take-append-drop (j - i) (drop i xs)

-- The accessors succeed, and read the payload from `i` to `e`.
abbrev pub Reads : ℕ → ℕ → List Getter → List ℕ → Type 0
Reads i e gets payload =
    (vals : List (List ℕ)) × (read_all gets payload ≡ some vals)
    × (joined vals ++ drop e payload ≡ drop i payload)

pub Reads-cons :
    (i j e : ℕ) (get : Getter) (gets : List Getter) (payload : List ℕ)
    → i ≤ j
    → get payload ≡ some (slice i j payload)
    → Reads j e gets payload
    → Reads i e (get ∷ gets) payload
unfolding read_all
Reads-cons i j e get gets payload h run (vals, more, whole) = (
  slice i j payload ∷ vals,
  rw (run, more) refl,
  append_assoc (slice i j payload) (joined vals) (drop e payload)
      ∙ ap (◌++◌ (slice i j payload)) whole
      ∙ slice-append-drop i j payload h,
)

pub sum_of_size_fns-cons :
    (fn : SizeFn) (fns : List SizeFn) (payload : List ℕ) {m : ℕ}
    → sum_of_size_fns (fn ∷ fns) payload ≡ some m
    → (k : ℕ) × (l : ℕ) × (size_of fn payload ≡ some k)
      × (sum_of_size_fns fns payload ≡ some l)
      × (m ≡ k + l)
unfolding sum_of_size_fns
sum_of_size_fns-cons fn fns payload e = elim (Option-cases (size_of fn payload)) [
  | inl p ↦ absurd (ground arith)
  | inr (k, p) ↦ elim (Option-cases (sum_of_size_fns fns payload)) [
    | inl q ↦ absurd (ground arith)
    | inr (l, q) ↦ (k, l, p, q, ground arith)
  ]
]

sum_of_size_fns-append :
    (before : List SizeFn) (fn : SizeFn) (payload : List ℕ) {n k : ℕ}
    → sum_of_size_fns before payload ≡ some n
    → size_of fn payload ≡ some k
    → sum_of_size_fns (before ++ (fn ∷ [])) payload ≡ some (n + k)
unfolding sum_of_size_fns
sum_of_size_fns-append [] fn payload p q = ground arith
sum_of_size_fns-append (g ∷ before) fn payload p q =
    let (a, b, x, y, e) = sum_of_size_fns-cons g before payload p in
    let more = sum_of_size_fns-append before fn payload y q in ground arith

-- Fields that all have a function for their size.
abbrev is_sized : Option ℕ → Option SizeFn → Bool
is_sized none (some fn) = true
is_sized none none = false
is_sized (some n) fn = false

abbrev pub all_sized : List PackField → Bool
all_sized [] = true
all_sized (f ∷ fields) = is_sized f.size_bytes f.size_fn && all_sized fields

pub sized_getter-slice :
    (off : ℕ) (before : List SizeFn) (fn : SizeFn) (payload : List ℕ) {n k : ℕ}
    → sum_of_size_fns before payload ≡ some n
    → size_of fn payload ≡ some k
    → off + n + k ≤ length payload
    → sized_getter off before fn payload ≡ some (slice (off + n) (off + n + k) payload)
unfolding sized_getter
sized_getter-slice off before fn payload p q le =
    rw (p, q) (slice_index_lem payload _ _ (omega arith) le)

-- The functions of a field, if it has one, and of the fields behind it.
abbrev pub fns_of : Option SizeFn → List PackField → List SizeFn
fns_of none fields = size_fns fields
fns_of (some fn) fields = fn ∷ size_fns fields

pub size_fns-cons :
    (f : PackField) (fields : List PackField) → size_fns (f ∷ fields) ≡ fns_of f.size_fn fields
unfolding size_fns
size_fns-cons f fields = elim (Option-cases f.size_fn) [
  | inl p ↦ ground arith
  | inr (fn, p) ↦ ground arith
]

pub Reads-nil : (i : ℕ) (payload : List ℕ) → Reads i i [] payload
unfolding read_all
Reads-nil i payload = ([], refl, refl)

-- What is to be shown of fields with functions for their sizes, behind others with such functions.
abbrev ReadsSized : ℕ → List PackField → List ℕ → Type 0
ReadsSized off fields payload =
    (before : List SizeFn) (n m : ℕ)
    → sum_of_size_fns before payload ≡ some n
    → sum_of_size_fns (size_fns fields) payload ≡ some m
    → off + n + m ≤ length payload
    → Reads (off + n) (off + n + m) (raw_getters off before fields) payload

pub Reads-sized_cons :
    (off : ℕ) (size : Option ℕ) (fn : Option SizeFn) (fields : List PackField) (payload : List ℕ)
    (before : List SizeFn) (n m : ℕ)
    → is_sized size fn ≡ true
    → sum_of_size_fns before payload ≡ some n
    → sum_of_size_fns (fns_of fn fields) payload ≡ some m
    → off + n + m ≤ length payload
    → ReadsSized off fields payload
    → Reads
        (off + n)
        (off + n + m)
        (raw_getter off before size fn
          ∷ raw_getters (off_behind off size) (fns_behind before size fn) fields)
        payload
unfolding raw_getter off_behind fns_behind
Reads-sized_cons off none (some fn) fields payload before n m s p q le ih =
    let (k, l, x, y, e) = sum_of_size_fns-cons fn (size_fns fields) payload q in
    let more =
      ih (before ++ (fn ∷ [])) (n + k) l (sum_of_size_fns-append before fn payload p x) y
        (omega arith) in
    let start : off + (n + k) ≡ off + n + k = omega arith in
    let stop : off + (n + k) + l ≡ off + n + m = omega arith in
    Reads-cons (off + n) (off + n + k) (off + n + m) (sized_getter off before fn) _ payload
      (omega arith) (sized_getter-slice off before fn payload p x (omega arith))
      (rw (← start, ← stop) more)
Reads-sized_cons off none none fields payload before n m s p q le ih = absurd (ground arith)
Reads-sized_cons off (some k) fn fields payload before n m s p q le ih = absurd (ground arith)

pub Reads-sized :
    (off : ℕ) (fields : List PackField) (payload : List ℕ)
    → all_sized fields ≡ true
    → ReadsSized off fields payload
unfolding raw_getters sum_of_size_fns size_fns
Reads-sized off [] payload s before n m p q le =
    let e : off + n + m ≡ off + n = ground arith in rw e (Reads-nil (off + n) payload)
Reads-sized off (f ∷ fields) payload s before n m p q le =
    Reads-sized_cons off f.size_bytes f.size_fn fields payload before n m (ground arith) p
      (rw (← size_fns-cons f fields) q) le (Reads-sized off fields payload (ground arith))
