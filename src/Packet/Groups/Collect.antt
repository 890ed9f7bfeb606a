-- ===== src/Packet/Groups/Collect.antt =====
-- The iterators over repeated groups (ublox/src/ubx_packets/packets.rs) on bytes whose length is a
-- multiple of the group's.
use ublox.Prelude.{
  ℕ, zero, suc, ◌+◌, ◌*◌, ◌/◌, ◌%◌, ◌<◌, ◌≡◌, refl, sym, ◌∙◌, ap, Option, some, List, [], ◌∷◌, ◌++◌,
  length, take, drop, true, false, leb, ltb, arith, All, length-append, append_assoc, append-nil,
  length-take, length-drop, take-append-drop, take-append_exact, nil_of_length, drop-append_exact,
}
use native.Mathlib.Nat.{mod-add-div'}
use ublox.Buffer.Vector.{slice_index, slice_index_lem}
use ublox.Packet.Build.Frames.{joined}
use ublox.Packet.Access.Built.{slice-behind}
use ublox.Packet.Groups.{collect, next_chunk, next_exact}

-- The bytes are the chunks, one behind the other, and each has the size.
abbrev pub Splits : ℕ → List ℕ → List (List ℕ) → Type 0
Splits size bytes chunks = (joined chunks ≡ bytes) × All (λ c. length c ≡ size) chunks

Splits-count :
    (size k : ℕ) (bytes : List ℕ)
    → length bytes ≡ k * size
    → (chunks : List (List ℕ)) × Splits size bytes chunks
Splits-count size zero bytes e = ([], (sym (nil_of_length bytes (omega arith)), tt))
Splits-count size (suc k) bytes e =
    let (chunks, (whole, sizes)) =
      Splits-count size k (drop size bytes) (omega (arith, length-drop size bytes)) in
    (
      take size bytes ∷ chunks,
      (
        ap (◌++◌ (take size bytes)) whole ∙ take-append-drop size bytes,
        (omega (arith, length-take size bytes), sizes),
      ),
    )

pub Splits-of_multiple :
    (size : ℕ) (bytes : List ℕ)
    → 0 < size
    → length bytes % size ≡ 0
    → (chunks : List (List ℕ)) × Splits size bytes chunks
Splits-of_multiple size bytes pos e =
    Splits-count size (length bytes / size) bytes (omega (arith, mod-add-div' (length bytes) size))

-- Each chunk is converted, in order.
abbrev pub Converts : {A : Type 0} → (List ℕ → Option A) → List (List ℕ) → List A → Type 0
Converts convert [] [] = Unit
Converts convert [] (a ∷ items) = ⊥
Converts convert (c ∷ chunks) [] = ⊥
Converts convert (c ∷ chunks) (a ∷ items) = (convert c ≡ some a) × Converts convert chunks items

pub Converts-of_total :
    {A : Type 0} (size : ℕ) (convert : List ℕ → Option A) (chunks : List (List ℕ))
    → ((c : List ℕ) → length c ≡ size → (a : A) × (convert c ≡ some a))
    → All (λ c. length c ≡ size) chunks
    → (items : List A) × Converts convert chunks items
Converts-of_total size convert [] total h = ([], tt)
Converts-of_total size convert (c ∷ chunks) total h =
    let (a, e) = total c h.0 in
    let (items, more) = Converts-of_total size convert chunks total h.1 in (a ∷ items, (e, more))

pub collect-next_exact :
    {A : Type 0} (size : ℕ) (convert : List ℕ → Option A) (chunks : List (List ℕ)) (items : List A)
    (fuel : ℕ)
    → 0 < size
    → All (λ c. length c ≡ size) chunks
    → Converts convert chunks items
    → length chunks < fuel
    → collect (next_exact size convert) fuel (joined chunks) ≡ some items
unfolding collect next_exact
collect-next_exact size convert [] [] zero pos h c lt = absurd (omega arith)
collect-next_exact size convert [] [] (suc fuel) pos h c lt =
    let e : leb size 0 ≡ false = ground arith in rw e refl
collect-next_exact size convert [] (a ∷ items) fuel pos h c lt = absurd c
collect-next_exact size convert (b ∷ chunks) [] fuel pos h c lt = absurd c
collect-next_exact size convert (b ∷ chunks) (a ∷ items) zero pos h c lt = absurd (omega arith)
collect-next_exact size convert (b ∷ chunks) (a ∷ items) (suc fuel) pos h c lt =
    let e : leb size (length (b ++ joined chunks)) ≡ true =
      ground (arith, length-append b (joined chunks)) in
    rw
      (
        e,
        take-append_exact size b (joined chunks) (sym h.0),
        drop-append_exact size b (joined chunks) (sym h.0),
        c.0,
        collect-next_exact size convert chunks items fuel pos h.1 c.1 (omega arith),
      )
      refl

pub collect-next_chunk :
    {A : Type 0} (size : ℕ) (convert : List ℕ → Option A) (chunks : List (List ℕ)) (items : List A)
    (front : List ℕ) (fuel : ℕ)
    → 0 < size
    → All (λ c. length c ≡ size) chunks
    → Converts convert chunks items
    → length chunks < fuel
    → collect
        (next_chunk size convert)
        fuel
        (record { bytes = front ++ joined chunks; offset = length front })
      ≡ some items
unfolding collect next_chunk
collect-next_chunk size convert [] [] front zero pos h c lt = absurd (omega arith)
collect-next_chunk size convert [] [] front (suc fuel) pos h c lt =
    ground (arith, ap length (append-nil front))
collect-next_chunk size convert [] (a ∷ items) front fuel pos h c lt = absurd c
collect-next_chunk size convert (b ∷ chunks) [] front fuel pos h c lt = absurd c
collect-next_chunk size convert (b ∷ chunks) (a ∷ items) front zero pos h c lt =
    absurd (omega arith)
collect-next_chunk size convert (b ∷ chunks) (a ∷ items) front (suc fuel) pos h c lt =
    let ahead = b ++ joined chunks in
    let all = length-append front ahead in
    let size_ahead = length-append b (joined chunks) in
    let e : ltb (length front) (length (front ++ ahead)) ≡ true = ground arith in
    let chunk : slice_index (front ++ ahead) (length front) (length front + size) ≡ some b =
      slice_index_lem (front ++ ahead) (length front) (length front + size) (omega arith)
        (omega arith)
      ∙ ap some (slice-behind front b (joined chunks) (length front) size refl (sym h.0)) in
    let shift : length front + size ≡ length (front ++ b) = omega (arith, length-append front b) in
    rw
      (
        e,
        chunk,
        c.0,
        shift,
        ← append_assoc front b (joined chunks),
        collect-next_chunk size convert chunks items (front ++ b) fuel pos h.1 c.1 (omega arith),
      )
      refl
