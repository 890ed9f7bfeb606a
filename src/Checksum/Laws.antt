-- ===== src/Checksum/Laws.antt =====
-- The forms of the checksum agree, its closed form, and which changes of a packet it detects.
use ublox.Prelude.{
  ℕ, suc, ◌+◌, ◌*◌, ◌%◌, ◌<◌, ◌≡◌, ◌≢◌, refl, sym, ap, ◌∙◌, List, [], ◌∷◌, ◌++◌, length,
  length-append, pair_path, arith,
}
use native.Mathlib.Nat.{div-add-mod}
use ublox.Checksum.{
  add_u8, checksum_loop, ubx_checksum, UbxChecksumCalc, new, update, update_fields, result,
}

-- The fields of a checksum, as a pair.
abbrev pair : UbxChecksumCalc → ℕ × ℕ
pair calc = (calc.ck_a, calc.ck_b)

update_fields-loop :
    (calc : UbxChecksumCalc) (bytes : List ℕ)
    → pair (update_fields calc bytes) ≡ checksum_loop calc.ck_a calc.ck_b bytes
unfolding update_fields checksum_loop
update_fields-loop calc [] = refl
update_fields-loop calc (x ∷ bytes) =
    update_fields-loop
      (record { ck_a = add_u8 calc.ck_a x; ck_b = add_u8 calc.ck_b (add_u8 calc.ck_a x) }) bytes

-- From any state of a `UbxChecksumCalc` and on any bytes, the `update` of parser.rs and that of
-- ubx_packets.rs give the same state.
pub update-eq_update_fields :
    (calc : UbxChecksumCalc) (bytes : List ℕ) → update calc bytes ≡ update_fields calc bytes
unfolding update
update-eq_update_fields calc bytes =
    ap (λ (p : ℕ × ℕ). record { ck_a = p.0; ck_b = p.1 }) (sym (update_fields-loop calc bytes))

checksum_loop-append :
    (a b : ℕ) (xs ys : List ℕ)
    → checksum_loop a b (xs ++ ys)
      ≡ checksum_loop (checksum_loop a b xs).0 (checksum_loop a b xs).1 ys
unfolding checksum_loop
checksum_loop-append a b [] ys = refl
checksum_loop-append a b (x ∷ xs) ys =
    checksum_loop-append (add_u8 a x) (add_u8 b (add_u8 a x)) xs ys

-- Updating by two chunks is updating by both at once.
pub update-append :
    (calc : UbxChecksumCalc) (xs ys : List ℕ) → update (update calc xs) ys ≡ update calc (xs ++ ys)
unfolding update
update-append calc xs ys =
    ap (λ (p : ℕ × ℕ). record { ck_a = p.0; ck_b = p.1 })
      (sym (checksum_loop-append calc.ck_a calc.ck_b xs ys))

-- A new `UbxChecksumCalc` updated by two chunks, one after the other, gives `ubx_checksum` of both
-- chunks in a row.
pub result-update-update :
    (xs ys : List ℕ) → result (update (update new xs) ys) ≡ ubx_checksum (xs ++ ys)
unfolding ubx_checksum new result
result-update-update xs ys = rw update-append (unfold update in refl)

abbrev pub sum : List ℕ → ℕ
sum [] = 0
sum (x ∷ xs) = x + sum xs

-- Each byte counts as often as there are bytes from it to the end.
abbrev weighted_sum : List ℕ → ℕ
weighted_sum [] = 0
weighted_sum (x ∷ xs) = suc (length xs) * x + weighted_sum xs

checksum_loop-closed :
    (a b : ℕ) (xs : List ℕ)
    → a < 256
    → b < 256
    → checksum_loop a b xs ≡ ((a + sum xs) % 256, (b + length xs * a + weighted_sum xs) % 256)
unfolding checksum_loop
checksum_loop-closed a b [] h k = pair_path (omega arith) (omega arith)
checksum_loop-closed a b (x ∷ xs) h k =
    checksum_loop-closed (add_u8 a x) (add_u8 b (add_u8 a x)) xs (omega arith) (omega arith)
    ∙ pair_path (omega arith)
        (omega (arith, ap (λ (t : ℕ). length xs * t) (div-add-mod (a + x) 256)))

-- The checksum is the sum of the bytes, and the sum of the bytes that counts each as often as there
-- are bytes from it to the end, both modulo 256.
pub ubx_checksum-closed : (xs : List ℕ) → ubx_checksum xs ≡ (sum xs % 256, weighted_sum xs % 256)
unfolding ubx_checksum
ubx_checksum-closed xs =
    checksum_loop-closed 0 0 xs (omega arith) (omega arith) ∙ pair_path (omega arith) (omega arith)

sum-append : (xs ys : List ℕ) → sum (xs ++ ys) ≡ sum xs + sum ys
sum-append [] ys = omega arith
sum-append (x ∷ xs) ys = omega (arith, sum-append xs ys)

-- Two sequences that differ in one byte have different checksums.
pub ubx_checksum-detects_byte :
    (front back : List ℕ) (x y : ℕ)
    → x < 256
    → y < 256
    → x ≢ y
    → ubx_checksum (front ++ (x ∷ back)) ≢ ubx_checksum (front ++ (y ∷ back))
ubx_checksum-detects_byte front back x y hx hy ne e =
    let closed : sum (front ++ (x ∷ back)) % 256 ≡ sum (front ++ (y ∷ back)) % 256 =
      ap (λ (p : ℕ × ℕ). p.0) (sym (ubx_checksum-closed _) ∙ e ∙ ubx_checksum-closed _) in
    absurd (omega (arith, closed, sum-append front (x ∷ back), sum-append front (y ∷ back)))

weighted_sum-append :
    (xs ys : List ℕ)
    → weighted_sum (xs ++ ys) ≡ weighted_sum xs + length ys * sum xs + weighted_sum ys
weighted_sum-append [] ys = omega arith
weighted_sum-append (x ∷ xs) ys = rw length-append (omega (arith, weighted_sum-append xs ys))

-- Swapping two different neighbouring bytes of a sequence changes its checksum.
pub ubx_checksum-detects_swap :
    (front back : List ℕ) (x y : ℕ)
    → x < 256
    → y < 256
    → x ≢ y
    → ubx_checksum (front ++ (x ∷ y ∷ back)) ≢ ubx_checksum (front ++ (y ∷ x ∷ back))
ubx_checksum-detects_swap front back x y hx hy ne e =
    let closed : weighted_sum (front ++ (x ∷ y ∷ back)) % 256
        ≡ weighted_sum (front ++ (y ∷ x ∷ back)) % 256 =
      ap (λ (p : ℕ × ℕ). p.1) (sym (ubx_checksum-closed _) ∙ e ∙ ubx_checksum-closed _) in
    absurd (
      omega (
        arith,
        closed,
        weighted_sum-append front (x ∷ y ∷ back),
        weighted_sum-append front (y ∷ x ∷ back),
      ))
