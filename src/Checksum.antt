-- ===== src/Checksum.antt =====
-- The checksum of a packet, in its three forms: `ubx_checksum` and `UbxChecksumCalc` of
-- ublox/src/ubx_packets.rs, and `UbxChecksumCalc` of ublox/src/parser.rs.
pub mod Laws
use ublox.Prelude.{ℕ, ◌+◌, ◌%◌, List, [], ◌∷◌}

-- `u8::overflowing_add(..).0`
abbrev pub add_u8 : ℕ → ℕ → ℕ
add_u8 a b = (a + b) % 256

checksum_loop : ℕ → ℕ → List ℕ → ℕ × ℕ
checksum_loop ck_a ck_b [] = (ck_a, ck_b)
checksum_loop ck_a ck_b (byte ∷ bytes) =
    checksum_loop (add_u8 ck_a byte) (add_u8 ck_b (add_u8 ck_a byte)) bytes

unfoldable pub ubx_checksum : List ℕ → ℕ × ℕ
unfolding checksum_loop
ubx_checksum bytes = checksum_loop 0 0 bytes

pub record UbxChecksumCalc : Type 0 where
  pub ck_a : ℕ
  pub ck_b : ℕ

unfoldable pub new : UbxChecksumCalc
new = record { ck_a = 0; ck_b = 0 }

-- `update` of parser.rs works on two locals and stores them at the end.
unfoldable pub update : UbxChecksumCalc → List ℕ → UbxChecksumCalc
unfolding checksum_loop
update calc bytes =
    let (a, b) = checksum_loop calc.ck_a calc.ck_b bytes in record { ck_a = a; ck_b = b }

-- `update` of ubx_packets.rs changes the fields at each byte.
unfoldable pub update_fields : UbxChecksumCalc → List ℕ → UbxChecksumCalc
update_fields calc [] = calc
update_fields calc (byte ∷ chunk) =
    let calc1 = record calc { ck_a = add_u8 calc.ck_a byte } in
    update_fields (record calc1 { ck_b = add_u8 calc1.ck_b calc1.ck_a }) chunk

unfoldable pub result : UbxChecksumCalc → ℕ × ℕ
result calc = (calc.ck_a, calc.ck_b)
