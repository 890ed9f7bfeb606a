-- ===== src/Packet/Access/Values.antt =====
-- The values that accessors make of the bytes that they read (ublox_derive/src/output.rs).
use ublox.Prelude.{ℕ, ◌≡◌, refl, Option, some, List, [], ◌∷◌, arith}
use ublox.Packet.Desc.{PackDesc}
use ublox.Packet.Access.{Getter, read_all, raw_accessors, get_value, getters, accessors}

-- Each accessor returns what its conversion makes of its bytes; it panics only where that does.
abbrev pub Gives :
    {V : Type 0}
    → List (List ℕ → Option V)
    → List (List ℕ → Option V)
    → List ℕ
    → List (List ℕ)
    → Type 0
Gives [] from_fns payload vals = Unit
Gives (get ∷ gets) [] payload vals = ⊥
Gives (get ∷ gets) (from_fn ∷ from_fns) payload [] = ⊥
Gives (get ∷ gets) (from_fn ∷ from_fns) payload (val ∷ vals) =
    (get payload ≡ from_fn val) × Gives gets from_fns payload vals

Gives-getters :
    {V : Type 0} (from_fns : List (List ℕ → Option V)) (gets : List Getter) (payload : List ℕ)
    (vals : List (List ℕ))
    → read_all gets payload ≡ some vals
    → Gives (getters from_fns gets) from_fns payload vals
unfolding read_all getters get_value
Gives-getters [] gets payload vals e = tt
Gives-getters (from_fn ∷ from_fns) [] payload vals e = tt
Gives-getters (from_fn ∷ from_fns) (get ∷ gets) payload [] e = absurd (ground arith)
Gives-getters (from_fn ∷ from_fns) (get ∷ gets) payload (val ∷ vals) e =
    let run : get payload ≡ some val = ground arith in
    let more : read_all gets payload ≡ some vals = ground arith in
    (rw run refl, Gives-getters from_fns gets payload vals more)

pub Gives-accessors :
    {V : Type 0} (from_fns : List (List ℕ → Option V)) (d : PackDesc) (payload : List ℕ)
    (vals : List (List ℕ))
    → read_all (raw_accessors d) payload ≡ some vals
    → Gives (accessors from_fns d) from_fns payload vals
unfolding accessors
Gives-accessors from_fns d payload vals e = Gives-getters from_fns (raw_accessors d) payload vals e
