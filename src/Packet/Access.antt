-- ===== src/Packet/Access.antt =====
-- The accessors of a packet that is received (`getters` in ublox_derive/src/output.rs). The raw ones
-- are the bytes that an accessor reads: a field of fixed size is read at its offset; a field with a
-- function for its size behind those of the fields with such a function before it; an open field to
-- the end. An accessor makes a value of them. `none` is a panic.
pub mod Sized
pub mod Laid
pub mod Values
pub mod Whole
pub mod Built
use ublox.Prelude.{ℕ, ◌+◌, Option, none, some, List, [], ◌∷◌, ◌++◌, length, get_elem?, ◌>>=◌}
use ublox.Buffer.Vector.{slice_index}
use ublox.Packet.Desc.{PackField, PackDesc, SizeFn, size_of, sum_of_size_fns}

abbrev pub Getter : Type 0
Getter = List ℕ → Option (List ℕ)

-- `get_raw_field_code`: the bytes from the offset of the field on, each by its index.
abbrev get_raw_field : ℕ → ℕ → Getter
get_raw_field off size payload = slice_index payload off (off + size)

-- `offset..offset + self.size_fn()`, where `offset` is `off` and the sizes of the fields before
unfoldable pub sized_getter : ℕ → List SizeFn → SizeFn → Getter
sized_getter off before fn payload = do
  sizes ← sum_of_size_fns before payload
  size ← size_of fn payload
  slice_index payload (off + sizes) (off + sizes + size)

unfoldable pub raw_getter : ℕ → List SizeFn → Option ℕ → Option SizeFn → Getter
raw_getter off before (some size) fn payload = get_raw_field off size payload
raw_getter off before none (some fn) payload = sized_getter off before fn payload
raw_getter off before none none payload = slice_index payload off (length payload)

-- A field of fixed size moves the offset, another is added to the functions of those before.
unfoldable pub off_behind : ℕ → Option ℕ → ℕ
off_behind off (some size) = off + size
off_behind off none = off

unfoldable pub fns_behind : List SizeFn → Option ℕ → Option SizeFn → List SizeFn
fns_behind before (some size) fn = before
fns_behind before none (some fn) = before ++ (fn ∷ [])
fns_behind before none none = before

unfoldable pub raw_getters : ℕ → List SizeFn → List PackField → List Getter
raw_getters off before [] = []
raw_getters off before (f ∷ fields) =
    raw_getter off before f.size_bytes f.size_fn
    ∷ raw_getters (off_behind off f.size_bytes) (fns_behind before f.size_bytes f.size_fn) fields

-- The bytes that all accessors of a packet read, in the order of the fields.
unfoldable pub read_all : List Getter → List ℕ → Option (List (List ℕ))
read_all [] payload = some []
read_all (get ∷ gets) payload = do
  val ← get payload
  vals ← read_all gets payload
  some (val ∷ vals)

unfoldable pub raw_accessors : PackDesc → List Getter
raw_accessors d = raw_getters 0 [] d.fields

-- The bytes of one field, counted from zero.
unfoldable pub raw_accessor : PackDesc → ℕ → Getter
raw_accessor d i payload = do get ← get_elem? (raw_accessors d) i; get payload

-- `let val = #get_raw; let val = #from_fn(val);`, where `from_fn` stands for all that is done to the
-- bytes: the integer that they are, the function of the mapped type, and the scale.
unfoldable pub get_value : {V : Type 0} → (List ℕ → Option V) → Getter → List ℕ → Option V
get_value from_fn get_raw payload = do val ← get_raw payload; from_fn val

-- One conversion for each field.
unfoldable pub getters :
    {V : Type 0} → List (List ℕ → Option V) → List Getter → List (List ℕ → Option V)
getters [] gets = []
getters (from_fn ∷ from_fns) [] = []
getters (from_fn ∷ from_fns) (get ∷ gets) = get_value from_fn get ∷ getters from_fns gets

unfoldable pub accessors :
    {V : Type 0} → List (List ℕ → Option V) → PackDesc → List (List ℕ → Option V)
accessors from_fns d = getters from_fns (raw_accessors d)
