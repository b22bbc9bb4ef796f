-- ===== src/Api/Numbers.antt =====
-- The numbers of the typed setters come back from the typed getters.
use jekv.Storage.Items.Kept.{HasRoom}
use jekv.Api.RoundTrip.{Writes, get_item-set_item}
use jekv.Storage.State.{Storage}
use jekv.Port.Laws.{IsReliable}
use jekv.Base.{
  ℕ, zero, suc, ◌+◌, ◌*◌, ◌/◌, ◌≡◌, ◌<◌, refl, true, List, [], ◌∷◌, some, length, ap, Exec, arith,
  ok, ◌∙◌, ◌≢◌, ◌≤◌,
}
use jekv.Config.{
  type_int8, type_uint8, type_int16, type_uint16, type_int32, type_uint32, type_int64, type_uint64,
  type_double, max_key_len, type_blob,
}
use jekv.Port.{Driver}
use jekv.Ptm.{System, Handle}
use jekv.Sector.Write.Program.{AllBytes}
use jekv.Api.Values.{
  le_bytes, Read, set_i8, set_u8, set_i16, set_u16, set_i32, set_u32, set_i64, set_u64, set_float,
  get_i8, get_u8, get_i16, get_u16, get_i32, get_u32, get_i64, get_u64, get_float, get_item,
  is_value_type, set_item,
}

-- The types of numbers that the interface has.
pub data Number : Type 0 where
  int8 uint8 int16 uint16 int32 uint32 int64 uint64 float : Number

unfoldable pub width : Number → ℕ
width int8 = 1
width uint8 = 1
width int16 = 2
width uint16 = 2
width int32 = 4
width uint32 = 4
width int64 = 8
width uint64 = 8
width float = 8

unfoldable pub type_of : Number → ℕ
type_of int8 = type_int8
type_of uint8 = type_uint8
type_of int16 = type_int16
type_of uint16 = type_uint16
type_of int32 = type_int32
type_of uint32 = type_uint32
type_of int64 = type_int64
type_of uint64 = type_uint64
type_of float = type_double

-- The number that bytes in memory are, lowest first.
unfoldable pub le_value : List ℕ → ℕ
le_value [] = 0
le_value (b ∷ bs) = b + 256 * le_value bs

length-le_bytes : (n v : ℕ) → length (le_bytes n v) ≡ n
unfolding le_bytes
length-le_bytes zero v = refl
length-le_bytes (suc n) v = ap suc (length-le_bytes n (v / 256))

le_bytes-AllBytes : (n v : ℕ) → AllBytes (le_bytes n v)
unfolding le_bytes
le_bytes-AllBytes zero v = tt
le_bytes-AllBytes (suc n) v = (omega arith, le_bytes-AllBytes n (v / 256))

-- How many numbers `n` bytes hold.
unfoldable pub limit : ℕ → ℕ
limit zero = 1
limit (suc n) = 256 * limit n

-- Enough bytes keep the number.
le_value-le_bytes : (n v : ℕ) → v < limit n → le_value (le_bytes n v) ≡ v
unfolding le_bytes le_value limit
le_value-le_bytes zero v h = omega arith
le_value-le_bytes (suc n) v h =
    let upper = le_value-le_bytes n (v / 256) (omega (arith, h)) in omega (arith, upper)

module _ ⦃d : Driver⦄ where
  unfoldable pub set_number : Number → ℕ → ℕ → List ℕ → ℕ → Exec System (Unit {0})
  unfolding set_i8 set_u8 set_i16 set_u16 set_i32 set_u32 set_i64 set_u64 set_float
  set_number int8 turns h key v = set_i8 turns (some h) (some key) v
  set_number uint8 turns h key v = set_u8 turns (some h) (some key) v
  set_number int16 turns h key v = set_i16 turns (some h) (some key) v
  set_number uint16 turns h key v = set_u16 turns (some h) (some key) v
  set_number int32 turns h key v = set_i32 turns (some h) (some key) v
  set_number uint32 turns h key v = set_u32 turns (some h) (some key) v
  set_number int64 turns h key v = set_i64 turns (some h) (some key) v
  set_number uint64 turns h key v = set_u64 turns (some h) (some key) v
  set_number float turns h key v = set_float turns (some h) (some key) v

  unfoldable pub get_number : Number → ℕ → List ℕ → Read
  unfolding get_i8 get_u8 get_i16 get_u16 get_i32 get_u32 get_i64 get_u64 get_float
  get_number int8 h key = get_i8 (some h) (some key) true
  get_number uint8 h key = get_u8 (some h) (some key) true
  get_number int16 h key = get_i16 (some h) (some key) true
  get_number uint16 h key = get_u16 (some h) (some key) true
  get_number int32 h key = get_i32 (some h) (some key) true
  get_number uint32 h key = get_u32 (some h) (some key) true
  get_number int64 h key = get_i64 (some h) (some key) true
  get_number uint64 h key = get_u64 (some h) (some key) true
  get_number float h key = get_float (some h) (some key) true

module _ ⦃d : Driver⦄ (h : ℕ) (key : List ℕ) where
  set_number-set_item :
      (k : Number) (turns v : ℕ)
      → set_number k turns h key v
        ≡ set_item turns (some h) (type_of k) (some key) (some (le_bytes (width k) v))
  unfolding set_number type_of width set_i8 set_u8 set_i16 set_u16 set_i32 set_u32 set_i64 set_u64
      set_float
  set_number-set_item int8 turns v = refl
  set_number-set_item uint8 turns v = refl
  set_number-set_item int16 turns v = refl
  set_number-set_item uint16 turns v = refl
  set_number-set_item int32 turns v = refl
  set_number-set_item uint32 turns v = refl
  set_number-set_item int64 turns v = refl
  set_number-set_item uint64 turns v = refl
  set_number-set_item float turns v = refl

  get_number-get_item :
      (k : Number)
      → get_number k h key ≡ get_item (some h) (type_of k) (some key) true (some (width k))
  unfolding get_number type_of width get_i8 get_u8 get_i16 get_u16 get_i32 get_u32 get_i64 get_u64
      get_float
  get_number-get_item int8 = refl
  get_number-get_item uint8 = refl
  get_number-get_item int16 = refl
  get_number-get_item uint16 = refl
  get_number-get_item int32 = refl
  get_number-get_item uint32 = refl
  get_number-get_item int64 = refl
  get_number-get_item uint64 = refl
  get_number-get_item float = refl

-- What the types of numbers have in common.
number_type :
    (k : Number)
    → (is_value_type (type_of k) ≡ true) × (type_of k ≢ type_blob) × (0 < width k) × (width k ≤ 8)
unfolding is_value_type type_of width
number_type int8 = (refl, omega arith, omega arith, omega arith)
number_type uint8 = (refl, omega arith, omega arith, omega arith)
number_type int16 = (refl, omega arith, omega arith, omega arith)
number_type uint16 = (refl, omega arith, omega arith, omega arith)
number_type int32 = (refl, omega arith, omega arith, omega arith)
number_type uint32 = (refl, omega arith, omega arith, omega arith)
number_type int64 = (refl, omega arith, omega arith, omega arith)
number_type uint64 = (refl, omega arith, omega arith, omega arith)
number_type float = (refl, omega arith, omega arith, omega arith)

module _ ⦃d : Driver⦄ (reliable : IsReliable d) where
  -- With a reliable driver: where an open handle of a group id below 64 may write, its storage has
  -- one active sector that is ready and has the room, and no entry there has the hash of the key, a
  -- number that fits in the bytes of its type is stored with OK by the setter of the type, under a key
  -- of 1 to 15 bytes; and the getter of the type returns, through the same handle, that many bytes,
  -- which are the number, lowest byte first, and changes nothing.
  pub get_number-set_number :
      (k : Number) (turns h v : ℕ) (key : List ℕ) (i : ℕ) (s : System) (info : Handle)
      (st : Storage)
      → Writes s h info st
      → HasRoom
          (record { flash = s.flash; storage = st })
          i
          info.group_id
          (type_of k)
          key
          (le_bytes (width k) v)
      → info.group_id < 64
      → v < limit (width k)
      → 0 < length key
      → length key ≤ max_key_len
      → AllBytes key
      → (s' : System) × (bytes : List ℕ) × (set_number k turns h key v s ≡ (ok tt, s'))
        × (get_number k h key s' ≡ (ok (ok bytes, width k), s'))
        × (le_value bytes ≡ v)
  get_number-set_number k turns h v key i s info st w has hg small named short hk =
      let n = width k in
      let (typed, no_blob, some_bytes, few) = number_type k in
      let len = length-le_bytes n v in
      let (s', wrote, read) =
        get_item-set_item reliable turns h (type_of k) key (le_bytes n v) n i s info st w has hg
          typed no_blob named short (omega (arith, len, few)) some_bytes (omega (arith, len)) hk
          (le_bytes-AllBytes n v) in
      (
        s',
        le_bytes n v,
        ap (λ m. m s) (set_number-set_item h key k turns v) ∙ wrote,
        ap (λ m. m s') (get_number-get_item h key k)
            ∙ (read ∙ ap (λ (l : ℕ). (ok (ok (le_bytes n v), l), s')) len),
        le_value-le_bytes n v small,
      )
