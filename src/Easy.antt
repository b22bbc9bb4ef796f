-- ===== src/Easy.antt =====
-- easy/jekv_easy.c: the interface with one global handle. A `char *` is the text before its
-- terminator, a buffer the bytes that it holds.
pub mod Decimal
pub mod RoundTrip
use jekv.Base.{
  ℕ, zero, suc, ◌+◌, ◌-◌, ◌*◌, ◌/◌, ◌%◌, Bool, true, ◌&&◌, ◌||◌, List, [], ◌∷◌, ◌++◌, Option, none,
  some, length, take, drop, ltb, leb, ◌==◌, if◌then◌else◌, ℤ, pos, negsuc, Exec, Result, ok, err,
  ◌>>=◌, pure, gets, attempt, give, fault, replicate, ◌>>◌,
}
use jekv.Config.{op_read_write}
use jekv.Port.{Driver}
use jekv.Ptm.{System, Platform}
use jekv.Api.Sessions.{init, deinit, open_handle, close}
use jekv.Api.Values.{set_str, get_str, del_key}

-- The system and `g_handle`.
pub record Easy : Type 0 where
  pub system : System
  pub handle : Option ℕ

-- JEKV_DEF_PARTITION, "kvs".
abbrev pub def_partition : List ℕ
def_partition = 107 ∷ 118 ∷ 115 ∷ []

-- JEKV_DEF_GROUP, "def_group".
abbrev pub def_group : List ℕ
def_group = 100 ∷ 101 ∷ 102 ∷ 95 ∷ 103 ∷ 114 ∷ 111 ∷ 117 ∷ 112 ∷ []

-- A call of the public interface.
abbrev pub on_system : {A : Type 0} → Exec System A → Exec Easy A
on_system m e = let (r, s) = m e.system in (r, record e { system = s })

abbrev pub set_handle : Option ℕ → Exec Easy (Unit {0})
set_handle h e = (ok tt, record e { handle = h })

module _ ⦃d : Driver⦄ ⦃p : Platform⦄ where
  -- jekv_easy_init
  unfoldable pub easy_init : ℕ → Exec Easy (Unit {0})
  unfolding init open_handle
  easy_init turns = do
    e ← gets (λ e. e)
    elim e.handle [
      | some h ↦ pure tt
      | none ↦ (do
        on_system (init (some def_partition))
        h ← on_system (open_handle turns (some def_partition) (some def_group) op_read_write true)
        set_handle (some h))
    ]

-- jekv_easy_deinit, which closes nothing where the handle is open.
unfoldable pub easy_deinit : Exec Easy (Unit {0})
unfolding close deinit
easy_deinit = do
  e ← gets (λ e. e)
  elim e.handle [
    | some h ↦ pure tt
    | none ↦ (do
      attempt (on_system (close none))
      set_handle none
      attempt (on_system (deinit (some def_partition)))
      pure tt)
  ]

-- The digits of a number below 10 ^ turns.
unfoldable pub digits : ℕ → ℕ → List ℕ
digits zero n = []
digits (suc turns) n =
    let upper = digits turns (n / 10) in (if ltb n 10 then [] else upper) ++ ((48 + n % 10) ∷ [])

-- snprintf of "%d", where 16 bytes are room for every int.
unfoldable pub decimal : ℤ → List ℕ
unfolding digits
decimal (pos n) = digits 10 n
decimal (negsuc n) = 45 ∷ digits 10 (suc n)

-- The number that the digits at the front are, behind `acc`.
unfoldable pub read_digits : ℕ → List ℕ → ℕ
read_digits acc [] = acc
read_digits acc (c ∷ cs) =
    let more = read_digits (acc * 10 + (c - 48)) cs in if leb 48 c && ltb c 58 then more else acc

abbrev pub negate : ℕ → ℤ
negate zero = pos 0
negate (suc n) = negsuc n

-- isspace
abbrev pub is_space : ℕ → Bool
is_space c = c == 32 || (leb 9 c && leb c 13)

abbrev pub read_sign : List ℕ → ℤ
read_sign [] = pos 0
read_sign (c ∷ cs) =
    if c == 45
    then negate (read_digits 0 cs)
    else if c == 43
    then pos (read_digits 0 cs)
    else pos (read_digits 0 (c ∷ cs))

-- atoi of the text in a buffer.
unfoldable pub atoi : List ℕ → ℤ
unfolding read_digits
atoi [] = pos 0
atoi (c ∷ cs) = let rest = atoi cs in if is_space c then rest else read_sign (c ∷ cs)

-- snprintf(value, size, "%s", text), where `size` may be more than the buffer has.
unfoldable pub snprintf : List ℕ → ℕ → List ℕ → Result (List ℕ)
snprintf buffer size text =
    let out = if size == 0 then [] else take (size - 1) text ++ (0 ∷ []) in
    if ltb (length buffer) (length out) then err fault else ok (out ++ drop (length out) buffer)

module _ ⦃d : Driver⦄ where
  -- jekv_easy_write_str
  unfoldable pub easy_write_str : ℕ → Option (List ℕ) → Option (List ℕ) → Exec Easy (Unit {0})
  unfolding set_str
  easy_write_str turns key value = do
    e ← gets (λ e. e)
    attempt (on_system (set_str turns e.handle key value))
    pure tt

  -- What jekv_easy_read_str makes of the answer of jekv_get_str, which may have changed `size`.
  abbrev pub or_default : List ℕ → List ℕ → Result (List ℕ) × ℕ → Result (List ℕ)
  or_default buffer text (ok bytes, size) = ok (bytes ++ drop (length bytes) buffer)
  or_default buffer text (err code, size) = snprintf buffer size text

  abbrev pub or_refused : ℕ → Result (Result (List ℕ) × ℕ) → Result (List ℕ) × ℕ
  or_refused size (ok answer) = answer
  or_refused size (err code) = (err code, size)

  -- jekv_easy_read_str with a buffer that has `size` bytes: the buffer behind it.
  unfoldable pub easy_read_str : Option (List ℕ) → List ℕ → List ℕ → Exec Easy (List ℕ)
  unfolding get_str snprintf
  easy_read_str key buffer text = do
    e ← gets (λ e. e)
    answer ← attempt (on_system (get_str e.handle key true (some (length buffer))))
    give (or_default buffer text (or_refused (length buffer) answer))

  -- jekv_easy_write_int
  unfoldable pub easy_write_int : ℕ → Option (List ℕ) → ℤ → Exec Easy (Unit {0})
  unfolding set_str decimal
  easy_write_int turns key value = do
    e ← gets (λ e. e)
    attempt (on_system (set_str turns e.handle key (some (decimal value))))
    pure tt

  -- jekv_easy_read_int, which does not use `def_value`.
  unfoldable pub easy_read_int : Option (List ℕ) → ℤ → Exec Easy ℤ
  unfolding easy_read_str atoi
  easy_read_int key def_value = do
    buffer ← easy_read_str key (replicate 16 0) []
    pure (atoi buffer)

  -- jekv_easy_erase_key
  unfoldable pub easy_erase_key : Option (List ℕ) → Exec Easy (Unit {0})
  unfolding del_key
  easy_erase_key key = do e ← gets (λ e. e); attempt (on_system (del_key e.handle key)); pure tt
