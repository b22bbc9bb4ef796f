-- ===== src/Base/Codes.antt =====
-- A C function that returns an error code and writes through pointers: the state comes back beside
-- the code, also when it is not JEKV_ERR_OK.
use Prim.Native.Nat.{ℕ}
use mathlib.Core.Bool.{Bool, true, false}
use mathlib.Core.Path.{◌≡◌, refl}
use mathlib.Core.Logic.{◌⊎◌, inl, inr}

-- The codes of include/jekv_base.h but JEKV_ERR_OK; `device` is any other code of a flash driver.
pub data Code : Type 0 where
  fail invalid_param not_init aready_init no_mem not_found read_only no_space : Code
  invalid_handle sector_full invalid_length value_too_long call_in_isr : Code
  device : ℕ → Code
  -- No code of the program: it has read through NULL.
  fault : Code

-- `ok` is JEKV_ERR_OK, with what the function passes back.
pub data Result {ℓ} (A : Type ℓ) : Type ℓ where
  ok : A → Result A
  err : Code → Result A

abbrev pub Exec {ℓ} : Type ℓ → Type ℓ → Type ℓ
Exec S A = S → Result A × S

module _ {ℓ} {S A : Type ℓ} where
  abbrev pub pure : A → Exec S A
  pure a s = (ok a, s)

  -- return code;
  abbrev pub raise : Code → Exec S A
  raise c s = (err c, s)

  abbrev pub gets : (S → A) → Exec S A
  gets f s = (ok (f s), s)

  -- A call whose code the caller looks at itself, or not at all.
  abbrev pub attempt : Exec S A → Exec S (Result A)
  attempt m s = let (r, s') = m s in (ok r, s')

  -- return err;
  abbrev pub give : Result A → Exec S A
  give r s = (r, s)

abbrev pub modify : {S : Type 0} → (S → S) → Exec S (Unit {0})
modify f s = (ok tt, f s)

module _ {ℓ} {S A B : Type ℓ} where
  abbrev pub then_call : Result A → (A → Exec S B) → Exec S B
  then_call (ok a) f s = f a s
  then_call (err c) f s = (err c, s)

  infixl 5 ◌>>=◌ ◌>>◌
  -- if (err != JEKV_ERR_OK) return err;
  abbrev pub ◌>>=◌ : Exec S A → (A → Exec S B) → Exec S B
  ◌>>=◌ m f s = let (r, s') = m s in then_call r f s'

  abbrev pub ◌>>◌ : Exec S A → Exec S B → Exec S B
  m >> n = m >>= λ _. n

-- if (!test) return code;
abbrev pub require : {S : Type 0} → Bool → Code → Exec S (Unit {0})
require true c s = (ok tt, s)
require false c s = (err c, s)

abbrev pub is_ok {ℓ} : {A : Type ℓ} → Result A → Bool
is_ok (ok a) = true
is_ok (err c) = false

pub Result-cases {ℓ} :
    {A : Type ℓ} (r : Result A) → ((a : A) × (r ≡ ok a)) ⊎ ((c : Code) × (r ≡ err c))
Result-cases (ok a) = inl (a, refl)
Result-cases (err c) = inr (c, refl)
