-- ===== src/Api/Calls/Keeps.antt =====
-- Computations that keep the lists of the partition manager linked, and how they are put together.
use jekv.Config.{op_read_only}
use jekv.Base.{
  ℕ, inl, inr, Bool, true, false, Option, none, some, Exec, Result, Option-cases, ok, err, Code,
  ◌>>=◌, ◌>>◌, ◌==◌, require, then_call, invalid_handle, not, pure, raise, give, read_only,
}
use jekv.Storage.State.{StCtx}
use jekv.Ptm.{System, handle_at, on_storage, is_handle_valid}
use jekv.Ptm.Linked.{IsLinked, on_storage-IsLinked}
use jekv.Api.Sessions.{not_null}
use jekv.Api.Values.{deref_handle, valid_handle, writable_handle}

-- A computation that keeps the lists linked, whatever it answers.
pub record Keeps {A : Type 0} (m : Exec System A) : Type 0 where
  pub keeps : (s : System) → IsLinked s → IsLinked (m s).1

then_call-Keeps :
    {A B : Type 0} (r : Result A) (f : A → Exec System B) (s : System)
    → ((a : A) → Keeps (f a))
    → IsLinked s
    → IsLinked (then_call r f s).1
then_call-Keeps (ok a) f s k l = (k a).keeps s l
then_call-Keeps (err c) f s k l = l

pub bind-Keeps :
    {A B : Type 0} (m : Exec System A) {f : A → Exec System B}
    → Keeps m
    → ((a : A) → Keeps (f a))
    → Keeps (m >>= f)
bind-Keeps m {f} j k = record { keeps = λ s l. then_call-Keeps (m s).0 f (m s).1 k (j.keeps s l) }

require-Keeps : (b : Bool) (c : Code) → Keeps {A = Unit {0}} (require b c)
require-Keeps true c = record { keeps = λ s l. l }
require-Keeps false c = record { keeps = λ s l. l }

not_null-Keeps : {A : Type 0} (o : Option A) → Keeps (not_null o)
not_null-Keeps none = record { keeps = λ s l. l }
not_null-Keeps (some a) = record { keeps = λ s l. l }

pub deref_handle-Keeps : (h : ℕ) → Keeps (deref_handle h)
unfolding deref_handle
deref_handle-Keeps h = record {
  keeps = λ s l. elim (Option-cases (handle_at s.handles h)) [
    | inl e ↦ rw (e, deref_handle) l
    | inr (i, e) ↦ rw (e, deref_handle) l
  ];
}

pub on_storage-Keeps : {A : Type 0} (a : ℕ) (m : Exec StCtx A) → Keeps (on_storage a m)
on_storage-Keeps a m = record { keeps = on_storage-IsLinked a m }

pub valid_handle-Keeps : (h : ℕ) → Keeps (valid_handle h)
unfolding valid_handle
valid_handle-Keeps h = record {
  keeps = λ s.
      (bind-Keeps (require (is_handle_valid s.handles h) invalid_handle) (require-Keeps _ _)
          (λ u. deref_handle-Keeps h)).keeps
        s;
}

-- The rest of a call behind a check, and behind a pointer that must not be NULL.
pub checked-Keeps :
    {B : Type 0} (b : Bool) (c : Code) {n : Exec System B} → Keeps n → Keeps (require b c >> n)
checked-Keeps b c k = bind-Keeps (require b c) (require-Keeps b c) (λ u. k)

pub given-Keeps :
    {A B : Type 0} (o : Option A) {f : A → Exec System B}
    → ((a : A) → Keeps (f a))
    → Keeps (not_null o >>= f)
given-Keeps o k = bind-Keeps (not_null o) (not_null-Keeps o) k

pub pure-Keeps : {A : Type 0} (a : A) → Keeps (pure a)
pure-Keeps a = record { keeps = λ s l. l }

pub raise-Keeps : {A : Type 0} (c : Code) → Keeps {A = A} (raise c)
raise-Keeps c = record { keeps = λ s l. l }

pub give-Keeps : {A : Type 0} (r : Result A) → Keeps (give r)
give-Keeps r = record { keeps = λ s l. l }

pub writable_handle-Keeps : (h : ℕ) → Keeps (writable_handle h)
unfolding writable_handle
writable_handle-Keeps h =
    bind-Keeps (valid_handle h) (valid_handle-Keeps h)
      (λ i. checked-Keeps (not (i.mode == op_read_only)) read_only (pure-Keeps i))
