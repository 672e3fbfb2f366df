-- ===== src/Api/Takes.antt =====
-- How many calls a handler makes at most, whatever the environment answers and however it ends.
use csi_driver_nfs_export.Base.{
  ℕ, ◌+◌, ◌*◌, Bool, true, false, [], ◌∷◌, Option, none, some, ◌≡◌, arith, leb, if◌then◌else◌,
}
use csi_driver_nfs_export.Api.Objects.{Failure, Reply}
use csi_driver_nfs_export.Api.Calls.{Call, History}
use csi_driver_nfs_export.Api.Exec.{
  Code, Reason, Outcome, ok, err, panic, Exec, pure, raise, lift, nil_pointer, continue, ◌>>=◌,
  raise_if, raise_failure, call, on_option,
}
use csi_driver_nfs_export.Api.Client.{Env}

abbrev pub call_count : History → ℕ
call_count [] = 0
call_count (c ∷ h) = call_count h + 1

pub record Takes (n : ℕ) {A : Type 0} (m : Exec A) : Type 0 where
  pub bound : (h : History) → leb (call_count (m h).1) (call_count h + n) ≡ true

leb_refl : (n : ℕ) → leb n (n + 0) ≡ true
leb_refl n = ground arith

more_allowed : (a b n m : ℕ) → leb n m ≡ true → leb a (b + n) ≡ true → leb a (b + m) ≡ true
more_allowed a b n m p q = ground (arith, p, q)

pub Takes-mono : {A : Type 0} {m : Exec A} (n n' : ℕ) → leb n n' ≡ true → Takes n m → Takes n' m
Takes-mono {m} n n' p d = record {
  bound = λ h. more_allowed (call_count (m h).1) (call_count h) n n' p (d.bound h);
}

module _ {A : Type 0} where
  pub Takes-pure : (a : A) → Takes 0 (pure a)
  unfolding pure
  Takes-pure a = record { bound = λ h. leb_refl (call_count h) }

  pub Takes-raise : (c : Code) (r : Reason) → Takes 0 (raise {A = A} c r)
  unfolding raise
  Takes-raise c r = record { bound = λ h. leb_refl (call_count h) }

  pub Takes-lift : (o : Outcome A) → Takes 0 (lift o)
  unfolding lift
  Takes-lift o = record { bound = λ h. leb_refl (call_count h) }

  pub Takes-nil_pointer : Takes 0 (nil_pointer {A = A})
  unfolding nil_pointer
  Takes-nil_pointer = record { bound = λ h. leb_refl (call_count h) }

  pub Takes-call : (f : History → A) (c : Call) → Takes 1 (call f c)
  unfolding call
  Takes-call f c = record { bound = λ h. ground arith }

  pub Takes-if :
      (n : ℕ) (b : Bool) (x y : Exec A) → Takes n x → Takes n y → Takes n (if b then x else y)
  Takes-if n true x y dx dy = dx
  Takes-if n false x y dx dy = dy

pub Takes-raise_if : (b : Bool) (c : Code) (r : Reason) → Takes 0 (raise_if b c r)
unfolding raise_if
Takes-raise_if true c r = Takes-raise c r
Takes-raise_if false c r = Takes-pure tt

pub Takes-raise_failure : (c : Code) (f : Option Failure) → Takes 0 (raise_failure c f)
unfolding raise_failure
Takes-raise_failure c none = Takes-pure tt
Takes-raise_failure c (some f) = Takes-raise c _

pub Takes-on_option :
    {X A : Type 0} (n : ℕ) (o : Option X) (m : Exec A) (k : X → Exec A)
    → Takes n m
    → ((x : X) → Takes n (k x))
    → Takes n (on_option o m k)
unfolding on_option
Takes-on_option n none m k dm dk = dm
Takes-on_option n (some x) m k dm dk = dk x

add_bounds :
    (a b c n n' : ℕ) → leb b (a + n) ≡ true → leb c (b + n') ≡ true → leb c (a + (n + n')) ≡ true
add_bounds a b c n n' p q = ground (arith, p, q)

stay_bound : (a b n n' : ℕ) → leb b (a + n) ≡ true → leb b (a + (n + n')) ≡ true
stay_bound a b n n' p = ground (arith, p)

continue_bound :
    {A B : Type 0} (n n' : ℕ) (h h' : History) (o : Outcome A) (f : A → Exec B)
    → leb (call_count h') (call_count h + n) ≡ true
    → ((a : A) → Takes n' (f a))
    → leb (call_count (continue o f h').1) (call_count h + (n + n')) ≡ true
continue_bound n n' h h' (ok a) f p df =
    add_bounds (call_count h) (call_count h') (call_count (f a h').1) n n' p ((df a).bound h')
continue_bound n n' h h' (err c r) f p df = stay_bound (call_count h) (call_count h') n n' p
continue_bound n n' h h' panic f p df = stay_bound (call_count h) (call_count h') n n' p

pub Takes-bind :
    {A B : Type 0} (n n' : ℕ) (m : Exec A) (f : A → Exec B)
    → Takes n m
    → ((a : A) → Takes n' (f a))
    → Takes (n + n') (m >>= f)
unfolding ◌>>=◌
Takes-bind n n' m f dm df = record {
  bound = λ h. continue_bound n n' h (m h).1 (m h).0 f (dm.bound h) df;
}

-- wait.PollImmediate with an interval of a second: its condition is checked at once, every second, and
-- at the end of the time.
pub record PollsInTime (e : Env) : Type 0 where
  pub checks :
      (timeout n : ℕ) (condition : Exec (Reply Bool))
      → Takes n condition
      → Takes ((timeout + 2) * n) (e.poll_immediate 1 timeout condition)
