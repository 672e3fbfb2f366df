-- ===== src/Api/Makes.antt =====
-- Which calls a handler makes, whatever the environment answers and however it ends. A weaker
-- judgement than `Does`, with the same rules, that a handler which may panic has too.
use csi_driver_nfs_export.Base.{Bool, true, false, Option, none, some, if◌then◌else◌}
use csi_driver_nfs_export.Api.Objects.{Failure}
use csi_driver_nfs_export.Api.Calls.{Call, History}
use csi_driver_nfs_export.Api.Exec.{
  Code, Reason, Outcome, ok, err, panic, Exec, pure, raise, lift, nil_pointer, continue, ◌>>=◌,
  raise_if, raise_failure, call, on_option,
}
use csi_driver_nfs_export.Api.Rules.{Extends, same, more, Extends-trans, Does}

pub record Makes (P : Call → Type 0) {A : Type 0} (m : Exec A) : Type 0 where
  pub extends : (h : History) → Extends P h (m h).1

module _ {P P' : Call → Type 0} (imp : (c : Call) → P c → P' c) where
  pub Extends-mono : {h h' : History} → Extends P h h' → Extends P' h h'
  Extends-mono same = same
  Extends-mono (more p rest) = more (imp _ p) (Extends-mono rest)

pub Does-Makes :
    {P : Call → Type 0} {Q : Code → Type 0} {A : Type 0} {m : Exec A} → Does P Q m → Makes P m
Does-Makes d = record { extends = d.makes }

module _ {P : Call → Type 0} {A : Type 0} where
  pub Makes-pure : (a : A) → Makes P (pure a)
  unfolding pure
  Makes-pure a = record { extends = λ h. same }

  pub Makes-raise : (c : Code) (r : Reason) → Makes P (raise {A = A} c r)
  unfolding raise
  Makes-raise c r = record { extends = λ h. same }

  pub Makes-lift : (o : Outcome A) → Makes P (lift o)
  unfolding lift
  Makes-lift o = record { extends = λ h. same }

  pub Makes-nil_pointer : Makes P (nil_pointer {A = A})
  unfolding nil_pointer
  Makes-nil_pointer = record { extends = λ h. same }

  pub Makes-call : (f : History → A) (c : Call) → P c → Makes P (call f c)
  unfolding call
  Makes-call f c p = record { extends = λ h. more p same }

  pub Makes-if : (b : Bool) (m n : Exec A) → Makes P m → Makes P n → Makes P (if b then m else n)
  Makes-if true m n dm dn = dm
  Makes-if false m n dm dn = dn

module _ {P : Call → Type 0} where
  pub Makes-raise_if : (b : Bool) (c : Code) (r : Reason) → Makes P (raise_if b c r)
  unfolding raise_if
  Makes-raise_if true c r = Makes-raise c r
  Makes-raise_if false c r = Makes-pure tt

  pub Makes-raise_failure : (c : Code) (f : Option Failure) → Makes P (raise_failure c f)
  unfolding raise_failure
  Makes-raise_failure c none = Makes-pure tt
  Makes-raise_failure c (some f) = Makes-raise c _

  pub Makes-on_option :
      {X A : Type 0} (o : Option X) (m : Exec A) (k : X → Exec A)
      → Makes P m
      → ((x : X) → Makes P (k x))
      → Makes P (on_option o m k)
  unfolding on_option
  Makes-on_option none m k dm dk = dm
  Makes-on_option (some x) m k dm dk = dk x

  continue-Extends :
      {A B : Type 0} (h h' : History) (r : Outcome A) (f : A → Exec B)
      → Extends P h h'
      → ((a : A) → Makes P (f a))
      → Extends P h (continue r f h').1
  continue-Extends h h' (ok a) f x df = Extends-trans x ((df a).extends h')
  continue-Extends h h' (err c r) f x df = x
  continue-Extends h h' panic f x df = x

  pub Makes-bind :
      {A B : Type 0} (m : Exec A) (f : A → Exec B)
      → Makes P m
      → ((a : A) → Makes P (f a))
      → Makes P (m >>= f)
  unfolding ◌>>=◌
  Makes-bind m f dm df = record {
    extends = λ h. continue-Extends h (m h).1 (m h).0 f (dm.extends h) df;
  }

pub ruleset makes_rules = (
  Makes-pure, Makes-raise, Makes-lift, Makes-nil_pointer, Makes-call, Makes-if, Makes-raise_if,
  Makes-raise_failure, Makes-on_option, Makes-bind,
)
