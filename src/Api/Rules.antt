-- ===== src/Api/Rules.antt =====
-- What a handler does, whatever the environment answers: which calls it makes and how it ends. One
-- rule for each way to build a handler.
use csi_driver_nfs_export.Base.{
  Bool, true, false, ◌∷◌, Option, none, some, ◌≡◌, refl, if◌then◌else◌, ◌⊎◌, inl, inr,
}
use csi_driver_nfs_export.Api.Objects.{Failure}
use csi_driver_nfs_export.Api.Calls.{Call, History}
use csi_driver_nfs_export.Api.Exec.{
  Code, Reason, Outcome, ok, err, panic, Exec, pure, raise, lift, continue, ◌>>=◌, raise_if,
  raise_failure, call, on_option, caused_by,
}

-- The later history is the earlier one and calls that satisfy `P`.
pub data Extends (P : Call → Type 0) (h : History) : History → Type 0 where
  same : Extends P h h
  more : {c : Call} {h' : History} → P c → Extends P h h' → Extends P h (c ∷ h')

-- A response, or a status whose code satisfies `Q`; no panic.
abbrev pub EndsIn {ℓ} : {A : Type ℓ} → (Code → Type 0) → Outcome A → Type 0
EndsIn Q (ok a) = Unit
EndsIn Q (err c r) = Q c
EndsIn Q panic = ⊥

pub record Does (P : Call → Type 0) (Q : Code → Type 0) {A : Type 0} (m : Exec A) : Type 0 where
  pub makes : (h : History) → Extends P h (m h).1
  pub ends : (h : History) → EndsIn Q (m h).0

module _ {P : Call → Type 0} where
  pub Extends-trans : {h h' h'' : History} → Extends P h h' → Extends P h' h'' → Extends P h h''
  Extends-trans a same = a
  Extends-trans a (more p b) = more p (Extends-trans a b)

module _ {P : Call → Type 0} {Q : Code → Type 0} {A : Type 0} where
  pub Does-pure : (a : A) → Does P Q (pure a)
  unfolding pure
  Does-pure a = record { makes = λ h. same; ends = λ h. tt }

  pub Does-raise : (c : Code) (r : Reason) → Q c → Does P Q (raise {A = A} c r)
  unfolding raise
  Does-raise c r q = record { makes = λ h. same; ends = λ h. q }

  pub Does-lift : (o : Outcome A) → EndsIn Q o → Does P Q (lift o)
  unfolding lift
  Does-lift o q = record { makes = λ h. same; ends = λ h. q }

  -- A client's operation is one call.
  pub Does-call : (f : History → A) (c : Call) → P c → Does P Q (call f c)
  unfolding call
  Does-call f c p = record { makes = λ h. more p same; ends = λ h. tt }

  pub Does-if :
      (b : Bool) (m n : Exec A)
      → (b ≡ true → Does P Q m)
      → (b ≡ false → Does P Q n)
      → Does P Q (if b then m else n)
  Does-if true m n dm dn = dm refl
  Does-if false m n dm dn = dn refl

module _ {P : Call → Type 0} {Q : Code → Type 0} {X A : Type 0} where
  pub Does-on_option :
      (o : Option X) (m : Exec A) (k : X → Exec A)
      → Does P Q m
      → ((x : X) → Does P Q (k x))
      → Does P Q (on_option o m k)
  unfolding on_option
  Does-on_option none m k dm dk = dm
  Does-on_option (some x) m k dm dk = dk x

module _ {P : Call → Type 0} {Q : Code → Type 0} where
  pub Does-raise_if : (b : Bool) (c : Code) (r : Reason) → Q c → Does P Q (raise_if b c r)
  unfolding raise_if
  Does-raise_if true c r q = Does-raise c r q
  Does-raise_if false c r q = Does-pure tt

  pub Does-raise_failure : (c : Code) (f : Option Failure) → Q c → Does P Q (raise_failure c f)
  unfolding raise_failure
  Does-raise_failure c none q = Does-pure tt
  Does-raise_failure c (some f) q = Does-raise c (caused_by f) q

module _ {P : Call → Type 0} {Q : Code → Type 0} {A B : Type 0} where
  continue-makes :
      (h h' : History) (r : Outcome A) (f : A → Exec B)
      → Extends P h h'
      → ((a : A) → Does P Q (f a))
      → Extends P h (continue r f h').1
  continue-makes h h' (ok a) f x df = Extends-trans x ((df a).makes h')
  continue-makes h h' (err c r) f x df = x
  continue-makes h h' panic f x df = x

  continue-ends :
      (h' : History) (r : Outcome A) (f : A → Exec B)
      → EndsIn Q r
      → ((a : A) → Does P Q (f a))
      → EndsIn Q (continue r f h').0
  continue-ends h' (ok a) f x df = (df a).ends h'
  continue-ends h' (err c r) f x df = x
  continue-ends h' panic f x df = x

  pub Does-bind :
      (m : Exec A) (f : A → Exec B) → Does P Q m → ((a : A) → Does P Q (f a)) → Does P Q (m >>= f)
  unfolding ◌>>=◌
  Does-bind m f dm df = record {
    makes = λ h. continue-makes h (m h).1 (m h).0 f (dm.makes h) df;
    ends = λ h. continue-ends (m h).1 (m h).0 f (dm.ends h) df;
  }

-- The rest of a block may use what a pure step gave.
pub Does-bind-lift :
    {P : Call → Type 0} {Q : Code → Type 0} {A B : Type 0} (o : Outcome A) (f : A → Exec B)
    → EndsIn Q o
    → ((a : A) → o ≡ ok a → Does P Q (f a))
    → Does P Q (lift o >>= f)
unfolding ◌>>=◌
Does-bind-lift (ok a) f q df = df a refl
Does-bind-lift (err c r) f q df = record { makes = λ h. same; ends = λ h. q }
Does-bind-lift panic f q df = absurd q

-- A step that makes no call and gives `a` unless it refuses.
pub Does-bind_steady :
    {P : Call → Type 0} {Q : Code → Type 0} {A B : Type 0} {a : A} {c : Code} (m : Exec A)
    (f : A → Exec B)
    → ((h : History) → (m h ≡ (ok a, h)) ⊎ ((r : Reason) × (m h ≡ (err c r, h))))
    → Q c
    → Does P Q (f a)
    → Does P Q (m >>= f)
unfolding ◌>>=◌
Does-bind_steady m f steady q d = record {
  makes = λ h. elim (steady h) [ inl s ↦ rw s (d.makes h) | inr (r, s) ↦ rw s same ];
  ends = λ h. elim (steady h) [ inl s ↦ rw s (d.ends h) | inr (r, s) ↦ rw s q ];
}

continue_ok :
    {A B : Type 0} (r : Outcome A × History) (f : A → Exec B) {h'' : History} {b : B}
    → continue r.0 f r.1 ≡ (ok b, h'')
    → (a : A) × (h' : History) × (r ≡ (ok a, h')) × (f a h' ≡ (ok b, h''))
continue_ok (ok a, h') f q = (a, h', refl, q)
continue_ok (err c r, h') f q = cc
continue_ok (panic, h') f q = cc

-- A block that succeeds has run its first step with success, and then its rest.
pub bind_ok :
    {A B : Type 0} (m : Exec A) (f : A → Exec B) {h h'' : History} {b : B}
    → (m >>= f) h ≡ (ok b, h'')
    → (a : A) × (h' : History) × (m h ≡ (ok a, h')) × (f a h' ≡ (ok b, h''))
unfolding ◌>>=◌
bind_ok m f {h} q = continue_ok (m h) f q

pub call_ok :
    {A : Type 0} (answer : History → A) (c : Call) {h h' : History} {a : A}
    → call answer c h ≡ (ok a, h')
    → (a ≡ answer h) × (h' ≡ c ∷ h)
unfolding call
call_ok answer c q = (cc, cc)

pub pure_ok :
    {A : Type 0} (a : A) {h h' : History} {b : A} → pure a h ≡ (ok b, h') → (a ≡ b) × (h' ≡ h)
unfolding pure
pure_ok a q = (cc, cc)

pub lift_ok :
    {A : Type 0} (o : Outcome A) {h h' : History} {a : A}
    → lift o h ≡ (ok a, h')
    → (o ≡ ok a) × (h' ≡ h)
unfolding lift
lift_ok o q = (cc, cc)

pub raise_if_ok :
    (b : Bool) (c : Code) (r : Reason) {h h' : History} {u : Unit {0}}
    → raise_if b c r h ≡ (ok u, h')
    → (b ≡ false) × (h' ≡ h)
unfolding raise_if pure raise
raise_if_ok true c r q = cc
raise_if_ok false c r q = (refl, cc)

pub raise_failure_ok :
    (c : Code) (f : Option Failure) {h h' : History} {u : Unit {0}}
    → raise_failure c f h ≡ (ok u, h')
    → (f ≡ none) × (h' ≡ h)
unfolding raise_failure pure raise
raise_failure_ok c none q = (refl, cc)
raise_failure_ok c (some x) q = cc

-- More calls and more codes may be allowed.
pub EndsIn-mono :
    {Q Q' : Code → Type 0} {A : Type 0} (o : Outcome A)
    → ((c : Code) → Q c → Q' c)
    → EndsIn Q o
    → EndsIn Q' o
EndsIn-mono (ok a) f q = tt
EndsIn-mono (err c r) f q = f c q
EndsIn-mono panic f q = q

pub Does-mono :
    {P : Call → Type 0} {Q Q' : Code → Type 0} {A : Type 0} (m : Exec A)
    → ((c : Code) → Q c → Q' c)
    → Does P Q m
    → Does P Q' m
Does-mono m f d = record { makes = d.makes; ends = λ h. EndsIn-mono (m h).0 f (d.ends h) }

pub ruleset does_rules = (
  Does-pure, Does-raise, Does-if, Does-raise_if, Does-raise_failure, Does-bind, Does-call,
  Does-lift, Does-on_option,
)
