-- ===== src/Api/Lands.antt =====
-- How a handler ends that meets no failure: one rule for each way to build a handler, on the calls
-- made so far.
use csi_driver_nfs_export.Base.{
  Bool, true, false, ◌∷◌, Option, none, some, ◌≡◌, refl, if◌then◌else◌,
}
use csi_driver_nfs_export.Api.Objects.{Failure}
use csi_driver_nfs_export.Api.Calls.{Call, History}
use csi_driver_nfs_export.Api.Exec.{Code, ok, Exec, pure, ◌>>=◌, raise_failure, call, on_option}
use csi_driver_nfs_export.Api.Rules.{Extends, same, more, Extends-trans}

-- The later history has the calls of the earlier one.
abbrev pub Later : History → History → Type 0
Later h h' = Extends (λ c. Unit) h h'

-- After the calls `h` the handler ends with a response, which satisfies `R` with all calls.
pub record Lands {A : Type 0} (m : Exec A) (h : History) (R : A → History → Type 0) : Type 0 where
  pub value : A
  pub after : History
  pub runs : m h ≡ (ok value, after)
  pub later : Later h after
  pub holds : R value after

module _ {A : Type 0} {R : A → History → Type 0} {h : History} where
  pub Lands-pure : (a : A) → R a h → Lands (pure a) h R
  unfolding pure
  Lands-pure a p = record { value = a; after = h; runs = refl; later = same; holds = p }

  pub Lands-call : (f : History → A) (c : Call) → R (f h) (c ∷ h) → Lands (call f c) h R
  unfolding call
  Lands-call f c p = record {
    value = f h;
    after = c ∷ h;
    runs = refl;
    later = more tt same;
    holds = p;
  }

  pub Lands-runs :
      {m : Exec A} {a : A} {h' : History} → m h ≡ (ok a, h') → Later h h' → R a h' → Lands m h R
  Lands-runs {a} {h'} q l p = record { value = a; after = h'; runs = q; later = l; holds = p }

  pub Lands-weaken :
      {S : A → History → Type 0} {m : Exec A}
      → ((a : A) (h' : History) → Later h h' → S a h' → R a h')
      → Lands m h S
      → Lands m h R
  Lands-weaken imp l = record {
    value = l.value;
    after = l.after;
    runs = l.runs;
    later = l.later;
    holds = imp l.value l.after l.later l.holds;
  }

  pub Lands-if :
      (b : Bool) (m n : Exec A)
      → (b ≡ true → Lands m h R)
      → (b ≡ false → Lands n h R)
      → Lands (if b then m else n) h R
  Lands-if true m n lm ln = lm refl
  Lands-if false m n lm ln = ln refl

  pub Lands-on_option :
      {X : Type 0} (o : Option X) (m : Exec A) (k : X → Exec A)
      → (o ≡ none → Lands m h R)
      → ((x : X) → o ≡ some x → Lands (k x) h R)
      → Lands (on_option o m k) h R
  unfolding on_option
  Lands-on_option none m k lm lk = lm refl
  Lands-on_option (some x) m k lm lk = lk x refl

  pub Lands-bind :
      {X : Type 0} {S : X → History → Type 0} {m : Exec X} {f : X → Exec A}
      → Lands m h S
      → ((x : X) (h' : History) → Later h h' → S x h' → Lands (f x) h' R)
      → Lands (m >>= f) h R
  unfolding ◌>>=◌
  Lands-bind l k =
      let rest = k l.value l.after l.later l.holds in
      record {
        value = rest.value;
        after = rest.after;
        runs = rw (l.runs, rest.runs) refl;
        later = Extends-trans l.later rest.later;
        holds = rest.holds;
      }

module _ {A : Type 0} {R : A → History → Type 0} {h : History} where
  -- A step whose run is known.
  Lands-bind_runs :
      {X : Type 0} (m : Exec X) (f : X → Exec A) {x : X} {h' : History}
      → m h ≡ (ok x, h')
      → Later h h'
      → Lands (f x) h' R
      → Lands (m >>= f) h R
  unfolding ◌>>=◌
  Lands-bind_runs m f q later l = record {
    value = l.value;
    after = l.after;
    runs = rw (q, l.runs) refl;
    later = Extends-trans later l.later;
    holds = l.holds;
  }

  -- A call answers by the calls before it.
  pub Lands-bind_call :
      {X : Type 0} (answer : History → X) (c : Call) (f : X → Exec A)
      → Lands (f (answer h)) (c ∷ h) R
      → Lands (call answer c >>= f) h R
  unfolding call
  Lands-bind_call answer c f l = Lands-bind_runs _ f refl (more tt same) l

  -- A test of an error that is not there.
  pub Lands-bind_failure :
      (c : Code) {failure : Option Failure} (f : Unit {0} → Exec A)
      → failure ≡ none
      → Lands (f tt) h R
      → Lands (raise_failure c failure >>= f) h R
  unfolding raise_failure ◌>>=◌ pure
  Lands-bind_failure c f q l = rw q l

module _ {R : Unit {0} → History → Type 0} {h : History} where
  pub Lands-raise_failure :
      (c : Code) {f : Option Failure} → f ≡ none → R tt h → Lands (raise_failure c f) h R
  unfolding raise_failure pure
  Lands-raise_failure c q p = record {
    value = tt;
    after = h;
    runs = rw q refl;
    later = same;
    holds = p;
  }
