-- ===== src/Api/Exec.antt =====
-- The handlers' monad. A handler returns a response or a gRPC status, or it panics on a nil
-- pointer; the calls it made stay made.
use csi_driver_nfs_export.Base.{◌∷◌, String, Bool, true, false, Option, none, some}
use csi_driver_nfs_export.Api.Objects.{Failure}
use csi_driver_nfs_export.Api.Calls.{Call, History}

-- codes.Code of gRPC, as far as the driver uses them
pub data Code : Type 0 where
  invalid_argument canceled internal not_found permission_denied unavailable unimplemented : Code

-- The message of a status: one constructor for each text in the source, with its arguments.
pub data Reason : Type 0 where
  name_missing capabilities_missing capability_missing id_missing id_empty target_missing : Reason
  driver_unnamed driver_unversioned stats_id_empty stats_path_empty no_text : Reason
  invalid_parameter : String → Reason
  invalid_permissions : String → Reason
  parameter_required : String → Reason
  path_missing : String → Reason
  number_unreadable : String → Reason
  unmount_failed : String → Failure → Reason
  metrics_failed : Failure → Reason
  stat_failed : String → Failure → Reason
  caused_by : Failure → Reason

pub data Outcome {ℓ} (A : Type ℓ) : Type ℓ where
  ok : A → Outcome A
  err : Code → Reason → Outcome A
  panic : Outcome A

abbrev pub Exec : Type 0 → Type 0
Exec A = History → Outcome A × History

module _ {A : Type 0} where
  unfoldable pub pure : A → Exec A
  pure a h = (ok a, h)

  -- `return nil, status.Error(code, reason)`
  unfoldable pub raise : Code → Reason → Exec A
  raise c r h = (err c r, h)

  unfoldable pub lift : Outcome A → Exec A
  lift r h = (r, h)

  unfoldable pub nil_pointer : Exec A
  nil_pointer h = (panic, h)

  -- One call that leaves the driver, and its answer, which may depend on the calls before it.
  unfoldable pub call : (History → A) → Call → Exec A
  call answer c h = (ok (answer h), c ∷ h)

module _ {A B : Type 0} where
  abbrev pub continue : Outcome A → (A → Exec B) → Exec B
  continue (ok a) f h = f a h
  continue (err c r) f h = (err c r, h)
  continue panic f h = (panic, h)

-- `if test { return nil, status.Error(code, reason) }`
unfoldable pub raise_if : Bool → Code → Reason → Exec (Unit {0})
raise_if true c r = raise c r
raise_if false c r = pure tt

-- `if err != nil { return nil, status.Error(code, err.Error()) }`
unfoldable pub raise_failure : Code → Option Failure → Exec (Unit {0})
raise_failure c none = pure tt
raise_failure c (some e) = raise c (caused_by e)

-- A branch on a pointer or an error, nil first.
unfoldable pub on_option : {X A : Type 0} → Option X → Exec A → (X → Exec A) → Exec A
on_option none m k = m
on_option (some x) m k = k x

infixl 5 ◌>>=◌ ◌>>◌
-- Whoever opens this opens the other steps too.
unfoldable pub ◌>>=◌ : {A B : Type 0} → Exec A → (A → Exec B) → Exec B
unfolding pure raise lift nil_pointer call raise_if raise_failure on_option
◌>>=◌ m f h = let (r, h') = m h in continue r f h'

abbrev pub ◌>>◌ : {A B : Type 0} → Exec A → Exec B → Exec B
m >> k = m >>= λ _. k

-- A handler's result, whatever it was, with the calls that it made.
abbrev pub result {ℓ} : {A : Type ℓ} → Outcome A × History → Outcome A
result (r, h) = r

abbrev pub calls {ℓ} : {A : Type ℓ} → Outcome A × History → History
calls (r, h) = h
