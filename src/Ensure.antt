-- ===== src/Ensure.antt =====
-- "Get, and create what is not there": the pattern by which CreateVolume of controllerserver.go makes
-- the data claim, and NodePublishVolume of nodeserver.go the StatefulSet and the Service, as a program
-- that can be stopped before each of its calls.
pub mod Code
pub mod Race
pub mod Phases
pub mod Advances
pub mod Agreement
pub mod Progress
mod Tests
use csi_driver_nfs_export.Base.{String, Option, none, some}
use csi_driver_nfs_export.Api.Objects.{Reply, Failure}
use csi_driver_nfs_export.Api.Exec.{Outcome, ok, err, canceled, caused_by, Exec, lift, ◌>>=◌}

-- What a handler does next with the objects of one kind: it ends, or it makes a call and goes on with
-- the answer.
pub data Program (Obj : Type 0) : Type 0 where
  halt : Outcome Obj → Program Obj
  get : String → String → (Reply Obj → Program Obj) → Program Obj
  create : String → Obj → (Reply Obj → Program Obj) → Program Obj

-- The answers' error decides, as `err == nil` does.
module _ {Obj : Type 0} where
  unfoldable pub made_or_canceled : Reply Obj → Program Obj
  made_or_canceled made = elim made.error [
    | none ↦ halt (ok made.value)
    | some f ↦ halt (err canceled (caused_by f))
  ]

  unfoldable pub found_or_create : String → Obj → Reply Obj → Program Obj
  found_or_create ns def found = elim found.error [
    | none ↦ halt (ok found.value)
    | some _ ↦ create ns def made_or_canceled
  ]

  unfoldable pub get_or_create : String → String → Obj → Program Obj
  get_or_create ns name def = get ns name (found_or_create ns def)

-- The calls for the objects of one kind.
pub record Access (Obj : Type 0) : Type 0 where
  pub getting : String → String → Exec (Reply Obj)
  pub creating : String → Obj → Exec (Reply Obj)

-- The program alone, all calls one after the other.
unfoldable pub run : {Obj : Type 0} → Access Obj → Program Obj → Exec Obj
run api (halt o) = lift o
run api (get ns name k) = api.getting ns name >>= λ r. run api (k r)
run api (create ns def k) = api.creating ns def >>= λ r. run api (k r)
