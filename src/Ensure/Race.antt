-- ===== src/Ensure/Race.antt =====
-- Any number of workers that run the program at the same time, such as the nodes that publish one
-- volume, on one API server. A worker stops before each call; what the server does of a call is one
-- step.
use csi_driver_nfs_export.Base.{
  String, ℕ, Bool, true, ◌&&◌, Option, none, some, ◌==◌, ◌≡◌, ◌⊎◌, nat_eq, if◌then◌else◌,
}
use csi_driver_nfs_export.Api.Objects.{Reply, Failure}
use csi_driver_nfs_export.Api.Exec.{Code, Reason, err}
use csi_driver_nfs_export.Ensure.{Program, halt, get, create, get_or_create}

-- The objects by namespace and name.
abbrev pub Objects : Type 0 → Type 0
Objects Obj = String → String → Option Obj

abbrev pub put_object : {Obj : Type 0} → String → String → Obj → Objects Obj → Objects Obj
put_object ns name o objects n m = if ns == n && name == m then some o else objects n m

-- What a worker is to make.
pub record Request (Obj : Type 0) : Type 0 where
  pub namespace : String
  pub def : Obj

pub record Race (Obj : Type 0) : Type 0 where
  pub objects : Objects Obj
  pub workers : ℕ → Program Obj

abbrev pub set_worker : {Obj : Type 0} → ℕ → Program Obj → (ℕ → Program Obj) → ℕ → Program Obj
set_worker i p workers j = if nat_eq i j then p else workers j

abbrev pub reply_of : {Obj : Type 0} → Obj → Reply Obj
reply_of o = record { value = o; error = none }

module _ {Obj : Type 0} (name_of : Obj → String) (requests : ℕ → Request Obj) (flaky : Bool) where
  -- The program of a worker's request.
  abbrev pub program_of : ℕ → Program Obj
  program_of i = get_or_create (requests i).namespace (name_of (requests i).def) (requests i).def

  -- A step of the worker `i`. Get finds what is stored, and fails where nothing is; Create is accepted
  -- only where the name is free, and the server fills in the object; it is refused where the name is
  -- taken. On a flaky server both may fail for any reason. A worker that has failed may be started
  -- again.
  pub data Step (i : ℕ) (s : Race Obj) : Race Obj → Type 0 where
    finds :
        {t : Race Obj} (ns name : String) (k : Reply Obj → Program Obj) (o : Obj)
        → s.workers i ≡ get ns name k
        → s.objects ns name ≡ some o
        → t ≡ record s { workers = set_worker i (k (reply_of o)) s.workers }
        → Step i s t
    misses :
        {t : Race Obj} (ns name : String) (k : Reply Obj → Program Obj) (o : Obj) (f : Failure)
        → s.workers i ≡ get ns name k
        → (flaky ≡ true) ⊎ (s.objects ns name ≡ none)
        → t
          ≡ record s { workers = set_worker i (k (record { value = o; error = some f })) s.workers }
        → Step i s t
    creates :
        {t : Race Obj} (ns : String) (def : Obj) (k : Reply Obj → Program Obj) (o : Obj)
        → s.workers i ≡ create ns def k
        → s.objects ns (name_of def) ≡ none
        → t ≡ record s {
          objects = put_object ns (name_of def) o s.objects;
          workers = set_worker i (k (reply_of o)) s.workers;
        }
        → Step i s t
    refused :
        {t : Race Obj} (ns : String) (def : Obj) (k : Reply Obj → Program Obj) (o : Obj)
        (f : Failure)
        → s.workers i ≡ create ns def k
        → (flaky ≡ true) ⊎ ((present : Obj) × (s.objects ns (name_of def) ≡ some present))
        → t
          ≡ record s { workers = set_worker i (k (record { value = o; error = some f })) s.workers }
        → Step i s t
    restarts :
        {t : Race Obj} (c : Code) (r : Reason)
        → s.workers i ≡ halt (err c r)
        → t ≡ record s { workers = set_worker i (program_of i) s.workers }
        → Step i s t

  -- All workers start, on any objects.
  pub data Reach : Race Obj → Type 0 where
    begin : (objects : Objects Obj) → Reach (record { objects = objects; workers = program_of })
    later : {s t : Race Obj} (i : ℕ) → Reach s → Step i s t → Reach t
