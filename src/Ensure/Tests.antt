-- ===== src/Ensure/Tests.antt =====
-- Runs of the theorems on the program: the data claim of `Scenario`, and two workers that make one
-- claim, of which the second loses the race and is started again.
use csi_driver_nfs_export.Base.{ℕ, true, false, ◌⊎◌, none, some, inr, [], ◌≡◌, refl, leb}
use csi_driver_nfs_export.Api.Exec.{ok, err, canceled, caused_by, pure, ◌>>◌}
use csi_driver_nfs_export.Api.Objects.{Pvc, Service, StatefulSet, Failure}
use csi_driver_nfs_export.Controller.Volume.{ensure_data_pvc}
use csi_driver_nfs_export.Node.Mount.{ensure_service}
use csi_driver_nfs_export.Node.Publish.{ensure_statefulset}
use csi_driver_nfs_export.Node.Export.{service_def, statefulset_def}
use csi_driver_nfs_export.Ensure.{get_or_create, found_or_create, made_or_canceled, run, halt}
use csi_driver_nfs_export.Ensure.Agreement.{workers_agree}
use csi_driver_nfs_export.Ensure.Code.{claims_of, services_of, statefulsets_of, ensure_runs}
use csi_driver_nfs_export.Ensure.Phases.{Grows}
use csi_driver_nfs_export.Ensure.Progress.{own_steps, workers_end}
use csi_driver_nfs_export.Ensure.Race.{
  Objects, Request, Race, program_of, put_object, set_worker, Reach, begin, later, Step, finds,
  misses, creates, refused, restarts,
}
use csi_driver_nfs_export.Scenario.{fresh, data_claim}

abbrev absent : Failure
absent = record { message = "not found"; not_exist = true; permission = false }

abbrev taken : Failure
taken = record { message = "already exists"; not_exist = false; permission = false }

abbrev one_claim : ℕ → Request Pvc
one_claim i = record { namespace = "storage"; def = data_claim }

abbrev nothing_stored : Objects Pvc
nothing_stored ns name = none

abbrev two_done : Race Pvc
two_done = record {
  objects = put_object "storage" data_claim.name data_claim nothing_stored;
  workers = set_worker 1 (halt (ok data_claim)) (
      set_worker 1 (program_of (λ claim. claim.name) one_claim false 1) (
        set_worker 1 (halt (err canceled (caused_by taken))) (
          set_worker 0 (halt (ok data_claim)) (
            set_worker 1
              (found_or_create "storage" data_claim
                (record { value = data_claim; error = some absent }))
              (set_worker 0
                (found_or_create "storage" data_claim
                  (record { value = data_claim; error = some absent }))
                (program_of (λ claim. claim.name) one_claim false))))));
}

two_workers : Reach (λ claim. claim.name) one_claim false two_done
unfolding get_or_create found_or_create made_or_canceled
two_workers =
    later 1
      (later 1
        (later 1
          (later 0
            (later 1
              (later 0 (begin nothing_stored) (misses _ _ _ data_claim absent refl (inr refl) refl))
              (misses _ _ _ data_claim absent refl (inr refl) refl))
            (creates _ _ _ data_claim refl refl refl))
          (refused _ _ _ data_claim taken refl (inr (data_claim, refl)) refl))
        (restarts _ _ refl refl))
      (finds _ _ _ data_claim refl refl refl)

abbrev nfs_service : Service
nfs_service = service_def "nfs-1" "nfs-1" "u-1"

abbrev exporter : StatefulSet
exporter = statefulset_def "nfs-1" "nfs-1" "u-1" "ganesha" "*"

workers_agree_example :
    (data_claim ≡ data_claim)
    × (two_done.objects "storage" data_claim.name ≡ some data_claim)
    × ((k : ℕ) (t : Race Pvc)
        → Step (λ claim. claim.name) one_claim false k two_done t
        → Grows two_done.objects t.objects)
unfolding get_or_create
workers_agree_example =
    workers_agree (λ claim. claim.name) one_claim false two_done 0 1 data_claim data_claim
      two_workers refl refl refl refl

workers_end_example :
    (leb (own_steps (λ claim. claim.name) one_claim 1 two_workers) 4 ≡ true)
    × (own_steps (λ claim. claim.name) one_claim 1 two_workers ≡ 4
        → (o : Pvc) × (two_done.workers 1 ≡ halt (ok o)))
    × (((o : Pvc) × (two_done.workers 1 ≡ halt (ok o)))
        ⊎ ((t : Race Pvc) × Step (λ claim. claim.name) one_claim false 1 two_done t))
workers_end_example = workers_end (λ claim. claim.name) one_claim two_done 1 two_workers

own_steps_lem : own_steps (λ claim. claim.name) one_claim 1 two_workers ≡ 4
unfolding own_steps two_workers
own_steps_lem = refl

ensure_runs_example :
    (ensure_data_pvc fresh "storage" data_claim []
      ≡ run (claims_of fresh) (get_or_create "storage" "nfs-1" data_claim) [])
    × (ensure_service fresh "storage" nfs_service []
        ≡ run (services_of fresh) (get_or_create "storage" "nfs-1" nfs_service) [])
    × (ensure_statefulset fresh "storage" exporter []
        ≡ (run (statefulsets_of fresh) (get_or_create "storage" "nfs-1" exporter) >> pure tt) [])
unfolding service_def statefulset_def
ensure_runs_example = ensure_runs fresh "storage" data_claim nfs_service exporter []
