-- ===== src/Node/Able.antt =====
-- What `NodePublishVolume` needs to succeed, and its steps up to the target where it has that.
use csi_driver_nfs_export.Base.{
  nothing, some_inj, differ, Bool-cases, sym, ◌∙◌, String, ◌<>◌, ℕ, true, false, List, ◌∷◌, Option,
  none, some, ◌≡◌, refl, ◌⊎◌, inl, inr,
}
use csi_driver_nfs_export.Api.Objects.{StatefulSet, Service, Failure, running, probe_success}
use csi_driver_nfs_export.Api.Calls.{Call, History}
use csi_driver_nfs_export.Api.Exec.{canceled}
use csi_driver_nfs_export.Api.Client.{Env, PollsAsDocumented}
use csi_driver_nfs_export.Api.Rules.{same, more, Extends-trans}
use csi_driver_nfs_export.Api.Lands.{
  Later, Lands, Lands-pure, Lands-if, Lands-on_option, Lands-bind, Lands-raise_failure, Lands-runs,
  Lands-bind_call, Lands-bind_failure,
}
use csi_driver_nfs_export.Pods.Waiting.{wait_for_pod_running_at_once}
use csi_driver_nfs_export.Node.Attributes.{Attributes}
use csi_driver_nfs_export.Node.Export.{statefulset_def}
use csi_driver_nfs_export.Node.Mount.{file_mode, prepare_target, ensure_service}
use csi_driver_nfs_export.Node.Publish.{ensure_statefulset, wait_for_export, start_export}

module _ (e : Env) (h : History) where
  -- The StatefulSet is there or may be created, and its pod runs.
  abbrev pub IsExportable : String → String → Type 0
  IsExportable id ns =
      (((e.statefulset h ns id).error ≡ none)
        ⊎ ((def : StatefulSet)
            → (e.created_statefulset (Call.get_statefulset ns id ∷ h) ns def).error ≡ none))
      × ((e.pod h ns (id <> "-0")).error ≡ none)
      × ((e.pod h ns (id <> "-0")).value.phase ≡ running)

  -- The target can be looked at, or is missing and may be made, and its mode may be changed.
  abbrev pub IsPreparable : String → Type 0
  IsPreparable target =
      (((e.likely_not_mount_point h target).error ≡ none)
        ⊎ ((f : Failure) × ((e.likely_not_mount_point h target).error ≡ some f)
            × (f.not_exist ≡ true)
            × ((mode : ℕ)
                → e.made_dirs (Call.is_likely_not_mount_point target ∷ h) target mode ≡ none)))
      × ((e.mode h target).error ≡ none)
      × ((mode : ℕ) → e.changed_mode h target mode ≡ none)

  -- The Service is there or may be created, NFS servers answer, and mounts at the target are accepted.
  abbrev pub IsMountable : String → String → String → Type 0
  IsMountable id target ns =
      (((e.service h ns id).error ≡ none)
        ⊎ ((def : Service) → (e.created_service (Call.get_service ns id ∷ h) ns def).error ≡ none))
      × ((ip : String)
          → ((e.probed_tcp h ip 2049).error ≡ none)
            × ((e.probed_tcp h ip 2049).value ≡ probe_success))
      × ((source fs : String) (options : List String) → e.mounted h source target fs options ≡ none)

-- Some call of the handler was the listing of a directory that failed with `f`.
abbrev pub IsUnlisted : Env → Failure → History → History → Type 0
IsUnlisted e f h h' =
    (dir : String) × (g : History) × Later h g × ((e.dir_names g dir).error ≡ some f) × Later g h'

module _ (e : Env) (target : String) where
  -- The target is found a mount point.
  abbrev pub IsSeen : History → Type 0
  IsSeen h =
      ((e.likely_not_mount_point h target).error ≡ none)
      × ((e.likely_not_mount_point h target).value ≡ false)

  -- Some call of the handler was a mount at the target that was accepted.
  abbrev pub IsMounted : History → History → Type 0
  IsMounted h h' =
      (source : String) × (fs : String) × (options : List String) × (g : History) × Later h g
      × (e.mounted g source target fs options ≡ none)
      × Later (Call.mount source target fs options ∷ g) h'

  -- Some call of the handler was a look at the target that found a mount point.
  abbrev pub WasMounted : History → History → Type 0
  WasMounted h h' =
      (g : History) × Later h g
      × ((e.likely_not_mount_point g target).error ≡ none)
      × ((e.likely_not_mount_point g target).value ≡ false)
      × Later (Call.is_likely_not_mount_point target ∷ g) h'

  pub IsMounted-Later :
      {h h1 h2 h3 : History} → Later h h1 → Later h2 h3 → IsMounted h1 h2 → IsMounted h h3
  IsMounted-Later before after (source, fs, options, g, l, accepted, rest) =
      (source, fs, options, g, Extends-trans before l, accepted, Extends-trans rest after)

created : {f : Failure} {x y : Option Failure} → x ≡ some f → (x ≡ none) ⊎ (y ≡ none) → y ≡ none
created absent (inl there) = nothing (sym there ∙ absent)
created absent (inr accepted) = accepted

pub for_def :
    {Def : Type 0} {A : Type 0} {B : Def → Type 0} (def : Def) → A ⊎ ((x : Def) → B x) → A ⊎ B def
for_def def (inl a) = inl a
for_def def (inr b) = inr (b def)

can_make :
    {f : Failure} {x : Option Failure} {M : Type 0}
    → x ≡ some f
    → (x ≡ none) ⊎ ((g : Failure) × (x ≡ some g) × (g.not_exist ≡ true) × M)
    → (f.not_exist ≡ true) × M
can_make absent (inl there) = nothing (sym there ∙ absent)
can_make absent (inr (g, same_failure, missing, made)) =
    (rw (← some_inj (sym same_failure ∙ absent)) missing, made)

module _ (e : Env) where
  ensure_statefulset-Lands :
      (ns : String) (def : StatefulSet) (h : History)
      → ((e.statefulset h ns def.name).error ≡ none)
        ⊎ ((e.created_statefulset (Call.get_statefulset ns def.name ∷ h) ns def).error ≡ none)
      → Lands (ensure_statefulset e ns def) h (λ _ _. Unit)
  unfolding ensure_statefulset
  ensure_statefulset-Lands ns def h made = Lands-bind_call _ _ _ (
      Lands-on_option _ _ _ (λ _. Lands-pure tt tt)
        λ f absent. Lands-bind_call _ _ _ (Lands-raise_failure canceled (created absent made) tt))

  pub ensure_service-Lands :
      (ns : String) (def : Service) (h : History)
      → ((e.service h ns def.name).error ≡ none)
        ⊎ ((e.created_service (Call.get_service ns def.name ∷ h) ns def).error ≡ none)
      → Lands (ensure_service e ns def) h (λ _ _. Unit)
  unfolding ensure_service
  ensure_service-Lands ns def h made = Lands-bind_call _ _ _ (
      Lands-on_option _ _ _ (λ _. Lands-pure _ tt)
        λ f absent.
          Lands-bind_call _ _ _ (Lands-bind_failure _ _ (created absent made) (Lands-pure _ tt)))

  pub prepare_target-Lands :
      (target : String) (permissions : ℕ) (h : History)
      → IsPreparable e h target
      → Lands (prepare_target e target permissions) h λ fresh h'.
        (fresh ≡ true)
        ⊎ ((fresh ≡ false)
            × (h' ≡ Call.is_likely_not_mount_point target ∷ h)
            × ((e.likely_not_mount_point h target).error ≡ none)
            × ((e.likely_not_mount_point h target).value ≡ false))
  unfolding prepare_target file_mode
  prepare_target-Lands target permissions h able = Lands-bind_call _ _ _ (
      Lands-on_option _ _ _
        (λ fine. elim (Bool-cases (e.likely_not_mount_point h target).value) [
          | inl fresh ↦ Lands-pure _ (inl fresh)
          | inr there ↦ Lands-pure _ (inr (there, refl, fine, there))
        ])
        λ f absent.
          let (missing, made) = can_make absent able.0 in
          Lands-if _ _ _
            (λ _.
              Lands-bind_call _ _ _ (Lands-bind_failure _ _ (made _) (Lands-pure true (inl refl))))
            λ other. absurd (differ (sym other ∙ missing)))

module _ (e : Env) (polls : PollsAsDocumented e) where
  wait_for_export-Lands :
      (id ns : String) (h : History)
      → ((g : History)
          → Later h g
          → ((e.pod g ns (id <> "-0")).error ≡ none)
            × ((e.pod g ns (id <> "-0")).value.phase ≡ running))
      → Lands (wait_for_export e id ns) h (λ _ _. Unit)
  unfolding wait_for_export
  wait_for_export-Lands id ns h runs = Lands-bind_call _ _ _ (
      let (seen, up) = runs _ (more tt same) in
      Lands-bind
        (Lands-runs (wait_for_pod_running_at_once e polls ns (id <> "-0") 300 _ seen up)
          (more tt same) refl)
        λ waited h' l q. Lands-bind_failure _ _ q (Lands-pure _ tt))

  pub start_export-Lands :
      (id : String) (a : Attributes) (h : History)
      → (e.pvc h a.namespace a.claim).error ≡ none
      → ((g : History) → Later h g → IsExportable e g id a.namespace)
      → Lands (start_export e id a) h (λ _ _. Unit)
  unfolding start_export statefulset_def
  start_export-Lands id a h claimed able = Lands-bind_call _ _ _ (
      Lands-bind_failure _ _ claimed (
        Lands-bind
          (ensure_statefulset-Lands e a.namespace _ _ (for_def _ (able _ (more tt same)).0))
          λ _ h2 l2 _.
            Lands-bind
              (wait_for_export-Lands id a.namespace h2 λ g l.
                let (_, seen, up) = able g (Extends-trans (more tt same) (Extends-trans l2 l)) in
                (seen, up))
              λ uid h3 l3 _. Lands-pure _ tt))
