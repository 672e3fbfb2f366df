-- ===== src/Node/Mounting.antt =====
-- The mounts of `NodePublishVolume` where it has what it needs.
use csi_driver_nfs_export.Base.{
  ◌%◌, String, ℕ, Bool, [], ◌∷◌, Option, none, ◌≡◌, refl, nothing, sym, ◌∙◌, ◌⊎◌, inl, inr,
  if◌then◌else◌, nat_eq,
}
use csi_driver_nfs_export.Api.Objects.{Service, Failure}
use csi_driver_nfs_export.Api.Calls.{Call, History}
use csi_driver_nfs_export.Api.Exec.{internal}
use csi_driver_nfs_export.Api.Client.{Env, chmod, PollsAsDocumented}
use csi_driver_nfs_export.Api.Rules.{same, more, Extends-trans}
use csi_driver_nfs_export.Api.Lands.{
  Later, Lands, Lands-pure, Lands-call, Lands-if, Lands-on_option, Lands-bind, Lands-bind_call,
  Lands-bind_failure, Lands-raise_failure, Lands-weaken, Lands-runs,
}
use csi_driver_nfs_export.Pods.Waiting.{wait_for_tcp_ready_at_once}
use csi_driver_nfs_export.Node.Able.{
  IsPreparable, IsMountable, IsMounted, ensure_service-Lands, for_def,
}
use csi_driver_nfs_export.Node.Attributes.{Attributes}
use csi_driver_nfs_export.Node.Mount.{
  file_mode, annotate_pod, mount_local, mount_remote, report_mount, finish_mode, chmod_if_mismatch,
}

module _ (e : Env) where
  annotate_pod-Lands :
      (ns name : String) (h : History) → Lands (annotate_pod e ns name) h (λ _ _. Unit)
  unfolding annotate_pod
  annotate_pod-Lands ns name h = Lands-bind_call _ _ _ (
      Lands-on_option _ _ _ (λ _. Lands-bind_call _ _ _ (Lands-pure tt tt)) λ f _. Lands-pure tt tt)

  mount_local-Lands :
      (source target : String) (a : Attributes) (h : History)
      → e.mounted h source target "" ("bind" ∷ []) ≡ none
      → Lands
          (mount_local e source target a)
          h
          (λ failure h'. (failure ≡ none) × IsMounted e target h h')
  unfolding mount_local
  mount_local-Lands source target a h accepted = Lands-bind_call _ _ _ (
      Lands-on_option _ _ _
        (λ _.
          Lands-bind (annotate_pod-Lands a.app_namespace a.app_pod _)
            λ _ h' l _. Lands-pure none (refl, (source, "", "bind" ∷ [], h, same, accepted, l)))
        λ f failed. nothing (sym accepted ∙ failed))

  pub report_mount-Lands :
      (failure : Option Failure) (h : History)
      → failure ≡ none
      → Lands (report_mount e failure) h (λ _ _. Unit)
  unfolding report_mount
  report_mount-Lands failure h q = rw q (Lands-pure tt tt)

  chmod_if_mismatch-Lands :
      (path : String) (mode : ℕ) (h : History)
      → (e.mode h path).error ≡ none
      → e.changed_mode (Call.lstat path ∷ h) path mode ≡ none
      → Lands (chmod_if_mismatch e path mode) h (λ failure _. failure ≡ none)
  unfolding chmod_if_mismatch
  chmod_if_mismatch-Lands path mode h readable changed = Lands-bind_call _ _ _ (
      Lands-on_option _ _ _
        (λ _.
          Lands-if (nat_eq ((e.mode h path).value % 512) mode) _ (chmod e path mode)
            (λ _. Lands-pure none refl) λ _. Lands-call _ _ changed)
        λ f failed. nothing (sym readable ∙ failed))

  pub finish_mode-Lands :
      (target : String) (permissions : ℕ) (h : History)
      → ((g : History) → Later h g → IsPreparable e g target)
      → Lands (finish_mode e target permissions) h (λ _ _. Unit)
  unfolding finish_mode
  finish_mode-Lands target permissions h able =
      let (_, readable, _) = able h same in
      let (_, _, changed) = able _ (more tt same) in
      Lands-if _ _ _
        (λ _.
          Lands-bind (chmod_if_mismatch-Lands target (file_mode permissions) h readable (changed _))
            λ failure h' l q. Lands-raise_failure internal q tt)
        λ _. Lands-pure tt tt

module _ (e : Env) (polls : PollsAsDocumented e) where
  mount_remote-Lands :
      (service : Service) (target : String) (a : Attributes) (earlier : Option Failure)
      (h : History)
      → ((g : History) → Later h g → IsMountable e g service.name target a.namespace)
      → Lands
          (mount_remote e a.namespace service target a.options earlier)
          h
          (λ failure h'. (failure ≡ earlier) × IsMounted e target h h')
  unfolding mount_remote
  mount_remote-Lands service target a earlier h able =
      let (served, _, _) = able h same in
      Lands-bind (ensure_service-Lands e a.namespace service h (for_def service served))
        λ svc h1 l1 _.
          let (_, answers, _) = able h1 l1 in
          let (fine, success) = answers svc.cluster_ip in
          Lands-bind
            (Lands-runs (wait_for_tcp_ready_at_once e polls svc.cluster_ip 2049 60 h1 fine success)
              (more tt same) refl)
            λ ready h2 l2 q. Lands-bind_failure _ _ q (
              let (_, _, accepted) = able h2 (Extends-trans l1 l2) in
              Lands-bind_call _ _ _ (
                Lands-pure earlier (
                  refl,
                  (_, "nfs", a.options, h2, Extends-trans l1 l2, accepted _ "nfs" a.options, same),
                )))

  pub mount-Lands :
      (local : Bool) (source target : String) (a : Attributes) (service : Service)
      (earlier : Option Failure) (h : History)
      → ((g : History) → Later h g → IsMountable e g service.name target a.namespace)
      → Lands
          (if local
            then mount_local e source target a
            else mount_remote e a.namespace service target a.options earlier)
          h
          (λ failure h'. ((failure ≡ none) ⊎ (failure ≡ earlier)) × IsMounted e target h h')
  mount-Lands local source target a service earlier h able =
      let (_, _, accepted) = able h same in
      Lands-if local (mount_local e source target a)
        (mount_remote e a.namespace service target a.options earlier)
        (λ _.
          Lands-weaken (λ failure h' l (q, mounted). (inl q, mounted))
            (mount_local-Lands e source target a h (accepted source "" ("bind" ∷ []))))
        λ _.
          Lands-weaken (λ failure h' l (q, mounted). (inr q, mounted))
            (mount_remote-Lands service target a earlier h able)
