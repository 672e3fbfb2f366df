-- ===== src/Node/Attempt.antt =====
-- How an attempt to publish a volume ends where it meets no other failure than that of a listing.
use csi_driver_nfs_export.Base.{
  String, ℕ, false, not, ◌∷◌, Option, none, some, ◌≡◌, ◌⊎◌, inl, inr, refl, sym, ◌∙◌, nothing,
  Bool-cases, Option-cases, if◌then◌else◌,
}
use mathlib.Core.Path.{subst}
use csi_driver_nfs_export.Base.Strings.{contains}
use csi_driver_nfs_export.Api.Objects.{Service, Failure}
use csi_driver_nfs_export.Api.Calls.{Call, History}
use csi_driver_nfs_export.Api.Exec.{
  Code, Reason, Outcome, ok, err, Exec, pure, raise, ◌>>=◌, ◌>>◌, permission_denied,
  invalid_argument, internal, caused_by,
}
use csi_driver_nfs_export.Api.Client.{Env, PollsAsDocumented}
use csi_driver_nfs_export.Api.Rules.{same, more, Extends-trans}
use csi_driver_nfs_export.Api.Lands.{Later, Lands, Lands-bind}
use csi_driver_nfs_export.Node.Able.{
  IsExportable, IsPreparable, IsMountable, IsSeen, IsUnlisted, WasMounted, IsMounted,
  IsMounted-Later, start_export-Lands, prepare_target-Lands,
}
use csi_driver_nfs_export.Node.Attributes.{Attributes}
use csi_driver_nfs_export.Node.Export.{service_def}
use csi_driver_nfs_export.Node.Mount.{
  report_mount, finish_mode, prepare_target, mount_volume, mount_local, mount_remote,
}
use csi_driver_nfs_export.Node.Mounted.{listing, source_of, after_listing, after_test}
use csi_driver_nfs_export.Node.Mounting.{mount-Lands, report_mount-Lands, finish_mode-Lands}
use csi_driver_nfs_export.Node.Publish.{PublishRequest, check_publish, start_export, publish_volume}

-- A block goes on where its first step has ended.
bind_runs :
    {X A : Type 0} (m : Exec X) (f : X → Exec A) {x : X} {h h' : History}
    → m h ≡ (ok x, h')
    → (m >>= f) h ≡ f x h'
unfolding ◌>>=◌
bind_runs m f q = rw q refl

module _ (e : Env) (target : String) (h0 : History) where
  -- After the calls `h0` an attempt has succeeded, and the target was found a mount point, or a mount
  -- there was accepted.
  abbrev pub Succeeds : Outcome (Unit {0}) × History → Type 0
  Succeeds r =
      (h' : History) × (r ≡ (ok tt, h'))
      × Later h0 h'
      × (WasMounted e target h0 h' ⊎ IsMounted e target h0 h')

  -- It has failed although a mount was accepted, after the failure of a listing.
  abbrev pub FailsMounted : Outcome (Unit {0}) × History → Type 0
  FailsMounted r =
      (c : Code) × (k : Reason) × (h' : History) × (r ≡ (err c k, h'))
      × Later h0 h'
      × IsMounted e target h0 h'
      × ((f : Failure) × IsUnlisted e f h0 h')

  abbrev pub AttemptEnds : Outcome (Unit {0}) × History → Type 0
  AttemptEnds r = Succeeds r ⊎ FailsMounted r

module _ (e : Env) where
  report_mount_raises :
      (f : Failure) (h : History)
      → (c : Code) × (k : Reason) × (report_mount e (some f) h ≡ (err c k, h))
  unfolding report_mount raise
  report_mount_raises f h = elim (Bool-cases f.permission) [
    | inl q ↦ (permission_denied, caused_by f, rw (q, report_mount) refl)
    | inr q ↦ elim (Bool-cases (contains f.message "invalid argument")) [
      | inl r ↦ (invalid_argument, caused_by f, rw (q, r, report_mount) refl)
      | inr r ↦ (internal, caused_by f, rw (q, r, report_mount) refl)
    ]
  ]

  raises_on :
      (target : String) (permissions : ℕ) (failure : Option Failure) (h h0 : History) (f : Failure)
      → failure ≡ some f
      → Later h0 h
      → IsMounted e target h0 h
      → IsUnlisted e f h0 h
      → FailsMounted e target h0 ((report_mount e failure >> finish_mode e target permissions) h)
  unfolding ◌>>=◌
  raises_on target permissions failure h h0 f q l mounted unlisted =
      let (c, k, raised) = report_mount_raises f h in
      (c, k, h, rw (q, raised) refl, l, mounted, (f, unlisted))

  finish_ends :
      (target : String) (permissions : ℕ) (failure : Option Failure) (h0 h : History)
      → Later h0 h
      → IsMounted e target h0 h
      → ((f : Failure) → failure ≡ some f → IsUnlisted e f h0 h)
      → ((g : History) → Later h g → IsPreparable e g target)
      → AttemptEnds e target h0 ((report_mount e failure >> finish_mode e target permissions) h)
  finish_ends target permissions failure h0 h l mounted unlisted able =
      elim (Option-cases failure) [
        | inr (f, q) ↦ inr (raises_on target permissions failure h h0 f q l mounted (unlisted f q))
        | inl q ↦
            let done : Lands (report_mount e failure >> finish_mode e target permissions) h
                (λ _ _. Unit {0}) =
              Lands-bind (report_mount-Lands e failure h q) λ _ h2 l2 _.
                finish_mode-Lands e target permissions h2 λ g l3. able g (Extends-trans l2 l3) in
            inl (
              done.after,
              done.runs,
              Extends-trans l done.later,
              inr (IsMounted-Later e target same done.later mounted),
            )
      ]

module _ (e : Env) (polls : PollsAsDocumented e) where
  mount_volume_ends :
      (target : String) (a : Attributes) (service : Service) (pod_uid claim_uid : String)
      (h0 h : History)
      → Later h0 h
      → ((g : History) → Later h g → IsPreparable e g target)
      → ((g : History) → Later h g → IsMountable e g service.name target a.namespace)
      → AttemptEnds e target h0 (mount_volume e target a service pod_uid claim_uid h)
  unfolding mount_volume ◌>>=◌
  mount_volume_ends target a service pod_uid claim_uid h0 h before preparable mountable =
      let source = source_of e pod_uid claim_uid h in
      let earlier = (listing e pod_uid h).error in
      let g3 = after_test e pod_uid claim_uid h in
      let local = not (e.not_mount_point (after_listing e pod_uid h) source).value in
      let till : Later h g3 = more tt (more tt (more tt same)) in
      let l =
        mount-Lands e polls local source target a service earlier g3
          λ g l. mountable g (Extends-trans till l) in
      let (from, mounted) = l.holds in
      subst (AttemptEnds e target h0)
        (sym (
          bind_runs
            (if local
              then mount_local e source target a
              else mount_remote e a.namespace service target a.options earlier)
            (λ failure. report_mount e failure >> finish_mode e target a.permissions) l.runs))
        (finish_ends e target a.permissions l.value h0 l.after
          (Extends-trans before (Extends-trans till l.later))
          (IsMounted-Later e target (Extends-trans before till) same mounted)
          (λ f q. elim from [
            | inl none_there ↦ nothing (sym none_there ∙ q)
            | inr listed ↦ (
              _,
              Call.getenv "KUBELET_ROOT" ∷ h,
              Extends-trans before (more tt same),
              sym listed ∙ q,
              Extends-trans (more tt (more tt same)) l.later,
            )
          ])
          λ g l3. preparable g (Extends-trans till (Extends-trans l.later l3)))

  module _ (permissions : ℕ) (req : PublishRequest) (a : Attributes) (h : History)
      (checked : check_publish e permissions req h ≡ (ok a, h))
      (claimed : (e.pvc h a.namespace a.claim).error ≡ none)
      (exportable : (g : History) → Later h g → IsExportable e g req.volume_id a.namespace) where
    -- The attempt up to the target.
    up_to_target :
        (uids : String × String) × (g : History) × Later h g
        × (publish_volume e permissions req h
            ≡ (prepare_target e req.target_path a.permissions >>= λ fresh.
                  (if fresh
                    then mount_volume e req.target_path a
                        (service_def req.volume_id a.claim uids.1)
                        uids.0
                        uids.1
                    else pure tt))
                g)
    unfolding publish_volume
    up_to_target =
        let l = start_export-Lands e polls req.volume_id a h claimed exportable in
        (
          l.value,
          l.after,
          l.later,
          bind_runs (check_publish e permissions req) _ checked
              ∙ bind_runs (start_export e req.volume_id a) _ l.runs,
        )

    pub publish_ends :
        ((g : History) → Later h g → IsPreparable e g req.target_path)
        → ((g : History) → Later h g → IsMountable e g req.volume_id req.target_path a.namespace)
        → AttemptEnds e req.target_path h (publish_volume e permissions req h)
    unfolding service_def pure
    publish_ends preparable mountable =
        let (uids, g, l1, runs) = up_to_target in
        let l = prepare_target-Lands e req.target_path a.permissions g (preparable g l1) in
        subst (AttemptEnds e req.target_path h)
          (sym (runs ∙ bind_runs (prepare_target e req.target_path a.permissions) _ l.runs))
          (elim l.holds [
            | inl fit ↦ rw fit (
                mount_volume_ends req.target_path a (service_def req.volume_id a.claim uids.1)
                  uids.0 uids.1 h l.after (Extends-trans l1 l.later)
                  (λ g2 l2. preparable g2 (Extends-trans l1 (Extends-trans l.later l2)))
                  λ g2 l2. mountable g2 (Extends-trans l1 (Extends-trans l.later l2)))
            | inr (unfit, q, fine, there) ↦
                rw unfit (
                  inl
                    (l.after, refl, Extends-trans l1 l.later, inl (g, l1, fine, there, rw q same)))
          ])

    prepare_seen :
        (g : History)
        → IsSeen e req.target_path g
        → prepare_target e req.target_path a.permissions g
          ≡ (ok false, Call.is_likely_not_mount_point req.target_path ∷ g)
    unfolding prepare_target ◌>>=◌
    prepare_seen g (fine, there) = rw (fine, there) refl

    -- Where the target is found a mount point, nothing is left to do.
    pub publish_seen :
        ((g : History) → Later h g → IsSeen e req.target_path g)
        → (h' : History) × (publish_volume e permissions req h ≡ (ok tt, h'))
    unfolding pure
    publish_seen seen =
        let (uids, g, l1, runs) = up_to_target in
        (
          _,
          runs
              ∙ bind_runs (prepare_target e req.target_path a.permissions) _
                  (prepare_seen g (seen g l1)),
        )
