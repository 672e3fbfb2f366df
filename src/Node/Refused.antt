-- ===== src/Node/Refused.antt =====
-- The requests that `NodePublishVolume` refuses.
use csi_driver_nfs_export.Base.{
  String, ℕ, Bool, true, false, not, ◌&&◌, [], ◌∷◌, none, some, ◌==◌, ◌≡◌, refl, inl, inr,
  Bool-cases, Option-cases, arith,
}
use csi_driver_nfs_export.Base.Entries.{Entries}
use csi_driver_nfs_export.Api.Calls.{Call, History}
use csi_driver_nfs_export.Api.Exec.{
  Code, Reason, Outcome, ok, err, panic, ◌>>=◌, invalid_argument, capability_missing, id_missing,
  target_missing, parameter_required,
}
use csi_driver_nfs_export.Api.Client.{Env}
use csi_driver_nfs_export.Api.Rules.{EndsIn}
use csi_driver_nfs_export.Controller.Volume.{Capability}
use csi_driver_nfs_export.Params.{param_data_volume_claim, param_data_namespace, key_of}
use csi_driver_nfs_export.Node.Attributes.{
  Attributes, start_attributes, set_attribute, read_attributes,
}
use csi_driver_nfs_export.Node.Publish.{
  PublishRequest, require_capability, check_publish, start_export, publish_volume,
}
use csi_driver_nfs_export.Node.Mount.{prepare_target}

-- The data claim and its namespace are named.
abbrev pub is_named : Outcome Attributes → Bool
is_named (ok a) = not (a.claim == "") && not (a.namespace == "")
is_named _ = false

-- The request has all that `NodePublishVolume` requires, and its permissions can be read.
abbrev pub is_complete : ℕ → PublishRequest → Bool
is_complete permissions req = elim req.capability [
  | none ↦ false
  | some given ↦
      not (req.volume_id == "")
      && not (req.target_path == "")
      && is_named (
          read_attributes req.context (start_attributes given.mount_flags req.readonly permissions))
]

abbrev IsInvalidArgument : Code → Type 0
IsInvalidArgument c = c ≡ invalid_argument

read_attributes_ends :
    (m : Entries) (a : Attributes) → EndsIn IsInvalidArgument (read_attributes m a)
unfolding read_attributes
read_attributes_ends [] a = tt
read_attributes_ends ((k, v) ∷ m) a = elim (Option-cases (set_attribute (key_of k) v a)) [
  | inl bad ↦ rw (bad, EndsIn, read_attributes) refl
  | inr (b, set) ↦ rw (set, EndsIn, read_attributes) (read_attributes_ends m b)
]

module _ (e : Env) (permissions : ℕ) (req : PublishRequest) (h : History) where
  refuses_context :
      (given : Capability) (o : Outcome Attributes)
      → req.capability ≡ some given
      → (req.volume_id == "") ≡ false
      → (req.target_path == "") ≡ false
      → read_attributes req.context (start_attributes given.mount_flags req.readonly permissions)
        ≡ o
      → EndsIn IsInvalidArgument o
      → is_named o ≡ false
      → (r : Reason) × (publish_volume e permissions req h ≡ (err invalid_argument r, h))
  unfolding publish_volume check_publish require_capability ◌>>=◌
  refuses_context given (ok a) has id target read _ unnamed = elim (Bool-cases (a.claim == "")) [
    | inl q ↦ (parameter_required param_data_volume_claim, rw (has, id, target, read, q))
    | inr q ↦
        let space : (a.namespace == "") ≡ true = ground arith in
        (parameter_required param_data_namespace, rw (has, id, target, read, q, space))
  ]
  refuses_context given (err c r) has id target read ends _ = (r, rw (has, id, target, read, ends))
  refuses_context given panic has id target read ends _ = absurd ends

  -- A request that is not complete is refused with InvalidArgument, and no call is made for it.
  pub publish_volume_refuses :
      is_complete permissions req ≡ false
      → (r : Reason) × (publish_volume e permissions req h ≡ (err invalid_argument r, h))
  unfolding publish_volume check_publish require_capability ◌>>=◌
  publish_volume_refuses incomplete = elim (Option-cases req.capability) [
    | inl q ↦ (capability_missing, rw q)
    | inr (given, has) ↦ elim (Bool-cases (req.volume_id == "")) [
      | inl q ↦ (id_missing, rw (has, q))
      | inr id ↦ elim (Bool-cases (req.target_path == "")) [
        | inl q ↦ (target_missing, rw (has, id, q))
        | inr target ↦
            refuses_context given _ has id target refl (read_attributes_ends _ _)
              (rw (has, id, target) at incomplete)
      ]
    ]
  ]

  -- On a target that is a mount point already, `NodePublishVolume` succeeds once the export runs,
  -- and mounts nothing: the look at the target is its last call.
  pub publish_volume_mounted :
      (a : Attributes) (uids : String × String) (h' : History)
      → check_publish e permissions req h ≡ (ok a, h)
      → start_export e req.volume_id a h ≡ (ok uids, h')
      → (e.likely_not_mount_point h' req.target_path).error ≡ none
      → (e.likely_not_mount_point h' req.target_path).value ≡ false
      → publish_volume e permissions req h
        ≡ (ok tt, Call.is_likely_not_mount_point req.target_path ∷ h')
  unfolding publish_volume prepare_target ◌>>=◌
  publish_volume_mounted a uids h' checked started looked mounted =
      rw (checked, started, looked, mounted)
