-- ===== src/Node/Exports.antt =====
-- The StatefulSets that export volumes, for a driver that nobody else writes beside, and which
-- handlers may delete one.
use csi_driver_nfs_export.Base.{
  differ, String, ◌<>◌, ℕ, Bool, true, false, Option, some, ◌==◌, ◌≡◌, refl, inl, inr, not, ◌&&◌,
  Bool-cases, Option-cases,
}
use csi_driver_nfs_export.Api.Objects.{StatefulSet}
use csi_driver_nfs_export.Api.Calls.{Call}
use csi_driver_nfs_export.Api.Exec.{Outcome, ok, err, panic}
use csi_driver_nfs_export.Api.Client.{Env, PollsAsDocumented}
use csi_driver_nfs_export.Api.Rules.{same}
use csi_driver_nfs_export.Api.Makes.{
  Makes, makes_rules, Does-Makes, Makes-bind, Makes-call, Makes-pure, Extends-mono,
}
use csi_driver_nfs_export.Base.Entries.{Entries}
use csi_driver_nfs_export.Node.Statistics.{IsStatsCall, volume_stats-Does}
use csi_driver_nfs_export.Pods.Waiting.{wait_for_pod_running-Does}
use csi_driver_nfs_export.Controller.Volume.{
  Capability, CreateRequest, get_pv_by_id, choose_class, ensure_data_pvc, provision, create_volume,
  delete_volume,
}
use csi_driver_nfs_export.Node.Attributes.{Attributes, start_attributes, read_attributes}
use csi_driver_nfs_export.Node.Publish.{PublishRequest, publish_volume}
use csi_driver_nfs_export.Node.Published.{IsPublishCall, publish_volume-Does}
use csi_driver_nfs_export.Node.Refused.{is_named, is_complete, publish_volume_refuses}
use csi_driver_nfs_export.Node.Stats.{volume_stats}
use csi_driver_nfs_export.Node.Unpublish.{
  is_in_use, delete_export, release_unused, unpublish_volume,
}

abbrev pub Exports : Type 0
Exports = String → String → Option StatefulSet

-- The call does not delete a StatefulSet of the name.
abbrev pub KeepsExport : String → Call → Type 0
KeepsExport name (Call.delete_statefulset ns n) = (n == name) ≡ false
KeepsExport name _ = Unit

module _ (e : Env) (name : String) where
  pub create_volume-Makes : (req : CreateRequest) → Makes (KeepsExport name) (create_volume e req)
  unfolding create_volume provision choose_class ensure_data_pvc
  create_volume-Makes req = search makes_rules depth 20

  pub delete_volume-Makes : (id : String) → Makes (KeepsExport name) (delete_volume e id)
  unfolding delete_volume get_pv_by_id
  delete_volume-Makes id = search makes_rules depth 20

  stats_call-KeepsExport : (path : String) (c : Call) → IsStatsCall path c → KeepsExport name c
  stats_call-KeepsExport path c (inl q) = rw (q, KeepsExport) tt
  stats_call-KeepsExport path c (inr q) = rw (q, KeepsExport) tt

  pub volume_stats-Makes : (id path : String) → Makes (KeepsExport name) (volume_stats e id path)
  volume_stats-Makes id path = record {
    extends =
        λ h. Extends-mono (stats_call-KeepsExport path) ((volume_stats-Does path e id).makes h);
  }

  module _ (polls : PollsAsDocumented e) where
    delete_export-Makes :
        (id : String) (attributes : Entries)
        → (id == name) ≡ false
        → Makes (KeepsExport name) (delete_export e id attributes)
    unfolding delete_export
    delete_export-Makes id attributes other =
        let waits = Does-Makes (
          wait_for_pod_running-Does e polls {P = KeepsExport name} {Q = λ c. Unit} _ (id <> "-0")
            300 tt) in
        Makes-bind _ _ (Makes-call _ _ other)
          λ _. Makes-bind _ _ (Makes-call _ _ tt) λ _. Makes-bind _ _ waits λ _. Makes-pure tt

    pub unpublish_volume-Makes :
        (id target : String)
        → (id == name) ≡ false
        → Makes (KeepsExport name) (unpublish_volume e id target)
    unfolding unpublish_volume release_unused is_in_use get_pv_by_id
    unpublish_volume-Makes id target other =
        let deletes = λ (attributes : Entries). delete_export-Makes id attributes other in
        search (makes_rules, deletes) depth 20

named_ok : (o : Outcome Attributes) → is_named o ≡ true → (a : Attributes) × (o ≡ ok a)
named_ok (ok a) q = (a, refl)
named_ok (err c r) q = cc
named_ok panic q = cc

and_last : (a b c : Bool) → (a && b && c) ≡ true → c ≡ true
and_last true true c q = q
and_last true false c q = cc
and_last false b c q = cc

pub complete_parts :
    (permissions : ℕ) (req : PublishRequest)
    → is_complete permissions req ≡ true
    → (given : Capability) × (a : Attributes) × (req.capability ≡ some given)
      × (read_attributes req.context (start_attributes given.mount_flags req.readonly permissions)
          ≡ ok a)
complete_parts permissions req complete = elim (Option-cases req.capability) [
  | inl q ↦ absurd (differ (rw q at complete))
  | inr (given, has) ↦
      let (a, read) =
        named_ok
          (read_attributes req.context
            (start_attributes given.mount_flags req.readonly permissions))
          (and_last (not (req.volume_id == "")) (not (req.target_path == "")) _
            (rw has at complete)) in
      (given, a, has, read)
]

pub publish_call-KeepsExport :
    (name : String) (req : PublishRequest) (a : Attributes) (c : Call)
    → IsPublishCall req a c
    → KeepsExport name c
publish_call-KeepsExport name req a (Call.delete_statefulset ns n) p = absurd p
publish_call-KeepsExport name req a _ p = tt

pub publish_volume-Makes :
    (e : Env) (name : String) (polls : PollsAsDocumented e) (permissions : ℕ) (req : PublishRequest)
    → Makes (KeepsExport name) (publish_volume e permissions req)
publish_volume-Makes e name polls permissions req =
    elim (Bool-cases (is_complete permissions req)) [
      | inl complete ↦
          let (given, a, has, read) = complete_parts permissions req complete in
          record {
            extends = λ h.
                Extends-mono (publish_call-KeepsExport name req a)
                  ((publish_volume-Does e polls req a permissions given has read).makes h);
          }
      | inr incomplete ↦ record {
        extends =
            λ h. let (r, q) = publish_volume_refuses e permissions req h incomplete in rw q same;
      }
    ]
