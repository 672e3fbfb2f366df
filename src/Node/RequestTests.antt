-- ===== src/Node/RequestTests.antt =====
-- Runs of the theorems on requests, volume contexts and statistics.
use csi_driver_nfs_export.Base.{
  String, Bool, true, ◌==◌, ◌||◌, not, some, inr, Bool-cases, pos, false, List, [], ◌∷◌, ◌≡◌, ◌↔◌,
  ◌⊎◌, inl, refl,
}
use csi_driver_nfs_export.Base.Entries.{Entries}
use csi_driver_nfs_export.Api.Calls.{Call, History}
use csi_driver_nfs_export.Api.Exec.{
  Code, internal, caused_by, result, Outcome, Reason, ok, err, ◌>>=◌, invalid_argument,
}
use csi_driver_nfs_export.Api.Client.{Env}
use csi_driver_nfs_export.Api.Rules.{Does, same, more}
use csi_driver_nfs_export.Api.Lands.{Later}
use csi_driver_nfs_export.Api.Objects.{Failure}
use csi_driver_nfs_export.Pods.{wait_for_pod_running, is_pod_running}
use csi_driver_nfs_export.Node.Attributes.{start_attributes, set_attribute, read_attributes}
use csi_driver_nfs_export.Node.Publish.{
  PublishRequest, require_capability, check_publish, ensure_statefulset, wait_for_export,
  start_export, publish_volume,
}
use csi_driver_nfs_export.Node.Stats.{Usage, bytes, inode_count, usages_of, volume_stats}
use csi_driver_nfs_export.Node.Refused.{is_complete, publish_volume_refuses, publish_volume_mounted}
use csi_driver_nfs_export.Node.Statistics.{IsStatsCall, IsStatsCode, volume_stats-Does}
use csi_driver_nfs_export.Controller.Volume.{find_pv}
use csi_driver_nfs_export.Node.Outcome.{unpublish_outcome, unpublish_volume_ends}
use csi_driver_nfs_export.Node.Unpublish.{unpublish_volume}
use csi_driver_nfs_export.Node.Reported.{IsReported, volume_stats_succeeds}
use csi_driver_nfs_export.Node.Able.{IsSeen, IsUnlisted, WasMounted, IsMounted}
use csi_driver_nfs_export.Node.Recovered.{publish_volume_recovers}
use csi_driver_nfs_export.Pods.{wait_for_tcp_ready, is_tcp_ready}
use csi_driver_nfs_export.Base.Strings.{contains}
use csi_driver_nfs_export.Node.Export.{service_def}
use csi_driver_nfs_export.Node.Mount.{
  is_skipped, find_source, local_source, report_mount, finish_mode, mount_volume, prepare_target,
  mount_remote, ensure_service,
}
use csi_driver_nfs_export.Node.Order.{AreApart}
use csi_driver_nfs_export.Node.Unordered.{publish_volume_unordered}
use csi_driver_nfs_export.Base.GoMaps.{GoMap, IsAnswerOf}
use csi_driver_nfs_export.Params.{key_of}
use csi_driver_nfs_export.Scenario.{
  healthy, given, publish_request, attributes, single_writer, healthy-PollsAsDocumented,
}
use mathlib.Core.List.{Pairwise, Pairwise-pair}
use mathlib.Core.Quot
use mathlib.Core.Bool.{Bool-set}

abbrev without_context : PublishRequest
without_context = record publish_request { context = ("datavolumeclaim", "nfs-1") ∷ [] }

incomplete : is_complete 0 without_context ≡ false
unfolding read_attributes set_attribute start_attributes key_of
incomplete = refl

publish_volume_refuses_example :
    (r : Reason) × (publish_volume healthy 0 without_context [] ≡ (err invalid_argument r, []))
publish_volume_refuses_example = publish_volume_refuses healthy 0 without_context [] incomplete

abbrev mounted_already : Env
mounted_already = record healthy { likely_not_mount_point = λ h path. given false }

abbrev started : History
started =
    Call.get_pod "backend" "nfs-1-0"
    ∷ Call.get_pod "backend" "nfs-1-0"
    ∷ Call.get_statefulset "backend" "nfs-1"
    ∷ Call.get_pvc "backend" "nfs-1"
    ∷ []

checks : check_publish mounted_already 0 publish_request [] ≡ (ok attributes, [])
unfolding check_publish require_capability read_attributes set_attribute start_attributes key_of
    ◌>>=◌
checks = refl

starts : start_export mounted_already "nfs-1" attributes [] ≡ (ok ("u-2", "u-1"), started)
unfolding start_export wait_for_export ensure_statefulset wait_for_pod_running is_pod_running ◌>>=◌
starts = refl

mounted_already_publishes :
    publish_volume mounted_already 0 publish_request []
    ≡ (ok tt, Call.is_likely_not_mount_point "/target" ∷ started)
mounted_already_publishes =
    publish_volume_mounted mounted_already 0 publish_request [] attributes ("u-2", "u-1") started
      checks starts refl refl

healthy_stats-Does :
    Does (IsStatsCall "/target") IsStatsCode (volume_stats healthy "nfs-1" "/target")
healthy_stats-Does = volume_stats-Does "/target" healthy "nfs-1"

abbrev usages : List Usage
usages =
    record { usage_unit = bytes; available = pos 1; total = pos 2; used = pos 1 }
    ∷ record { usage_unit = inode_count; available = pos 1; total = pos 2; used = pos 1 }
    ∷ []

stats_answers : result (volume_stats healthy "nfs-1" "/target" []) ≡ ok usages
unfolding volume_stats usages_of ◌>>=◌
stats_answers = refl

volume_stats_succeeds_example :
    (result (volume_stats healthy "nfs-1" "/target" []) ≡ ok usages)
    ↔ IsReported healthy "nfs-1" "/target" [] usages
volume_stats_succeeds_example = volume_stats_succeeds healthy "nfs-1" "/target" [] usages

reported : IsReported healthy "nfs-1" "/target" [] usages
reported = volume_stats_succeeds_example.0 stats_answers

abbrev claim_first : Entries
claim_first = ("datavolumeclaim", "nfs-1") ∷ ("mountPermissions", "9") ∷ []

apart : Pairwise AreApart claim_first
unfolding key_of
apart = (Pairwise-pair (λ a b. Bool-set _ _)).1 refl

abbrev context_map : GoMap AreApart
context_map = Quot.mk (claim_first, apart)

publish_volume_unordered_example : IsContr (
    (r : Outcome (Unit {0}) × History) × IsAnswerOf AreApart context_map
      (λ m. publish_volume healthy 0 (record publish_request { context = m }) [])
      r)
publish_volume_unordered_example = publish_volume_unordered healthy 0 publish_request [] context_map

-- Some call was a mount at the target.
abbrev has_mount : String → History → Bool
has_mount target [] = false
has_mount target (Call.mount source path fs options ∷ h) = path == target || has_mount target h
has_mount target (_ ∷ h) = has_mount target h

abbrev gone : Failure
gone = record { message = "no such directory"; not_exist = true; permission = false }

-- A node without the export's pod: its directory is missing, and a target is a mount point once it
-- was mounted.
abbrev remote : Env
remote = record healthy {
  dir_names = λ h path. record { value = []; error = some gone };
  likely_not_mount_point = λ h path. given (not (has_mount path h));
}

has_mount_more :
    (c : Call) (h : History) (target : String)
    → has_mount target h ≡ true
    → has_mount target (c ∷ h) ≡ true
has_mount_more (Call.mount source path fs options) h target q = elim (Bool-cases (path == target)) [
  | inl hit ↦ rw hit refl
  | inr miss ↦ rw (miss, q) refl
]
has_mount_more _ h target q = q

has_mount-Later :
    {h h' : History} (target : String)
    → Later h h'
    → has_mount target h ≡ true
    → has_mount target h' ≡ true
has_mount-Later target same q = q
has_mount-Later target (more {c} {h'} _ l) q =
    has_mount_more c h' target (has_mount-Later target l q)

remote-IsSeen : (g : History) → IsMounted remote "/target" [] g → IsSeen remote "/target" g
remote-IsSeen g (source, fs, options, h, _, _, l) =
    (refl, rw (has_mount-Later "/target" l refl) refl)

publish_volume_recovers_example :
    ((g' : History) × (publish_volume remote 0 publish_request [] ≡ (ok tt, g'))
      × (WasMounted remote "/target" [] g' ⊎ IsMounted remote "/target" [] g'))
    ⊎ ((c : Code) × (k : Reason) × (g' : History) × (publish_volume remote 0 publish_request []
          ≡ (err c k, g'))
        × IsMounted remote "/target" [] g'
        × ((f : Failure) × IsUnlisted remote f [] g')
        × ((g2 : History)
            → Later g' g2
            → (g3 : History) × (publish_volume remote 0 publish_request g2 ≡ (ok tt, g3))))
unfolding read_attributes set_attribute start_attributes key_of
publish_volume_recovers_example =
    publish_volume_recovers remote (record { polled = healthy-PollsAsDocumented.polled }) 0
      publish_request single_writer attributes [] refl refl refl (λ g l. refl)
      (λ g l. (inl refl, refl, refl)) (λ g l. (inl refl, refl, λ mode. refl))
      (λ g l. (inl refl, (λ ip. (refl, refl)), λ source fs options. refl)) remote-IsSeen [] same

-- The first call fails although it has mounted.
first_fails : result (publish_volume remote 0 publish_request []) ≡ err internal (caused_by gone)
unfolding publish_volume check_publish require_capability read_attributes set_attribute
    start_attributes key_of start_export wait_for_export ensure_statefulset wait_for_pod_running
    is_pod_running prepare_target mount_volume local_source find_source is_skipped mount_remote
    ensure_service service_def wait_for_tcp_ready is_tcp_ready report_mount finish_mode contains
    ◌>>=◌
first_fails = refl

unpublish_volume_ends_example :
    result (unpublish_volume healthy "nfs-1" "/target" [])
    ≡ unpublish_outcome healthy "nfs-1" "/target" []
unpublish_volume_ends_example =
    unpublish_volume_ends healthy healthy-PollsAsDocumented "nfs-1" "/target" []

outcome_ok : unpublish_outcome healthy "nfs-1" "/target" [] ≡ ok tt
unfolding find_pv
outcome_ok = refl
