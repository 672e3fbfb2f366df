-- ===== src/Node/Reported.antt =====
-- Exactly when NodeGetVolumeStats answers, and with what.
use csi_driver_nfs_export.Base.{
  String, false, List, none, ◌==◌, ◌≡◌, ◌↔◌, inl, inr, refl, ap, Bool-cases, Option-cases, ◌∷◌,
}
use csi_driver_nfs_export.Api.Calls.{Call, History}
use csi_driver_nfs_export.Api.Exec.{ok, Outcome, result, calls, ◌>>=◌}
use csi_driver_nfs_export.Api.Client.{Env}
use csi_driver_nfs_export.Node.Statistics.{IsReportOf, volume_stats_reports}
use csi_driver_nfs_export.Node.Stats.{Usage, usages_of, volume_stats}

module _ (e : Env) (id path : String) (h : History) where
  -- The arguments are given, the path is there, and its file system has the statistics.
  abbrev pub IsReported : List Usage → Type 0
  IsReported usages =
      ((id == "") ≡ false)
      × ((path == "") ≡ false)
      × ((e.mode h path).error ≡ none)
      × ((e.metrics (Call.lstat path ∷ h) path).error ≡ none)
      × IsReportOf (e.metrics (Call.lstat path ∷ h) path).value usages

  looked_at :
      {usages : List Usage}
      → result (volume_stats e id path h) ≡ ok usages
      → ((id == "") ≡ false) × ((path == "") ≡ false) × ((e.mode h path).error ≡ none)
  unfolding volume_stats ◌>>=◌
  looked_at q = elim (Bool-cases (id == "")) [
    | inl p ↦ let wrong = rw p at q in cc
    | inr named ↦ elim (Bool-cases (path == "")) [
      | inl p ↦ let wrong = rw (named, p) at q in cc
      | inr placed ↦ elim (Option-cases (e.mode h path).error) [
        | inl there ↦ (named, placed, there)
        | inr (f, failed) ↦ elim (Bool-cases f.not_exist) [
          | inl x ↦ let wrong = rw (named, placed, failed, x) at q in cc
          | inr x ↦ let wrong = rw (named, placed, failed, x) at q in cc
        ]
      ]
    ]
  ]

  reported_succeeds :
      (usages : List Usage) → IsReported usages → result (volume_stats e id path h) ≡ ok usages
  unfolding volume_stats usages_of ◌>>=◌
  reported_succeeds usages
        (named, placed, there, read, (a, c, u, f, i, j, at_a, at_c, at_u, at_f, at_i, at_j, same)) =
      rw (named, placed, there, read, at_a, at_c, at_u, at_f, at_i, at_j, same) refl

  -- `NodeGetVolumeStats` answers exactly if an identifier and a path are given, the path can be looked
  -- at, and its file system tells all six statistics as numbers of 64 bits; the answer has them number
  -- for number, the bytes first, then the inodes.
  pub volume_stats_succeeds :
      (usages : List Usage) → (result (volume_stats e id path h) ≡ ok usages) ↔ IsReported usages
  volume_stats_succeeds usages = (
    λ q.
        let (named, placed, there) = looked_at q in
        let whole = ap (λ (o : Outcome (List Usage)). (o, calls (volume_stats e id path h))) q in
        let (read, report) = volume_stats_reports e id path h _ whole in
        (named, placed, there, read, report),
    reported_succeeds usages,
  )
