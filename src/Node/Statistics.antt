-- ===== src/Node/Statistics.antt =====
-- What `NodeGetVolumeStats` answers, and how it fails.
use csi_driver_nfs_export.Base.{
  String, ℤ, List, [], ◌∷◌, Option, none, some, ◌==◌, ◌≡◌, refl, ◌⊎◌, inl, inr, sym, Bool-cases,
  Option-cases,
}
use csi_driver_nfs_export.Api.Objects.{Metrics}
use csi_driver_nfs_export.Api.Calls.{Call, History}
use csi_driver_nfs_export.Api.Exec.{
  Code, Outcome, ok, err, pure, raise, ◌>>=◌, internal, invalid_argument, not_found, Reason,
}
use csi_driver_nfs_export.Api.Client.{Env}
use csi_driver_nfs_export.Api.Rules.{Does, does_rules, bind_ok, pure_ok}
use csi_driver_nfs_export.Node.Stats.{Usage, bytes, inode_count, as_int64, usages_of, volume_stats}

-- The calls look at the path only.
abbrev pub IsStatsCall : String → Call → Type 0
IsStatsCall path c = (c ≡ Call.lstat path) ⊎ (c ≡ Call.stat_fs path)

abbrev pub IsStatsCode : Code → Type 0
IsStatsCode c = (c ≡ invalid_argument) ⊎ (c ≡ not_found) ⊎ (c ≡ internal)

invalid-fits : IsStatsCode invalid_argument
invalid-fits = inl refl

missing-fits : IsStatsCode not_found
missing-fits = inr (inl refl)

internal-fits : IsStatsCode internal
internal-fits = inr (inr refl)

module _ (path : String) where
  lstat-fits : IsStatsCall path (Call.lstat path)
  lstat-fits = inl refl

  stat_fs-fits : IsStatsCall path (Call.stat_fs path)
  stat_fs-fits = inr refl

  as_int64-Does :
      (name : String) (o : Option ℤ) → Does (IsStatsCall path) IsStatsCode (as_int64 name o)
  as_int64-Does name none = search (does_rules, internal-fits)
  as_int64-Does name (some n) = search (does_rules)

  usages_of-Does : (metrics : Metrics) → Does (IsStatsCall path) IsStatsCode (usages_of metrics)
  unfolding usages_of
  usages_of-Does metrics = search (does_rules, as_int64-Does) depth 20

  -- `NodeGetVolumeStats` looks at the path only, and ends with the usages or with InvalidArgument,
  -- NotFound or Internal, never with a panic.
  pub volume_stats-Does :
      (e : Env) (id : String) → Does (IsStatsCall path) IsStatsCode (volume_stats e id path)
  unfolding volume_stats
  volume_stats-Does e id =
      search
        (
          does_rules, usages_of-Does, lstat-fits, stat_fs-fits, invalid-fits, missing-fits,
          internal-fits,
        )
        depth 24

as_int64_ok :
    (name : String) (o : Option ℤ) {h h' : History} {n : ℤ}
    → as_int64 name o h ≡ (ok n, h')
    → (o ≡ some n) × (h' ≡ h)
unfolding pure raise
as_int64_ok name none q = cc
as_int64_ok name (some m) q = (cc, cc)

-- The metrics that the usages report.
abbrev pub IsReportOf : Metrics → List Usage → Type 0
IsReportOf m usages =
    (available : ℤ) × (capacity : ℤ) × (used : ℤ) × (free : ℤ) × (inodes : ℤ) × (inodes_used : ℤ)
    × (m.available ≡ some available)
    × (m.capacity ≡ some capacity)
    × (m.used ≡ some used)
    × (m.inodes_free ≡ some free)
    × (m.inodes ≡ some inodes)
    × (m.inodes_used ≡ some inodes_used)
    × (usages
        ≡ record { usage_unit = bytes; available = available; total = capacity; used = used }
          ∷ record {
            usage_unit = inode_count;
            available = free;
            total = inodes;
            used = inodes_used;
          }
          ∷ [])

usages_of_ok :
    (m : Metrics) (h h' : History) {usages : List Usage}
    → usages_of m h ≡ (ok usages, h')
    → IsReportOf m usages
unfolding usages_of
usages_of_ok m h h' q =
    let (a, h1, p1, q1) = bind_ok _ _ q in
    let (b, h2, p2, q2) = bind_ok _ _ q1 in
    let (c, h3, p3, q3) = bind_ok _ _ q2 in
    let (d, h4, p4, q4) = bind_ok _ _ q3 in
    let (i, h5, p5, q5) = bind_ok _ _ q4 in
    let (j, h6, p6, q6) = bind_ok _ _ q5 in
    (
      a,
      b,
      c,
      d,
      i,
      j,
      (as_int64_ok _ _ p1).0,
      (as_int64_ok _ _ p2).0,
      (as_int64_ok _ _ p3).0,
      (as_int64_ok _ _ p4).0,
      (as_int64_ok _ _ p5).0,
      (as_int64_ok _ _ p6).0,
      sym (pure_ok _ q6).0,
    )

refused :
    {A : Type 0} {c : Code} {r : Reason} {a : A} {h h' : History}
    → ◌≡◌ {A = Outcome A × History} (err c r, h) (ok a, h')
    → ⊥
refused q = cc

-- A success of `NodeGetVolumeStats` reports the statistics of the path's file system, number for
-- number: the bytes first, then the inodes.
pub volume_stats_reports :
    (e : Env) (id path : String) (h h' : History) {usages : List Usage}
    → volume_stats e id path h ≡ (ok usages, h')
    → ((e.metrics (Call.lstat path ∷ h) path).error ≡ none)
      × IsReportOf (e.metrics (Call.lstat path ∷ h) path).value usages
unfolding volume_stats ◌>>=◌
volume_stats_reports e id path h h' q = elim (Bool-cases (id == "")) [
  | inl p ↦ absurd (refused (rw p at q))
  | inr p ↦ elim (Bool-cases (path == "")) [
    | inl r ↦ absurd (refused (rw (p, r) at q))
    | inr r ↦ elim (Option-cases (e.mode h path).error) [
      | inr (f, failed) ↦ elim (Bool-cases f.not_exist) [
        | inl x ↦ absurd (refused (rw (p, r, failed, x) at q))
        | inr x ↦ absurd (refused (rw (p, r, failed, x) at q))
      ]
      | inl found ↦ elim (Option-cases (e.metrics (Call.lstat path ∷ h) path).error) [
        | inl read ↦ (
          read,
          usages_of_ok _ (Call.stat_fs path ∷ Call.lstat path ∷ h) h' (rw (p, r, found, read) at q),
        )
        | inr (f, failed) ↦ absurd (refused (rw (p, r, found, failed) at q))
      ]
    ]
  ]
]
