-- ===== src/Database/Stale.antt =====
-- Which packages CleanUpDatabase of src/maintenance/db_cleaner.cc deletes.
use android_system_iorap.Prelude.{
  ℕ, ◌≡◌, refl, sym, ◌∙◌, ap, ◌==◌, Bool, true, false, not, List, [], ◌∷◌, Option, none, some,
  if◌then◌else◌, Bool-cases, inl, inr, arith, All, Text, text_key, ℤ, same_int,
}
use android_system_iorap.Prelude.Outcome.{Outcome, ok, ◌>>=◌}
use android_system_iorap.Prelude.Assoc.{find}
use android_system_iorap.Launch.State.{has_value}
use android_system_iorap.Versions.{VersionMap, find_version}
use android_system_iorap.Database.{
  PackageModel, ActivityModel, PrefetchFileModel, VersionedComponentName, delete_where,
}
use android_system_iorap.Database.Queries.{
  delete_package, select_activities, history_joins, select_prefetch_file,
}
use android_system_iorap.Database.Tables.{
  All-delete_where, IsKeyed, delete_where-IsKeyed, delete_each, delete_each_self,
}
use android_system_iorap.Database.Integrity.{IsConsistent, has_history, has_activity}
use android_system_iorap.Database.Cascade.{delete_package-IsConsistent}
use android_system_iorap.Database.CleanUp.{
  CleanUpState, clean_up_files_for_activity, clean_up_activities, clean_up_files_for_package_id,
  clean_up_version, clean_up_all, clean_up_database,
}
use android_system_iorap.Database.Cleaned.{without_file, clean_up_files_for_activity_exact}

-- The version map has another version for the package.
abbrev is_outdated : Option ℤ → PackageModel → Bool
is_outdated none p = false
is_outdated (some version) p = not (same_int version p.version)

abbrev is_stale : VersionMap → PackageModel → Bool
is_stale m p = is_outdated (find p.name m) p

-- The version map knows the package.
abbrev pub is_known : VersionMap → PackageModel → Bool
is_known m p = has_value (find p.name m)

-- The version map has the row's version for the package.
abbrev pub is_version : Option ℤ → ℤ → Bool
is_version none version = false
is_version (some installed) version = same_int installed version

abbrev pub is_installed : VersionMap → PackageModel → Bool
is_installed m p = is_version (find p.name m) p.version

outdated-version :
    (o : Option ℤ) (p : PackageModel)
    → has_value o ≡ true
    → is_outdated o p ≡ not (is_version o p.version)
outdated-version none p h = absurd (ground arith)
outdated-version (some version) p h = refl

-- Of known packages, exactly those whose version is installed are kept.
delete_where-installed :
    (m : VersionMap) (packages : List PackageModel)
    → All (λ p. is_known m p ≡ true) packages
    → delete_where (is_stale m) packages ≡ delete_where (λ p. not (is_installed m p)) packages
delete_where-installed m [] h = refl
delete_where-installed m (p ∷ packages) (known, later) =
    rw (delete_where-installed m packages later, outdated-version (find p.name m) p known) refl

without_file-All {κ} :
    (P : PrefetchFileModel → Type κ) (o : Option PrefetchFileModel) (rows : List PrefetchFileModel)
    → All P rows
    → All P (without_file o rows)
without_file-All P none rows a = a
without_file-All P (some f) rows a = All-delete_where P (λ g. g.id == f.id) rows a

without_file-IsKeyed :
    (o : Option PrefetchFileModel) (rows : List PrefetchFileModel)
    → IsKeyed (λ f. f.id) rows
    → IsKeyed (λ f. f.id) (without_file o rows)
without_file-IsKeyed none rows k = k
without_file-IsKeyed (some f) rows k = delete_where-IsKeyed (λ g. g.id) (λ g. g.id == f.id) rows k

-- A consistent database with the given packages.
abbrev Leaves : List PackageModel → Outcome CleanUpState → Type 0
Leaves packages m = (s : CleanUpState) × (m ≡ ok s) × IsConsistent s.db × (s.db.packages ≡ packages)

then_Leaves :
    (m : Outcome CleanUpState) (k : CleanUpState → Outcome CleanUpState)
    (before after : List PackageModel)
    → Leaves before m
    → ((s : CleanUpState) → IsConsistent s.db → s.db.packages ≡ before → Leaves after (k s))
    → Leaves after (m >>= k)
then_Leaves m k before after (s, e, c, p) f = rw e (f s c p)

module _ (can_remove : Text → Bool) (can : (path : Text) → can_remove path ≡ true) where
  activity_Leaves :
      (vcn : VersionedComponentName) (s : CleanUpState)
      → IsConsistent s.db
      → Leaves s.db.packages (clean_up_files_for_activity can_remove vcn s)
  activity_Leaves vcn s c = (
    _,
    clean_up_files_for_activity_exact can_remove can vcn s c.raw_traces_keyed,
    record {
      packages_keyed = c.packages_keyed;
      activities_keyed = c.activities_keyed;
      histories_keyed = c.histories_keyed;
      raw_traces_keyed =
          delete_where-IsKeyed (λ t. t.id) (λ t. history_joins vcn s.db t.history_id)
            s.db.raw_traces c.raw_traces_keyed;
      prefetch_files_keyed =
          without_file-IsKeyed (select_prefetch_file vcn s.db) s.db.prefetch_files
            c.prefetch_files_keyed;
      activities_refer = c.activities_refer;
      histories_refer = c.histories_refer;
      raw_traces_refer =
          All-delete_where (λ t. has_history s.db t.history_id ≡ true) _ s.db.raw_traces
            c.raw_traces_refer;
      prefetch_files_refer =
          without_file-All (λ f. has_activity s.db f.activity_id ≡ true)
            (select_prefetch_file vcn s.db) s.db.prefetch_files c.prefetch_files_refer;
    },
    refl,
  )

  activities_Leave :
      (name : Text) (version : ℤ) (activities : List ActivityModel) (s : CleanUpState)
      → IsConsistent s.db
      → Leaves s.db.packages (clean_up_activities can_remove name version activities s)
  unfolding clean_up_activities
  activities_Leave name version [] s c = (s, refl, c, refl)
  activities_Leave name version (a ∷ activities) s c =
      then_Leaves _ _ s.db.packages s.db.packages
        (activity_Leaves (record { package_name = name; activity_name = a.name; version = version })
          s c)
        (λ s' c' e. rw (sym e) (activities_Leave name version activities s' c'))

  -- All rows can be deleted, and the foreign keys are enforced.
  module _ (delete_works : ℕ → Bool) (works : (id : ℕ) → delete_works id ≡ true) where
    abbrev without : Bool → PackageModel → List PackageModel → List PackageModel
    without outdated p rows = if outdated then delete_where (λ q. q.id == p.id) rows else rows

    version_Leaves :
        (o : Option ℤ) (p : PackageModel) (s : CleanUpState)
        → IsConsistent s.db
        → Leaves
            (without (is_outdated o p) p s.db.packages)
            (clean_up_version can_remove delete_works true o p s)
    unfolding clean_up_files_for_package_id delete_package
    version_Leaves none p s c = (s, refl, c, refl)
    version_Leaves (some version) p s c = elim (Bool-cases (same_int version p.version)) [
      | inl same ↦ rw same (s, refl, c, refl)
      | inr other ↦ rw other (
          then_Leaves _ _ s.db.packages (delete_where (λ q. q.id == p.id) s.db.packages)
            (activities_Leave p.name p.version (select_activities p.id s.db) s c)
            (λ s' c' e. rw (works p.id) (
              _,
              refl,
              delete_package-IsConsistent p.id s'.db c',
              ap (delete_where (λ q. q.id == p.id)) e,
            )))
    ]

    all_Leave :
        (m : VersionMap) (packages : List PackageModel) (s : CleanUpState)
        → IsConsistent s.db
        → Leaves
            (delete_each (λ p. p.id) (is_stale m) packages s.db.packages)
            (clean_up_all can_remove delete_works true (some m) packages s)
    unfolding clean_up_all find_version
    all_Leave m [] s c = (s, refl, c, refl)
    all_Leave m (p ∷ packages) s c =
        then_Leaves _ _ (without (is_stale m p) p s.db.packages) _
          (version_Leaves (find p.name m) p s c)
          (λ s' c' e. rw (sym e) (all_Leave m packages s' c'))

    -- If there is a version map that knows every package, all files can be removed, all packages can be
    -- deleted, and the foreign keys are enforced, then the clean up of a consistent database ends with a
    -- consistent database, and keeps exactly the packages whose version the map has.
    pub clean_up_database-installed :
        (m : VersionMap) (s : CleanUpState)
        → IsConsistent s.db
        → All (λ p. is_known m p ≡ true) s.db.packages
        → (s' : CleanUpState) × (clean_up_database can_remove delete_works true (some m) s ≡ ok s')
          × IsConsistent s'.db
          × (s'.db.packages ≡ delete_where (λ p. not (is_installed m p)) s.db.packages)
    clean_up_database-installed m s c known =
        let (s', e, c', p) = all_Leave m s.db.packages s c in
        (
          s',
          e,
          c',
          p
              ∙ delete_each_self (λ p. p.id) (is_stale m) s.db.packages c.packages_keyed
              ∙ delete_where-installed m s.db.packages known,
        )
