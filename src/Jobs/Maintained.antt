-- ===== src/Jobs/Maintained.antt =====
-- What a maintenance job of src/manager/event_manager.cc leaves.
use android_system_iorap.Prelude.{
  ℕ, ◌≡◌, ◌≢◌, refl, subst, sym, ap, Bool, true, false, ◌&&◌, List, [], ◌∷◌, ◌++◌, append_assoc,
  some, Text, ℤ, not, All, ◌⊎◌, inl, inr, Bool-cases, arith,
}
use android_system_iorap.Prelude.Outcome.{ok}
use android_system_iorap.Versions.{VersionMap, update_all}
use android_system_iorap.Database.{PackageModel, ActivityModel, Database, delete_where}
use android_system_iorap.Database.Integrity.{IsConsistent}
use android_system_iorap.Database.Stale.{is_known, is_installed, clean_up_database-installed}
use android_system_iorap.Database.Queries.{select_package, select_activities}
use android_system_iorap.Database.CleanUp.{CleanUpState, clean_up_database}
use android_system_iorap.Maintenance.{ControllerParameters}
use android_system_iorap.Maintenance.Compile.{
  fork_failed, CompileState, MaintenanceHost, compile_packages, compile_apps_on_device,
}
use android_system_iorap.Maintenance.Kept.{
  Grows, Grows-refl, Grows-trans, is_found, is_found-Grows, select_package-Grows,
  select_activities-Grows, component_of,
}
use android_system_iorap.Maintenance.Compiled.{compile_package-found}
use android_system_iorap.Jobs.{
  progress_began, completed, JobState, JobHost, parameters_of, start_maintenance,
  on_job_scheduled_event,
}

-- For each activity of the package, a compiled file is found.
abbrev pub IsCompiled : Database → PackageModel → Type 0
IsCompiled db p =
    (q : PackageModel) × (select_package p.name p.version db ≡ some q)
    × All (λ a. is_found (component_of q p.version a) db ≡ true) (select_activities q.id db)

found-Grows :
    (db db' : Database) (p : PackageModel) (version : ℤ) (activities : List ActivityModel)
    → Grows db db'
    → All (λ a. is_found (component_of p version a) db ≡ true) activities
    → All (λ a. is_found (component_of p version a) db' ≡ true) activities
found-Grows db db' p version [] g h = tt
found-Grows db db' p version (a ∷ activities) g (here, later) = (
  is_found-Grows (component_of p version a) db db' g here,
  found-Grows db db' p version activities g later,
)

IsCompiled-Grows :
    (db db' : Database) (p : PackageModel) → Grows db db' → IsCompiled db p → IsCompiled db' p
IsCompiled-Grows db db' p g (q, e, found) = (
  q,
  select_package-Grows p.name p.version db db' q g e,
  rw (select_activities-Grows q.id db db' g)
      (found-Grows db db' q p.version (select_activities q.id db) g found),
)

module _ (host : MaintenanceHost) (params : ControllerParameters)
    (forks : (s : CompileState) (argv : List Text) → host.fork_answer s argv ≢ fork_failed) where
  pub compile_packages-IsCompiled :
      (ret : Bool) (packages : List PackageModel) (s : CompileState)
      → IsConsistent s.db
      → (r : Bool × CompileState) × (compile_packages host params ret packages s ≡ ok r)
        × IsConsistent r.1.db
        × Grows s.db r.1.db
        × ((r.0 ≡ false) ⊎ ((ret ≡ true) × All (IsCompiled r.1.db) packages))
  unfolding compile_packages
  compile_packages-IsCompiled ret [] s c = (
    (ret, s),
    refl,
    c,
    Grows-refl s.db,
    elim (Bool-cases ret) [ inl fine ↦ inr (fine, tt) | inr failed ↦ inl failed ],
  )
  compile_packages-IsCompiled ret (p ∷ packages) s c =
      let (r, e, c1, g1, f1) = compile_package-found host params forks p.name p.version s c in
      let (q, e', c2, g2, f2) = compile_packages-IsCompiled (ret && r.0) packages r.1 c1 in
      (
        q,
        rw e e',
        c2,
        Grows-trans s.db r.1.db q.1.db g1 g2,
        elim f2 [
          | inl failed ↦ inl failed
          | inr (fine, later) ↦ elim f1 [
            | inl failed ↦ absurd (ground arith)
            | inr there ↦ inr (ground arith, (IsCompiled-Grows r.1.db q.1.db p g2 there, later))
          ]
        ],
      )

-- The state in which a job compiles, with the tables of a clean up.
abbrev pub cleaned : JobState → CleanUpState → CompileState
cleaned s u = record s.compile { db = u.db }

-- If the package manager answers with its versions and knows every package of the tables, all files can
-- be removed and all packages be deleted, the foreign keys are enforced, no fork fails, and the callbacks
-- are alive, then a scheduled job ends: its start and its completion are notified, in this order; a
-- consistent database is consistent again; its packages are those whose version is installed; what is
-- left is what CompileAppsOnDevice, behind the clean up with these versions, leaves; the time of this run
-- is remembered; and if CompileAppsOnDevice returned true, a compiled file is found for each activity of
-- each package.
pub on_job_scheduled_event-maintained :
    (host : JobHost) (m : VersionMap) (request_id : ℕ) (s : JobState)
    → host.package_versions ≡ some m
    → All (λ p. is_known m p ≡ true) s.compile.db.packages
    → ((path : Text) → host.can_remove path ≡ true)
    → ((id : ℕ) → host.delete_works id ≡ true)
    → host.foreign_keys ≡ true
    → ((c : CompileState) (argv : List Text) → host.maintenance.fork_answer c argv ≢ fork_failed)
    → host.callbacks ≡ true
    → IsConsistent s.compile.db
    → (s' : JobState) × (on_job_scheduled_event host request_id s ≡ ok s')
      × IsConsistent s'.compile.db
      × (s'.compile.db.packages ≡ delete_where (λ p. not (is_installed m p)) s.compile.db.packages)
      × (s'.notified ≡ s.notified ++ progress_began request_id ∷ completed request_id ∷ [])
      × ((u : CleanUpState) × (ret : Bool) × (clean_up_database host.can_remove host.delete_works
              true
              (some m)
              (record { db = s.compile.db; removed = s.removed })
            ≡ ok u)
          × (compile_apps_on_device host.maintenance (parameters_of host false) (cleaned s u)
              ≡ ok (ret, s'.compile))
          × (s'.removed ≡ u.removed)
          × ((c : CompileState) × (s'.compile ≡ record c { last_run_ns = host.maintenance.time c }))
          × ((ret ≡ false) ⊎ All (IsCompiled s'.compile.db) s'.compile.db.packages))
unfolding on_job_scheduled_event start_maintenance update_all
on_job_scheduled_event-maintained host m request_id s em known can works keys forks alive c =
    let (u, e, c1, p) =
      clean_up_database-installed host.can_remove can host.delete_works works m
        (record { db = s.compile.db; removed = s.removed }) c known in
    let started : CompileState = record (cleaned s u) { activities_last_compiled = 0 } in
    let (r, e', c2, (more, g), compiled) =
      compile_packages-IsCompiled host.maintenance (parameters_of host false) forks true
        u.db.packages started c1 in
    rw (em, keys, alive, e, e')
      (
        _,
        refl,
        c2,
        rw g p,
        append_assoc s.notified (progress_began request_id ∷ []) (completed request_id ∷ []),
        (
          u,
          r.0,
          refl,
          rw e' refl,
          refl,
          (r.1, refl),
          elim compiled [
            | inl failed ↦ inl failed
            | inr (fine, there) ↦
                inr (subst (All (IsCompiled r.1.db)) (sym (ap (λ d. d.packages) g)) there)
          ],
        ),
      )
