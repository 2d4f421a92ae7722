-- ===== src/Maintenance/Compiled.antt =====
-- What CompilePackage of src/maintenance/controller.cc leaves in the tables.
use android_system_iorap.Prelude.{
  ◌≡◌, ◌≢◌, refl, Bool, true, false, ◌&&◌, List, [], ◌∷◌, some, arith, Bool-cases, inl, inr, ◌⊎◌,
  Option-cases, All, Text, ℤ,
}
use android_system_iorap.Prelude.Outcome.{ok}
use android_system_iorap.Database.{PackageModel, ActivityModel, Database}
use android_system_iorap.Database.Queries.{select_package, select_activities}
use android_system_iorap.Database.Tables.{}
use android_system_iorap.Database.Integrity.{IsConsistent}
use android_system_iorap.Database.Files.{}
use android_system_iorap.Maintenance.{ControllerParameters}
use android_system_iorap.Maintenance.Compile.{
  fork_failed, CompileState, MaintenanceHost, compile_activities, compile_package,
}
use android_system_iorap.Maintenance.Kept.{
  Grows, Grows-refl, Grows-trans, is_found, is_found-Grows, select_package-Grows,
  select_activities-Grows, component_of, Yields, compile_activity-Keeps,
}

module _ (host : MaintenanceHost) (params : ControllerParameters)
    (forks : (s : CompileState) (argv : List Text) → host.fork_answer s argv ≢ fork_failed) where
  abbrev AllFound :
      PackageModel → ℤ → Bool → List ActivityModel → Database → Bool × CompileState → Type 0
  AllFound p version ret activities db r =
      IsConsistent r.1.db
      × Grows db r.1.db
      × ((r.0 ≡ false)
          ⊎ ((ret ≡ true)
              × All (λ a. is_found (component_of p version a) r.1.db ≡ true) activities))

  compile_activities-AllFound :
      (name : Text) (version : ℤ) (p : PackageModel) (ret : Bool) (activities : List ActivityModel)
      (s : CompileState)
      → IsConsistent s.db
      → select_package name version s.db ≡ some p
      → Yields
          (AllFound p version ret activities s.db)
          (compile_activities host params p version ret activities s)
  unfolding compile_activities
  compile_activities-AllFound name version p ret [] s c hp = elim (Bool-cases ret) [
    | inl fine ↦ ((ret, s), refl, (c, Grows-refl s.db, inr (fine, tt)))
    | inr failed ↦ ((ret, s), refl, (c, Grows-refl s.db, inl failed))
  ]
  compile_activities-AllFound name version p ret (a ∷ activities) s c hp =
      let (r, e, (c1, g1, f1)) = compile_activity-Keeps host params forks name version p a s c hp in
      let (q, e', (c2, g2, f2)) =
        compile_activities-AllFound name version p (ret && r.0) activities r.1 c1
          (select_package-Grows name version s.db r.1.db p g1 hp) in
      (
        q,
        rw e e',
        (
          c2,
          Grows-trans s.db r.1.db q.1.db g1 g2,
          elim f2 [
            | inl failed ↦ inl failed
            | inr (fine, later) ↦ elim f1 [
              | inl failed ↦ absurd (ground arith)
              | inr found ↦ inr (
                ground arith,
                (is_found-Grows (component_of p version a) r.1.db q.1.db g2 found, later),
              )
            ]
          ],
        ),
      )

  -- If the database is consistent and no fork fails, CompilePackage returns; the database is consistent
  -- and differs at most in new rows for prefetch files; and if it returns true, the package of the given
  -- name and version is there, and for each of its activities a prefetch file is found by the component
  -- name.
  pub compile_package-found :
      (name : Text) (version : ℤ) (s : CompileState)
      → IsConsistent s.db
      → (r : Bool × CompileState) × (compile_package host params name version s ≡ ok r)
        × IsConsistent r.1.db
        × Grows s.db r.1.db
        × ((r.0 ≡ false)
            ⊎ ((p : PackageModel) × (select_package name version r.1.db ≡ some p)
                × All
                    (λ a. is_found (component_of p version a) r.1.db ≡ true)
                    (select_activities p.id r.1.db)))
  unfolding compile_package
  compile_package-found name version s c = elim (Option-cases (select_package name version s.db)) [
    | inl missing ↦ rw missing ((false, s), refl, c, Grows-refl s.db, inl refl)
    | inr (p, found) ↦ rw found (
        let (r, e, (c1, g, f)) =
          compile_activities-AllFound name version p true (select_activities p.id s.db) s c found in
        (
          r,
          e,
          c1,
          g,
          elim f [
            | inl failed ↦ inl failed
            | inr (fine, there) ↦ inr (
              p,
              select_package-Grows name version s.db r.1.db p g found,
              rw (select_activities-Grows p.id s.db r.1.db g) there,
            )
          ],
        ))
  ]
