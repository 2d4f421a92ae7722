-- ===== src/Maintenance/Kept.antt =====
-- What CompileActivity of src/maintenance/controller.cc keeps of the tables.
use android_system_iorap.Prelude.{
  ℕ, ◌≡◌, ◌≢◌, refl, sym, ◌∙◌, ap, ◌==◌, Bool, true, false, List, [], ◌++◌, some, arith,
  if◌then◌else◌, Bool-cases, inl, inr, ◌⊎◌, Option-cases, Text, ℤ, same_text_iff, append-nil,
  append_assoc, ltb, length,
}
use android_system_iorap.Prelude.Outcome.{ok, ◌>>=◌}
use android_system_iorap.Launch.State.{has_value}
use android_system_iorap.Compiler.Output.{CompilationInput}
use android_system_iorap.Database.{
  PackageModel, ActivityModel, PrefetchFileModel, Database, VersionedComponentName,
}
use android_system_iorap.Database.Queries.{
  select_package, select_activity, select_activities, activity_joins, select_prefetch_file,
  insert_prefetch_file, select_activity_history_for_compile,
}
use android_system_iorap.Database.Tables.{
  select_once-holds, select_once-has_id, select_once-more, select_once-id, select_once-last,
}
use android_system_iorap.Database.Integrity.{
  has_activity, IsConsistent, insert_prefetch_file-IsConsistent,
}
use android_system_iorap.Database.Files.{mkdir_with_parents, compiled_trace_dir}
use android_system_iorap.Maintenance.{ControllerParameters}
use android_system_iorap.Maintenance.Compile.{
  ForkAnswer, fork_failed, abnormal, exited, CompileState, MaintenanceHost, get_perfetto_trace_info,
  fork_result, Compiling, insert_compiled, compile_traces, count_compiled, is_up_to_date,
  compile_activity,
}

abbrev pub more_files : Database → List PrefetchFileModel → Database
more_files db more = record db { prefetch_files = db.prefetch_files ++ more }

-- Only the table of the prefetch files has new rows.
abbrev pub Grows : Database → Database → Type 0
Grows db db' = (more : List PrefetchFileModel) × (db' ≡ more_files db more)

pub Grows-refl : (db : Database) → Grows db db
Grows-refl db =
    ([], ap (λ l. record db { prefetch_files = l }) (sym (append-nil db.prefetch_files)))

pub Grows-trans : (a b c : Database) → Grows a b → Grows b c → Grows a c
Grows-trans a b c (more, e) (more', e') =
    (more ++ more', e' ∙ rw (e, append_assoc a.prefetch_files more more') refl)

-- Whether SelectByVersionedComponentName finds a prefetch file.
abbrev pub is_found : VersionedComponentName → Database → Bool
is_found vcn db = has_value (select_prefetch_file vcn db)

pub is_found-Grows :
    (vcn : VersionedComponentName) (db db' : Database)
    → Grows db db'
    → is_found vcn db ≡ true
    → is_found vcn db' ≡ true
is_found-Grows vcn db db' (more, e) h =
    rw e (select_once-more (λ f. activity_joins vcn db f.activity_id) db.prefetch_files more h)

pub select_package-Grows :
    (name : Text) (version : ℤ) (db db' : Database) (p : PackageModel)
    → Grows db db'
    → select_package name version db ≡ some p
    → select_package name version db' ≡ some p
select_package-Grows name version db db' p (more, e) h = rw e h

pub select_activities-Grows :
    (id : ℕ) (db db' : Database) → Grows db db' → select_activities id db' ≡ select_activities id db
select_activities-Grows id db db' (more, e) = rw e refl

abbrev pub component_of : PackageModel → ℤ → ActivityModel → VersionedComponentName
component_of p version a = record {
  package_name = p.name;
  activity_name = a.name;
  version = version;
}

-- An activity that is found by its name in a package joins the component of that name.
activity_found-joins :
    (name : Text) (version : ℤ) (p : PackageModel) (vcn : VersionedComponentName)
    (a : ActivityModel) (db : Database)
    → IsConsistent db
    → vcn.package_name ≡ p.name
    → vcn.version ≡ version
    → select_package name version db ≡ some p
    → select_activity vcn.activity_name p.id db ≡ some a
    → activity_joins vcn db a.id ≡ true
activity_found-joins name version p vcn a db c en ev hp ha =
    let pa = select_once-holds _ db.activities a ha in
    let pp = select_once-holds _ db.packages p hp in
    let here = select_once-id (λ x. x.id) _ db.activities a c.activities_keyed ha in
    let there = select_once-id (λ x. x.id) _ db.packages p c.packages_keyed hp in
    let of_p : a.package_id ≡ p.id = ground arith in
    rw (here, of_p, there, en, ev) (ground (arith, pa, pp, same_text_iff p.name p.name))

-- What a compilation of a component keeps and gives.
abbrev pub Keeps : VersionedComponentName → Database → Bool × CompileState → Type 0
Keeps vcn db r =
    IsConsistent r.1.db × Grows db r.1.db × ((r.0 ≡ false) ⊎ (is_found vcn r.1.db ≡ true))

abbrev pub Yields : (Bool × CompileState → Type 0) → Compiling → Type 0
Yields Q m = (r : Bool × CompileState) × (m ≡ ok r) × Q r

gives_up :
    (vcn : VersionedComponentName) (s : CompileState)
    → IsConsistent s.db
    → Keeps vcn s.db (false, s)
gives_up vcn s c = (c, Grows-refl s.db, inl refl)

insert_prefetch_file-Keeps :
    (works : Bool) (vcn : VersionedComponentName) (id : ℕ) (path : Text) (s : CompileState)
    → activity_joins vcn s.db id ≡ true
    → has_activity s.db id ≡ true
    → IsConsistent s.db
    → let (o, db) = insert_prefetch_file works id path s.db in
      Keeps vcn s.db (has_value o, record s { db = db })
unfolding insert_prefetch_file
insert_prefetch_file-Keeps false vcn id path s j h c = gives_up vcn s c
insert_prefetch_file-Keeps true vcn id path s j h c = (
  insert_prefetch_file-IsConsistent true id path s.db h c,
  (_, refl),
  inr (select_once-last (λ f. activity_joins vcn s.db f.activity_id) s.db.prefetch_files _ j),
)

module _ (host : MaintenanceHost) (params : ControllerParameters)
    (forks : (s : CompileState) (argv : List Text) → host.fork_answer s argv ≢ fork_failed) where
  answer_Keeps :
      (vcn : VersionedComponentName) (id : ℕ) (path : Text) (s : CompileState) (answer : ForkAnswer)
      → answer ≢ fork_failed
      → activity_joins vcn s.db id ≡ true
      → has_activity s.db id ≡ true
      → IsConsistent s.db
      → Yields (Keeps vcn s.db) (
          fork_result answer >>= λ compiled.
          ok (if compiled then insert_compiled host params id path s else (false, s)))
  answer_Keeps vcn id path s fork_failed n j h c = absurd (n refl)
  answer_Keeps vcn id path s abnormal n j h c = ((false, s), refl, gives_up vcn s c)
  answer_Keeps vcn id path s (exited status) n j h c = elim (Bool-cases (status == 0)) [
    | inl zero_ ↦ rw zero_ (
      insert_compiled host params id path s,
      refl,
      insert_prefetch_file-Keeps (host.insert_works s) vcn id path s j h c,
    )
    | inr other ↦ rw other ((false, s), refl, gives_up vcn s c)
  ]

  compile_traces-Keeps :
      (traces : List CompilationInput) (vcn : VersionedComponentName) (id : ℕ) (s : CompileState)
      → activity_joins vcn s.db id ≡ true
      → has_activity s.db id ≡ true
      → IsConsistent s.db
      → Yields (Keeps vcn s.db) (compile_traces host params traces vcn id s)
  compile_traces-Keeps traces vcn id s j h c =
      let made = mkdir_with_parents host.can_mkdir (compiled_trace_dir host.root_path vcn) s.dirs in
      let s' : CompileState = record s { dirs = made.1 } in
      elim (Bool-cases made.0) [
        | inl there ↦ rw there (answer_Keeps vcn id _ _ _ (forks s' _) j h c)
        | inr missing ↦ rw missing ((false, s'), refl, gives_up vcn s' c)
      ]

  -- A compilation of a component of a package.
  pub compile_activity-Keeps :
      (name : Text) (version : ℤ) (p : PackageModel) (a : ActivityModel) (s : CompileState)
      → IsConsistent s.db
      → select_package name version s.db ≡ some p
      → Yields
          (Keeps (component_of p version a) s.db)
          (compile_activity host params p.id (component_of p version a) s)
  unfolding compile_activity
  compile_activity-Keeps name version p a s c hp =
      let vcn = component_of p version a in
      elim (Bool-cases (is_up_to_date host params vcn s)) [
        | inl fresh ↦ rw fresh ((true, s), refl, (c, Grows-refl s.db, inr (ground arith)))
        | inr stale ↦ rw stale (elim (Option-cases (select_activity a.name p.id s.db)) [
          | inl missing ↦ rw missing ((false, s), refl, gives_up vcn s c)
          | inr (b, found) ↦
              let traces =
                get_perfetto_trace_info s.db (select_activity_history_for_compile b.id s.db) in
              rw found (elim (Bool-cases (ltb (length traces) params.min_traces)) [
                | inl few ↦ rw few ((false, s), refl, gives_up vcn s c)
                | inr enough ↦ rw enough (
                    compile_traces-Keeps traces vcn b.id (count_compiled host params s)
                      (activity_found-joins name version p vcn b s.db c refl refl hp found)
                      (select_once-has_id (λ x. x.id) _ s.db.activities b found) c)
              ])
        ])
      ]
