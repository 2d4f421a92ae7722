-- ===== src/Scenarios/Jobs.antt =====
-- Compilations of the packages of a concrete database, and a job.
use android_system_iorap.Prelude.{
  ℕ, ◌≡◌, refl, Bool, true, false, to_int, ◌⊎◌, All, ◌+◌, ◌-◌, ◌*◌, List, [], ◌∷◌, Option, none,
  some, arith, pos, Text,
}
use android_system_iorap.Prelude.Texts.{text, decimal}
use android_system_iorap.Prelude.Outcome.{Outcome, ok, ◌>>=◌}
use android_system_iorap.Database.{PackageModel}
use android_system_iorap.Database.Queries.{select_package}
use android_system_iorap.Database.Integrity.{IsConsistent}
use android_system_iorap.Compiler.Output.{CompilationInput}
use android_system_iorap.Compiler.Arguments.{flag_of, compiler_main, parsed}
use android_system_iorap.Maintenance.{ControllerParameters, fork_parameters, make_compiler_params}
use android_system_iorap.Database.Queries.{select_activities}
use android_system_iorap.Database.Files.{make_dirs, base_dir}
use android_system_iorap.Maintenance.Compile.{
  exited, CompileState, MaintenanceHost, get_perfetto_trace_info, compile_activity,
  compile_activities, compile_package, compile_apps_on_device,
}
use android_system_iorap.Maintenance.Kept.{Grows, is_found, component_of}
use android_system_iorap.Maintenance.Compiled.{compile_package-found}
use android_system_iorap.Prelude.Assoc.{find}
use android_system_iorap.Jobs.{
  parameters_of, progress_began, completed, JobState, JobHost, on_job_scheduled_event,
}
use android_system_iorap.Database.CleanUp.{CleanUpState, clean_up_database}
use android_system_iorap.Prelude.{text_key}
use android_system_iorap.Jobs.Maintained.{IsCompiled, cleaned, on_job_scheduled_event-maintained}
use android_system_iorap.Maintenance.Command.{compiler_main-make_compiler_params}
use android_system_iorap.Scenarios.Databases.{rows, rows-IsConsistent}

abbrev inputs : List CompilationInput
inputs =
    record { filename = text "/a/1"; timestamp_limit_ns = 50 }
    ∷ record { filename = text "/a/3"; timestamp_limit_ns = 70 }
    ∷ []

abbrev parameters : ControllerParameters
parameters = record {
  output_text = false;
  inode_textcache = some (text "/inodes");
  verbose = true;
  recompile = false;
  min_traces = 1;
}

-- For numbers of two digits.
abbrev read_two : Text → Option ℕ
read_two (d ∷ e ∷ []) = some ((d - 48) * 10 + (e - 48))
read_two other = none

compiler_main-make_compiler_params_example :
    compiler_main read_two (make_compiler_params (fork_parameters inputs (text "/a/c") parameters))
    ≡ ok (
        parsed (record {
          perfetto_traces = inputs;
          output_file_name = text "/a/c";
          output_proto = true;
          blacklist_filter = none;
          text_cache_filename = some (text "/inodes");
        }))
unfolding flag_of decimal
compiler_main-make_compiler_params_example =
    compiler_main-make_compiler_params read_two inputs (text "/a/c") parameters (refl, (refl, tt))
      (refl, (refl, tt))

-- Every compiler works, and there is no compiled file yet.
abbrev device : MaintenanceHost
device = record {
  root_path = text "/d";
  exists = λ s path. false;
  can_mkdir = λ path. true;
  fork_answer = λ s argv. exited 0;
  insert_works = λ s. true;
  time = λ s. 9;
}

abbrev idle : CompileState
idle = record {
  db = rows;
  dirs = text "/d" ∷ [];
  activities_last_compiled = 0;
  last_run_ns = 0;
  started = [];
}

compile_package-found_example :
    (r : Bool × CompileState) × (compile_package device parameters (text "com.b") (pos 8) idle
      ≡ ok r)
    × IsConsistent r.1.db
    × Grows rows r.1.db
    × ((r.0 ≡ false)
        ⊎ ((p : PackageModel) × (select_package (text "com.b") (pos 8) r.1.db ≡ some p)
            × All
                (λ a. is_found (component_of p (pos 8) a) r.1.db ≡ true)
                (select_activities p.id r.1.db)))
compile_package-found_example =
    compile_package-found device parameters (λ s argv h. absurd (ground arith)) (text "com.b")
      (pos 8) idle rows-IsConsistent

-- The compilation of a package makes the directories and starts the compiler once.
abbrev has_dirs : Outcome (Bool × CompileState) → Outcome (List Text)
has_dirs m = m >>= λ r. ok r.1.dirs

directories :
    has_dirs (compile_package device parameters (text "com.b") (pos 8) idle)
    ≡ ok (
        text "/d/com.b/8/.Main/compiled_traces"
        ∷ text "/d/com.b/8/.Main"
        ∷ text "/d/com.b/8"
        ∷ text "/d/com.b"
        ∷ text "/d"
        ∷ [])
unfolding compile_package compile_activities compile_activity to_int make_dirs base_dir decimal
    get_perfetto_trace_info
directories = refl

abbrev worker : JobHost
worker = record {
  package_versions = some ((text "com.b", pos 9) ∷ (text "com.a", pos 7) ∷ []);
  can_remove = λ path. true;
  delete_works = λ id. true;
  foreign_keys = true;
  maintenance = device;
  min_traces = 1;
  verbose = false;
  callbacks = true;
}

abbrev waiting : JobState
waiting = record { version_map = none; removed = []; compile = idle; notified = [] }

-- com.b is outdated, com.a is up to date.
on_job_scheduled_event-maintained_example :
    (s' : JobState) × (on_job_scheduled_event worker 4 waiting ≡ ok s')
    × IsConsistent s'.compile.db
    × (s'.compile.db.packages ≡ record { id = 1; name = text "com.a"; version = pos 7 } ∷ [])
    × (s'.notified ≡ progress_began 4 ∷ completed 4 ∷ [])
    × ((u : CleanUpState) × (ret : Bool) × (clean_up_database
            (λ path. true)
            (λ id. true)
            true
            (some ((text "com.b", pos 9) ∷ (text "com.a", pos 7) ∷ []))
            (record { db = rows; removed = [] })
          ≡ ok u)
        × (compile_apps_on_device device (parameters_of worker false) (cleaned waiting u)
            ≡ ok (ret, s'.compile))
        × (s'.removed ≡ u.removed)
        × ((c : CompileState) × (s'.compile ≡ record c { last_run_ns = 9 }))
        × ((ret ≡ false) ⊎ All (IsCompiled s'.compile.db) s'.compile.db.packages))
unfolding find
on_job_scheduled_event-maintained_example =
    on_job_scheduled_event-maintained worker ((text "com.b", pos 9) ∷ (text "com.a", pos 7) ∷ []) 4
      waiting refl (refl, (refl, tt)) (λ path. refl) (λ id. refl) refl
      (λ c argv h. absurd (ground arith)) refl rows-IsConsistent
