-- ===== src/Database/Files.antt =====
-- The paths of src/db/file_models.cc and how their directories are made. `root_path` is the property
-- iorapd.root.dir.
use android_system_iorap.Prelude.{
  ℕ, ◌+◌, ◌==◌, Bool, true, false, ◌||◌, List, [], ◌∷◌, ◌++◌, if◌then◌else◌, Text, same_text, ℤ,
  pos, negsuc, to_int,
}
use android_system_iorap.Prelude.Texts.{text, decimal}
use android_system_iorap.Database.{VersionedComponentName}

-- `ss << version`
abbrev pub int_text : ℤ → Text
int_text (pos n) = decimal n
int_text (negsuc n) = text "-" ++ decimal (n + 1)

-- BaseDir and FilePath
module _ (root_path : Text) (vcn : VersionedComponentName) where
  unfoldable pub base_dir : Text → Text
  base_dir sub_dir =
      root_path
      ++ (text "/"
          ++ (vcn.package_name
              ++ (text "/"
                  ++ (int_text (to_int vcn.version)
                      ++ (text "/" ++ (vcn.activity_name ++ (text "/" ++ sub_dir)))))))

  abbrev pub file_path_in : Text → Text → Text
  file_path_in sub_dir base_file = base_dir sub_dir ++ (text "/" ++ base_file)

  -- PerfettoTraceFileModel, at a time.
  abbrev pub perfetto_trace_path : ℕ → Text
  perfetto_trace_path timestamp =
      file_path_in (text "raw_traces") (decimal timestamp ++ text ".perfetto_trace.pb")

  -- CompiledTraceFileModel
  abbrev pub compiled_trace_dir : Text
  compiled_trace_dir = base_dir (text "compiled_traces")

  abbrev pub compiled_trace_path : Text
  compiled_trace_path = file_path_in (text "compiled_traces") (text "compiled_trace.pb")

abbrev pub is_dir : Text → List Text → Bool
is_dir path [] = false
is_dir path (d ∷ dirs) = same_text d path || is_dir path dirs

-- The directories, and whether mkdir works for a path.
module _ (can_mkdir : Text → Bool) where
  -- What becomes of the directories, and whether there is `dir_path` now.
  abbrev pub make_dir : Text → List Text → Bool × List Text
  make_dir dir_path dirs =
      if is_dir dir_path dirs
      then (true, dirs)
      else if can_mkdir dir_path
      then (true, dir_path ∷ dirs)
      else (false, dirs)

  -- The loop: `done` is what stands before the rest of the path.
  unfoldable pub make_dirs : Text → Text → List Text → Bool × List Text
  make_dirs done [] dirs = make_dir done dirs
  make_dirs done (c ∷ path) dirs =
      let (made, ds) = if c == 47 then make_dir done dirs else (true, dirs) in
      let rest = make_dirs (done ++ c ∷ []) path ds in if made then rest else (false, ds)

  -- MkdirWithParents
  abbrev pub mkdir_with_parents : Text → List Text → Bool × List Text
  mkdir_with_parents [] dirs = (true, dirs)
  mkdir_with_parents (c ∷ path) dirs = make_dirs (c ∷ []) path dirs
