-- ===== src/Compiler/Arguments.antt =====
-- Main of src/compiler/main.cc, the command iorap.cmd.compiler: its arguments, up to the call of
-- PerformCompilation. `parse_uint` is android::base::ParseUint.
use android_system_iorap.Prelude.{
  ℕ, Bool, true, false, not, ◌||◌, ◌&&◌, ◌==◌, List, [], ◌∷◌, ◌++◌, Option, none, some,
  if◌then◌else◌, Text, same_text, length,
}
use android_system_iorap.Prelude.Texts.{text}
use android_system_iorap.Prelude.Outcome.{Outcome, ok, ◌>>=◌}
use android_system_iorap.Compiler.Output.{CompilationInput, make_compilation_inputs}

pub data Flag : Type 0 where
  help output_proto output_text inode_textcache blacklist_filter verbose wait timestamp_limit : Flag
  input_filename : Flag

abbrev pub is_either : Text → Text → Text → Bool
is_either long short argstr = same_text argstr long || same_text argstr short

-- The tests of the argument, in their order.
unfoldable pub flag_of : Text → Flag
flag_of argstr =
    if is_either (text "--help") (text "-h") argstr
    then help
    else if is_either (text "--output-proto") (text "-op") argstr
    then output_proto
    else if is_either (text "--output-text") (text "-ot") argstr
    then output_text
    else if is_either (text "--inode-textcache") (text "-it") argstr
    then inode_textcache
    else if is_either (text "--blacklist-filter") (text "-bf") argstr
    then blacklist_filter
    else if is_either (text "--verbose") (text "-v") argstr
    then verbose
    else if is_either (text "--wait") (text "-w") argstr
    then wait
    else if is_either (text "--timestamp_limit_ns") (text "-tl") argstr
    then timestamp_limit
    else input_filename

pub record CompilerArguments : Type 0 where
  pub arg_blacklist_filter : Option Text
  pub arg_output_proto : Text
  pub arg_output_text : Bool
  pub arg_inode_textcache : Option Text
  pub timestamp_limit_ns : List ℕ
  pub arg_input_filenames : List Text
  pub enable_verbose : Bool
  pub wait_for_keystroke : Bool

abbrev pub no_arguments : CompilerArguments
no_arguments = record {
  arg_blacklist_filter = none;
  arg_output_proto = [];
  arg_output_text = false;
  arg_inode_textcache = none;
  timestamp_limit_ns = [];
  arg_input_filenames = [];
  enable_verbose = false;
  wait_for_keystroke = false;
}

-- Usage, which exits; a message and the return value 1; or the arguments.
pub data Parsed {ℓ} (A : Type ℓ) : Type ℓ where
  usage refused : Parsed A
  parsed : A → Parsed A

abbrev pub push_limit :
    Option ℕ
    → (CompilerArguments → Parsed CompilerArguments)
    → CompilerArguments
    → Parsed CompilerArguments
push_limit none k s = refused
push_limit (some timestamp) k s =
    k (record s { timestamp_limit_ns = s.timestamp_limit_ns ++ timestamp ∷ [] })

-- One argument: `k` goes on with the next argument, and `next`, if there is one, is that argument and
-- how to go on behind it.
abbrev pub take_argument :
    (Text → Option ℕ)
    → Flag
    → Text
    → (CompilerArguments → Parsed CompilerArguments)
    → Option (Text × (CompilerArguments → Parsed CompilerArguments))
    → CompilerArguments
    → Parsed CompilerArguments
take_argument parse_uint help argstr k next s = usage
take_argument parse_uint output_proto argstr k none s = refused
take_argument parse_uint output_proto argstr k (some (arg_next, behind)) s =
    behind (record s { arg_output_proto = arg_next })
take_argument parse_uint output_text argstr k next s = k (record s { arg_output_text = true })
take_argument parse_uint inode_textcache argstr k none s = refused
take_argument parse_uint inode_textcache argstr k (some (arg_next, behind)) s =
    behind (record s { arg_inode_textcache = some arg_next })
take_argument parse_uint blacklist_filter argstr k none s = refused
take_argument parse_uint blacklist_filter argstr k (some (arg_next, behind)) s =
    behind (record s { arg_blacklist_filter = some arg_next })
take_argument parse_uint verbose argstr k next s = k (record s { enable_verbose = true })
take_argument parse_uint wait argstr k next s = k (record s { wait_for_keystroke = true })
take_argument parse_uint timestamp_limit argstr k none s = refused
take_argument parse_uint timestamp_limit argstr k (some (arg_next, behind)) s =
    push_limit (parse_uint arg_next) behind s
take_argument parse_uint input_filename argstr k next s =
    k (record s { arg_input_filenames = s.arg_input_filenames ++ argstr ∷ [] })

-- The loop over the arguments.
unfoldable pub parse_arguments :
    (Text → Option ℕ) → List Text → CompilerArguments → Parsed CompilerArguments
parse_arguments parse_uint [] s = parsed s
parse_arguments parse_uint (argstr ∷ []) s =
    take_argument parse_uint (flag_of argstr) argstr parsed none s
parse_arguments parse_uint (argstr ∷ arg_next ∷ args) s =
    take_argument parse_uint (flag_of argstr) argstr (parse_arguments parse_uint (arg_next ∷ args))
      (some (arg_next, parse_arguments parse_uint args)) s

-- What PerformCompilation is called with; without a text cache the disk is scanned.
pub record CompilationRequest : Type 0 where
  pub perfetto_traces : List CompilationInput
  pub output_file_name : Text
  pub output_proto : Bool
  pub blacklist_filter : Option Text
  pub text_cache_filename : Option Text

abbrev pub is_nil {ℓ} : {A : Type ℓ} → List A → Bool
is_nil [] = true
is_nil (x ∷ xs) = false

abbrev pub request_of : CompilerArguments → List CompilationInput → CompilationRequest
request_of s perfetto_traces = record {
  perfetto_traces = perfetto_traces;
  output_file_name = s.arg_output_proto;
  output_proto = not s.arg_output_text;
  blacklist_filter = s.arg_blacklist_filter;
  text_cache_filename = s.arg_inode_textcache;
}

abbrev pub check_sizes : Parsed CompilerArguments → Outcome (Parsed CompilationRequest)
check_sizes usage = ok usage
check_sizes refused = ok refused
check_sizes (parsed s) =
    if not (is_nil s.timestamp_limit_ns)
      && not (length s.timestamp_limit_ns == length s.arg_input_filenames)
    then ok refused
    else make_compilation_inputs s.arg_input_filenames s.timestamp_limit_ns >>= λ perfetto_traces.
        ok (parsed (request_of s perfetto_traces))

-- Main, for the arguments behind the program's name.
unfoldable pub compiler_main : (Text → Option ℕ) → List Text → Outcome (Parsed CompilationRequest)
compiler_main parse_uint [] = ok usage
compiler_main parse_uint (argstr ∷ args) =
    check_sizes (parse_arguments parse_uint (argstr ∷ args) no_arguments)
