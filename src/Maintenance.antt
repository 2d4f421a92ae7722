-- ===== src/Maintenance.antt =====
-- The parameters of src/maintenance/controller.h and controller.cc, and the arguments that the compiler
-- is started with (src/common/cmd_utils.h).
pub mod Command
pub mod Compile
pub mod Kept
pub mod Compiled
use android_system_iorap.Prelude.{
  ℕ, Bool, List, [], ◌∷◌, ◌++◌, Option, none, some, if◌then◌else◌, Text, map,
}
use android_system_iorap.Prelude.Texts.{text, decimal}
use android_system_iorap.Compiler.Output.{CompilationInput}

-- Without the interface that forks and executes.
pub record ControllerParameters : Type 0 where
  pub output_text : Bool
  pub inode_textcache : Option Text
  pub verbose : Bool
  pub recompile : Bool
  pub min_traces : ℕ

pub record CompilerForkParameters : Type 0 where
  pub input_pbs : List Text
  pub timestamp_limit_ns : List ℕ
  pub output_proto : Text
  pub controller_params : ControllerParameters

-- The constructor
abbrev pub fork_parameters :
    List CompilationInput → Text → ControllerParameters → CompilerForkParameters
fork_parameters perfetto_traces output_proto controller_params = record {
  input_pbs = map (λ t. t.filename) perfetto_traces;
  timestamp_limit_ns = map (λ t. t.timestamp_limit_ns) perfetto_traces;
  output_proto = output_proto;
  controller_params = controller_params;
}

-- AppendArgsRepeatedly with a name, for numbers
unfoldable pub append_args_repeatedly : Text → List ℕ → List Text
append_args_repeatedly args [] = []
append_args_repeatedly args (v ∷ values) = args ∷ decimal v ∷ append_args_repeatedly args values

abbrev pub text_cache_args : Option Text → List Text
text_cache_args none = []
text_cache_args (some name) = text "--inode-textcache" ∷ name ∷ []

-- MakeCompilerParams
unfoldable pub make_compiler_params : CompilerForkParameters → List Text
make_compiler_params params =
    params.input_pbs
    ++ (append_args_repeatedly (text "--timestamp_limit_ns") params.timestamp_limit_ns
        ++ ((if params.controller_params.output_text then text "--output-text" ∷ [] else [])
            ++ ((text "--output-proto" ∷ params.output_proto ∷ [])
                ++ (text_cache_args params.controller_params.inode_textcache
                    ++ (if params.controller_params.verbose then text "--verbose" ∷ [] else [])))))
