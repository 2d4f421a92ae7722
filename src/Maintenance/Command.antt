-- ===== src/Maintenance/Command.antt =====
-- The arguments that the maintenance makes, as src/compiler/main.cc reads them.
use android_system_iorap.Prelude.{
  ℕ, ◌≡◌, refl, ◌∙◌, ap, Bool, true, false, not, ◌&&◌, List, [], ◌∷◌, ◌++◌, Option, none, some,
  arith, if◌then◌else◌, Text, map, All, length, append-nil, append_assoc, ◌==◌,
}
use android_system_iorap.Prelude.Texts.{text, decimal}
use android_system_iorap.Prelude.Outcome.{ok}
use android_system_iorap.Compiler.Output.{
  CompilationInput, zip_inputs, limits_or_max, make_compilation_inputs,
}
use android_system_iorap.Compiler.Arguments.{
  input_filename, flag_of, CompilerArguments, no_arguments, parsed, parse_arguments, is_nil,
  check_sizes, compiler_main,
}
use android_system_iorap.Maintenance.{
  ControllerParameters, fork_parameters, append_args_repeatedly, text_cache_args,
  make_compiler_params,
}

module _ (parse_uint : Text → Option ℕ) where
  parse_input :
      (a : Text) (args : List Text) (s : CompilerArguments)
      → flag_of a ≡ input_filename
      → parse_arguments parse_uint (a ∷ args) s
        ≡ parse_arguments parse_uint args
            (record s { arg_input_filenames = s.arg_input_filenames ++ a ∷ [] })
  unfolding parse_arguments
  parse_input a [] s h = rw h refl
  parse_input a (b ∷ args) s h = rw h refl

  parse_inputs :
      (inputs args : List Text) (s : CompilerArguments)
      → All (λ a. flag_of a ≡ input_filename) inputs
      → parse_arguments parse_uint (inputs ++ args) s
        ≡ parse_arguments parse_uint args
            (record s { arg_input_filenames = s.arg_input_filenames ++ inputs })
  parse_inputs [] args s h = rw (append-nil s.arg_input_filenames) refl
  parse_inputs (a ∷ inputs) args s (h, later) =
      parse_input a (inputs ++ args) s h
      ∙ parse_inputs inputs args
          (record s { arg_input_filenames = s.arg_input_filenames ++ a ∷ [] }) later
      ∙ rw (append_assoc s.arg_input_filenames (a ∷ []) inputs) refl

  parse_limits :
      (limits : List ℕ) (args : List Text) (s : CompilerArguments)
      → All (λ t. parse_uint (decimal t) ≡ some t) limits
      → parse_arguments parse_uint
          (append_args_repeatedly (text "--timestamp_limit_ns") limits ++ args)
          s
        ≡ parse_arguments parse_uint args
            (record s { timestamp_limit_ns = s.timestamp_limit_ns ++ limits })
  unfolding parse_arguments append_args_repeatedly flag_of
  parse_limits [] args s h = rw (append-nil s.timestamp_limit_ns) refl
  parse_limits (t ∷ limits) args s (h, later) = rw h (
      parse_limits limits args (record s { timestamp_limit_ns = s.timestamp_limit_ns ++ t ∷ [] })
        later
      ∙ rw (append_assoc s.timestamp_limit_ns (t ∷ []) limits) refl)

  -- The options at the end.
  parse_options :
      (p : ControllerParameters) (out : Text) (s : CompilerArguments)
      → s.arg_output_text ≡ false
      → s.arg_inode_textcache ≡ none
      → s.enable_verbose ≡ false
      → parse_arguments parse_uint
          ((if p.output_text then text "--output-text" ∷ [] else [])
            ++ ((text "--output-proto" ∷ out ∷ [])
                ++ (text_cache_args p.inode_textcache
                    ++ (if p.verbose then text "--verbose" ∷ [] else []))))
          s
        ≡ parsed (record s {
          arg_output_proto = out;
          arg_output_text = p.output_text;
          arg_inode_textcache = p.inode_textcache;
          enable_verbose = p.verbose;
        })
  unfolding parse_arguments flag_of
  parse_options p out s a b c = go p.output_text p.inode_textcache p.verbose
    where
      go :
          (t : Bool) (o : Option Text) (v : Bool)
          → parse_arguments parse_uint
              ((if t then text "--output-text" ∷ [] else [])
                ++ ((text "--output-proto" ∷ out ∷ [])
                    ++ (text_cache_args o ++ (if v then text "--verbose" ∷ [] else []))))
              s
            ≡ parsed (record s {
              arg_output_proto = out;
              arg_output_text = t;
              arg_inode_textcache = o;
              enable_verbose = v;
            })
      go true none true = rw b refl
      go true none false = rw (b, c) refl
      go true (some name) true = refl
      go true (some name) false = rw c refl
      go false none true = rw (a, b) refl
      go false none false = rw (a, b, c) refl
      go false (some name) true = rw a refl
      go false (some name) false = rw (a, c) refl

abbrev names : List CompilationInput → List Text
names = map (λ t. t.filename)

abbrev limits : List CompilationInput → List ℕ
limits = map (λ t. t.timestamp_limit_ns)

zip_inputs-map : (ts : List CompilationInput) → zip_inputs (names ts) (limits ts) ≡ ts
unfolding zip_inputs
zip_inputs-map [] = refl
zip_inputs-map (t ∷ ts) = ap (λ l. t ∷ l) (zip_inputs-map ts)

limits_or_max-map : (ts : List CompilationInput) → limits_or_max (names ts) (limits ts) ≡ limits ts
limits_or_max-map [] = refl
limits_or_max-map (t ∷ ts) = refl

same_sizes : (ts : List CompilationInput) → (length (names ts) == length (limits ts)) ≡ true
same_sizes [] = refl
same_sizes (t ∷ ts) = ground (arith, same_sizes ts)

sizes_fit :
    (ts : List CompilationInput)
    → (not (is_nil (limits ts)) && not (length (limits ts) == length (names ts))) ≡ false
sizes_fit [] = refl
sizes_fit (t ∷ ts) = ground (arith, sizes_fit ts, same_sizes ts)

make_compilation_inputs-map :
    (ts : List CompilationInput) → make_compilation_inputs (names ts) (limits ts) ≡ ok ts
unfolding make_compilation_inputs
make_compilation_inputs-map ts = rw (limits_or_max-map ts, same_sizes ts, zip_inputs-map ts) refl

never_nil : (xs ys : List Text) → is_nil ys ≡ false → is_nil (xs ++ ys) ≡ false
never_nil [] ys h = h
never_nil (x ∷ xs) ys h = refl

main_with_arguments :
    (parse_uint : Text → Option ℕ) (args : List Text) (s : CompilerArguments)
    → is_nil args ≡ false
    → parse_arguments parse_uint args no_arguments ≡ parsed s
    → compiler_main parse_uint args ≡ check_sizes (parsed s)
unfolding compiler_main
main_with_arguments parse_uint [] s h e = absurd (ground arith)
main_with_arguments parse_uint (a ∷ args) s h e = ap check_sizes e

-- If no trace is named like an option, and the numbers are read as they are written, then from the
-- arguments that the maintenance makes for some traces, an output and its parameters, the compiler
-- reads these traces with their timestamp limits, this output, and the text and text cache options,
-- with no blacklist.
pub compiler_main-make_compiler_params :
    (parse_uint : Text → Option ℕ) (traces : List CompilationInput) (out : Text)
    (p : ControllerParameters)
    → All (λ a. flag_of a ≡ input_filename) (map (λ t. t.filename) traces)
    → All (λ t. parse_uint (decimal t) ≡ some t) (map (λ t. t.timestamp_limit_ns) traces)
    → compiler_main parse_uint (make_compiler_params (fork_parameters traces out p))
      ≡ ok (
          parsed (record {
            perfetto_traces = traces;
            output_file_name = out;
            output_proto = not p.output_text;
            blacklist_filter = none;
            text_cache_filename = p.inode_textcache;
          }))
unfolding make_compiler_params
compiler_main-make_compiler_params parse_uint traces out p plain numbers =
    main_with_arguments parse_uint (make_compiler_params (fork_parameters traces out p))
      (record {
        arg_blacklist_filter = none;
        arg_output_proto = out;
        arg_output_text = p.output_text;
        arg_inode_textcache = p.inode_textcache;
        timestamp_limit_ns = limits traces;
        arg_input_filenames = names traces;
        enable_verbose = p.verbose;
        wait_for_keystroke = false;
      })
      (never_nil (names traces) _ (
        never_nil (append_args_repeatedly (text "--timestamp_limit_ns") (limits traces)) _
          (never_nil (if p.output_text then text "--output-text" ∷ [] else []) _ refl)))
      (parse_inputs parse_uint (names traces) _ no_arguments plain
        ∙ parse_limits parse_uint (limits traces) _ _ numbers
        ∙ parse_options parse_uint p out _ refl refl refl)
    ∙ rw (sizes_fit traces, make_compilation_inputs-map traces) refl
