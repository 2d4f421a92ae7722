-- ===== src/Component.antt =====
-- AppComponentName of src/db/app_component_name.h: the name of an app's activity, as
-- "package/activity" and in the two forms that are safe in a file name.
pub mod Names
use android_system_iorap.Prelude.{
  ℕ, Bool, true, false, List, [], ◌∷◌, ◌++◌, Option, none, some, ◌==◌, if◌then◌else◌, Text,
}

pub record AppComponentName : Type 0 where
  pub package_name : Text
  pub activity_name : Text

abbrev pub starts_with_dot : Text → Bool
starts_with_dot [] = false
starts_with_dot (c ∷ s) = c == b'.'

unfoldable pub canonicalize : AppComponentName → AppComponentName
canonicalize c =
    if starts_with_dot c.activity_name
    then record c { activity_name = c.package_name ++ c.activity_name }
    else c

-- `s.find(c) != npos`
unfoldable pub has_char : ℕ → Text → Bool
has_char c [] = false
has_char c (d ∷ s) = if d == c then true else has_char c s

-- s.substr(0, s.find(c)), and what erase(0, s.find(c) + 1) leaves
unfoldable pub before_char : ℕ → Text → Text
before_char c [] = []
before_char c (d ∷ s) = if d == c then [] else d ∷ before_char c s

unfoldable pub after_char : ℕ → Text → Text
after_char c [] = []
after_char c (d ∷ s) = if d == c then s else after_char c s

unfoldable pub has_app_component_name : Text → Bool
has_app_component_name s = has_char b'/' s

unfoldable pub from_string : Text → AppComponentName
from_string s =
    if has_app_component_name s
    then record { package_name = before_char b'/' s; activity_name = after_char b'/' s }
    else record { package_name = s; activity_name = [] }

unfoldable pub to_string : AppComponentName → Text
to_string c = c.package_name ++ b'/' ∷ c.activity_name

-- The rest of the text behind a prefix.
abbrev pub strip_prefix : Text → Text → Option Text
strip_prefix [] s = some s
strip_prefix (c ∷ p) [] = none
strip_prefix (c ∷ p) (d ∷ s) = if c == d then strip_prefix p s else none

-- Replace: the first occurrence only. No caller's `from` is empty.
unfoldable pub replace : Text → Text → Text → Text
replace from to [] = []
replace from to (c ∷ s) = elim (strip_prefix from (c ∷ s)) [
  | none ↦ c ∷ replace from to s
  | some rest ↦ to ++ rest
]

abbrev pub slash : Text
slash = b'/' ∷ []

abbrev pub percent : Text
percent = b'%' ∷ []

abbrev pub encoded_slash : Text
encoded_slash = b'%' ∷ b'2' ∷ b'F' ∷ []

abbrev pub encoded_percent : Text
encoded_percent = b'%' ∷ b'2' ∷ b'5' ∷ []

unfoldable pub from_url_encoded_string : Text → AppComponentName
from_url_encoded_string s =
    from_string (replace encoded_percent percent (replace encoded_slash slash s))

unfoldable pub to_url_encoded_string : AppComponentName → Text
to_url_encoded_string c =
    replace slash encoded_slash (replace percent encoded_percent (to_string c))

unfoldable pub to_make_file_safe_encoded_pkg_string : AppComponentName → Text
to_make_file_safe_encoded_pkg_string c =
    replace percent (b'^' ∷ b'^' ∷ []) (replace slash (b'@' ∷ b'@' ∷ []) c.package_name)
