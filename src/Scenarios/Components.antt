-- ===== src/Scenarios/Components.antt =====
-- Component names and package versions on concrete texts.
use android_system_iorap.Prelude.{
  ◌≡◌, ◌≢◌, ◌↔◌, refl, true, false, [], ◌∷◌, Option, none, some, Text, text_key, ℤ, pos, negsuc,
  arith, same,
}
use android_system_iorap.Prelude.Assoc.{find}
use android_system_iorap.Component.{
  AppComponentName, canonicalize, from_string, to_string, has_char, from_url_encoded_string,
  to_url_encoded_string, replace, before_char, after_char, has_app_component_name,
}
use android_system_iorap.Component.Names.{from_url_encoded_string-to_url_encoded_string}
use android_system_iorap.Versions.{VersionMap, update, get_or_query}
use android_system_iorap.Versions.Lookup.{get_or_query-update}

-- "ab/.c"
abbrev relative : AppComponentName
relative = record { package_name = b'a' ∷ b'b' ∷ []; activity_name = b'.' ∷ b'c' ∷ [] }

canonical :
    canonicalize relative
    ≡ record { package_name = b'a' ∷ b'b' ∷ []; activity_name = b'a' ∷ b'b' ∷ b'.' ∷ b'c' ∷ [] }
unfolding canonicalize
canonical = refl

encoded : to_url_encoded_string relative ≡ b'a' ∷ b'b' ∷ b'%' ∷ b'2' ∷ b'F' ∷ b'.' ∷ b'c' ∷ []
unfolding to_url_encoded_string to_string replace
encoded = refl

from_url_encoded_string-to_url_encoded_string_example :
    from_url_encoded_string (to_url_encoded_string relative) ≡ relative
unfolding has_char
from_url_encoded_string-to_url_encoded_string_example =
    from_url_encoded_string-to_url_encoded_string relative refl refl refl

-- "%%2F" is read back as another name: only the first of each escape is replaced.
abbrev escaped : AppComponentName
escaped = record { package_name = b'%' ∷ b'%' ∷ b'2' ∷ b'F' ∷ []; activity_name = b'c' ∷ [] }

not_read_back : from_url_encoded_string (to_url_encoded_string escaped) ≢ escaped
unfolding from_url_encoded_string to_url_encoded_string to_string replace from_string has_char
    before_char after_char has_app_component_name
not_read_back = ground arith

abbrev installed : VersionMap
installed = (b'a' ∷ [], pos 3) ∷ []

abbrev unknown : Text → Option ℤ
unknown p = none

unknown_version :
    get_or_query unknown (b'z' ∷ []) (some installed) ≡ (some (negsuc 0), some installed)
unfolding get_or_query find
unknown_version = refl

get_or_query-update_example :
    (m' : VersionMap) × ((update (b'a' ∷ []) (pos 4) (some installed)).1 ≡ some m')
    × (((update (b'a' ∷ []) (pos 4) (some installed)).0 ≡ true)
        ↔ (find (b'a' ∷ []) installed ≢ some (pos 4)))
    × (get_or_query unknown (b'a' ∷ []) (some m') ≡ (some (pos 4), some m'))
    × (same {K = Text} (b'a' ∷ []) (b'z' ∷ []) ≡ false
        → (get_or_query unknown (b'z' ∷ []) (some m')).0
          ≡ (get_or_query unknown (b'z' ∷ []) (some installed)).0)
get_or_query-update_example = get_or_query-update unknown (b'a' ∷ []) (b'z' ∷ []) (pos 4) installed
