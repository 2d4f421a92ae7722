-- ===== src/Versions.antt =====
-- PackageVersionMap of src/binder/package_version_map.h and .cc: the versions of the installed
-- packages, as a cache of what the package manager says. A call runs under the map's mutex, so the
-- calls of several threads are a sequence. A version is an int64_t. The package manager's answers
-- are arguments.
pub mod Lookup
use android_system_iorap.Prelude.{
  ℕ, ◌-◌, ◌^◌, Bool, true, false, Option, none, some, if◌then◌else◌, Text, text_key, ℤ, pos, negsuc,
  same_int, length,
}
use android_system_iorap.Prelude.Outcome.{Outcome, ok, fatal}
use android_system_iorap.Prelude.Assoc.{Assoc, find, assign}

abbrev pub VersionMap : Type 0
VersionMap = Assoc Text ℤ

-- `version_map_`: absent if the package manager was not there or did not answer at the start.
abbrev pub PackageVersionMap : Type 0
PackageVersionMap = Option VersionMap

-- Create, with the answer of GetPackageVersionMap for a package manager that is there.
unfoldable pub create : Option (Option VersionMap) → PackageVersionMap
create none = none
create (some map) = map

-- UpdateAll, with a version map and a package manager that answers so.
unfoldable pub update_all : Option VersionMap → PackageVersionMap → PackageVersionMap
update_all none m = m
update_all (some new_version_map) m = some new_version_map

-- Update: whether the map has changed, and the map behind it.
unfoldable pub update : Text → ℤ → PackageVersionMap → Bool × PackageVersionMap
update package_name version none = (false, none)
update package_name version (some m) = elim (find package_name m) [
  | none ↦ (true, some (assign package_name version m))
  | some old ↦
      if same_int old version then (false, some m) else (true, some (assign package_name version m))
]

-- Find; without a map it reads an empty optional.
unfoldable pub find_version : Text → PackageVersionMap → Outcome (Option ℤ)
find_version package_name none = fatal
find_version package_name (some m) = ok (find package_name m)

-- Size; (size_t)-1 where there is no map.
unfoldable pub size : PackageVersionMap → ℕ
size none = 2 ^ 64 - 1
size (some m) = length m

-- GetOrQueryPackageVersion, where `query` is PackageManagerRemote::GetPackageVersion.
unfoldable pub get_or_query :
    (Text → Option ℤ) → Text → PackageVersionMap → Option ℤ × PackageVersionMap
get_or_query query package_name none = (none, none)
get_or_query query package_name (some m) = elim (find package_name m) [
  | some version ↦ (some version, some m)
  | none ↦ elim (query package_name) [
    | some version ↦ (some version, some (assign package_name version m))
    | none ↦ (some (negsuc 0), some m)
  ]
]
