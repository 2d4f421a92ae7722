-- ===== src/Versions/Lookup.antt =====
-- What the version map of src/binder/package_version_map.cc answers behind its updates.
use android_system_iorap.Prelude.{
  ◌≡◌, refl, true, false, Option, none, some, Text, text_key, ℤ, same, same_text_iff, same_int,
  same_int_iff, arith, ◌↔◌, ◌≢◌, Option-cases, Bool-cases, inl, inr, ◌⊎◌,
}
use android_system_iorap.Prelude.Assoc.{find, assign, find-assign}
use android_system_iorap.Versions.{VersionMap, update, get_or_query}

found :
    (query : Text → Option ℤ) (p : Text) (v : ℤ) (m : VersionMap)
    → find p m ≡ some v
    → get_or_query query p (some m) ≡ (some v, some m)
unfolding get_or_query
found query p v m e = rw (get_or_query, e)

same_answer :
    (query : Text → Option ℤ) (q : Text) (m m' : VersionMap)
    → find q m' ≡ find q m
    → (get_or_query query q (some m')).0 ≡ (get_or_query query q (some m)).0
unfolding get_or_query
same_answer query q m m' e = elim (Option-cases (find q m)) [
  | inr (v, d) ↦ rw (get_or_query, e, d)
  | inl d ↦ elim (Option-cases (query q)) [
    | inl n ↦ rw (get_or_query, e, d, n)
    | inr (v, n) ↦ rw (get_or_query, e, d, n)
  ]
]

find-assign_same : (p : Text) (v : ℤ) (m : VersionMap) → find p (assign p v m) ≡ some v
find-assign_same p v m = ground (arith, find-assign p p v m, same_text_iff p p)

-- What Update returns, and the map that it leaves.
update-cases :
    (p : Text) (v : ℤ) (m : VersionMap)
    → ((find p m ≡ some v) × (update p v (some m) ≡ (false, some m)))
      ⊎ ((find p m ≢ some v) × (update p v (some m) ≡ (true, some (assign p v m))))
unfolding update
update-cases p v m = elim (Option-cases (find p m)) [
  | inl e ↦ inr (ground arith, rw (update, e))
  | inr (old, e) ↦ elim (Bool-cases (same_int old v)) [
    | inl s ↦ inl (ground (arith, same_int_iff old v), rw (update, e, s))
    | inr s ↦ inr (ground (arith, same_int_iff old v), rw (update, e, s))
  ]
]

-- Where there is a map, the version of an update is what a later query of the package answers,
-- without asking the package manager, and the answers for the other packages are as before. The
-- update says true just if the map did not hold that version.
pub get_or_query-update :
    (query : Text → Option ℤ) (p q : Text) (v : ℤ) (m : VersionMap)
    → (m' : VersionMap) × ((update p v (some m)).1 ≡ some m')
      × (((update p v (some m)).0 ≡ true) ↔ (find p m ≢ some v))
      × (get_or_query query p (some m') ≡ (some v, some m'))
      × (same p q ≡ false → (get_or_query query q (some m')).0 ≡ (get_or_query query q (some m)).0)
get_or_query-update query p q v m = elim (update-cases p v m) [
  | inl (old, e) ↦ (m, rw e, ground arith, found query p v m old, λ d. refl)
  | inr (new, e) ↦ (
    assign p v m,
    rw e,
    ground arith,
    found query p v (assign p v m) (find-assign_same p v m),
    λ d. same_answer query q m (assign p v m) (ground (arith, find-assign p q v m)),
  )
]

-- A version that was found is found again, whatever the package manager says by then.
get_or_query_stable :
    (query later : Text → Option ℤ) (p : Text) (v : ℤ) (m : VersionMap)
    → find p m ≡ some v ⊎ ((find p m ≡ none) × (query p ≡ some v))
    → (m' : VersionMap) × (get_or_query query p (some m) ≡ (some v, some m'))
      × (get_or_query later p (some m') ≡ (some v, some m'))
unfolding get_or_query
get_or_query_stable query later p v m (inl e) = (m, rw (get_or_query, e), found later p v m e)
get_or_query_stable query later p v m (inr (e, n)) =
    (assign p v m, rw (get_or_query, e, n), found later p v (assign p v m) (find-assign_same p v m))
