-- ===== src/Database/Select.antt =====
-- ActivityModel::SelectOrInsert of src/db/models.h.
use android_system_iorap.Prelude.{
  ℕ, ◌≡◌, refl, ◌∙◌, ◌==◌, Bool, true, false, ◌&&◌, ◌||◌, not, List, [], ◌∷◌, Bool-cases, All,
  All-append, Option, none, some, arith, Text, ℤ, Option-cases, inl, inr, same_text, same_text_iff,
  same_int, same_int_iff, to_int,
}
use android_system_iorap.Prelude.Outcome.{ok}
use android_system_iorap.Database.{
  PackageModel, ActivityModel, Database, next_id, select_once, select_where,
}
use android_system_iorap.Database.Queries.{
  select_packages_by_name, select_package, insert_package, select_activity, insert_activity,
  package_or_insert, activity_or_insert, activity_in, select_or_insert,
}
use android_system_iorap.Database.Tables.{select_once-append, select_once-holds, select_once-has_id}
use android_system_iorap.Database.Integrity.{
  has_package, IsConsistent, insert_package-IsConsistent, insert_activity-IsConsistent,
}

-- Every package of the name has the version.
abbrev pub HasOneVersion : Text → ℤ → List PackageModel → Type 0
HasOneVersion name version packages =
    All (λ p. (not (same_text p.name name) || same_int p.version (to_int version)) ≡ true) packages

-- Then a select by the name alone finds the same package.
select_where-HasOneVersion :
    (name : Text) (version : ℤ) (packages : List PackageModel) (p : PackageModel)
    → HasOneVersion name version packages
    → select_once (λ q. same_text q.name name && same_int q.version (to_int version)) packages
      ≡ some p
    → (rest : List PackageModel) × (select_where (λ q. same_text q.name name) packages ≡ p ∷ rest)
select_where-HasOneVersion name version [] p h e = absurd (ground arith)
select_where-HasOneVersion name version (q ∷ packages) p (here, later) e =
    elim (Bool-cases (same_text q.name name)) [
      | inl named ↦
          rw named (select_where (λ q. same_text q.name name) packages, ground (arith, here))
      | inr other ↦
          rw other (select_where-HasOneVersion name version packages p later (ground arith))
    ]

package_or_insert-HasOneVersion :
    (o : Option PackageModel) (works : Bool) (name : Text) (version : ℤ) (db : Database)
    → HasOneVersion name version db.packages
    → HasOneVersion name version (package_or_insert o works name version db).1.packages
unfolding insert_package
package_or_insert-HasOneVersion none true name version db h =
    All-append (λ p. (not (same_text p.name name) || same_int p.version (to_int version)) ≡ true)
      db.packages _ h
      (ground (arith, same_text_iff name name, same_int_iff (to_int version) (to_int version)), tt)
package_or_insert-HasOneVersion none false name version db h = h
package_or_insert-HasOneVersion (some p) works name version db h = h

-- A database in which the package is found.
abbrev FindsPackage : Text → ℤ → Option PackageModel × Database → Type 0
FindsPackage name version (o, db) =
    (p : PackageModel) × (o ≡ some p) × (select_package name version db ≡ some p) × IsConsistent db

package_found :
    (name : Text) (version : ℤ) (db : Database)
    → IsConsistent db
    → FindsPackage name version
        (package_or_insert (select_package name version db) true name version db)
unfolding insert_package
package_found name version db c = elim (Option-cases (select_package name version db)) [
  | inl missing ↦ rw missing (
    record { id = next_id (λ q. q.id) db.packages; name = name; version = to_int version },
    refl,
    select_once-append (λ p. same_text p.name name && same_int p.version (to_int version))
        db.packages _ missing
        (ground (arith, same_text_iff name name, same_int_iff (to_int version) (to_int version))),
    insert_package-IsConsistent true name version db c,
  )
  | inr (p, found) ↦ rw found (p, refl, found, c)
]

-- A database in which the activity is found, with the same packages.
abbrev FindsActivity : Text → ℕ → Database → Option ActivityModel × Database → Type 0
FindsActivity name package_id old (o, db) =
    (a : ActivityModel) × (o ≡ some a)
    × (select_activity name package_id db ≡ some a)
    × (db.packages ≡ old.packages)
    × IsConsistent db

activity_found :
    (name : Text) (package_id : ℕ) (db : Database)
    → has_package db package_id ≡ true
    → IsConsistent db
    → FindsActivity name package_id db
        (activity_or_insert (select_activity name package_id db) true name package_id db)
unfolding insert_activity
activity_found name package_id db h c = elim (Option-cases (select_activity name package_id db)) [
  | inl missing ↦ rw missing (
    record { id = next_id (λ b. b.id) db.activities; name = name; package_id = package_id },
    refl,
    select_once-append (λ a. same_text a.name name && a.package_id == package_id) db.activities _
        missing (ground (arith, same_text_iff name name)),
    refl,
    insert_activity-IsConsistent true name package_id db h c,
  )
  | inr (a, found) ↦ rw found (a, refl, found, refl, c)
]

activity_in-some :
    (x : Option PackageModel × Database) (works : Bool) (name : Text) (p : PackageModel)
    → x.0 ≡ some p
    → activity_in x works name
      ≡ ok (activity_or_insert (select_activity name p.id x.1) works name p.id x.1)
activity_in-some (o, db) works name p h = rw h refl

some_first :
    (y : Option ActivityModel × Database) (a : ActivityModel)
    → y.0 ≡ some a
    → ok y ≡ ok (some a, y.1)
some_first (o, db) a h = rw h refl

-- With inserts that work, in a consistent database without another version of the package,
-- SelectOrInsert gives an activity of the given name, of a package of the given name and version, the
-- first that a select by the name alone finds; the database is again consistent and without another
-- version; and to select or insert the activity again, whether or not inserts work then, gives the same
-- activity and leaves the database as it is.
pub select_or_insert-again :
    (package_name : Text) (version : ℤ) (activity_name : Text) (db : Database)
    → IsConsistent db
    → HasOneVersion package_name version db.packages
    → (a : ActivityModel) × (db' : Database) × (p : PackageModel) × (select_or_insert true true
          package_name version activity_name db
        ≡ ok (some a, db'))
      × IsConsistent db'
      × HasOneVersion package_name version db'.packages
      × ((rest : List PackageModel) × (select_packages_by_name package_name db' ≡ p ∷ rest))
      × (select_package package_name version db' ≡ some p)
      × ((a.name ≡ activity_name) × (a.package_id ≡ p.id))
      × ((v w : Bool)
          → select_or_insert v w package_name version activity_name db' ≡ ok (some a, db'))
unfolding select_or_insert
select_or_insert-again package_name version activity_name db c one =
    let first =
      package_or_insert (select_package package_name version db) true package_name version db in
    let (p, e, found, c1) = package_found package_name version db c in
    let second =
      activity_or_insert (select_activity activity_name p.id first.1) true activity_name p.id
        first.1 in
    let (a, e', found', same, c2) =
      activity_found activity_name p.id first.1
        (select_once-has_id (λ q. q.id) _ first.1.packages p found) c1 in
    let holds = select_once-holds _ second.1.activities a found' in
    let still =
      package_or_insert-HasOneVersion (select_package package_name version db) true package_name
        version db one in
    let there : select_package package_name version second.1 ≡ some p = rw same found in
    (
      a,
      second.1,
      p,
      activity_in-some first true activity_name p e ∙ some_first second a e',
      c2,
      rw same still,
      select_where-HasOneVersion package_name version second.1.packages p (rw same still) there,
      there,
      (ground (arith, holds, same_text_iff a.name activity_name), ground (arith, holds)),
      λ v w. rw (there, found') refl,
    )
