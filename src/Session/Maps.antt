-- ===== src/Session/Maps.antt =====
-- The agreement of the three maps of a SessionDirect of src/prefetcher/session.cc, of which a comment
-- there says: "if one map has it, all maps have it".
use android_system_iorap.Prelude.{
  ℕ, ◌≡◌, refl, Bool, true, false, not, ◌&&◌, [], ◌∷◌, ◌++◌, Option, none, some, arith, Text,
  nat_key, ==_iff,
}
use android_system_iorap.Prelude.Assoc.{find, erase, at_or, find-erase, find-assign, find-insert}
use android_system_iorap.Session.{EntryMapping, SessionDirect, new_session}
use android_system_iorap.Session.Direct.{touch, entries_of, is_empty, registered, push}

abbrev pub has {ℓ} : {A : Type ℓ} → Option A → Bool
has none = false
has (some x) = true

-- A path is registered just where it has a descriptor, a registered path has a list of entries,
-- and the list of another path is empty.
abbrev pub IsConsistent : SessionDirect → Type 0
IsConsistent s =
    (id : ℕ)
    → (has (find id s.path_map) ≡ has (find id s.path_fd_map))
      × ((has (find id s.path_map) && not (has (find id s.entry_list_map))) ≡ false)
      × ((not (has (find id s.path_map)) && not (is_empty (entries_of id s))) ≡ false)

pub new_session-IsConsistent : (description : Text) → IsConsistent (new_session description)
unfolding find at_or
new_session-IsConsistent description id = (refl, refl, refl)

pub touch-IsConsistent :
    (path_id : ℕ) (s : SessionDirect) → IsConsistent s → IsConsistent (touch path_id s)
unfolding at_or
touch-IsConsistent path_id s c id = (
  (c id).0,
  ground (arith, c id, find-insert path_id id [] s.entry_list_map),
  ground (arith, c id, c path_id, find-insert path_id id [] s.entry_list_map, ==_iff path_id id),
)

pub registered-IsConsistent :
    (path_id : ℕ) (p : Text) (fd : Option ℕ) (s : SessionDirect)
    → IsConsistent s
    → is_empty (entries_of path_id s) ≡ true
    → IsConsistent (registered path_id p fd s)
unfolding at_or
registered-IsConsistent path_id p fd s c e id = (
  ground
      (arith, c id, find-insert path_id id p s.path_map, find-insert path_id id fd s.path_fd_map),
  ground (
    arith,
    c id,
    find-insert path_id id p s.path_map,
    find-insert path_id id [] s.entry_list_map,
  ),
  ground (
    arith,
    c id,
    find-insert path_id id p s.path_map,
    find-insert path_id id [] s.entry_list_map,
  ),
)

-- The maps without a path.
abbrev pub dropped : ℕ → SessionDirect → SessionDirect
dropped path_id s = record s {
  path_map = erase path_id s.path_map;
  entry_list_map = erase path_id s.entry_list_map;
  path_fd_map = erase path_id s.path_fd_map;
}

pub dropped-IsConsistent :
    (path_id : ℕ) (s : SessionDirect) → IsConsistent s → IsConsistent (dropped path_id s)
unfolding at_or
dropped-IsConsistent path_id s c id = (
  ground (arith, c id, find-erase path_id id s.path_map, find-erase path_id id s.path_fd_map),
  ground (arith, c id, find-erase path_id id s.path_map, find-erase path_id id s.entry_list_map),
  ground (arith, c id, find-erase path_id id s.path_map, find-erase path_id id s.entry_list_map),
)

pub push-IsConsistent :
    (path_id : ℕ) (m : EntryMapping) (s : SessionDirect)
    → IsConsistent s
    → has (find path_id s.path_map) ≡ true
    → IsConsistent (push path_id m s)
unfolding at_or
push-IsConsistent path_id m s c h id = (
  (c id).0,
  ground (arith, c id, find-assign path_id id (entries_of path_id s ++ m ∷ []) s.entry_list_map),
  ground (
    arith,
    c id,
    ==_iff path_id id,
    find-assign path_id id (entries_of path_id s ++ m ∷ []) s.entry_list_map,
  ),
)
