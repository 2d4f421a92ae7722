-- ===== src/Session/Steps.antt =====
-- The operations of SessionDirect in src/prefetcher/session.cc and the agreement of its maps.
use android_system_iorap.Prelude.{
  ℕ, ◌≡◌, refl, Bool, true, false, ◌||◌, List, [], ◌∷◌, Option, none, some, arith, Text, nat_key,
  Option-cases, Bool-cases, inl, inr, if_true, if_false, is_negative,
}
use android_system_iorap.Prelude.Outcome.{Outcome, ok}
use android_system_iorap.Prelude.Assoc.{find, at_or, find-insert}
use android_system_iorap.Session.{
  Entry, EntryMapping, SessionDirect, Kernel, World, TraceFileIndexEntry, TraceFileEntry, note,
  asked, new_session,
}
use android_system_iorap.Session.Direct.{
  touch, entries_of, is_empty, registered, register_file_path, unregister_file_path,
  unregister_found, read_ahead, read_ahead_with, unread_ahead, unread_found, find_entry,
}
use android_system_iorap.Session.Files.{
  register_index, read_ahead_list, process_fd, unregister_all, to_size, fadvise_entry,
}
use android_system_iorap.Session.Maps.{
  has, IsConsistent, touch-IsConsistent, registered-IsConsistent, dropped-IsConsistent,
  push-IsConsistent, new_session-IsConsistent,
}

-- The outcome is a result with a consistent session.
abbrev pub Consistent : Outcome (Bool × SessionDirect × World) → Type 0
Consistent o =
    (b : Bool) × (s' : SessionDirect) × (w' : World) × (o ≡ ok (b, s', w')) × IsConsistent s'

pub register_file_path-Consistent :
    (k : Kernel) (id : ℕ) (p : Text) (s : SessionDirect) (w : World)
    → IsConsistent s
    → is_empty (entries_of id s) ≡ true
    → Consistent (register_file_path k id p s w)
unfolding register_file_path
register_file_path-Consistent k id p s w c e =
    rw (if_true e) (_, _, _, refl, registered-IsConsistent id p (k.open_file w.calls p) s c e)

unregister_with-Consistent :
    (id : ℕ) (fd : Option (Option ℕ)) (s : SessionDirect) (w : World)
    → IsConsistent s
    → has (find id s.path_map) ≡ true
    → find id s.path_fd_map ≡ fd
    → Consistent (unregister_found id (find id s.path_map) s w)
unregister_with-Consistent id none s w c h e = absurd (ground (arith, c id))
unregister_with-Consistent id (some fd) s w c h e = elim (Option-cases (find id s.path_map)) [
  | inl d ↦ absurd (ground arith)
  | inr (p, d) ↦ rw (d, e) (_, _, _, refl, dropped-IsConsistent id s c)
]

pub unregister_file_path-Consistent :
    (id : ℕ) (s : SessionDirect) (w : World)
    → IsConsistent s
    → Consistent (unregister_file_path id s w)
unfolding unregister_file_path
unregister_file_path-Consistent id s w c = elim (Option-cases (find id s.path_map)) [
  | inl d ↦ rw d (false, s, w, refl, c)
  | inr (p, d) ↦ unregister_with-Consistent id (find id s.path_fd_map) s w c (rw d) refl
]

read_ahead_with-Consistent :
    (k : Kernel) (e : Entry) (fd : Option (Option ℕ)) (p : Option Text) (s : SessionDirect)
    (w : World)
    → IsConsistent s
    → find e.path_id s.path_fd_map ≡ fd
    → find e.path_id s.path_map ≡ p
    → Consistent (read_ahead_with k e fd p s w)
read_ahead_with-Consistent k e none p s w c d h = (false, s, w, refl, c)
read_ahead_with-Consistent k e (some fd) none s w c d h = absurd (ground (arith, c e.path_id))
read_ahead_with-Consistent k e (some none) (some p) s w c d h =
    (false, _, w, refl, push-IsConsistent e.path_id _ s c (rw h))
read_ahead_with-Consistent k e (some (some fd)) (some p) s w c d h =
    (_, _, _, refl, push-IsConsistent e.path_id _ s c (rw h))

pub read_ahead-Consistent :
    (k : Kernel) (e : Entry) (s : SessionDirect) (w : World)
    → IsConsistent s
    → Consistent (read_ahead k e s w)
unfolding read_ahead
read_ahead-Consistent k e s w c =
    read_ahead_with-Consistent k e (find e.path_id s.path_fd_map) (find e.path_id s.path_map)
      (touch e.path_id s) w (touch-IsConsistent e.path_id s c) refl refl

unread_found-IsConsistent :
    (e : Entry) (o : Option EntryMapping) (s : SessionDirect) (w : World)
    → IsConsistent s
    → IsConsistent (unread_found e o s w).1
unread_found-IsConsistent e none s w c = c
unread_found-IsConsistent e (some m) s w c = c

pub unread_ahead-IsConsistent :
    (e : Entry) (s : SessionDirect) (w : World)
    → IsConsistent s
    → IsConsistent (unread_ahead e s w).1
unfolding unread_ahead
unread_ahead-IsConsistent e s w c =
    unread_found-IsConsistent e (find_entry e (entries_of e.path_id s)) (touch e.path_id s) w
      (touch-IsConsistent e.path_id s c)

-- The requests that a client makes of a session.
pub data Request : Type 0 where
  register : ℕ → Text → Request
  unregister : ℕ → Request
  advise unadvise : Entry → Request

unfoldable pub apply :
    Kernel → Request → SessionDirect → World → Outcome (Bool × SessionDirect × World)
apply k (register id p) s w = register_file_path k id p s w
apply k (unregister id) s w = unregister_file_path id s w
apply k (advise e) s w = read_ahead k e s w
apply k (unadvise e) s w = ok (unread_ahead e s w)

-- A path is not registered again once something was read ahead for it.
abbrev pub Allowed : Request → SessionDirect → Type 0
Allowed (register id p) s = is_empty (entries_of id s) ≡ true
Allowed (unregister id) s = Unit
Allowed (advise e) s = Unit
Allowed (unadvise e) s = Unit

-- On a session whose maps agree, every request returns, whatever the system calls answer, and the
-- maps agree behind it; only a path that has entries must not be registered again.
pub apply-IsConsistent :
    (k : Kernel) (r : Request) (s : SessionDirect) (w : World)
    → IsConsistent s
    → Allowed r s
    → Consistent (apply k r s w)
unfolding apply
apply-IsConsistent k (register id p) s w c a = register_file_path-Consistent k id p s w c a
apply-IsConsistent k (unregister id) s w c a = unregister_file_path-Consistent id s w c
apply-IsConsistent k (advise e) s w c a = read_ahead-Consistent k e s w c
apply-IsConsistent k (unadvise e) s w c a = (_, _, _, refl, unread_ahead-IsConsistent e s w c)

-- Nothing was read ahead yet.
abbrev pub IsUnread : SessionDirect → Type 0
IsUnread s = (id : ℕ) → is_empty (entries_of id s) ≡ true

registered-IsUnread :
    (id : ℕ) (p : Text) (fd : Option ℕ) (s : SessionDirect)
    → IsUnread s
    → IsUnread (registered id p fd s)
unfolding at_or
registered-IsUnread id p fd s u j = ground (arith, u j, u id, find-insert id j [] s.entry_list_map)

register_index-Consistent :
    (k : Kernel) (es : List TraceFileIndexEntry) (s : SessionDirect) (w : World)
    → IsConsistent s
    → IsUnread s
    → (s' : SessionDirect) × (w' : World) × (register_index k es s w ≡ ok (s', w'))
      × IsConsistent s'
unfolding register_index register_file_path
register_index-Consistent k [] s w c u = (s, w, refl, c)
register_index-Consistent k (e ∷ es) s w c u = elim (Bool-cases (is_negative e.id)) [
  | inl n ↦ rw (if_true n) (register_index-Consistent k es s w c u)
  | inr n ↦
      let fd = k.open_file w.calls e.file_name in
      rw (if_false n, if_true (u (to_size e.id)))
        (register_index-Consistent k es _ _
          (registered-IsConsistent (to_size e.id) e.file_name fd s c (u (to_size e.id)))
          (registered-IsUnread (to_size e.id) e.file_name fd s u))
]

read_ahead_list-Consistent :
    (k : Kernel) (es : List TraceFileEntry) (s : SessionDirect) (w : World)
    → IsConsistent s
    → (s' : SessionDirect) × (w' : World) × (read_ahead_list k es s w ≡ ok (s', w'))
      × IsConsistent s'
unfolding read_ahead_list
read_ahead_list-Consistent k [] s w c = (s, w, refl, c)
read_ahead_list-Consistent k (e ∷ es) s w c =
    elim (Bool-cases (is_negative e.file_length || is_negative e.file_offset)) [
      | inl n ↦ rw (if_true n) (read_ahead_list-Consistent k es s w c)
      | inr n ↦
          let (b, s', w', d, c') = read_ahead-Consistent k (fadvise_entry e) s w c in
          rw (if_false n, d) (read_ahead_list-Consistent k es s' w' c')
    ]

-- A new session processes every trace file, whatever its index and its list say and whatever the
-- system calls answer.
pub process_fd-Consistent :
    (k : Kernel) (fd : ℕ) (description : Text) (w : World)
    → Consistent (process_fd k fd (new_session description) w)
unfolding process_fd
process_fd-Consistent k fd description w = elim (Option-cases (k.open_trace w.calls fd)) [
  | inl e ↦ rw e (_, _, _, refl, new_session-IsConsistent description)
  | inr (t, e) ↦
      let (s', w', d, c) =
        register_index-Consistent k t.index (new_session description) (note asked w)
          (new_session-IsConsistent description) (λ id. unfold find at_or in refl) in
      let (s'', w'', d', c') = read_ahead_list-Consistent k t.list s' w' c in
      rw (e, d, d') (true, s'', w'', refl, c')
]

pub unregister_all-Consistent :
    (ids : List ℕ) (s : SessionDirect) (w : World)
    → IsConsistent s
    → (s' : SessionDirect) × (w' : World) × (unregister_all ids s w ≡ ok (s', w')) × IsConsistent s'
unfolding unregister_all
unregister_all-Consistent [] s w c = (s, w, refl, c)
unregister_all-Consistent (id ∷ ids) s w c =
    let (b, s', w', d, c') = unregister_file_path-Consistent id s w c in
    rw d (unregister_all-Consistent ids s' w' c')
