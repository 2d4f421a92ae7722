-- ===== src/Session/Balance.antt =====
-- The memory mappings of the sessions of src/prefetcher/session.cc: what is mapped, held and unmapped.
use android_system_iorap.Prelude.{
  ℕ, ◌+◌, ◌≡◌, ◌≢◌, refl, ◌∙◌, Bool, true, false, ◌&&◌, List, [], ◌∷◌, ◌++◌, Option, none, some,
  arith, Text, nat_key, ◌==◌, Bool-cases, inl, inr, if◌then◌else◌, if_true, if_false,
}
use android_system_iorap.Prelude.Outcome.{Outcome, ok, fatal, stalled}
use android_system_iorap.Prelude.Assoc.{Assoc, find, erase, at_or}
use android_system_iorap.Prelude.Totals.{
  bit, count, count-snoc, IsDistinct, total, weight, erase-IsDistinct, assign-IsDistinct,
  insert-IsDistinct, total-erase, total-assign, total-insert,
}
use android_system_iorap.Session.{
  Entry, EntryMapping, SessionDirect, Kernel, World, Call, mapped, unmapped, opened, closed, asked,
  note, note_opened, close,
}
use android_system_iorap.Session.Direct.{
  touch, entries_of, is_empty, registered, register_file_path, unregister_file_path,
  unregister_found, unregister_with, read_ahead, read_ahead_with, push_performed, perform,
  map_performed, is_mapping_kind, unmap_entries, unmap_if,
}

-- Calls of mmap(2) that returned the address for the length, and calls of munmap(2) for them.
abbrev pub is_mapped : ℕ → ℕ → Call → Bool
is_mapped a n (mapped b l) = b == a && l == n
is_mapped a n (unmapped b l) = false
is_mapped a n (opened fd) = false
is_mapped a n (closed fd) = false
is_mapped a n asked = false

abbrev pub is_unmapped : ℕ → ℕ → Call → Bool
is_unmapped a n (mapped b l) = false
is_unmapped a n (unmapped b l) = b == a && l == n
is_unmapped a n (opened fd) = false
is_unmapped a n (closed fd) = false
is_unmapped a n asked = false

-- Entries that hold such a mapping.
abbrev pub is_live : ℕ → ℕ → EntryMapping → Bool
is_live a n m = is_mapping_kind m.entry.kind && (m.address == a && m.entry.length == n)

abbrev pub live : ℕ → ℕ → SessionDirect → ℕ
live a n s = total (count (is_live a n)) s.entry_list_map

abbrev pub mapped_by : ℕ → ℕ → World → ℕ
mapped_by a n w = count (is_mapped a n) w.log

abbrev pub unmapped_by : ℕ → ℕ → World → ℕ
unmapped_by a n w = count (is_unmapped a n) w.log

-- Between two states, what was mapped and not unmapped is what the session came to hold.
pub record Balanced (a n : ℕ) (s : SessionDirect) (w : World) (s' : SessionDirect) (w' : World)
    : Type 0 where
  pub distinct : IsDistinct s'.entry_list_map
  pub balance :
      mapped_by a n w' + (unmapped_by a n w + live a n s)
      ≡ mapped_by a n w + (unmapped_by a n w' + live a n s')

-- The same of an outcome, if it is a result.
abbrev pub Balances :
    ℕ → ℕ → SessionDirect → World → Outcome (Bool × SessionDirect × World) → Type 0
Balances a n s w fatal = Unit
Balances a n s w stalled = Unit
Balances a n s w (ok (b, s', w')) = Balanced a n s w s' w'

module _ (a n : ℕ) where
  note_mapped :
      (c : Call) (w : World) → mapped_by a n (note c w) ≡ mapped_by a n w + bit (is_mapped a n c)
  note_mapped c w = count-snoc (is_mapped a n) w.log c

  note_unmapped :
      (c : Call) (w : World)
      → unmapped_by a n (note c w) ≡ unmapped_by a n w + bit (is_unmapped a n c)
  note_unmapped c w = count-snoc (is_unmapped a n) w.log c

  -- Opening and closing map nothing.
  note_opened_same :
      (fd : Option ℕ) (w : World)
      → (mapped_by a n (note_opened fd w) ≡ mapped_by a n w)
        × (unmapped_by a n (note_opened fd w) ≡ unmapped_by a n w)
  note_opened_same none w =
      (omega (arith, note_mapped asked w), omega (arith, note_unmapped asked w))
  note_opened_same (some fd) w =
      (omega (arith, note_mapped (opened fd) w), omega (arith, note_unmapped (opened fd) w))

  pub close_same :
      (fd : Option ℕ) (w : World)
      → (mapped_by a n (close fd w) ≡ mapped_by a n w)
        × (unmapped_by a n (close fd w) ≡ unmapped_by a n w)
  close_same none w = (refl, refl)
  close_same (some fd) w =
      (omega (arith, note_mapped (closed fd) w), omega (arith, note_unmapped (closed fd) w))

  live-touch :
      (id : ℕ) (s : SessionDirect)
      → IsDistinct s.entry_list_map
      → live a n (touch id s) ≡ live a n s
  live-touch id s d = total-insert (count (is_live a n)) id [] s.entry_list_map refl d

  pub register_file_path-Balances :
      (k : Kernel) (id : ℕ) (p : Text) (s : SessionDirect) (w : World)
      → IsDistinct s.entry_list_map
      → Balances a n s w (register_file_path k id p s w)
  unfolding register_file_path
  register_file_path-Balances k id p s w d =
      elim (is_empty (entries_of id s))
        as (λ b. Balances a n s w (
          if b
          then ok (
            true,
            registered id p (k.open_file w.calls p) s,
            note_opened (k.open_file w.calls p) w,
          )
          else fatal)) [
            | true ↦
                let (m, u) = note_opened_same (k.open_file w.calls p) w in
                record {
                  distinct = insert-IsDistinct id [] s.entry_list_map d;
                  balance = omega (arith, m, u, live-touch id s d);
                }
            | false ↦ tt
          ]

  unmap_if_lem :
      (b : Bool) (m : EntryMapping) (w : World)
      → (mapped_by a n (unmap_if b m w) ≡ mapped_by a n w)
        × (unmapped_by a n (unmap_if b m w)
            ≡ unmapped_by a n w + bit (b && (m.address == a && m.entry.length == n)))
  unmap_if_lem true m w = (
    omega (arith, note_mapped (unmapped m.address m.entry.length) w),
    note_unmapped (unmapped m.address m.entry.length) w,
  )
  unmap_if_lem false m w = (refl, omega arith)

  -- The loop of UnregisterFilePath unmaps what the entries hold.
  unmap_entries_lem :
      (list : List EntryMapping) (w : World)
      → (mapped_by a n (unmap_entries list w) ≡ mapped_by a n w)
        × (unmapped_by a n (unmap_entries list w) ≡ unmapped_by a n w + count (is_live a n) list)
  unfolding unmap_entries
  unmap_entries_lem [] w = (refl, omega arith)
  unmap_entries_lem (m ∷ list) w =
      let b = is_mapping_kind m.entry.kind in
      let (x, y) = unmap_entries_lem list (unmap_if b m w) in
      let (p, q) = unmap_if_lem b m w in (x ∙ p, omega (arith, y, q))

  pub entries_weight :
      (id : ℕ) (s : SessionDirect)
      → count (is_live a n) (entries_of id s)
        ≡ weight (count (is_live a n)) (find id s.entry_list_map)
  unfolding at_or
  entries_weight id s =
      elim (find id s.entry_list_map)
        as (λ o.
          count (is_live a n) (elim o [ none ↦ [] | some w ↦ w ])
          ≡ weight (count (is_live a n)) o) [ none ↦ refl | some l ↦ refl ]

  unregister_with-Balances :
      (id : ℕ) (fd : Option (Option ℕ)) (paths : Assoc ℕ Text) (s : SessionDirect) (w : World)
      → IsDistinct s.entry_list_map
      → Balances a n s w (unregister_with id fd (record s { path_map = paths }) w)
  unregister_with-Balances id none paths s w d = tt
  unregister_with-Balances id (some fd) paths s w d =
      let (x, y) = unmap_entries_lem (entries_of id s) w in
      let (p, q) = close_same fd (unmap_entries (entries_of id s) w) in
      record {
        distinct = erase-IsDistinct id s.entry_list_map d;
        balance = omega (
          arith,
          x,
          y,
          p,
          q,
          entries_weight id s,
          total-erase (count (is_live a n)) id s.entry_list_map d,
        );
      }

  unregister_found-Balances :
      (id : ℕ) (path : Option Text) (s : SessionDirect) (w : World)
      → IsDistinct s.entry_list_map
      → Balances a n s w (unregister_found id path s w)
  unregister_found-Balances id none s w d = record { distinct = d; balance = refl }
  unregister_found-Balances id (some path) s w d =
      unregister_with-Balances id (find id s.path_fd_map) (erase id s.path_map) s w d

  pub unregister_file_path-Balances :
      (id : ℕ) (s : SessionDirect) (w : World)
      → IsDistinct s.entry_list_map
      → Balances a n s w (unregister_file_path id s w)
  unfolding unregister_file_path
  unregister_file_path-Balances id s w d = unregister_found-Balances id (find id s.path_map) s w d

  -- What one readahead maps.
  abbrev Performs : ℕ → ℕ → World → ℕ × Bool × World → Type 0
  Performs kind l w (address, success, w') =
      (mapped_by a n w' ≡ mapped_by a n w + bit (is_mapping_kind kind && (address == a && l == n)))
      × (unmapped_by a n w' ≡ unmapped_by a n w)

  map_performed_log :
      (k : Kernel) (kind address : ℕ) (w : World)
      → ((map_performed k kind address w).0 ≡ address)
        × (mapped_by a n (map_performed k kind address w).2 ≡ mapped_by a n w)
        × (unmapped_by a n (map_performed k kind address w).2 ≡ unmapped_by a n w)
  map_performed_log k kind address w = elim (Bool-cases (address == 0)) [
    | inl e ↦ rw (if_true e) (refl, refl, refl)
    | inr e ↦ elim (Bool-cases (kind == 2)) [
      | inl f ↦
          rw (if_false e, if_true f)
            (refl, omega (arith, note_mapped asked w), omega (arith, note_unmapped asked w))
      | inr f ↦ rw (if_false e, if_false f) (refl, refl, refl)
    ]
  ]

  perform-Performs : (k : Kernel) (kind l : ℕ) (w : World) → Performs kind l w (perform k kind l w)
  unfolding perform
  perform-Performs k kind l w = elim (Bool-cases (kind == 0)) [
    | inl e ↦
        rw (if_true e)
          (ground (arith, e, note_mapped asked w), omega (arith, note_unmapped asked w))
    | inr e ↦ elim (Bool-cases (is_mapping_kind kind)) [
      | inl f ↦
          let w' = note (mapped (k.mmap w.calls) l) w in
          let (same, m, u) = map_performed_log k kind (k.mmap w.calls) w' in
          rw (if_false e, if_true f, same)
            (
              ground (arith, f, m, note_mapped (mapped (k.mmap w.calls) l) w),
              omega (arith, u, note_unmapped (mapped (k.mmap w.calls) l) w),
            )
      | inr f ↦ rw (if_false e, if_false f) (ground (arith, f), refl)
    ]
  ]

  push-Balances :
      (e : Entry) (r : ℕ × Bool × World) (s : SessionDirect) (w : World)
      → IsDistinct s.entry_list_map
      → Performs e.kind e.length w r
      → Balances a n s w (push_performed e r s)
  push-Balances e (address, success, w') s w d (m, u) =
      let new : EntryMapping = record { entry = e; address = address; success = success } in
      record {
        distinct =
            assign-IsDistinct e.path_id (entries_of e.path_id s ++ new ∷ []) s.entry_list_map d;
        balance = omega (
          arith,
          m,
          u,
          entries_weight e.path_id s,
          count-snoc (is_live a n) (entries_of e.path_id s) new,
          total-assign (count (is_live a n)) e.path_id (entries_of e.path_id s ++ new ∷ [])
              s.entry_list_map d,
        );
      }

  read_ahead_with-Balances :
      (k : Kernel) (e : Entry) (fd : Option (Option ℕ)) (path : Option Text) (s : SessionDirect)
      (w : World)
      → a ≢ 0
      → IsDistinct s.entry_list_map
      → Balances a n s w (read_ahead_with k e fd path s w)
  read_ahead_with-Balances k e none path s w z d = record { distinct = d; balance = refl }
  read_ahead_with-Balances k e (some fd) none s w z d = tt
  read_ahead_with-Balances k e (some none) (some path) s w z d =
      push-Balances e (0, false, w) s w d (ground (arith, z), refl)
  read_ahead_with-Balances k e (some (some fd)) (some path) s w z d =
      push-Balances e (perform k e.kind e.length w) s w d (perform-Performs k e.kind e.length w)

  Balances-touch :
      (id : ℕ) (s : SessionDirect) (w : World) (o : Outcome (Bool × SessionDirect × World))
      → IsDistinct s.entry_list_map
      → Balances a n (touch id s) w o
      → Balances a n s w o
  Balances-touch id s w fatal d x = tt
  Balances-touch id s w stalled d x = tt
  Balances-touch id s w (ok (b, s', w')) d x = record {
    distinct = x.distinct;
    balance = omega (arith, x.balance, live-touch id s d);
  }

  pub read_ahead-Balances :
      (k : Kernel) (e : Entry) (s : SessionDirect) (w : World)
      → a ≢ 0
      → IsDistinct s.entry_list_map
      → Balances a n s w (read_ahead k e s w)
  unfolding read_ahead
  read_ahead-Balances k e s w z d = Balances-touch e.path_id s w _ d (
      read_ahead_with-Balances k e (find e.path_id s.path_fd_map) (find e.path_id s.path_map)
        (touch e.path_id s) w z (insert-IsDistinct e.path_id [] s.entry_list_map d))
