-- ===== src/Session/Release.antt =====
-- The life of a SessionDirect of src/prefetcher/session.cc, up to its destructor.
use android_system_iorap.Prelude.{
  ℕ, ◌+◌, ◌≡◌, ◌≢◌, refl, sym, ◌∙◌, ap, subst, Bool, true, false, List, [], ◌∷◌, Option, none, some,
  arith, Text, nat_key, ◌==◌, ==_iff, Bool-cases, inl, inr, if◌then◌else◌, map,
}
use android_system_iorap.Prelude.Outcome.{Outcome, ok, fatal, stalled}
use android_system_iorap.Prelude.Assoc.{Assoc, find, erase, find-erase}
use android_system_iorap.Prelude.Totals.{count, IsDistinct, total-zero}
use android_system_iorap.Session.{EntryMapping, SessionDirect, Kernel, World, new_session, close}
use android_system_iorap.Session.Direct.{
  entries_of, is_empty, unregister_file_path, unregister_found, unregister_with,
}
use android_system_iorap.Session.Files.{unregister_all, close_all, destroy}
use android_system_iorap.Session.Maps.{has, IsConsistent, new_session-IsConsistent}
use android_system_iorap.Session.Steps.{
  Request, register, unregister, advise, unadvise, apply, Allowed, apply-IsConsistent,
  unregister_file_path-Consistent,
}
use android_system_iorap.Session.Balance.{
  is_live, live, mapped_by, unmapped_by, Balanced, Balances, close_same,
  register_file_path-Balances, unregister_file_path-Balances, read_ahead-Balances, entries_weight,
}

-- UnreadAhead unmaps but keeps its entry, so it is left out here; the daemon has no command for it.
abbrev pub is_unadvise : Request → Bool
is_unadvise (register id p) = false
is_unadvise (unregister id) = false
is_unadvise (advise e) = false
is_unadvise (unadvise e) = true

module _ (a n : ℕ) (proper : a ≢ 0) where
  apply-Balances :
      (k : Kernel) (r : Request) (s : SessionDirect) (w : World)
      → is_unadvise r ≡ false
      → IsDistinct s.entry_list_map
      → Balances a n s w (apply k r s w)
  unfolding apply
  apply-Balances k (register id p) s w u d = register_file_path-Balances a n k id p s w d
  apply-Balances k (unregister id) s w u d = unregister_file_path-Balances a n id s w d
  apply-Balances k (advise e) s w u d = read_ahead-Balances a n k e s w proper d
  apply-Balances k (unadvise e) s w u d = absurd (ground arith)

-- What a client may do with a session: requests that return, of which none registers a path again
-- that was read ahead, or undoes a readahead.
pub data Reaches (k : Kernel) (s : SessionDirect) (w : World) : SessionDirect → World → Type 0 where
  start : Reaches k s w s w
  request :
      {t t' : SessionDirect} {v v' : World} (r : Request) (b : Bool)
      → Reaches k s w t v
      → Allowed r t
      → is_unadvise r ≡ false
      → apply k r t v ≡ ok (b, t', v')
      → Reaches k s w t' v'

same_result :
    {b c : Bool} {s t : SessionDirect} {w v : World}
    → ◌≡◌ {A = Outcome (Bool × SessionDirect × World)} (ok (b, s, w)) (ok (c, t, v))
    → (s ≡ t) × (w ≡ v)
same_result e = (ap session e, ap world e)
  where
    session : Outcome (Bool × SessionDirect × World) → SessionDirect
    session (ok (b, s, w)) = s
    session fatal = new_session []
    session stalled = new_session []

    world : Outcome (Bool × SessionDirect × World) → World
    world (ok (b, s, w)) = w
    world fatal = record { calls = 0; log = [] }
    world stalled = record { calls = 0; log = [] }

Reaches-IsConsistent :
    {k : Kernel} {s : SessionDirect} {w : World} {t : SessionDirect} {v : World}
    → IsConsistent s
    → Reaches k s w t v
    → IsConsistent t
Reaches-IsConsistent c start = c
Reaches-IsConsistent {k} c (request {t} {t'} {v} {v'} r b h allowed u e) =
    let (b', s', w', k', c') = apply-IsConsistent k r t v (Reaches-IsConsistent c h) allowed in
    subst IsConsistent (same_result (sym k' ∙ e)).0 c'

Reaches-Balanced :
    (a n : ℕ) {k : Kernel} {s : SessionDirect} {w : World} {t : SessionDirect} {v : World}
    → a ≢ 0
    → IsDistinct s.entry_list_map
    → Reaches k s w t v
    → Balanced a n s w t v
Reaches-Balanced a n z d start = record { distinct = d; balance = refl }
Reaches-Balanced a n {k} {s} {w} z d (request {t} {t'} {v} {v'} r b h allowed u e) =
    let x = Reaches-Balanced a n z d h in
    let y : Balanced a n t v t' v' =
      subst (Balances a n t v) e (apply-Balances a n z k r t v u x.distinct) in
    record { distinct = y.distinct; balance = omega (arith, x.balance, y.balance) }

-- Unregistering a path removes that path only.
abbrev pub Drops : ℕ → SessionDirect → Outcome (Bool × SessionDirect × World) → Type 0
Drops id s fatal = Unit
Drops id s stalled = Unit
Drops id s (ok (b, s', w')) =
    (j : ℕ) → has (find j s'.path_map) ≡ (if id == j then false else has (find j s.path_map))

unregister_with-Drops :
    (id : ℕ) (fd : Option (Option ℕ)) (s : SessionDirect) (w : World)
    → Drops id s (unregister_with id fd (record s { path_map = erase id s.path_map }) w)
unregister_with-Drops id none s w = tt
unregister_with-Drops id (some fd) s w = λ j. ground (arith, find-erase id j s.path_map)

unregister_found-Drops :
    (id : ℕ) (path : Option Text) (s : SessionDirect) (w : World)
    → find id s.path_map ≡ path
    → Drops id s (unregister_found id path s w)
unregister_found-Drops id none s w e = λ j. ground (arith, e, ==_iff id j)
unregister_found-Drops id (some path) s w e = unregister_with-Drops id (find id s.path_fd_map) s w

unregister_file_path-Drops :
    (id : ℕ) (s : SessionDirect) (w : World) → Drops id s (unregister_file_path id s w)
unfolding unregister_file_path
unregister_file_path-Drops id s w = unregister_found-Drops id (find id s.path_map) s w refl

abbrev listed : ℕ → List ℕ → Bool
listed j [] = false
listed j (id ∷ ids) = if id == j then true else listed j ids

listed-find :
    {V : Type 0} (j : ℕ) (m : Assoc ℕ V)
    → has (find j m) ≡ true
    → listed j (map (λ e. e.0) m) ≡ true
unfolding find
listed-find j [] h = absurd (ground arith)
listed-find j ((i, v) ∷ m) h = ground (arith, listed-find j m)

-- What the loop of the destructor leaves.
pub record Cleared (a n : ℕ) (ids : List ℕ) (s : SessionDirect) (w : World) : Type 0 where
  pub session : SessionDirect
  pub world : World
  pub ends : unregister_all ids s w ≡ ok (session, world)
  pub consistent : IsConsistent session
  pub balanced : Balanced a n s w session world
  pub paths :
      (j : ℕ)
      → has (find j session.path_map) ≡ true
      → (has (find j s.path_map) ≡ true) × (listed j ids ≡ false)

clear :
    (a n : ℕ) (ids : List ℕ) (s : SessionDirect) (w : World)
    → IsConsistent s
    → IsDistinct s.entry_list_map
    → Cleared a n ids s w
unfolding unregister_all
clear a n [] s w c d = record {
  session = s;
  world = w;
  ends = refl;
  consistent = c;
  balanced = record { distinct = d; balance = refl };
  paths = λ j h. (h, refl);
}
clear a n (id ∷ ids) s w c d =
    let (b, s', w', e, c') = unregister_file_path-Consistent id s w c in
    let x : Balanced a n s w s' w' =
      subst (Balances a n s w) e (unregister_file_path-Balances a n id s w d) in
    let g : (j : ℕ)
        → has (find j s'.path_map) ≡ (if id == j then false else has (find j s.path_map)) =
      subst (Drops id s) e (unregister_file_path-Drops id s w) in
    let r = clear a n ids s' w' c' x.distinct in
    record {
      session = r.session;
      world = r.world;
      ends = rw e r.ends;
      consistent = r.consistent;
      balanced = record {
        distinct = r.balanced.distinct;
        balance = omega (arith, x.balance, r.balanced.balance);
      };
      paths =
          λ j h. let (p, q) = r.paths j h in (ground (arith, p, g j), ground (arith, p, q, g j));
    }

close_all_same :
    (a n : ℕ) (fds : Assoc ℕ (Option ℕ)) (w : World)
    → (mapped_by a n (close_all fds w) ≡ mapped_by a n w)
      × (unmapped_by a n (close_all fds w) ≡ unmapped_by a n w)
unfolding close_all
close_all_same a n [] w = (refl, refl)
close_all_same a n ((i, fd) ∷ fds) w =
    let (p, q) = close_same a n fd w in
    let (x, y) = close_all_same a n fds (close fd w) in (x ∙ p, y ∙ q)

-- A session none of whose paths is registered holds no mapping.
emptied :
    (a n : ℕ) (s : SessionDirect)
    → IsConsistent s
    → IsDistinct s.entry_list_map
    → ((j : ℕ) → has (find j s.path_map) ≡ false)
    → live a n s ≡ 0
emptied a n s c d none_left = total-zero (count (is_live a n)) s.entry_list_map d (λ j.
    sym (entries_weight a n j s) ∙ count_empty (entries_of j s) (ground (arith, none_left j, c j)))
  where
    count_empty : (list : List EntryMapping) → is_empty list ≡ true → count (is_live a n) list ≡ 0
    count_empty [] e = refl
    count_empty (m ∷ list) e = absurd (ground arith)

destroy-Balanced :
    (a n : ℕ) (s : SessionDirect) (w : World)
    → IsConsistent s
    → IsDistinct s.entry_list_map
    → (w' : World) × (destroy s w ≡ ok w')
      × (mapped_by a n w' + (unmapped_by a n w + live a n s) ≡ mapped_by a n w + unmapped_by a n w')
unfolding destroy
destroy-Balanced a n s w c d =
    let r = clear a n (map (λ e. e.0) s.entry_list_map) s w c d in
    let (x, y) = close_all_same a n r.session.path_fd_map r.world in
    let z = emptied a n r.session r.consistent r.balanced.distinct (λ j.
      elim (Bool-cases (has (find j r.session.path_map))) [
        | inr h ↦ h
        | inl h ↦
            let (p, q) = r.paths j h in
            absurd (ground (arith, p, q, listed-find j s.entry_list_map (ground (arith, p, c j))))
      ]) in
    (
      close_all r.session.path_fd_map r.world,
      rw r.ends refl,
      omega (arith, x, y, z, r.balanced.balance),
    )

-- A session that was created, used by any requests but UnreadAhead, whatever the system calls
-- answered, and destroyed has unmapped just what it mapped: for every length and every address but
-- the null pointer, mmap(2) has returned it as often as munmap(2) was called for it.
pub destroy-Reaches :
    (a n : ℕ) (k : Kernel) (description : Text) (w : World) {s : SessionDirect} {v : World}
    → a ≢ 0
    → Reaches k (new_session description) w s v
    → (v' : World) × (destroy s v ≡ ok v')
      × (mapped_by a n v' + unmapped_by a n w ≡ mapped_by a n w + unmapped_by a n v')
destroy-Reaches a n k description w {s} {v} z h =
    let x = Reaches-Balanced a n z tt h in
    let (v', e, y) =
      destroy-Balanced a n s v (Reaches-IsConsistent (new_session-IsConsistent description) h)
        x.distinct in
    (v', e, omega (arith, x.balance, y))
