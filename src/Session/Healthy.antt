-- ===== src/Session/Healthy.antt =====
-- ReceiveCommand of src/prefetcher/prefetcher_daemon.cc and the sessions that it serves.
use android_system_iorap.Prelude.{
  ℕ, ◌≡◌, refl, sym, ◌∙◌, subst, Bool, true, false, Option, none, some, arith, map, Text, nat_key,
  some_injective, if◌then◌else◌, ◌==◌,
}
use android_system_iorap.Prelude.Assoc.{find, erase, assign, find-erase, find-assign}
use android_system_iorap.Prelude.Outcome.{Outcome, ok}
use android_system_iorap.Wire.{
  Command, CommandChoice, register_file_path, unregister_file_path, read_ahead, exit,
  create_session, destroy_session, dump_session, dump_everything, create_fd_session,
}
use android_system_iorap.Session.{SessionDirect, Kernel, World, new_session}
use android_system_iorap.Session.Direct.{is_empty, entries_of}
use android_system_iorap.Session.Files.{destroy, close_all}
use android_system_iorap.Session.Daemon.{
  Daemon, with_session, with_path, create_new, process_new, create_fd_new, destroy_found, receive,
  receive_command,
}
use android_system_iorap.Session.Maps.{has, IsConsistent, new_session-IsConsistent}
use android_system_iorap.Session.Steps.{
  Consistent, register_file_path-Consistent, unregister_file_path-Consistent, read_ahead-Consistent,
  process_fd-Consistent, unregister_all-Consistent,
}

-- The maps of every session agree.
abbrev pub IsHealthy : Daemon → Type 0
IsHealthy d = (id : ℕ) (s : SessionDirect) → find id d.sessions ≡ some s → IsConsistent s

-- What a command has to bring: the string and the descriptor that its choice sends. A path that
-- was read ahead is not registered again.
abbrev pub Served : CommandChoice → Command → Daemon → Type 0
Served register_file_path c d =
    (has c.file_path ≡ true)
    × ((s : SessionDirect)
        → find c.session_id d.sessions ≡ some s
        → is_empty (entries_of c.id s) ≡ true)
Served create_session c d = has c.file_path ≡ true
Served create_fd_session c d = (has c.file_path ≡ true) × (has c.fd ≡ true)
Served unregister_file_path c d = Unit
Served read_ahead c d = Unit
Served exit c d = Unit
Served destroy_session c d = Unit
Served dump_session c d = Unit
Served dump_everything c d = Unit

abbrev pub Serves : Outcome (Bool × Daemon) → Type 0
Serves o = (b : Bool) × (d' : Daemon) × (o ≡ ok (b, d')) × IsHealthy d'

pub assigned-IsHealthy :
    (id : ℕ) (s : SessionDirect) (w : World) (d : Daemon)
    → IsHealthy d
    → IsConsistent s
    → IsHealthy (record { sessions = assign id s d.sessions; world = w })
assigned-IsHealthy id s w d h c j t e = chosen (id == j) (sym (find-assign id j s d.sessions) ∙ e)
  where
    chosen : (b : Bool) → (if b then some s else find j d.sessions) ≡ some t → IsConsistent t
    chosen true k = subst IsConsistent (some_injective k) c
    chosen false k = h j t k

erased-IsHealthy :
    (id : ℕ) (w : World) (d : Daemon)
    → IsHealthy d
    → IsHealthy (record { sessions = erase id d.sessions; world = w })
erased-IsHealthy id w d h j t e = kept (id == j) (sym (find-erase id j d.sessions) ∙ e)
  where
    kept : (b : Bool) → (if b then none else find j d.sessions) ≡ some t → IsConsistent t
    kept true k = absurd (ground arith)
    kept false k = h j t k

with_session-Serves :
    (o : Option SessionDirect) (id : ℕ) (d : Daemon)
    (operation : SessionDirect → Outcome (Bool × SessionDirect × World))
    → IsHealthy d
    → find id d.sessions ≡ o
    → ((s : SessionDirect)
        → find id d.sessions ≡ some s
        → IsConsistent s
        → Consistent (operation s))
    → Serves (with_session o id d operation)
with_session-Serves none id d operation h e f = (false, d, refl, h)
with_session-Serves (some s) id d operation h e f =
    let (b, s', w', k, c) = f s e (h id s e) in rw k (b, _, refl, assigned-IsHealthy id s' w' d h c)

with_path-Consistent :
    (path : Option Text) (rest : Text → Outcome (Bool × SessionDirect × World))
    → has path ≡ true
    → ((p : Text) → Consistent (rest p))
    → Consistent (with_path path rest)
with_path-Consistent none rest h f = absurd (ground arith)
with_path-Consistent (some p) rest h f = f p

create_new-Serves :
    (o : Option SessionDirect) (id : ℕ) (path : Option Text) (d : Daemon)
    → IsHealthy d
    → has path ≡ true
    → Serves (create_new o id path d)
create_new-Serves (some s) id path d h p = (false, d, refl, h)
create_new-Serves none id none d h p = absurd (ground arith)
create_new-Serves none id (some path) d h p = (
  true,
  _,
  refl,
  assigned-IsHealthy id (new_session path) d.world d h (new_session-IsConsistent path),
)

process_new-Serves :
    (k : Kernel) (id : ℕ) (path : Text) (fd : Option ℕ) (d : Daemon)
    → IsHealthy d
    → has fd ≡ true
    → Serves (process_new k id path fd d)
process_new-Serves k id path none d h f = absurd (ground arith)
process_new-Serves k id path (some fd) d h f =
    let (b, s', w', e, c) = process_fd-Consistent k fd path d.world in
    rw e (b, _, refl, assigned-IsHealthy id s' w' d h c)

create_fd_new-Serves :
    (k : Kernel) (o : Option SessionDirect) (c : Command) (path : Option Text) (d : Daemon)
    → IsHealthy d
    → c.file_path ≡ path
    → has path ≡ true
    → has c.fd ≡ true
    → Serves (create_fd_new k o c d)
create_fd_new-Serves k (some s) c path d h e p f = (false, d, refl, h)
create_fd_new-Serves k none c none d h e p f = absurd (ground arith)
create_fd_new-Serves k none c (some path) d h e p f =
    subst (λ o. Serves (with_path o λ description. process_new k c.session_id description c.fd d))
      (sym e) (process_new-Serves k c.session_id path c.fd d h f)

destroy_found-Serves :
    (o : Option SessionDirect) (id : ℕ) (d : Daemon)
    → IsHealthy d
    → find id d.sessions ≡ o
    → Serves (destroy_found o id d)
unfolding destroy
destroy_found-Serves none id d h e = (false, d, refl, h)
destroy_found-Serves (some s) id d h e =
    let (s', w', k, c) =
      unregister_all-Consistent (map (λ x. x.0) s.entry_list_map) s d.world (h id s e) in
    rw k (true, _, refl, erased-IsHealthy id (close_all s'.path_fd_map w') d h)

receive-Serves :
    (k : Kernel) (choice : CommandChoice) (c : Command) (d : Daemon)
    → IsHealthy d
    → Served choice c d
    → Serves (receive k choice c d)
unfolding receive
receive-Serves k register_file_path c d h (path, fresh) =
    with_session-Serves (find c.session_id d.sessions) c.session_id d _ h refl (λ s e i.
      with_path-Consistent c.file_path _ path
        (λ p. register_file_path-Consistent k c.id p s d.world i (fresh s e)))
receive-Serves k unregister_file_path c d h x =
    with_session-Serves (find c.session_id d.sessions) c.session_id d _ h refl
      (λ s e i. unregister_file_path-Consistent c.id s d.world i)
receive-Serves k read_ahead c d h x =
    with_session-Serves (find c.session_id d.sessions) c.session_id d _ h refl
      (λ s e i. read_ahead-Consistent k _ s d.world i)
receive-Serves k exit c d h x = (true, d, refl, h)
receive-Serves k create_session c d h path =
    create_new-Serves (find c.session_id d.sessions) c.session_id c.file_path d h path
receive-Serves k destroy_session c d h x =
    destroy_found-Serves (find c.session_id d.sessions) c.session_id d h refl
receive-Serves k dump_session c d h x = (_, d, refl, h)
receive-Serves k dump_everything c d h x = (true, d, refl, h)
receive-Serves k create_fd_session c d h (path, fd) =
    create_fd_new-Serves k (find c.session_id d.sessions) c c.file_path d h refl path fd

-- Every command that brings its string and its descriptor is served without an abort, and leaves
-- the maps of all sessions in agreement; a path that was read ahead must not be registered again.
pub receive_command-IsHealthy :
    (k : Kernel) (c : Command) (d : Daemon)
    → IsHealthy d
    → Served c.choice c d
    → Serves (receive_command k c d)
receive_command-IsHealthy k c d h x = receive-Serves k c.choice c d h x
