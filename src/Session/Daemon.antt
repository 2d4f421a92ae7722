-- ===== src/Session/Daemon.antt =====
-- The daemon's side of a command: SessionManagerDirect of src/prefetcher/session_manager.cc, and
-- ReceiveCommand and Main of src/prefetcher/prefetcher_daemon.cc. Between two commands only the
-- manager's map holds a session, so DestroySession runs its destructor.
use android_system_iorap.Prelude.{
  ℕ, Bool, true, false, List, [], ◌∷◌, Option, none, some, if◌then◌else◌, Text, nat_key,
}
use android_system_iorap.Prelude.Assoc.{Assoc, find, erase, assign}
use android_system_iorap.Prelude.Outcome.{Outcome, ok, fatal, ◌>>=◌}
use android_system_iorap.Wire.{
  Command, CommandChoice, register_file_path, unregister_file_path, read_ahead, exit,
  create_session, destroy_session, dump_session, dump_everything, create_fd_session,
}
use android_system_iorap.Stream.{CommandParser, Incoming, parse_commands, parse_socket_commands}
use android_system_iorap.Session.{SessionDirect, Kernel, World, new_session, close}
use android_system_iorap.Session.Direct as Direct
use android_system_iorap.Session.Files.{process_fd, destroy}

-- `sessions_map_` of the direct manager, by session id.
pub record Daemon : Type 0 where
  pub sessions : Assoc ℕ SessionDirect
  pub world : World

-- CreateSession of the direct manager, where no session has the id.
abbrev pub create : ℕ → Text → Daemon → Daemon
create session_id description d = record d {
  sessions = assign session_id (new_session description) d.sessions;
}

-- The session behind one of its operations.
abbrev pub store : ℕ → Daemon → Bool × SessionDirect × World → Bool × Daemon
store session_id d (result, s, w) =
    (result, record { sessions = assign session_id s d.sessions; world = w })

-- A command to a session: false if FindSession does not find it.
abbrev pub with_session :
    Option SessionDirect
    → ℕ
    → Daemon
    → (SessionDirect → Outcome (Bool × SessionDirect × World))
    → Outcome (Bool × Daemon)
with_session none session_id d operation = ok (false, d)
with_session (some s) session_id d operation = operation s >>= λ r. ok (store session_id d r)

-- CHECK(command.file_path.has_value())
abbrev pub with_path {ℓ} : {A : Type ℓ} → Option Text → (Text → Outcome A) → Outcome A
with_path none rest = fatal
with_path (some path) rest = rest path

abbrev pub create_new : Option SessionDirect → ℕ → Option Text → Daemon → Outcome (Bool × Daemon)
create_new (some s) session_id path d = ok (false, d)
create_new none session_id path d =
    with_path path λ description. ok (true, create session_id description d)

-- CHECK(command.fd.has_value()), CreateSession and ProcessFd.
abbrev pub process_new : Kernel → ℕ → Text → Option ℕ → Daemon → Outcome (Bool × Daemon)
process_new k session_id description none d = fatal
process_new k session_id description (some fd) d =
    process_fd k fd (new_session description) d.world >>= λ r. ok (store session_id d r)

abbrev pub create_fd_new :
    Kernel → Option SessionDirect → Command → Daemon → Outcome (Bool × Daemon)
create_fd_new k (some s) c d = ok (false, d)
create_fd_new k none c d =
    with_path c.file_path λ description. process_new k c.session_id description c.fd d

abbrev pub destroy_found : Option SessionDirect → ℕ → Daemon → Outcome (Bool × Daemon)
destroy_found none session_id d = ok (false, d)
destroy_found (some s) session_id d = destroy s d.world >>= λ w.
    ok (true, record { sessions = erase session_id d.sessions; world = w })

abbrev pub is_some {ℓ} : {A : Type ℓ} → Option A → Bool
is_some none = false
is_some (some x) = true

-- The switch of ReceiveCommand; dumping writes to the log only.
unfoldable pub receive : Kernel → CommandChoice → Command → Daemon → Outcome (Bool × Daemon)
receive k register_file_path c d =
    with_session (find c.session_id d.sessions) c.session_id d
      λ s. with_path c.file_path λ path. Direct.register_file_path k c.id path s d.world
receive k unregister_file_path c d =
    with_session (find c.session_id d.sessions) c.session_id d
      λ s. Direct.unregister_file_path c.id s d.world
receive k read_ahead c d = with_session (find c.session_id d.sessions) c.session_id d λ s.
    Direct.read_ahead k
      (record { path_id = c.id; kind = c.read_ahead_kind; length = c.length; offset = c.offset }) s
      d.world
receive k exit c d = ok (true, d)
receive k create_session c d = create_new (find c.session_id d.sessions) c.session_id c.file_path d
receive k destroy_session c d = destroy_found (find c.session_id d.sessions) c.session_id d
receive k dump_session c d = ok (is_some (find c.session_id d.sessions), d)
receive k dump_everything c d = ok (true, d)
receive k create_fd_session c d = create_fd_new k (find c.session_id d.sessions) c d

-- ReceiveCommand
abbrev pub receive_command : Kernel → Command → Daemon → Outcome (Bool × Daemon)
receive_command k c d = receive k c.choice c d

abbrev pub is_exit : CommandChoice → Bool
is_exit exit = true
is_exit _ = false

abbrev pub close_fd : Option ℕ → Daemon → Daemon
close_fd fd d = record d { world = close fd d.world }

-- Main's loop over the commands of one read: whether kExit came, and the daemon. A descriptor that
-- came with a command is closed behind it.
unfoldable pub handle_commands : Kernel → List Command → Daemon → Outcome (Bool × Daemon)
handle_commands k [] d = ok (false, d)
handle_commands k (c ∷ cs) d =
    if is_exit c.choice
    then ok (true, d)
    else receive_command k c d >>= λ (result, d'). handle_commands k cs (close_fd c.fd d')

-- What Main goes on with behind the commands of one read.
abbrev pub unless_exit :
    (Daemon → Outcome (Bool × Daemon)) → Bool × Daemon → Outcome (Bool × Daemon)
unless_exit rest (true, d) = ok (true, d)
unless_exit rest (false, d) = rest d

abbrev pub handle_parsed :
    Kernel
    → (CommandParser → Daemon → Outcome (Bool × Daemon))
    → Daemon
    → List Command × Bool × CommandParser
    → Outcome (Bool × Daemon)
handle_parsed k rest d (commands, true, p) = ok (true, d)
handle_parsed k rest d (commands, false, p) = handle_commands k commands d >>= unless_exit (rest p)

-- PrefetcherDaemon::Impl::Main for what its reads bring: whether it has ended, and the daemon.
unfoldable pub main :
    Kernel → Bool → List Incoming → CommandParser → Daemon → Outcome (Bool × Daemon)
main k use_sockets [] p d = ok (false, d)
main k use_sockets (i ∷ later) p d =
    (if use_sockets then parse_socket_commands p i else parse_commands p i)
    >>= handle_parsed k (main k use_sockets later) d
