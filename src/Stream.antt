-- ===== src/Stream.antt =====
-- CommandParser of src/prefetcher/prefetcher_daemon.cc: how the daemon cuts the bytes that it
-- receives into commands. One call of read(2) or recvmsg(2) is an argument.
pub mod Frames
pub mod Loop
pub mod Total
pub mod Sockets
use android_system_iorap.Prelude.{
  ℕ, zero, suc, ◌+◌, ◌-◌, Bool, true, false, ◌&&◌, List, [], ◌∷◌, ◌++◌, Option, none, some, ltb,
  ◌==◌, if◌then◌else◌, length, drop,
}
use android_system_iorap.Prelude.Outcome.{Outcome, ok, stalled, ◌>>=◌}
use android_system_iorap.Wire.{ByteList, Command, read, requires_fd}

pub record CommandParser : Type 0 where
  pub longbuf : ByteList
  pub longbuf_fds : List ℕ

-- `CommandParser` as constructed.
abbrev pub new_parser : CommandParser
new_parser = record { longbuf = []; longbuf_fds = [] }

-- What the system call brings: an error, the end of the file, or bytes, behind a file descriptor
-- that came as ancillary data.
pub data Incoming : Type 0 where
  failed : Incoming
  end_of_file : Incoming
  received : ByteList → Option ℕ → Incoming

-- The inner loop of ParseCommands: the commands, and `consumed_total`.
unfoldable pub read_loop : ℕ → ByteList → ℕ → ℕ → List Command → Outcome (List Command × ℕ)
read_loop zero v v_off consumed_total commands = stalled
read_loop (suc fuel) v v_off consumed_total commands =
    read (some (drop v_off v)) (length v - v_off) >>= λ (maybe_command, consumed_bytes).
    elim maybe_command [
      | none ↦ ok (commands, consumed_total + consumed_bytes)
      | some c ↦
          read_loop fuel v (v_off + consumed_bytes) (consumed_total + consumed_bytes)
            (commands ++ c ∷ [])
    ]

-- CommandParser::ParseCommands: the commands, `eof`, and the parser behind it.
unfoldable pub parse_commands :
    CommandParser → Incoming → Outcome (List Command × Bool × CommandParser)
parse_commands p failed = ok ([], false, p)
parse_commands p end_of_file = ok ([], true, p)
parse_commands p (received bytes fd) =
    let v = p.longbuf ++ bytes in
    if length v == 0
    then ok ([], false, record p { longbuf = v })
    else read_loop (suc (length v)) v 0 0 [] >>= λ (commands, consumed_total).
        ok (commands, false, record p { longbuf = drop consumed_total v })

abbrev pub fd_list : Option ℕ → List ℕ
fd_list none = []
fd_list (some fd) = fd ∷ []

-- `maybe_command->fd = v_fds[v_fds_off]` for a command that requires one, where there is one.
abbrev pub fd_at : List ℕ → ℕ → Option ℕ
fd_at [] i = none
fd_at (fd ∷ fds) zero = some fd
fd_at (fd ∷ fds) (suc i) = fd_at fds i

-- Does the command take the descriptor at `v_fds_off`?
unfoldable pub takes_fd : Command → List ℕ → ℕ → Bool
takes_fd c v_fds v_fds_off = requires_fd c && ltb v_fds_off (length v_fds)

unfoldable pub with_fd : Command → List ℕ → ℕ → Command
with_fd c v_fds v_fds_off =
    if takes_fd c v_fds v_fds_off then record c { fd = fd_at v_fds v_fds_off } else c

unfoldable pub count_fd : Command → List ℕ → ℕ → ℕ
count_fd c v_fds v_fds_off = if takes_fd c v_fds v_fds_off then 1 else 0

-- The inner loop of ParseSocketCommands: the commands, `consumed_total`, `consumed_fds_total`.
unfoldable pub socket_loop :
    ℕ → ByteList → List ℕ → ℕ → ℕ → ℕ → ℕ → List Command → Outcome (List Command × ℕ × ℕ)
socket_loop zero v v_fds v_off v_fds_off consumed_total consumed_fds_total commands = stalled
socket_loop (suc fuel) v v_fds v_off v_fds_off consumed_total consumed_fds_total commands =
    read (some (drop v_off v)) (length v - v_off) >>= λ (maybe_command, consumed_bytes).
    elim maybe_command [
      | none ↦ ok (commands, consumed_total + consumed_bytes, consumed_fds_total)
      | some c ↦
          socket_loop fuel v v_fds (v_off + consumed_bytes) (v_fds_off + count_fd c v_fds v_fds_off)
            (consumed_total + consumed_bytes) (consumed_fds_total + count_fd c v_fds v_fds_off)
            (commands ++ with_fd c v_fds v_fds_off ∷ [])
    ]

-- CommandParser::ParseSocketCommands
unfoldable pub parse_socket_commands :
    CommandParser → Incoming → Outcome (List Command × Bool × CommandParser)
parse_socket_commands p failed = ok ([], false, p)
parse_socket_commands p end_of_file = ok ([], true, p)
parse_socket_commands p (received bytes fd) =
    let v = p.longbuf ++ bytes in
    let v_fds = p.longbuf_fds ++ fd_list fd in
    if length v == 0
    then ok ([], false, record p { longbuf = v; longbuf_fds = v_fds })
    else socket_loop (suc (length v)) v v_fds 0 0 0 0 []
      >>= λ (commands, consumed_total, consumed_fds_total). ok (
        commands,
        false,
        record { longbuf = drop consumed_total v; longbuf_fds = drop consumed_fds_total v_fds },
      )
