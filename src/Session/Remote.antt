-- ===== src/Session/Remote.antt =====
-- A SessionIndirect of src/prefetcher/session.cc and the daemon's session of its id: from the request
-- through the bytes to the operation.
use mathlib.Core.List.{flatten}
use native.Mathlib.Nat.{mod-eq_of_lt}
use android_system_iorap.Prelude.{
  ℕ, ◌^◌, ◌<◌, ◌≡◌, refl, sym, ◌∙◌, subst, Bool, false, List, [], ◌∷◌, Option, none, some, arith,
  length, append-nil, nat_key, Option-cases, inl, inr, some_injective,
}
use android_system_iorap.Prelude.Assoc.{find, assign}
use android_system_iorap.Prelude.Outcome.{Outcome, ok, fatal, stalled, ◌>>=◌}
use android_system_iorap.Wire.{
  ByteList, Command, blank, register_file_path, unregister_file_path, read_ahead, write,
  write_bytes,
}
use android_system_iorap.Wire.RoundTrip.{Fits, sent, sent_fields, write_bounds}
use android_system_iorap.Stream.{new_parser}
use android_system_iorap.Session.{SessionDirect, Kernel, World}
use android_system_iorap.Session.Daemon.{Daemon, store, receive, handle_commands, main, close_fd}
use android_system_iorap.Session.Steps.{Request, register, unregister, advise, unadvise, apply}
use android_system_iorap.Session.Serve.{pieces_received, main-encoding}
use android_system_iorap.Session.Indirect.{send_command, indirect_command}

-- The session's id and the request's numbers fit the fields of a command.
abbrev pub FitsRequest : ℕ → Request → Type 0
FitsRequest session_id (register id path) =
    (session_id < 2 ^ 32) × (id < 2 ^ 32) × (length path < 2 ^ 32)
FitsRequest session_id (unregister id) = (session_id < 2 ^ 32) × (id < 2 ^ 32)
FitsRequest session_id (advise e) =
    (session_id < 2 ^ 32)
    × (e.path_id < 2 ^ 32)
    × (e.kind < 2 ^ 32)
    × (e.length < 2 ^ 64)
    × (e.offset < 2 ^ 64)
FitsRequest session_id (unadvise e) = Unit

-- The request on the daemon's session.
abbrev pub direct : Kernel → Request → ℕ → SessionDirect → Daemon → Outcome (Bool × Daemon)
direct k r session_id s d = apply k r s d.world >>= λ (b, s', w').
    ok (false, record { sessions = assign session_id s' d.sessions; world = w' })

stored :
    (k : Kernel) (session_id : ℕ) (d : Daemon) (o : Outcome (Bool × SessionDirect × World))
    → (((o >>= λ r. ok (store session_id d r)) >>= λ (result, d').
        handle_commands k [] (close_fd none d')))
      ≡ (o >>= λ (b, s', w').
          ok (false, record { sessions = assign session_id s' d.sessions; world = w' }))
unfolding handle_commands
stored k session_id d (ok (b, s, w)) = refl
stored k session_id d fatal = refl
stored k session_id d stalled = refl

-- The command of a request that fits, without the conversions.
abbrev plain : ℕ → Request → Option Command
plain session_id (register id path) =
    some (record (blank register_file_path) {
      session_id = session_id;
      id = id;
      file_path = some path;
    })
plain session_id (unregister id) =
    some (record (blank unregister_file_path) { session_id = session_id; id = id })
plain session_id (advise e) = some (record (blank read_ahead) {
  session_id = session_id;
  id = e.path_id;
  read_ahead_kind = e.kind;
  length = e.length;
  offset = e.offset;
})
plain session_id (unadvise e) = none

indirect_command-plain :
    (session_id : ℕ) (r : Request)
    → FitsRequest session_id r
    → indirect_command session_id r ≡ plain session_id r
unfolding indirect_command
indirect_command-plain session_id (register id path) (a, b, c) =
    rw (mod-eq_of_lt a, mod-eq_of_lt b) refl
indirect_command-plain session_id (unregister id) (a, b) = rw (mod-eq_of_lt a, mod-eq_of_lt b) refl
indirect_command-plain session_id (advise e) (a, b, x, y, z) =
    rw (mod-eq_of_lt a, mod-eq_of_lt b) refl
indirect_command-plain session_id (unadvise e) f = refl

plain-direct :
    (k : Kernel) (r : Request) (session_id : ℕ) (c : Command) (s : SessionDirect) (d : Daemon)
    → plain session_id r ≡ some c
    → FitsRequest session_id r
    → find session_id d.sessions ≡ some s
    → Fits c × (handle_commands k (sent c ∷ []) d ≡ direct k r session_id s d)
unfolding handle_commands receive apply sent_fields
plain-direct k (register id path) session_id c s d e (f0, f1, f2) g =
    subst
      (λ c.
        Fits c × (handle_commands k (sent c ∷ []) d ≡ direct k (register id path) session_id s d))
      (some_injective e) (omega arith, rw g (stored k session_id d _))
plain-direct k (unregister id) session_id c s d e (f0, f1) g =
    subst
      (λ c. Fits c × (handle_commands k (sent c ∷ []) d ≡ direct k (unregister id) session_id s d))
      (some_injective e) (omega arith, rw g (stored k session_id d _))
plain-direct k (advise a) session_id c s d e (f0, f1, f2, f3, f4) g =
    subst (λ c. Fits c × (handle_commands k (sent c ∷ []) d ≡ direct k (advise a) session_id s d))
      (some_injective e) (omega arith, rw g (stored k session_id d _))
plain-direct k (unadvise a) session_id c s d e f g = absurd (ground arith)

send_command-write_bytes :
    (c : Command) (bytes : ByteList) → send_command c ≡ some bytes → bytes ≡ write_bytes c
unfolding send_command
send_command-write_bytes c bytes e = elim (Option-cases (write c (some 1024))) [
  | inl f ↦ absurd (ground arith)
  | inr ((x, m), f) ↦ ground (arith, (write_bounds c 1024 x m f).0)
]

-- The bytes that SendCommand writes for a request of an indirect session have, in whatever pieces
-- they reach the daemon, the effect of the request on the daemon's session of that id, if the
-- session's id and the request's numbers fit the command's fields.
pub main-indirect_command :
    (k : Kernel) (r : Request) (session_id : ℕ) (c : Command) (bytes : ByteList)
    (chunks : List ByteList) (s : SessionDirect) (d : Daemon)
    → FitsRequest session_id r
    → indirect_command session_id r ≡ some c
    → send_command c ≡ some bytes
    → flatten chunks ≡ bytes
    → find session_id d.sessions ≡ some s
    → main k false (pieces_received chunks) new_parser d ≡ direct k r session_id s d
main-indirect_command k r session_id c bytes chunks s d f e sends whole g =
    let (fits, same) =
      plain-direct k r session_id c s d (sym (indirect_command-plain session_id r f) ∙ e) f g in
    main-encoding k (c ∷ []) chunks d (fits, tt)
      (whole ∙ send_command-write_bytes c bytes sends ∙ sym (append-nil (write_bytes c)))
    ∙ same
