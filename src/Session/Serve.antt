-- ===== src/Session/Serve.antt =====
-- PrefetcherDaemon::Impl::Main of src/prefetcher/prefetcher_daemon.cc against the commands that were
-- written.
use mathlib.Core.List.{flatten}
use android_system_iorap.Prelude.{
  ℕ, ◌≡◌, refl, sym, subst, Bool, true, false, List, [], ◌∷◌, ◌++◌, none, some, arith, map,
  append-nil, append_assoc, length, Bool-cases, inl, inr, All,
}
use android_system_iorap.Prelude.Outcome.{Outcome, ok, fatal, stalled, ◌>>=◌}
use android_system_iorap.Wire.{ByteList, Command, read}
use android_system_iorap.Wire.RoundTrip.{Fits, sent}
use android_system_iorap.Wire.Endings.{read-short}
use android_system_iorap.Stream.{CommandParser, new_parser, Incoming, received}
use android_system_iorap.Stream.Frames.{Frames, Cut, Frames-Cut, encoding, Frames-encoding}
use android_system_iorap.Stream.Loop.{parse_commands-Frames, Frames-none, Frames-left}
use android_system_iorap.Session.{Kernel}
use android_system_iorap.Session.Daemon.{
  Daemon, receive_command, is_exit, close_fd, handle_commands, unless_exit, main,
}

-- The reads that bring the given pieces, without descriptors.
abbrev pub pieces_received : List ByteList → List Incoming
pieces_received chunks = map (λ bytes. received bytes none) chunks

-- A bind whose continuation ends in the same way for every result.
bind_split :
    (o : Outcome (Bool × Daemon)) (f g h : Bool × Daemon → Outcome (Bool × Daemon))
    → ((x : Bool × Daemon) → h x ≡ (f x >>= g))
    → (o >>= h) ≡ ((o >>= f) >>= g)
bind_split (ok x) f g h e = e x
bind_split fatal f g h e = refl
bind_split stalled f g h e = refl

bind_same :
    (o : Outcome (Bool × Daemon)) (f g : Bool × Daemon → Outcome (Bool × Daemon))
    → ((x : Bool × Daemon) → f x ≡ g x)
    → (o >>= f) ≡ (o >>= g)
bind_same (ok x) f g e = e x
bind_same fatal f g e = refl
bind_same stalled f g e = refl

unless_exit_same :
    (f g : Daemon → Outcome (Bool × Daemon))
    → ((d : Daemon) → f d ≡ g d)
    → (x : Bool × Daemon) → unless_exit f x ≡ unless_exit g x
unless_exit_same f g e (true, d) = refl
unless_exit_same f g e (false, d) = e d

handle_commands-append :
    (k : Kernel) (cs ds : List Command) (d : Daemon)
    → handle_commands k (cs ++ ds) d
      ≡ (handle_commands k cs d >>= unless_exit (handle_commands k ds))
unfolding handle_commands
handle_commands-append k [] ds d = refl
handle_commands-append k (c ∷ cs) ds d = elim (Bool-cases (is_exit c.choice)) [
  | inl e ↦ rw e refl
  | inr e ↦ rw e (
      bind_split (receive_command k c d) _ _ _
        (λ (b, d'). handle_commands-append k cs ds (close_fd c.fd d')))
]

main-Frames :
    (k : Kernel) (p : CommandParser) (chunks : List ByteList) (j : ℕ) (d : Daemon)
    {cs : List Command} {r : ByteList}
    → read (some p.longbuf) (length p.longbuf) ≡ ok (none, j)
    → Frames (p.longbuf ++ flatten chunks) cs r
    → main k false (pieces_received chunks) p d ≡ handle_commands k cs d
unfolding main flatten handle_commands
main-Frames k p [] j d none_yet f =
    let (empty, same) = Frames-none j none_yet (rw append-nil at f) in rw empty refl
main-Frames k p (bytes ∷ later) j d {cs} {r} none_yet f =
    let c : Cut (p.longbuf ++ bytes) (flatten later) cs r =
      Frames-Cut (p.longbuf ++ bytes) (flatten later) (rw (← append_assoc) at f) in
    let (i, left) = Frames-left c.first_frames in
    let p' = record p { longbuf = c.left } in
    rw
      (
        parse_commands-Frames p bytes none c.first_frames,
        c.joined,
        handle_commands-append k c.first c.second d,
      )
      (bind_same (handle_commands k c.first d) _ _
        (unless_exit_same _ _ (λ d'. main-Frames k p' later i d' left c.second_frames)))

-- The daemon's loop, fed with the bytes of some commands whose fields fit their widths, in pieces of
-- any sizes, does what the commands as they are sent do one behind the other, up to kExit, on any
-- daemon and under any system calls.
pub main-encoding :
    (k : Kernel) (cs : List Command) (chunks : List ByteList) (d : Daemon)
    → All Fits cs
    → flatten chunks ≡ encoding cs
    → main k false (pieces_received chunks) new_parser d ≡ handle_commands k (map sent cs) d
main-encoding k cs chunks d fits e =
    main-Frames k new_parser chunks 0 d (read-short [] (omega arith))
      (subst (λ s. Frames s (map sent cs) []) (sym e) (Frames-encoding cs fits))
