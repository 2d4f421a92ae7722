-- ===== src/Stream/Loop.antt =====
-- ParseCommands of src/prefetcher/prefetcher_daemon.cc against the abstract split of the stream, for
-- one call and for a sequence of calls.
use mathlib.Core.List.{flatten}
use native.Mathlib.Nat.{add_assoc, zero-add}
use android_system_iorap.Prelude.{
  ℕ, zero, suc, ◌+◌, ◌-◌, ◌<◌, ◌≡◌, refl, sym, ap, subst, ◌∙◌, false, inl, inr, List, [], ◌∷◌, ◌++◌,
  Option, none, some, arith, length, drop, drop-drop, append_assoc, append-nil, length-drop, map,
  All, ◌==◌, Bool-cases,
}
use android_system_iorap.Prelude.Outcome.{Outcome, ok, ◌>>=◌}
use android_system_iorap.Wire.{ByteList, Command, read}
use android_system_iorap.Wire.RoundTrip.{Fits, sent}
use android_system_iorap.Wire.Prefix.{read-none, read_stable}
use android_system_iorap.Wire.Endings.{read-short}
use android_system_iorap.Stream.{CommandParser, new_parser, received, read_loop, parse_commands}
use android_system_iorap.Stream.Frames.{
  Frames, incomplete, frame, Cut, Frames-Cut, encoding, Frames-encoding,
}

-- A read at an offset, as a read of what stands there.
pub read-drop :
    (v s : ByteList) (v_off : ℕ) (o : Outcome (Option Command × ℕ))
    → s ≡ drop v_off v
    → read (some s) (length s) ≡ o
    → read (some (drop v_off v)) (length v - v_off) ≡ o
read-drop v s v_off o e d =
    subst (λ x. read (some x) (length v - v_off) ≡ o) e
      (subst (λ n. read (some s) n ≡ o) (ap length e ∙ length-drop v_off v) d)

-- At the offset `v_off` the loop finds the commands that the rest of the buffer splits into.
pub read_loop-Frames :
    (fuel : ℕ) (v : ByteList) (v_off : ℕ) (acc : List Command) {s r : ByteList} {cs : List Command}
    → Frames s cs r
    → s ≡ drop v_off v
    → length s < fuel
    → (k : ℕ) × (read_loop fuel v v_off v_off acc ≡ ok (acc ++ cs, v_off + k)) × (drop k s ≡ r)
unfolding read_loop
read_loop-Frames zero v v_off acc f e h = absurd (omega arith)
read_loop-Frames (suc fuel) v v_off acc {s = s} (incomplete k d) e h =
    (0, rw (read-drop v s v_off _ e d, read-none s k d, append-nil), refl)
read_loop-Frames (suc fuel) v v_off acc {s = s} (frame {cs = cs} c k d f) e h =
    let (_, four, within) = read_stable s [] c k d in
    let (j, found, left) =
      read_loop-Frames fuel v (v_off + k) (acc ++ c ∷ []) f (ap (drop k) e ∙ drop-drop v_off k v)
        (omega (arith, length-drop k s)) in
    (
      k + j,
      rw (read-drop v s v_off _ e d)
          (rw (append_assoc acc (c ∷ []) cs, add_assoc v_off k j) at found),
      sym (drop-drop k j s) ∙ left,
    )

-- A buffer in which no command is complete splits in one way.
pub Frames-none :
    {s r : ByteList} {cs : List Command} (k : ℕ)
    → read (some s) (length s) ≡ ok (none, k)
    → Frames s cs r
    → (cs ≡ []) × (r ≡ s)
Frames-none k e (incomplete j d) = (refl, refl)
Frames-none k e (frame c j d f) = ground arith

pub Frames-empty :
    (s : ByteList) {r : ByteList} {cs : List Command}
    → length s ≡ 0
    → Frames s cs r
    → (cs ≡ []) × (r ≡ s)
Frames-empty s h f = Frames-none 0 (read-short s (omega arith)) f

-- If the buffer and the received bytes split into some commands and a rest, one call of
-- ParseCommands returns these commands, in order, and keeps the rest.
pub parse_commands-Frames :
    (p : CommandParser) (bytes : ByteList) (fd : Option ℕ) {cs : List Command} {r : ByteList}
    → Frames (p.longbuf ++ bytes) cs r
    → parse_commands p (received bytes fd) ≡ ok (cs, false, record p { longbuf = r })
unfolding parse_commands
parse_commands-Frames p bytes fd f = elim (Bool-cases (length (p.longbuf ++ bytes) == 0)) [
  | inl e ↦
      let (empty, same) = Frames-empty (p.longbuf ++ bytes) (ground arith) f in rw (e, empty, same)
  | inr e ↦
      let (k, found, left) =
        read_loop-Frames (suc (length (p.longbuf ++ bytes))) (p.longbuf ++ bytes) 0 [] f refl
          (omega arith) in
      rw (e, found, zero-add, left)
]

-- Calls of ParseCommands one behind the other, as PrefetcherDaemon::Impl::Main makes them.
pub feed : CommandParser → List ByteList → Outcome (List Command × CommandParser)
feed p [] = ok ([], p)
feed p (bytes ∷ later) = parse_commands p (received bytes none) >>= λ (cs, eof, p').
    feed p' later >>= λ (cs', p''). ok (cs ++ cs', p'')

pub Frames-left :
    {s r : ByteList} {cs : List Command}
    → Frames s cs r
    → (k : ℕ) × (read (some r) (length r) ≡ ok (none, k))
Frames-left (incomplete k d) = (k, d)
Frames-left (frame c k d f) = Frames-left f

pub feed-Frames :
    (p : CommandParser) (chunks : List ByteList) (k : ℕ) {cs : List Command} {r : ByteList}
    → read (some p.longbuf) (length p.longbuf) ≡ ok (none, k)
    → Frames (p.longbuf ++ flatten chunks) cs r
    → feed p chunks ≡ ok (cs, record p { longbuf = r })
unfolding feed flatten
feed-Frames p [] k none_yet f =
    let (empty, same) = Frames-none k none_yet (rw append-nil at f) in rw (empty, same)
feed-Frames p (bytes ∷ later) k {cs} {r} none_yet f =
    let c : Cut (p.longbuf ++ bytes) (flatten later) cs r =
      Frames-Cut (p.longbuf ++ bytes) (flatten later) (rw (← append_assoc) at f) in
    let (j, left) = Frames-left c.first_frames in
    rw (parse_commands-Frames p bytes none c.first_frames)
      (rw (feed-Frames (record p { longbuf = c.left }) later j left c.second_frames) (rw c.joined))

-- Whatever the sizes in which the bytes of some commands arrive, whose fields fit their widths, the
-- daemon gets just those commands, in order, with the fields that their choices send, and no byte is
-- left over.
pub feed-encoding :
    (cs : List Command) (chunks : List ByteList)
    → All Fits cs
    → flatten chunks ≡ encoding cs
    → feed new_parser chunks ≡ ok (map sent cs, new_parser)
feed-encoding cs chunks fits e =
    feed-Frames new_parser chunks 0 (read-short [] (omega arith))
      (subst (λ s. Frames s (map sent cs) []) (sym e) (Frames-encoding cs fits))
