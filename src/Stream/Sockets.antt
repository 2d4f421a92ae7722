-- ===== src/Stream/Sockets.antt =====
-- ParseSocketCommands of src/prefetcher/prefetcher_daemon.cc against the abstract split of the stream,
-- and the descriptors that it hands out.
use android_system_iorap.Prelude.{
  ℕ, zero, suc, ◌+◌, ◌<◌, ◌≡◌, ◌⊎◌, refl, sym, ap, ◌∙◌, true, false, inl, inr, List, [], ◌∷◌, ◌++◌,
  Option, some, arith, ltb, length, drop, drop-drop, length-drop, append-nil, append_assoc, ◌==◌,
  Bool-cases, if◌then◌else◌,
}
use native.Mathlib.Nat.{add_assoc, zero-add, add-zero, suc-add}
use android_system_iorap.Prelude.Outcome.{ok}
use android_system_iorap.Wire.{ByteList, Command, requires_fd}
use android_system_iorap.Wire.Prefix.{read_stable, read-none}
use android_system_iorap.Stream.{
  CommandParser, received, socket_loop, parse_socket_commands, fd_list, fd_at, with_fd, count_fd,
  takes_fd,
}
use android_system_iorap.Stream.Frames.{Frames, incomplete, frame}
use android_system_iorap.Stream.Loop.{read-drop, Frames-empty}

-- The descriptors `fds` given out in order: each command that requires one takes the next.
unfoldable pub assign_fds : List Command → List ℕ → List Command
assign_fds [] fds = []
assign_fds (c ∷ cs) [] = c ∷ assign_fds cs []
assign_fds (c ∷ cs) (fd ∷ fds) =
    if requires_fd c
    then record c { fd = some fd } ∷ assign_fds cs fds
    else c ∷ assign_fds cs (fd ∷ fds)

-- What is left of them.
unfoldable pub spare_fds : List Command → List ℕ → List ℕ
spare_fds [] fds = fds
spare_fds (c ∷ cs) [] = []
spare_fds (c ∷ cs) (fd ∷ fds) = if requires_fd c then spare_fds cs fds else spare_fds cs (fd ∷ fds)

-- The descriptors from an offset on: none, or the one there and the others.
drop_cases :
    (fds : List ℕ) (off : ℕ)
    → ((drop off fds ≡ []) × (ltb off (length fds) ≡ false))
      ⊎ ((fd : ℕ) × (drop off fds ≡ fd ∷ drop (off + 1) fds)
          × (fd_at fds off ≡ some fd)
          × (ltb off (length fds) ≡ true))
drop_cases [] zero = inl (refl, refl)
drop_cases [] (suc off) = inl (refl, ground arith)
drop_cases (fd ∷ fds) zero = inr (fd, refl, refl, ground arith)
drop_cases (fd ∷ fds) (suc off) = elim (drop_cases fds off) [
  | inl (e, h) ↦ inl (e, ground arith)
  | inr (x, e, f, h) ↦ inr (x, rw suc-add e, f, ground arith)
]

spare_fds-nil : (cs : List Command) → spare_fds cs [] ≡ []
unfolding spare_fds
spare_fds-nil [] = refl
spare_fds-nil (c ∷ cs) = refl

-- The step of the loop, in terms of the descriptors from an offset on.
assign_fds-cons :
    (c : Command) (cs : List Command) (fds : List ℕ) (off : ℕ)
    → (assign_fds (c ∷ cs) (drop off fds)
        ≡ with_fd c fds off ∷ assign_fds cs (drop (off + count_fd c fds off) fds))
      × (spare_fds (c ∷ cs) (drop off fds) ≡ spare_fds cs (drop (off + count_fd c fds off) fds))
unfolding assign_fds spare_fds with_fd count_fd takes_fd
assign_fds-cons c cs fds off = elim (drop_cases fds off) [
  | inl (e, h) ↦ (ground (arith, add-zero off), ground (arith, add-zero off, spare_fds-nil cs))
  | inr (fd, e, f, h) ↦ (ground (arith, add-zero off), ground (arith, add-zero off))
]

-- The loop, from an offset into the bytes and one into the descriptors.
socket_loop-Frames :
    (fuel : ℕ) (v : ByteList) (fds : List ℕ) (v_off off : ℕ) (acc : List Command) {s r : ByteList}
    {cs : List Command}
    → Frames s cs r
    → s ≡ drop v_off v
    → length s < fuel
    → (k n : ℕ) × (socket_loop fuel v fds v_off off v_off off acc
        ≡ ok (acc ++ assign_fds cs (drop off fds), v_off + k, off + n))
      × (drop k s ≡ r)
      × (drop (off + n) fds ≡ spare_fds cs (drop off fds))
unfolding socket_loop
socket_loop-Frames zero v fds v_off off acc f e h = absurd (omega arith)
socket_loop-Frames (suc fuel) v fds v_off off acc {s = s} (incomplete k d) e h = (
  0,
  0,
  rw (read-drop v s v_off _ e d, read-none s k d)
      (unfold assign_fds in rw (append-nil, add-zero off)),
  refl,
  unfold spare_fds in ap (λ i. drop i fds) (add-zero off),
)
socket_loop-Frames (suc fuel) v fds v_off off acc {s = s} (frame {cs = cs} c k d f) e h =
    let (_, four, within) = read_stable s [] c k d in
    let one : ℕ = count_fd c fds off in
    let (assigned, spared) = assign_fds-cons c cs fds off in
    let (j, n, found, left, spare) =
      socket_loop-Frames fuel v fds (v_off + k) (off + one) (acc ++ with_fd c fds off ∷ []) f
        (ap (drop k) e ∙ drop-drop v_off k v) (omega (arith, length-drop k s)) in
    (
      k + j,
      one + n,
      rw (read-drop v s v_off _ e d, assigned)
          (rw
            (
              append_assoc acc (with_fd c fds off ∷ []) (assign_fds cs (drop (off + one) fds)),
              add_assoc v_off k j,
              add_assoc off one n,
            )
            at found),
      sym (drop-drop k j s) ∙ left,
      rw (spared, ← add_assoc off one n) spare,
    )

-- If the buffer and the received bytes split into some commands and a rest, one call of
-- ParseSocketCommands returns these commands, of which those that require a descriptor have got the
-- kept and received descriptors in order, as far as they go; it keeps the rest of the bytes and the
-- descriptors that were not handed out.
pub parse_socket_commands-Frames :
    (p : CommandParser) (bytes : ByteList) (fd : Option ℕ) {cs : List Command} {r : ByteList}
    → Frames (p.longbuf ++ bytes) cs r
    → parse_socket_commands p (received bytes fd)
      ≡ ok (
        assign_fds cs (p.longbuf_fds ++ fd_list fd),
        false,
        record { longbuf = r; longbuf_fds = spare_fds cs (p.longbuf_fds ++ fd_list fd) },
      )
unfolding parse_socket_commands
parse_socket_commands-Frames p bytes fd f = elim (Bool-cases (length (p.longbuf ++ bytes) == 0)) [
  | inl e ↦
      let (empty, same) = Frames-empty (p.longbuf ++ bytes) (ground arith) f in
      rw (e, empty, same) (unfold assign_fds spare_fds in refl)
  | inr e ↦
      let (k, n, found, left, spare) =
        socket_loop-Frames (suc (length (p.longbuf ++ bytes))) (p.longbuf ++ bytes)
          (p.longbuf_fds ++ fd_list fd) 0 0 [] f refl (omega arith) in
      rw (e, found, zero-add k, zero-add n, left, (rw zero-add at spare))
]
