-- ===== src/Stream/Total.antt =====
-- The ends of a call of ParseCommands of src/prefetcher/prefetcher_daemon.cc.
use android_system_iorap.Prelude.{
  ℕ, zero, suc, ◌+◌, ◌<◌, ◌≤◌, ◌≡◌, ◌≢◌, refl, ap, ◌∙◌, Bool, false, true, ◌⊎◌, inl, inr, List, [],
  ◌∷◌, ◌++◌, Option, some, arith, length, none, ltb, Bool-cases, Option-cases, take, drop,
  drop-drop, length-drop, ◌==◌,
}
use android_system_iorap.Prelude.Outcome.{ok, fatal}
use android_system_iorap.Wire.{ByteList, Command, choice_of, of_le, on_success, read, read_choice}
use android_system_iorap.Wire.Bytes.{parsed, parsing_read-long}
use android_system_iorap.Wire.Prefix.{read_stable}
use android_system_iorap.Wire.Endings.{read_cases, read-short}
use android_system_iorap.Stream.{
  CommandParser, Incoming, failed, end_of_file, received, read_loop, parse_commands,
}
use android_system_iorap.Stream.Frames.{Frames, incomplete, frame}
use android_system_iorap.Stream.Loop.{read-drop, parse_commands-Frames}

-- The bytes begin with four bytes whose number is no command's.
abbrev pub IsUnknown : ByteList → Type 0
IsUnknown s = (4 ≤ length s) × (choice_of (of_le (take 4 s)) ≡ none)

-- Behind some commands stands a number that is no command's.
pub data IsBroken : ByteList → Type 0 where
  unknown : {s : ByteList} → IsUnknown s → IsBroken s
  behind :
      {s : ByteList} (c : Command) (k : ℕ)
      → read (some s) (length s) ≡ ok (some c, k)
      → IsBroken (drop k s)
      → IsBroken s

read-long :
    (s : ByteList)
    → 4 ≤ length s
    → read (some s) (length s)
      ≡ read_choice (choice_of (of_le (take 4 s))) s (parsed (of_le (take 4 s)) (drop 4 s))
unfolding read on_success
read-long s h = rw (parsing_read-long 4 s h) refl

-- Read aborts just at the number of no command.
read-IsUnknown : (s : ByteList) → read (some s) (length s) ≡ fatal → IsUnknown s
read-IsUnknown s h = elim (Bool-cases (ltb (length s) 4)) [
  | inl short ↦ absurd (cc (read-short s (ground arith)))
  | inr long ↦ elim (Option-cases (choice_of (of_le (take 4 s)))) [
    | inl e ↦ (ground arith, e)
    | inr (c, e) ↦ absurd (cc (read-long s (ground arith)))
  ]
]

read-unknown : (s : ByteList) → IsUnknown s → read (some s) (length s) ≡ fatal
read-unknown s (long, e) = read-long s long ∙ rw e refl

splits_below :
    (n : ℕ) (s : ByteList)
    → length s < n
    → ((cs : List Command) × (r : ByteList) × Frames s cs r) ⊎ IsBroken s
splits_below zero s h = absurd (omega arith)
splits_below (suc n) s h = elim (read_cases (some s) (length s)) [
  | inl e ↦ inr (unknown (read-IsUnknown s e))
  | inr (inl (k, e)) ↦ inl ([], s, incomplete k e)
  | inr (inr (c, k, e)) ↦
      let (_, four, within) = read_stable s [] c k e in
      elim (splits_below n (drop k s) (omega (arith, length-drop k s))) [
        | inl (cs, r, f) ↦ inl (c ∷ cs, r, frame c k e f)
        | inr b ↦ inr (behind c k e b)
      ]
]

-- A buffer splits into commands and a rest, or it is broken.
pub splits : (s : ByteList) → ((cs : List Command) × (r : ByteList) × Frames s cs r) ⊎ IsBroken s
splits s = splits_below (suc (length s)) s (omega arith)

read_loop-IsBroken :
    (fuel : ℕ) (v : ByteList) (v_off : ℕ) (acc : List Command) {s : ByteList}
    → IsBroken s
    → s ≡ drop v_off v
    → length s < fuel
    → read_loop fuel v v_off v_off acc ≡ fatal
unfolding read_loop
read_loop-IsBroken zero v v_off acc b e h = absurd (omega arith)
read_loop-IsBroken (suc fuel) v v_off acc {s = s} (unknown d) e h =
    rw (read-drop v s v_off _ e (read-unknown s d))
read_loop-IsBroken (suc fuel) v v_off acc {s = s} (behind c k d b) e h =
    let (_, four, within) = read_stable s [] c k d in
    rw (read-drop v s v_off _ e d) (
      read_loop-IsBroken fuel v (v_off + k) (acc ++ c ∷ []) b (ap (drop k) e ∙ drop-drop v_off k v)
        (omega (arith, length-drop k s)))

IsBroken-length : {s : ByteList} → IsBroken s → length s ≢ 0
IsBroken-length {s} (unknown (long, e)) h = omega arith
IsBroken-length {s} (behind c k e b) h =
    let (_, four, within) = read_stable s [] c k e in omega arith

IsBroken-nonempty : (s : ByteList) → IsBroken s → (length s == 0) ≡ false
IsBroken-nonempty s b = ground (arith, IsBroken-length b)

pub parse_commands-IsBroken :
    (p : CommandParser) (bytes : ByteList) (fd : Option ℕ)
    → IsBroken (p.longbuf ++ bytes)
    → parse_commands p (received bytes fd) ≡ fatal
unfolding parse_commands
parse_commands-IsBroken p bytes fd b = rw (
  IsBroken-nonempty (p.longbuf ++ bytes) b,
  read_loop-IsBroken (suc (length (p.longbuf ++ bytes))) (p.longbuf ++ bytes) 0 [] b refl
      (omega arith),
)

-- What a call received breaks the buffer.
abbrev pub Breaks : CommandParser → Incoming → Type 0
Breaks p (received bytes fd) = IsBroken (p.longbuf ++ bytes)
Breaks p end_of_file = ⊥
Breaks p failed = ⊥

-- A call of ParseCommands ends, whatever it receives: with commands, or by the abort, and then it has
-- received bytes after which the buffer holds, behind some whole commands, four bytes whose number is no
-- command's.
pub parse_commands_total :
    (p : CommandParser) (i : Incoming)
    → (Breaks p i × (parse_commands p i ≡ fatal))
      ⊎ ((cs : List Command) × (eof : Bool) × (q : CommandParser) × (parse_commands p i
            ≡ ok (cs, eof, q)))
unfolding parse_commands
parse_commands_total p failed = inr ([], false, p, refl)
parse_commands_total p end_of_file = inr ([], true, p, refl)
parse_commands_total p (received bytes fd) = elim (splits (p.longbuf ++ bytes)) [
  | inl (cs, r, f) ↦ inr (cs, false, record p { longbuf = r }, parse_commands-Frames p bytes fd f)
  | inr b ↦ inl (b, parse_commands-IsBroken p bytes fd b)
]
