-- ===== src/Stream/Frames.antt =====
-- The abstract view of the byte stream: what a buffer splits into, whatever pieces it came in.
use android_system_iorap.Prelude.{
  ℕ, zero, suc, ◌<◌, ◌≡◌, refl, sym, ap, inl, inr, subst, ◌∙◌, List, [], ◌∷◌, ◌++◌, Option, none,
  some, arith, length, drop, drop-append, length-drop, drop-append_length, map, All,
}
use android_system_iorap.Prelude.Outcome.{Outcome, ok, fatal}
use android_system_iorap.Wire.{ByteList, Command, read, write_bytes}
use android_system_iorap.Wire.RoundTrip.{Fits, sent, read-write_bytes}
use android_system_iorap.Wire.Prefix.{read_stable, read_fatal}
use android_system_iorap.Wire.Endings.{read_cases, read-short}

-- `s` is the commands `cs`, followed by `r`, in which no command is complete.
pub data Frames : ByteList → List Command → ByteList → Type 0 where
  incomplete : {s : ByteList} (k : ℕ) → read (some s) (length s) ≡ ok (none, k) → Frames s [] s
  frame :
      {s r : ByteList} {cs : List Command} (c : Command) (k : ℕ)
      → read (some s) (length s) ≡ ok (some c, k)
      → Frames (drop k s) cs r
      → Frames s (c ∷ cs) r

-- What follows a buffer joins the part of it that was not yet a command.
pub Frames-append :
    {s r r' : ByteList} {cs cs' : List Command} (q : ByteList)
    → Frames s cs r
    → Frames (r ++ q) cs' r'
    → Frames (s ++ q) (cs ++ cs') r'
Frames-append q (incomplete k e) g = g
Frames-append {s} q (frame c k e f) g =
    let (same, four, within) = read_stable s q c k e in
    frame c k same (rw (drop-append k s q within) (Frames-append q f g))

-- The first piece of a stream that splits splits too, and the rest goes on from what it left.
pub record Cut (s q : ByteList) (cs : List Command) (r : ByteList) : Type 0 where
  pub first : List Command
  pub second : List Command
  pub left : ByteList
  pub joined : cs ≡ first ++ second
  pub first_frames : Frames s first left
  pub second_frames : Frames (left ++ q) second r

Frames-read-some :
    {s r : ByteList} {cs : List Command} (c : Command) (k : ℕ)
    → read (some s) (length s) ≡ ok (some c, k)
    → Frames s cs r
    → (cs' : List Command) × (cs ≡ c ∷ cs') × Frames (drop k s) cs' r
Frames-read-some c k e (incomplete j d) = ground arith
Frames-read-some {s} {r} {cs} c k e (frame {cs = ds} d j h f) =
    (ds, ground arith, subst (λ i. Frames (drop i s) ds r) (same_size c d k j (sym e ∙ h)) f)
  where
    same_size :
        (c d : Command) (k j : ℕ)
        → ◌≡◌ {A = Outcome (Option Command × ℕ)} (ok (some c, k)) (ok (some d, j))
        → j ≡ k
    same_size c d k j p = ground arith

Frames-read-fatal :
    {s r : ByteList} {cs : List Command} → read (some s) (length s) ≡ fatal → Frames s cs r → ⊥
Frames-read-fatal e (incomplete j d) = cc
Frames-read-fatal e (frame d j h f) = cc

-- By induction on a bound for the first piece.
bounded-Cut :
    (n : ℕ) (s q : ByteList) {cs : List Command} {r : ByteList}
    → length s < n
    → Frames (s ++ q) cs r
    → Cut s q cs r
bounded-Cut zero s q h f = absurd (omega arith)
bounded-Cut (suc n) s q {cs} {r} h f = elim (read_cases (some s) (length s)) [
  | inl e ↦ absurd (Frames-read-fatal (read_fatal s q e) f)
  | inr (inl (k, e)) ↦ record {
    first = [];
    second = cs;
    left = s;
    joined = refl;
    first_frames = incomplete k e;
    second_frames = f;
  }
  | inr (inr (c, k, e)) ↦
      let (same, four, within) = read_stable s q c k e in
      let (ds, eq, g) = Frames-read-some c k same f in
      let tail : Cut (drop k s) q ds r =
        bounded-Cut n (drop k s) q (omega (arith, length-drop k s))
          (rw (drop-append k s q within) at g) in
      record {
        first = c ∷ tail.first;
        second = tail.second;
        left = tail.left;
        joined = eq ∙ ap (◌∷◌ c) tail.joined;
        first_frames = frame c k e tail.first_frames;
        second_frames = tail.second_frames;
      }
]

pub Frames-Cut :
    (s q : ByteList) {cs : List Command} {r : ByteList} → Frames (s ++ q) cs r → Cut s q cs r
Frames-Cut s q f = bounded-Cut (suc (length s)) s q (omega arith) f

-- The bytes of some commands, one behind the other.
abbrev pub encoding : List Command → ByteList
encoding [] = []
encoding (c ∷ cs) = write_bytes c ++ encoding cs

-- What was written splits into what was sent, with nothing left.
pub Frames-encoding : (cs : List Command) → All Fits cs → Frames (encoding cs) (map sent cs) []
Frames-encoding [] h = incomplete 0 (read-short [] (omega arith))
Frames-encoding (c ∷ cs) h =
    frame (sent c) (length (write_bytes c)) (read-write_bytes c (encoding cs) h.0)
      (rw (drop-append_length (write_bytes c) (encoding cs)) (Frames-encoding cs h.1))
