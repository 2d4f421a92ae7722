-- ===== src/Wire/Bytes.antt =====
-- Integers in memory, and what ParsingRead does at a buffer that is long enough or too short.
use native.Mathlib.Nat.{pow-suc}
use android_system_iorap.Prelude.{
  ℕ, zero, suc, ◌/◌, ◌^◌, ◌≤◌, ◌<◌, ◌≡◌, refl, subst, ap, ◌∙◌, [], ◌∷◌, ◌++◌, some, arith, length,
  take, drop, length-append, length-drop, take-append_length, drop-append_length, append_assoc,
  append-nil, lt→ltb, le→ltb,
}
use android_system_iorap.Wire.{
  ByteList, ParseResult, no_result, le_bytes, of_le, parsing_read, on_success, read_chars,
  parsing_read_string,
}

pub length-le_bytes : (w n : ℕ) → length (le_bytes w n) ≡ w
unfolding le_bytes
length-le_bytes zero n = refl
length-le_bytes (suc w) n = ap suc (length-le_bytes w (n / 256))

-- An integer that fits its width reads back.
pub of_le-le_bytes : (w n : ℕ) → n < 256 ^ w → of_le (le_bytes w n) ≡ n
unfolding le_bytes of_le
of_le-le_bytes zero n h = omega arith
of_le-le_bytes (suc w) n h =
    omega (arith, of_le-le_bytes w (n / 256) (omega (arith, pow-suc 256 w)))

-- A result at the rest `t` of a buffer, its size being what is left.
abbrev pub parsed : {A : Type 0} → A → ByteList → ParseResult A
parsed a t = record { value = a; next_token = some t; stream_size = length t }

pub parsing_read-long :
    (w : ℕ) (s : ByteList)
    → w ≤ length s
    → parsing_read w (some s) (length s) ≡ parsed (of_le (take w s)) (drop w s)
unfolding parsing_read
parsing_read-long w s h = rw (le→ltb (length s) w h) (ground (arith, length-drop w s))

pub parsing_read-short :
    (w : ℕ) (s : ByteList) → length s < w → parsing_read w (some s) (length s) ≡ no_result 0
unfolding parsing_read
parsing_read-short w s h = rw (lt→ltb (length s) w h)

take-le_bytes : (w n : ℕ) (rest : ByteList) → take w (le_bytes w n ++ rest) ≡ le_bytes w n
take-le_bytes w n rest =
    subst (λ k. take k (le_bytes w n ++ rest) ≡ le_bytes w n) (length-le_bytes w n)
      (take-append_length (le_bytes w n) rest)

drop-le_bytes : (w n : ℕ) (rest : ByteList) → drop w (le_bytes w n ++ rest) ≡ rest
drop-le_bytes w n rest =
    subst (λ k. drop k (le_bytes w n ++ rest) ≡ rest) (length-le_bytes w n)
      (drop-append_length (le_bytes w n) rest)

pub parsing_read-le_bytes :
    (w n : ℕ) (rest : ByteList)
    → n < 256 ^ w
    → parsing_read w (some (le_bytes w n ++ rest)) (length (le_bytes w n ++ rest)) ≡ parsed n rest
parsing_read-le_bytes w n rest h =
    parsing_read-long w (le_bytes w n ++ rest)
      (omega (arith, length-append (le_bytes w n) rest, length-le_bytes w n))
    ∙ rw (take-le_bytes w n rest, drop-le_bytes w n rest, of_le-le_bytes w n h)

-- What the string loop leaves behind: the rest of the buffer, and a size of 0.
abbrev pub parsed_string : ByteList → ByteList → ParseResult ByteList
parsed_string p t = record { value = p; next_token = some t; stream_size = 0 }

of_le-byte : (b : ℕ) → of_le (b ∷ []) ≡ b
unfolding of_le
of_le-byte b = omega arith

read_chars-append :
    (p rest acc : ByteList)
    → read_chars (length p) (some (p ++ rest)) (length (p ++ rest)) acc
      ≡ parsed_string (acc ++ p) rest
unfolding read_chars on_success
read_chars-append [] rest acc = rw append-nil
read_chars-append (b ∷ p) rest acc = rw (parsing_read-long 1 (b ∷ (p ++ rest)) (omega arith)) (
    rw (of_le-byte b) (
      read_chars-append p rest (acc ++ b ∷ [])
      ∙ ap (λ x. parsed_string x rest) (append_assoc acc (b ∷ []) p)))

-- A string that was written behind its length reads back.
pub parsing_read_string-append :
    (p rest : ByteList)
    → length p < 256 ^ 4
    → parsing_read_string
        (some (le_bytes 4 (length p) ++ (p ++ rest)))
        (length (le_bytes 4 (length p) ++ (p ++ rest)))
      ≡ parsed_string p rest
unfolding parsing_read_string on_success
parsing_read_string-append p rest h =
    rw (parsing_read-le_bytes 4 (length p) (p ++ rest) h, parsing_read_string)
      (read_chars-append p rest [])
