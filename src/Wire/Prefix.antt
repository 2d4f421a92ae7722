-- ===== src/Wire/Prefix.antt =====
-- Command::Read at a buffer that is still growing.
use android_system_iorap.Prelude.{
  ℕ, zero, suc, ◌+◌, ◌-◌, ◌≤◌, ◌≡◌, refl, ap, ◌∙◌, ◌⊎◌, inl, inr, [], ◌∷◌, ◌++◌, Option, none, some,
  arith, ltb, length, take, drop, length-append, length-drop, take-append, drop-append, Bool-cases,
  ltb→lt, ltb→le,
}
use android_system_iorap.Prelude.Outcome.{Outcome, ok, fatal}
use android_system_iorap.Wire.{
  ByteList, Command, CommandChoice, register_file_path, unregister_file_path, read_ahead, exit,
  create_session, destroy_session, dump_session, dump_everything, create_fd_session, choice_of,
  on_success, ◌>>=◌, of_le, read_fields, read, reply, ParseResult, parsing_read,
  parsing_read_string, read_chars, no_result, read_choice,
}
use android_system_iorap.Wire.Bytes.{parsed, parsed_string, parsing_read-long, parsing_read-short}

-- How a field behind the buffer `s` reads, alone and with `q` behind it: it does not fit, or it
-- leaves the same value and a rest that is shorter by at least `w` bytes.
abbrev Grows :
    {A : Type 0}
    → (A → ByteList → ParseResult A)
    → ℕ
    → ByteList
    → ByteList
    → ParseResult A
    → ParseResult A
    → Type 0
Grows {A} result w s q r r' =
    (r.next_token ≡ none)
    ⊎ ((a : A) × (t : ByteList) × (r ≡ result a t)
        × (r' ≡ result a (t ++ q))
        × (length t + w ≤ length s))

parsing_read-Grows :
    (w : ℕ) (s q : ByteList)
    → Grows parsed w s q
        (parsing_read w (some s) (length s))
        (parsing_read w (some (s ++ q)) (length (s ++ q)))
parsing_read-Grows w s q = elim (Bool-cases (ltb (length s) w)) [
  | inl short ↦ inl (rw (parsing_read-short w s (ltb→lt _ _ short)))
  | inr long ↦
      let fits : w ≤ length s = ltb→le _ _ long in
      inr (
        of_le (take w s),
        drop w s,
        parsing_read-long w s fits,
        parsing_read-long w (s ++ q) (omega (arith, length-append s q))
            ∙ rw (take-append w s q fits, drop-append w s q fits),
        omega (arith, length-drop w s),
      )
]

on_success-none :
    {A B : Type 0} (failure : B) (r : ParseResult A) (f : ParseResult A → B)
    → r.next_token ≡ none
    → on_success failure r f ≡ failure
unfolding on_success
on_success-none failure r f e = rw e

string_failure :
    (r : ParseResult ℕ) (f : ParseResult ℕ → ParseResult ByteList)
    → r.next_token ≡ none
    → (on_success (no_result []) r f).next_token ≡ none
string_failure r f e =
    ap {A = ParseResult ByteList} (λ x. x.next_token) (on_success-none (no_result []) r f e)

Grows-mono :
    (s t q : ByteList) (r r' : ParseResult ByteList)
    → length t ≤ length s
    → Grows parsed_string 0 t q r r'
    → Grows parsed_string 0 s q r r'
Grows-mono s t q r r' h (inl e) = inl e
Grows-mono s t q r r' h (inr (a, u, e, e', k)) = inr (a, u, e, e', omega arith)

read_chars-Grows :
    (n : ℕ) (s q acc : ByteList)
    → Grows parsed_string 0 s q
        (read_chars n (some s) (length s) acc)
        (read_chars n (some (s ++ q)) (length (s ++ q)) acc)
unfolding read_chars on_success
read_chars-Grows zero s q acc = inr (acc, s, refl, refl, omega arith)
read_chars-Grows (suc n) s q acc = elim (parsing_read-Grows 1 s q) [
  | inl e ↦ inl (
      string_failure (parsing_read 1 (some s) (length s))
        (λ c. read_chars n c.next_token c.stream_size (acc ++ c.value ∷ [])) e)
  | inr (c, t, e, e', h) ↦
      rw (e, e')
        (Grows-mono s t q (read_chars n (some t) (length t) (acc ++ c ∷ []))
          (read_chars n (some (t ++ q)) (length (t ++ q)) (acc ++ c ∷ [])) (omega arith)
          (read_chars-Grows n t q (acc ++ c ∷ [])))
]

parsing_read_string-Grows :
    (s q : ByteList)
    → Grows parsed_string 0 s q
        (parsing_read_string (some s) (length s))
        (parsing_read_string (some (s ++ q)) (length (s ++ q)))
unfolding parsing_read_string on_success
parsing_read_string-Grows s q = elim (parsing_read-Grows 4 s q) [
  | inl e ↦ inl (
      string_failure (parsing_read 4 (some s) (length s))
        (λ l. read_chars l.value l.next_token l.stream_size []) e)
  | inr (n, t, e, e', h) ↦
      rw (e, e')
        (Grows-mono s t q (read_chars n (some t) (length t) [])
          (read_chars n (some (t ++ q)) (length (t ++ q)) []) (omega arith)
          (read_chars-Grows n t q []))
]

-- A command that was read stays when `q` follows, and takes at least its choice.
abbrev Ready : ByteList → Option (Command × ℕ) → Option (Command × ℕ) → Type 0
Ready s a a' =
    (c : Command) (k : ℕ) → a ≡ some (c, k) → (a' ≡ some (c, k)) × (4 ≤ k) × (k ≤ length s)

module _ (s q : ByteList) where
  finish-Ready :
      (c : Command) (t : ByteList)
      → length t + 4 ≤ length s
      → Ready s (some (c, length s - length t)) (some (c, length (s ++ q) - length (t ++ q)))
  finish-Ready c t h d k e = ground (arith, length-append s q, length-append t q)

  int_then :
      (w : ℕ) (t : ByteList) (f f' : ParseResult ℕ → Option (Command × ℕ))
      → ((a : ℕ) (u : ByteList)
          → length u + w ≤ length t
          → Ready s (f (parsed a u)) (f' (parsed a (u ++ q))))
      → Ready s
          (parsing_read w (some t) (length t) >>= f)
          (parsing_read w (some (t ++ q)) (length (t ++ q)) >>= f')
  unfolding on_success
  int_then w t f f' rest c k h = elim (parsing_read-Grows w t q) [
    | inl e ↦ cc (on_success-none none (parsing_read w (some t) (length t)) f e)
    | inr (a, u, e, e', fits) ↦ rw e' (rest a u fits c k (rw e at h))
  ]

  string_then :
      (t : ByteList) (f f' : ParseResult ByteList → Option (Command × ℕ))
      → ((p u : ByteList)
          → length u ≤ length t
          → Ready s (f (parsed_string p u)) (f' (parsed_string p (u ++ q))))
      → Ready s
          (parsing_read_string (some t) (length t) >>= f)
          (parsing_read_string (some (t ++ q)) (length (t ++ q)) >>= f')
  unfolding on_success
  string_then t f f' rest c k h = elim (parsing_read_string-Grows t q) [
    | inl e ↦ cc (on_success-none none (parsing_read_string (some t) (length t)) f e)
    | inr (a, u, e, e', fits) ↦ rw e' (rest a u (omega arith) c k (rw e at h))
  ]

  read_fields-Ready :
      (k : CommandChoice) (n : ℕ) (t : ByteList)
      → length t + 4 ≤ length s
      → Ready s (read_fields k s (parsed n t)) (read_fields k (s ++ q) (parsed n (t ++ q)))
  unfolding read_fields
  read_fields-Ready register_file_path n t h = int_then 4 t _ _ λ a u hu.
      int_then 4 u _ _ λ b v hv. string_then v _ _ λ p w hw. finish-Ready _ w (omega arith)
  read_fields-Ready unregister_file_path n t h =
      int_then 4 t _ _ λ a u hu. int_then 4 u _ _ λ b v hv. finish-Ready _ v (omega arith)
  read_fields-Ready read_ahead n t h = int_then 4 t _ _ λ a u hu. int_then 4 u _ _ λ b v hv.
      int_then 4 v _ _ λ d w hw.
        int_then 8 w _ _ λ e x hx. int_then 8 x _ _ λ f y hy. finish-Ready _ y (omega arith)
  read_fields-Ready create_session n t h =
      int_then 4 t _ _ λ a u hu. string_then u _ _ λ p v hv. finish-Ready _ v (omega arith)
  read_fields-Ready create_fd_session n t h =
      int_then 4 t _ _ λ a u hu. string_then u _ _ λ p v hv. finish-Ready _ v (omega arith)
  read_fields-Ready destroy_session n t h =
      int_then 4 t _ _ λ a u hu. finish-Ready _ u (omega arith)
  read_fields-Ready dump_session n t h = int_then 4 t _ _ λ a u hu. finish-Ready _ u (omega arith)
  read_fields-Ready exit n t h = finish-Ready _ t h
  read_fields-Ready dump_everything n t h = finish-Ready _ t h

reply-some :
    (o : Option (Command × ℕ)) (c : Command) (k : ℕ)
    → ok (reply o) ≡ ok (some c, k)
    → o ≡ some (c, k)
reply-some none c k h = cc
reply-some (some x) c k h = ground arith

read_choice-stable :
    (o : Option CommandChoice) (s q : ByteList) (n : ℕ) (t : ByteList) (c : Command) (k : ℕ)
    → length t + 4 ≤ length s
    → read_choice o s (parsed n t) ≡ ok (some c, k)
    → (read_choice o (s ++ q) (parsed n (t ++ q)) ≡ ok (some c, k)) × (4 ≤ k) × (k ≤ length s)
read_choice-stable none s q n t c k h e = cc
read_choice-stable (some o) s q n t c k h e =
    let (same, four, within) =
      read_fields-Ready s q o n t h c k (reply-some (read_fields o s (parsed n t)) c k e) in
    (rw same, four, within)

-- A command that Command::Read finds at the start of a buffer is found, with the same number of
-- bytes consumed, however the buffer goes on; these are at least four and in the buffer.
pub read_stable :
    (s q : ByteList) (c : Command) (k : ℕ)
    → read (some s) (length s) ≡ ok (some c, k)
    → (read (some (s ++ q)) (length (s ++ q)) ≡ ok (some c, k)) × (4 ≤ k) × (k ≤ length s)
unfolding read on_success
read_stable s q c k h = elim (parsing_read-Grows 4 s q) [
  | inl e ↦ cc (
      on_success-none (ok (none, 0)) (parsing_read 4 (some s) (length s))
        (λ r. read_choice (choice_of r.value) s r) e)
  | inr (n, t, e, e', fits) ↦ rw e' (read_choice-stable (choice_of n) s q n t c k fits (rw e at h))
]

read_choice-fatal :
    (o : Option CommandChoice) (s s' : ByteList) (r r' : ParseResult ℕ)
    → read_choice o s r ≡ fatal
    → read_choice o s' r' ≡ fatal
read_choice-fatal none s s' r r' h = refl
read_choice-fatal (some c) s s' r r' h = cc

-- So is a choice that no command has.
pub read_fatal :
    (s q : ByteList)
    → read (some s) (length s) ≡ fatal
    → read (some (s ++ q)) (length (s ++ q)) ≡ fatal
unfolding read on_success
read_fatal s q h = elim (parsing_read-Grows 4 s q) [
  | inl e ↦ cc (
      on_success-none (ok (none, 0)) (parsing_read 4 (some s) (length s))
        (λ r. read_choice (choice_of r.value) s r) e)
  | inr (n, t, e, e', fits) ↦ rw e' (read_choice-fatal (choice_of n) s (s ++ q) _ _ (rw e at h))
]

reply-none : (o : Option (Command × ℕ)) (k : ℕ) → ok (reply o) ≡ ok (none, k) → k ≡ 0
reply-none none k h = ground arith
reply-none (some x) k h = ground arith

read_choice-none :
    (o : Option CommandChoice) (s : ByteList) (r : ParseResult ℕ) (k : ℕ)
    → read_choice o s r ≡ ok (none, k)
    → k ≡ 0
read_choice-none none s r k h = cc
read_choice-none (some c) s r k h = reply-none (read_fields c s r) k h

-- Without a command nothing is consumed.
pub read-none : (s : ByteList) (k : ℕ) → read (some s) (length s) ≡ ok (none, k) → k ≡ 0
unfolding read on_success
read-none s k h = elim (parsing_read-Grows 4 s []) [
  | inl e ↦ ground (
    arith,
    on_success-none {B = Outcome (Option Command × ℕ)} (ok (none, 0))
        (parsing_read 4 (some s) (length s)) (λ r. read_choice (choice_of r.value) s r) e,
  )
  | inr (n, t, e, _, _) ↦ read_choice-none (choice_of n) s (parsed n t) k (rw e at h)
]
