-- ===== src/Wire/RoundTrip.antt =====
-- Command::Read at what Command::Write has put out.
use android_system_iorap.Prelude.{
  ℕ, ◌+◌, ◌-◌, ◌^◌, ◌≤◌, ◌<◌, ◌≡◌, refl, ap, ◌++◌, Option, some, arith, length, append_assoc,
  length-append, Option-cases, inl, inr,
}
use native.Mathlib.Nat.{mod-eq_of_lt}
use android_system_iorap.Prelude.Outcome.{Outcome, ok}
use android_system_iorap.Wire.{
  ByteList, Command, CommandChoice, register_file_path, unregister_file_path, read_ahead, exit,
  create_session, destroy_session, dump_session, dump_everything, create_fd_session, choice_code,
  choice_of, blank, on_success, le_bytes, path_bytes, field_bytes, read_fields, read, write_bytes,
  write, space_for, string_bytes, parsing_read, parsing_read_string,
}
use android_system_iorap.Wire.Bytes.{
  parsed, parsed_string, parsing_read-le_bytes, parsing_read_string-append, length-le_bytes,
}

-- Every field fits its width in the struct.
pub record Fits (c : Command) : Type 0 where
  pub session_fits : c.session_id < 2 ^ 32
  pub id_fits : c.id < 2 ^ 32
  pub kind_fits : c.read_ahead_kind < 2 ^ 32
  pub length_fits : c.length < 2 ^ 64
  pub offset_fits : c.offset < 2 ^ 64
  pub path_fits : length (path_bytes c) < 2 ^ 32

-- The fields of a command that its choice sends.
unfoldable pub sent_fields : CommandChoice → Command → Command
sent_fields register_file_path c = record (blank register_file_path) {
  session_id = c.session_id;
  id = c.id;
  file_path = some (path_bytes c);
}
sent_fields unregister_file_path c = record (blank unregister_file_path) {
  session_id = c.session_id;
  id = c.id;
}
sent_fields read_ahead c = record (blank read_ahead) {
  session_id = c.session_id;
  id = c.id;
  read_ahead_kind = c.read_ahead_kind;
  length = c.length;
  offset = c.offset;
}
sent_fields create_session c = record (blank create_session) {
  session_id = c.session_id;
  file_path = some (path_bytes c);
}
sent_fields create_fd_session c = record (blank create_fd_session) {
  session_id = c.session_id;
  file_path = some (path_bytes c);
}
sent_fields destroy_session c = record (blank destroy_session) { session_id = c.session_id }
sent_fields dump_session c = record (blank dump_session) { session_id = c.session_id }
sent_fields exit c = blank exit
sent_fields dump_everything c = blank dump_everything

abbrev pub sent : Command → Command
sent c = sent_fields c.choice c

pub choice_of-choice_code : (c : CommandChoice) → choice_of (choice_code c) ≡ some c
unfolding choice_of choice_code
choice_of-choice_code register_file_path = refl
choice_of-choice_code _ = refl

choice_code_fits : (c : CommandChoice) → choice_code c < 256 ^ 4
unfolding choice_code
choice_code_fits register_file_path = omega arith
choice_code_fits _ = omega arith

length-string_bytes : (c : Command) → length (string_bytes c) ≡ 4 + length (path_bytes c)
unfolding string_bytes
length-string_bytes c = omega (arith, length-append {0}, length-le_bytes)

some_eq : {a b : ℕ} → some a ≡ some b → a ≡ b
some_eq h = cc

-- The space that Command::Write asks for is what it fills.
length-field_bytes :
    (k : CommandChoice) (c : Command) {n : ℕ}
    → space_for k c ≡ some n
    → 4 + length (field_bytes k c) ≡ n
unfolding space_for field_bytes
length-field_bytes register_file_path c h = ground (
  arith,
  length-append (le_bytes 4 c.session_id) (le_bytes 4 c.id ++ string_bytes c),
  length-append (le_bytes 4 c.id) (string_bytes c),
  length-string_bytes c,
  length-le_bytes 4 c.session_id,
  length-le_bytes 4 c.id,
)
length-field_bytes unregister_file_path c h =
    omega (arith, some_eq h, length-append {0}, length-le_bytes)
length-field_bytes read_ahead c h = omega (arith, some_eq h, length-append {0}, length-le_bytes)
length-field_bytes create_session c h = ground (
  arith,
  length-append (le_bytes 4 c.session_id) (string_bytes c),
  length-string_bytes c,
  length-le_bytes 4 c.session_id,
)
length-field_bytes create_fd_session c h = ground (
  arith,
  length-append (le_bytes 4 c.session_id) (string_bytes c),
  length-string_bytes c,
  length-le_bytes 4 c.session_id,
)
length-field_bytes destroy_session c h = omega (arith, some_eq h, length-le_bytes)
length-field_bytes dump_session c h = omega (arith, some_eq h, length-le_bytes)
length-field_bytes exit c h = omega (arith, some_eq h)
length-field_bytes dump_everything c h = omega (arith, some_eq h)

module _ (c : Command) (fits : Fits c) where
  sid_read :
      (rest : ByteList)
      → parsing_read 4
          (some (le_bytes 4 c.session_id ++ rest))
          (length (le_bytes 4 c.session_id ++ rest))
        ≡ parsed c.session_id rest
  sid_read rest = parsing_read-le_bytes 4 c.session_id rest fits.session_fits

  id_read :
      (rest : ByteList)
      → parsing_read 4 (some (le_bytes 4 c.id ++ rest)) (length (le_bytes 4 c.id ++ rest))
        ≡ parsed c.id rest
  id_read rest = parsing_read-le_bytes 4 c.id rest fits.id_fits

  kind_read :
      (rest : ByteList)
      → parsing_read 4
          (some (le_bytes 4 c.read_ahead_kind ++ rest))
          (length (le_bytes 4 c.read_ahead_kind ++ rest))
        ≡ parsed c.read_ahead_kind rest
  kind_read rest = parsing_read-le_bytes 4 c.read_ahead_kind rest fits.kind_fits

  length_read :
      (rest : ByteList)
      → parsing_read 8 (some (le_bytes 8 c.length ++ rest)) (length (le_bytes 8 c.length ++ rest))
        ≡ parsed c.length rest
  length_read rest = parsing_read-le_bytes 8 c.length rest fits.length_fits

  offset_read :
      (rest : ByteList)
      → parsing_read 8 (some (le_bytes 8 c.offset ++ rest)) (length (le_bytes 8 c.offset ++ rest))
        ≡ parsed c.offset rest
  offset_read rest = parsing_read-le_bytes 8 c.offset rest fits.offset_fits

  string_read :
      (rest : ByteList)
      → parsing_read_string (some (string_bytes c ++ rest)) (length (string_bytes c ++ rest))
        ≡ parsed_string (path_bytes c) rest
  unfolding string_bytes
  string_read rest =
      rw (mod-eq_of_lt fits.path_fits, append_assoc)
        (parsing_read_string-append (path_bytes c) rest fits.path_fits)

module _ (c : Command) (fits : Fits c) (buf rest : ByteList) where
  read_fields-field_bytes :
      (k : CommandChoice)
      → read_fields k buf (parsed (choice_code k) (field_bytes k c ++ rest))
        ≡ some (sent_fields k c, length buf - length rest)
  unfolding read_fields field_bytes sent_fields on_success
  read_fields-field_bytes register_file_path =
      simp (append_assoc, sid_read c fits, id_read c fits, string_read c fits)
  read_fields-field_bytes unregister_file_path =
      simp (append_assoc, sid_read c fits, id_read c fits)
  read_fields-field_bytes read_ahead = simp (
    append_assoc,
    sid_read c fits,
    id_read c fits,
    kind_read c fits,
    length_read c fits,
    offset_read c fits,
  )
  read_fields-field_bytes create_session = simp (append_assoc, sid_read c fits, string_read c fits)
  read_fields-field_bytes create_fd_session =
      simp (append_assoc, sid_read c fits, string_read c fits)
  read_fields-field_bytes destroy_session = simp (sid_read c fits)
  read_fields-field_bytes dump_session = simp (sid_read c fits)
  read_fields-field_bytes exit = refl
  read_fields-field_bytes dump_everything = refl

-- A successful Command::Write has put out `produced_bytes` bytes, which its buffer has room for.
pub write_bounds :
    (c : Command) (buf_size : ℕ) (bs : ByteList) (produced : ℕ)
    → write c (some buf_size) ≡ some (bs, produced)
    → (bs ≡ write_bytes c) × (produced ≡ length bs) × (produced ≤ buf_size)
unfolding write write_bytes
write_bounds c buf_size bs produced h = elim (Option-cases (space_for c.choice c)) [
  | inl e ↦ ground arith
  | inr (space, e) ↦
      let size = length-field_bytes c.choice c e in
      ground (
        arith,
        size,
        length-append (le_bytes 4 (choice_code c.choice)) (field_bytes c.choice c),
        length-le_bytes 4 (choice_code c.choice),
      )
]

-- Command::Read at the start of a buffer gives back what a command sends whose fields fit their
-- widths, and consumes just the command's bytes.
pub read-write_bytes :
    (c : Command) (rest : ByteList)
    → Fits c
    → read (some (write_bytes c ++ rest)) (length (write_bytes c ++ rest))
      ≡ ok (some (sent c), length (write_bytes c))
unfolding read write_bytes on_success
read-write_bytes c rest fits =
    rw
      (
        append_assoc,
        parsing_read-le_bytes 4 (choice_code c.choice) (field_bytes c.choice c ++ rest)
            (choice_code_fits c.choice),
      )
      (rw (choice_of-choice_code c.choice) (
        rw
          (read_fields-field_bytes c fits
            (le_bytes 4 (choice_code c.choice) ++ (field_bytes c.choice c ++ rest)) rest c.choice)
          (ap {B = Outcome (Option Command × ℕ)} (λ n. ok (some (sent c), n)) size)))
  where
    head : ByteList
    head = le_bytes 4 (choice_code c.choice)

    size :
        length (head ++ (field_bytes c.choice c ++ rest)) - length rest
        ≡ length (head ++ field_bytes c.choice c)
    size = omega (
      arith,
      length-append head (field_bytes c.choice c ++ rest),
      length-append (field_bytes c.choice c) rest,
      length-append head (field_bytes c.choice c),
    )
