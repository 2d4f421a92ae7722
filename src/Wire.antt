-- ===== src/Wire.antt =====
-- The prefetcher daemon's command protocol: src/prefetcher/prefetcher_daemon.h and the functions
-- ParsingRead, Command::Read and Command::Write of src/prefetcher/prefetcher_daemon.cc.
-- A byte is a number below 256. memcpy of an integer is little-endian, as on every Android target.
-- A pointer into a buffer is the list of the bytes from there to the buffer's end.

pub mod Bytes
pub mod RoundTrip
pub mod Prefix
pub mod Endings
use android_system_iorap.Prelude.{
  ℕ, zero, suc, ◌+◌, ◌-◌, ◌*◌, ◌/◌, ◌%◌, ◌^◌, Bool, List, [], ◌∷◌, ◌++◌, Option, none, some, ltb,
  ◌==◌, if◌then◌else◌, length, take, drop,
}
use android_system_iorap.Prelude.Outcome.{Outcome, ok, fatal}

abbrev pub ByteList : Type 0
ByteList = List ℕ

-- The bytes of a `w`-byte integer in memory.
unfoldable pub le_bytes : ℕ → ℕ → ByteList
le_bytes zero n = []
le_bytes (suc w) n = n % 256 ∷ le_bytes w (n / 256)

unfoldable pub of_le : ByteList → ℕ
of_le [] = 0
of_le (b ∷ bs) = b + 256 * of_le bs

pub data CommandChoice : Type 0 where
  register_file_path unregister_file_path read_ahead exit create_session : CommandChoice
  destroy_session dump_session dump_everything create_fd_session : CommandChoice

-- The underlying uint32_t of the enum.
unfoldable pub choice_code : CommandChoice → ℕ
choice_code register_file_path = 0
choice_code unregister_file_path = 1
choice_code read_ahead = 2
choice_code exit = 3
choice_code create_session = 4
choice_code destroy_session = 5
choice_code dump_session = 6
choice_code dump_everything = 7
choice_code create_fd_session = 8

unfoldable pub choice_of : ℕ → Option CommandChoice
choice_of n =
    if n == 0
    then some register_file_path
    else if n == 1
    then some unregister_file_path
    else if n == 2
    then some read_ahead
    else if n == 3
    then some exit
    else if n == 4
    then some create_session
    else if n == 5
    then some destroy_session
    else if n == 6
    then some dump_session
    else if n == 7
    then some dump_everything
    else if n == 8
    then some create_fd_session
    else none

-- `read_ahead_kind` is the enum's uint32_t, which may name no enumerator after a memcpy.
pub record Command : Type 0 where
  pub choice : CommandChoice
  pub session_id : ℕ
  pub id : ℕ
  pub file_path : Option ByteList
  pub read_ahead_kind : ℕ
  pub length : ℕ
  pub offset : ℕ
  pub fd : Option ℕ

-- `Command cmd{}` with its choice.
abbrev pub blank : CommandChoice → Command
blank c = record {
  choice = c;
  session_id = 0;
  id = 0;
  file_path = none;
  read_ahead_kind = 0;
  length = 0;
  offset = 0;
  fd = none;
}

abbrev pub requires_fd : Command → Bool
requires_fd c = choice_code c.choice == 8

pub record ParseResult (A : Type 0) : Type 0 where
  pub value : A
  pub next_token : Option ByteList
  pub stream_size : ℕ

-- The result that converts to false.
abbrev pub no_result : {A : Type 0} → A → ParseResult A
no_result a = record { value = a; next_token = none; stream_size = 0 }

-- `if (!parsed) return failure;`, and otherwise the rest of the function.
unfoldable pub on_success : {A B : Type 0} → B → ParseResult A → (ParseResult A → B) → B
on_success failure r rest = elim r.next_token [ none ↦ failure | some t ↦ rest r ]

infixl 5 ◌>>=◌
abbrev pub ◌>>=◌ : {A B : Type 0} → ParseResult A → (ParseResult A → Option B) → Option B
r >>= f = on_success none r f

-- ParsingRead<T> for an integer of `w` bytes.
unfoldable pub parsing_read : ℕ → Option ByteList → ℕ → ParseResult ℕ
parsing_read w none stream_size = no_result 0
parsing_read w (some stream) stream_size = if ltb stream_size w then no_result 0 else record {
  value = of_le (take w stream);
  next_token = some (drop w stream);
  stream_size = stream_size - w;
}

-- The loop of ParsingRead<std::string>; the result's `stream_size` keeps its initial 0.
unfoldable pub read_chars : ℕ → Option ByteList → ℕ → ByteList → ParseResult ByteList
read_chars zero stream stream_size string = record {
  value = string;
  next_token = stream;
  stream_size = 0;
}
read_chars (suc n) stream stream_size string =
    on_success (no_result []) (parsing_read 1 stream stream_size)
      λ c. read_chars n c.next_token c.stream_size (string ++ c.value ∷ [])

unfoldable pub parsing_read_string : Option ByteList → ℕ → ParseResult ByteList
parsing_read_string stream stream_size =
    on_success (no_result []) (parsing_read 4 stream stream_size)
      λ len. read_chars len.value len.next_token len.stream_size []

-- The overload that goes on behind an earlier result.
abbrev pub read_next : {A : Type 0} → ℕ → ParseResult A → ParseResult ℕ
read_next w r = parsing_read w r.next_token r.stream_size

abbrev pub read_next_string : {A : Type 0} → ParseResult A → ParseResult ByteList
read_next_string r = parsing_read_string r.next_token r.stream_size

-- `r.next_token - buf`
abbrev pub consumed : {A : Type 0} → ByteList → ParseResult A → ℕ
consumed buf r = elim r.next_token [ none ↦ 0 | some t ↦ length buf - length t ]

-- The switch of Command::Read behind the choice.
unfoldable pub read_fields : CommandChoice → ByteList → ParseResult ℕ → Option (Command × ℕ)
read_fields register_file_path buf parsed_choice = do
  sid ← read_next 4 parsed_choice
  id ← read_next 4 sid
  path ← read_next_string id
  some (
    record (blank register_file_path) {
      session_id = sid.value;
      id = id.value;
      file_path = some path.value;
    },
    consumed buf path,
  )
read_fields unregister_file_path buf parsed_choice = do
  sid ← read_next 4 parsed_choice
  id ← read_next 4 sid
  some (
    record (blank unregister_file_path) { session_id = sid.value; id = id.value },
    consumed buf id,
  )
read_fields read_ahead buf parsed_choice = do
  sid ← read_next 4 parsed_choice
  id ← read_next 4 sid
  kind ← read_next 4 id
  len ← read_next 8 kind
  offset ← read_next 8 len
  some (
    record (blank read_ahead) {
      session_id = sid.value;
      id = id.value;
      read_ahead_kind = kind.value;
      length = len.value;
      offset = offset.value;
    },
    consumed buf offset,
  )
read_fields exit buf parsed_choice = some (blank exit, consumed buf parsed_choice)
read_fields dump_everything buf parsed_choice =
    some (blank dump_everything, consumed buf parsed_choice)
read_fields create_session buf parsed_choice = do
  sid ← read_next 4 parsed_choice
  path ← read_next_string sid
  some (
    record (blank create_session) { session_id = sid.value; file_path = some path.value },
    consumed buf path,
  )
read_fields create_fd_session buf parsed_choice = do
  sid ← read_next 4 parsed_choice
  path ← read_next_string sid
  some (
    record (blank create_fd_session) { session_id = sid.value; file_path = some path.value },
    consumed buf path,
  )
read_fields destroy_session buf parsed_choice = do
  sid ← read_next 4 parsed_choice
  some (record (blank destroy_session) { session_id = sid.value }, consumed buf sid)
read_fields dump_session buf parsed_choice = do
  sid ← read_next 4 parsed_choice
  some (record (blank dump_session) { session_id = sid.value }, consumed buf sid)

-- The returned optional, and `*consumed_bytes`.
abbrev pub reply : Option (Command × ℕ) → Option Command × ℕ
reply none = (none, 0)
reply (some (c, k)) = (some c, k)

-- An unknown choice is LOG(FATAL).
abbrev pub read_choice :
    Option CommandChoice → ByteList → ParseResult ℕ → Outcome (Option Command × ℕ)
read_choice none buf r = fatal
read_choice (some c) buf r = ok (reply (read_fields c buf r))

-- Command::Read
unfoldable pub read : Option ByteList → ℕ → Outcome (Option Command × ℕ)
read none buf_size = ok (none, 0)
read (some buf) buf_size =
    on_success (ok (none, 0)) (parsing_read 4 (some buf) buf_size)
      λ parsed_choice. read_choice (choice_of parsed_choice.value) buf parsed_choice

abbrev pub path_bytes : Command → ByteList
path_bytes c = elim c.file_path [ none ↦ [] | some p ↦ p ]

-- The space that a command with a string needs; `none` is a missing file path.
abbrev space_with_path : ℕ → Option ByteList → Option ℕ
space_with_path space none = none
space_with_path space (some p) = some (space + length p)

-- The first switch of Command::Write.
unfoldable pub space_for : CommandChoice → Command → Option ℕ
space_for register_file_path c = space_with_path (4 + 4 + 4 + 4) c.file_path
space_for unregister_file_path c = some (4 + 4 + 4)
space_for read_ahead c = some (4 + 4 + 4 + 4 + 8 + 8)
space_for create_session c = space_with_path (4 + 4 + 4) c.file_path
space_for create_fd_session c = space_with_path (4 + 4 + 4) c.file_path
space_for destroy_session c = some (4 + 4)
space_for dump_session c = some (4 + 4)
space_for exit c = some 4
space_for dump_everything c = some 4

-- `static_cast<uint32_t>(file_path->size())` and the contents.
unfoldable pub string_bytes : Command → ByteList
string_bytes c = le_bytes 4 (length (path_bytes c) % 2 ^ 32) ++ path_bytes c

-- The second switch of Command::Write: what it puts behind the choice.
unfoldable pub field_bytes : CommandChoice → Command → ByteList
field_bytes register_file_path c = le_bytes 4 c.session_id ++ (le_bytes 4 c.id ++ string_bytes c)
field_bytes unregister_file_path c = le_bytes 4 c.session_id ++ le_bytes 4 c.id
field_bytes read_ahead c =
    le_bytes 4 c.session_id
    ++ (le_bytes 4 c.id
        ++ (le_bytes 4 c.read_ahead_kind ++ (le_bytes 8 c.length ++ le_bytes 8 c.offset)))
field_bytes create_session c = le_bytes 4 c.session_id ++ string_bytes c
field_bytes create_fd_session c = le_bytes 4 c.session_id ++ string_bytes c
field_bytes destroy_session c = le_bytes 4 c.session_id
field_bytes dump_session c = le_bytes 4 c.session_id
field_bytes exit c = []
field_bytes dump_everything c = []

unfoldable pub write_bytes : Command → ByteList
write_bytes c = le_bytes 4 (choice_code c.choice) ++ field_bytes c.choice c

-- Command::Write into a buffer of the given size; `none` for the buffer is a null pointer. The
-- result is what stands at the buffer's start and `*produced_bytes`, or `none` for false.
unfoldable pub write : Command → Option ℕ → Option (ByteList × ℕ)
write c none = none
write c (some buf_size) = elim (space_for c.choice c) [
  | none ↦ none
  | some space ↦ if ltb buf_size space then none else some (write_bytes c, space)
]
