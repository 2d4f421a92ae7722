-- ===== src/Tasks/Calls.antt =====
-- The session calls of the loops of BeginTask in src/prefetcher/read_ahead.cc.
use android_system_iorap.Prelude.{
  ℕ, ◌+◌, ◌%◌, ◌^◌, ◌≡◌, refl, ◌∙◌, ap, Bool, ◌||◌, ◌&&◌, ◌==◌, not, false, List, [], ◌∷◌, ◌++◌,
  if◌then◌else◌, Text, nat_key, arith, length, append-nil, Bool-cases, inl, inr, ==_iff,
  append_assoc, ℤ, pos, negsuc, is_negative,
}
use android_system_iorap.Session.{TraceFileIndexEntry, TraceFileEntry}
use android_system_iorap.Session.Files.{to_size}
use android_system_iorap.Tasks.{
  SessionCall, create, create_from, open_after, register, prefetch, destroy, register_calls,
  is_illegal, prefetch_call, prefetch_list, sum_lengths,
}

-- The calls of the loop over the list of a trace.
unfoldable pub prefetch_calls : ℕ → ℕ → List TraceFileEntry → List SessionCall
prefetch_calls session_id kind [] = []
prefetch_calls session_id kind (e ∷ es) =
    let rest = prefetch_calls session_id kind es in
    if is_illegal e then rest else prefetch_call session_id kind e ∷ rest

pub prefetch_list_lem :
    (session_id kind : ℕ) (es : List TraceFileEntry) (calls : List SessionCall) (n : ℕ)
    → prefetch_list session_id kind es calls n
      ≡ (calls ++ prefetch_calls session_id kind es, sum_lengths es n)
unfolding prefetch_list prefetch_calls sum_lengths
prefetch_list_lem session_id kind [] calls n = rw append-nil
prefetch_list_lem session_id kind (e ∷ es) calls n = elim (Bool-cases (is_illegal e)) [
  | inl h ↦ rw h (prefetch_list_lem session_id kind es calls n)
  | inr h ↦ rw h (
      prefetch_list_lem session_id kind es (calls ++ prefetch_call session_id kind e ∷ [])
        ((n + to_size e.file_length) % 2 ^ 64)
      ∙ ap (λ c. (c, sum_lengths es ((n + to_size e.file_length) % 2 ^ 64)))
          (append_assoc calls _ _))
]

-- The call for an entry of the index: its path, unless its id is negative.
abbrev pub path_call : ℕ → ℤ → Text → List SessionCall
path_call session_id (pos id) file_name = register session_id (to_size (pos id)) file_name ∷ []
path_call session_id (negsuc id) file_name = []

abbrev pub path_calls : ℕ → List TraceFileIndexEntry → List SessionCall
path_calls session_id [] = []
path_calls session_id (e ∷ es) = path_call session_id e.id e.file_name ++ path_calls session_id es

-- The call for an entry of the list: its pages, unless its offset or its length is negative.
abbrev pub page_call : ℕ → ℕ → ℤ → ℤ → ℤ → List SessionCall
page_call session_id kind index_id (pos offset) (pos length) =
    prefetch session_id (record {
      path_id = to_size index_id;
      kind = kind;
      length = to_size (pos length);
      offset = to_size (pos offset);
    })
    ∷ []
page_call session_id kind index_id (pos offset) (negsuc length) = []
page_call session_id kind index_id (negsuc offset) length = []

abbrev pub page_calls : ℕ → ℕ → List TraceFileEntry → List SessionCall
page_calls session_id kind [] = []
page_calls session_id kind (e ∷ es) =
    page_call session_id kind e.index_id e.file_offset e.file_length
    ++ page_calls session_id kind es

path_call_lem :
    (session_id : ℕ) (id : ℤ) (file_name : Text) (rest : List SessionCall)
    → (if is_negative id then rest else register session_id (to_size id) file_name ∷ rest)
      ≡ path_call session_id id file_name ++ rest
path_call_lem session_id (pos id) file_name rest = refl
path_call_lem session_id (negsuc id) file_name rest = refl

pub register_calls-path_calls :
    (session_id : ℕ) (es : List TraceFileIndexEntry)
    → register_calls session_id es ≡ path_calls session_id es
unfolding register_calls
register_calls-path_calls session_id [] = refl
register_calls-path_calls session_id (e ∷ es) =
    rw (register_calls-path_calls session_id es)
      (path_call_lem session_id e.id e.file_name (path_calls session_id es))

page_call_lem :
    (session_id kind : ℕ) (index_id offset length : ℤ) (rest : List SessionCall)
    → let e : TraceFileEntry = record {
      index_id = index_id;
      file_offset = offset;
      file_length = length;
    } in
      (if is_illegal e then rest else prefetch_call session_id kind e ∷ rest)
      ≡ page_call session_id kind index_id offset length ++ rest
page_call_lem session_id kind index_id (pos offset) (pos length) rest = refl
page_call_lem session_id kind index_id (pos offset) (negsuc length) rest = refl
page_call_lem session_id kind index_id (negsuc offset) (pos length) rest = refl
page_call_lem session_id kind index_id (negsuc offset) (negsuc length) rest = refl

pub prefetch_calls-page_calls :
    (session_id kind : ℕ) (es : List TraceFileEntry)
    → prefetch_calls session_id kind es ≡ page_calls session_id kind es
unfolding prefetch_calls
prefetch_calls-page_calls session_id kind [] = refl
prefetch_calls-page_calls session_id kind (e ∷ es) =
    rw (prefetch_calls-page_calls session_id kind es) (
      page_call_lem session_id kind e.index_id e.file_offset e.file_length
        (page_calls session_id kind es))

open_after-append :
    (id : ℕ) (was_open : Bool) (xs ys : List SessionCall)
    → open_after id was_open (xs ++ ys) ≡ open_after id (open_after id was_open xs) ys
open_after-append id was_open [] ys = refl
open_after-append id was_open (create i description ∷ xs) ys =
    open_after-append id (was_open || i == id) xs ys
open_after-append id was_open (create_from i description fd ∷ xs) ys =
    open_after-append id (was_open || i == id) xs ys
open_after-append id was_open (destroy i ∷ xs) ys =
    open_after-append id (was_open && not (i == id)) xs ys
open_after-append id was_open (register i path_id file_name ∷ xs) ys =
    open_after-append id was_open xs ys
open_after-append id was_open (prefetch i entry ∷ xs) ys = open_after-append id was_open xs ys

-- Calls that end with the destruction of the session leave none.
pub open_after-destroy :
    (id : ℕ) (was_open : Bool) (xs : List SessionCall)
    → open_after id was_open (xs ++ destroy id ∷ []) ≡ false
open_after-destroy id was_open xs =
    rw (open_after-append id was_open xs (destroy id ∷ [])) (ground (arith, ==_iff id id))
