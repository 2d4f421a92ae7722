-- ===== src/Session.antt =====
-- The readahead sessions of src/prefetcher/session.h and session.cc: the data of a direct session,
-- the system calls that it makes, and what it has done by them.
pub mod Direct
pub mod Files
pub mod Daemon
pub mod Maps
pub mod Steps
pub mod Serve
pub mod Healthy
pub mod Balance
pub mod Release
pub mod Indirect
pub mod Remote
use android_system_iorap.Prelude.{ℕ, ◌+◌, Bool, List, [], ◌∷◌, ◌++◌, Option, none, some, Text, ℤ}
use android_system_iorap.Prelude.Assoc.{Assoc}

-- SessionDirect::Entry. A kind is the enum's uint32_t: 0 kFadvise, 1 kMmapLocked, 2 kMlock.
pub record Entry : Type 0 where
  pub path_id : ℕ
  pub kind : ℕ
  pub length : ℕ
  pub offset : ℕ

-- An address is a number; 0 is the null pointer.
pub record EntryMapping : Type 0 where
  pub entry : Entry
  pub address : ℕ
  pub success : Bool

-- A descriptor that is `none` is a unique_fd that holds none.
pub record SessionDirect : Type 0 where
  pub description : Text
  pub path_map : Assoc ℕ Text
  pub entry_list_map : Assoc ℕ (List EntryMapping)
  pub path_fd_map : Assoc ℕ (Option ℕ)

abbrev pub new_session : Text → SessionDirect
new_session description = record {
  description = description;
  path_map = [];
  entry_list_map = [];
  path_fd_map = [];
}

-- The parts of serialize::proto::TraceFile that ProcessFd reads; the numbers are int64_t.
pub record TraceFileIndexEntry : Type 0 where
  pub id : ℤ
  pub file_name : Text

pub record TraceFileEntry : Type 0 where
  pub index_id : ℤ
  pub file_offset : ℤ
  pub file_length : ℤ

pub record TraceFile : Type 0 where
  pub index : List TraceFileIndexEntry
  pub list : List TraceFileEntry

-- The system's answer to the n-th call. open(2) gives a descriptor or none, posix_fadvise(2) and
-- mlock(2) a result, mmap(2) an address, and ProtobufIO::Open a trace file or none.
pub record Kernel : Type 0 where
  pub open_file : ℕ → Text → Option ℕ
  pub fadvise : ℕ → ℤ
  pub mmap : ℕ → ℕ
  pub mlock : ℕ → ℤ
  pub open_trace : ℕ → ℕ → Option TraceFile

pub data Call : Type 0 where
  mapped unmapped : (address length : ℕ) → Call
  opened closed : ℕ → Call
  asked : Call

-- What the process has done so far, and how many calls it has made.
pub record World : Type 0 where
  pub calls : ℕ
  pub log : List Call

abbrev pub note : Call → World → World
note c w = record { calls = w.calls + 1; log = w.log ++ c ∷ [] }

abbrev pub note_opened : Option ℕ → World → World
note_opened none w = note asked w
note_opened (some fd) w = note (opened fd) w

-- The destructor of a unique_fd.
abbrev pub close : Option ℕ → World → World
close none w = w
close (some fd) w = note (closed fd) w
