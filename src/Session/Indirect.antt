-- ===== src/Session/Indirect.antt =====
-- SessionIndirect of src/prefetcher/session.cc and SendCommand of
-- src/prefetcher/prefetcher_daemon.cc: the client's side of a session in the daemon.
use android_system_iorap.Prelude.{ℕ, ◌%◌, ◌^◌, Option, none, some, Text}
use android_system_iorap.Wire.{
  ByteList, Command, blank, register_file_path, unregister_file_path, read_ahead, create_session,
  create_fd_session, destroy_session, write,
}
use android_system_iorap.Session.Steps.{Request, register, unregister, advise, unadvise}

-- The buffer of SendCommand has 1024 bytes. The result is what write(2) gets, or `none` for false.
unfoldable pub send_command : Command → Option ByteList
send_command c = elim (write c (some 1024)) [ none ↦ none | some (bytes, size) ↦ some bytes ]

-- The command for a request; the size_t values are converted to the fields' types. UnreadAhead
-- sends none.
unfoldable pub indirect_command : ℕ → Request → Option Command
indirect_command session_id (register path_id path) = some (record (blank register_file_path) {
  session_id = session_id % 2 ^ 32;
  id = path_id % 2 ^ 32;
  file_path = some path;
})
indirect_command session_id (unregister path_id) = some (record (blank unregister_file_path) {
  session_id = session_id % 2 ^ 32;
  id = path_id % 2 ^ 32;
})
indirect_command session_id (advise e) = some (record (blank read_ahead) {
  session_id = session_id % 2 ^ 32;
  id = e.path_id % 2 ^ 32;
  read_ahead_kind = e.kind;
  length = e.length;
  offset = e.offset;
})
indirect_command session_id (unadvise e) = none

-- The constructors and the destructor.
unfoldable pub create_command : ℕ → Text → Command
create_command session_id description = record (blank create_session) {
  session_id = session_id % 2 ^ 32;
  file_path = some description;
}

unfoldable pub create_fd_command : ℕ → Text → ℕ → Command
create_fd_command session_id description fd = record (blank create_fd_session) {
  session_id = session_id % 2 ^ 32;
  file_path = some description;
  fd = some fd;
}

unfoldable pub destroy_command : ℕ → Command
destroy_command session_id = record (blank destroy_session) { session_id = session_id % 2 ^ 32 }
