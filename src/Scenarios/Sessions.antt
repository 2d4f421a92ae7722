-- ===== src/Scenarios/Sessions.antt =====
-- Sessions and the daemon on concrete requests and system calls.
use mathlib.Core.List.{flatten}
use android_system_iorap.Prelude.{
  ◌+◌, ◌≡◌, refl, true, false, [], ◌∷◌, some, arith, pos, map, nat_key,
}
use android_system_iorap.Prelude.Assoc.{find, erase, assign, insert, at_or}
use android_system_iorap.Prelude.Outcome.{ok}
use android_system_iorap.Wire
use android_system_iorap.Session
use android_system_iorap.Wire.{
  Command, blank, register_file_path, read_ahead, destroy_session, write, write_bytes, le_bytes,
  field_bytes, choice_code, space_for,
}
use android_system_iorap.Wire.RoundTrip.{Fits, sent}
use android_system_iorap.Stream.{new_parser}
use android_system_iorap.Session.{Entry, SessionDirect, Kernel, World, TraceFile, new_session}
use android_system_iorap.Session.Direct as Direct
use android_system_iorap.Session.Files.{process_fd, destroy}
use android_system_iorap.Session.Daemon.{Daemon, receive_command, handle_commands, main}
use android_system_iorap.Session.Maps.{new_session-IsConsistent}
use android_system_iorap.Session.Steps.{
  register, unregister, advise, apply, Consistent, apply-IsConsistent, process_fd-Consistent,
}
use android_system_iorap.Session.Balance.{mapped_by, unmapped_by}
use android_system_iorap.Session.Release.{Reaches, start, request, destroy-Reaches}
use android_system_iorap.Session.Serve.{pieces_received, main-encoding}
use android_system_iorap.Session.Healthy.{
  IsHealthy, Serves, assigned-IsHealthy, receive_command-IsHealthy,
}
use android_system_iorap.Session.Indirect.{send_command, indirect_command}
use android_system_iorap.Session.Remote.{direct, main-indirect_command}

-- Every file opens as descriptor 5, memory is mapped at 4096, and a trace names one file.
abbrev kernel : Kernel
kernel = record {
  open_file = λ n p. some 5;
  fadvise = λ n. pos 0;
  mmap = λ n. 4096;
  mlock = λ n. pos 0;
  open_trace = λ n fd. some (record {
    index = record { id = pos 1; file_name = b'a' ∷ [] } ∷ [];
    list = record { index_id = pos 1; file_offset = pos 0; file_length = pos 64 } ∷ [];
  });
}

abbrev world : World
world = record { calls = 0; log = [] }

abbrev locked : Entry
locked = record { path_id = 1; kind = 2; length = 8; offset = 0 }

abbrev empty_session : SessionDirect
empty_session = new_session (b's' ∷ [])

abbrev opened_session : SessionDirect
opened_session = record {
  description = b's' ∷ [];
  path_map = (1, b'a' ∷ []) ∷ [];
  entry_list_map = (1, []) ∷ [];
  path_fd_map = (1, some 5) ∷ [];
}

abbrev locked_session : SessionDirect
locked_session = record opened_session {
  entry_list_map = (1, record { entry = locked; address = 4096; success = true } ∷ []) ∷ [];
}

abbrev opened_world : World
opened_world = record { calls = 1; log = Session.opened 5 ∷ [] }

abbrev locked_world : World
locked_world = record {
  calls = 3;
  log = Session.opened 5 ∷ Session.mapped 4096 8 ∷ Session.asked ∷ [];
}

opens :
    apply kernel (register 1 (b'a' ∷ [])) empty_session world
    ≡ ok (true, opened_session, opened_world)
unfolding apply Direct.register_file_path insert find assign erase at_or
opens = refl

locks :
    apply kernel (advise locked) opened_session opened_world
    ≡ ok (true, locked_session, locked_world)
unfolding apply Direct.read_ahead Direct.perform insert find assign erase at_or
locks = refl

apply-IsConsistent_example : Consistent (apply kernel (register 1 (b'a' ∷ [])) empty_session world)
unfolding find at_or
apply-IsConsistent_example =
    apply-IsConsistent kernel (register 1 (b'a' ∷ [])) empty_session world
      (new_session-IsConsistent (b's' ∷ [])) refl

process_fd-Consistent_example : Consistent (process_fd kernel 9 empty_session world)
process_fd-Consistent_example = process_fd-Consistent kernel 9 (b's' ∷ []) world

used : Reaches kernel empty_session world locked_session locked_world
unfolding find at_or
used =
    request (advise locked) true (request (register 1 (b'a' ∷ [])) true start refl refl opens) tt
      refl locks

destroy-Reaches_example :
    (v' : World) × (destroy locked_session locked_world ≡ ok v')
    × (mapped_by 4096 8 v' + 0 ≡ 0 + unmapped_by 4096 8 v')
destroy-Reaches_example = destroy-Reaches 4096 8 kernel (b's' ∷ []) world (λ e. ground arith) used

-- UnreadAhead unmaps the mapping, and the entry that it leaves is unmapped again.
unmapped_twice :
    (destroy
      (Direct.unread_ahead locked locked_session locked_world).1
      (Direct.unread_ahead locked locked_session locked_world).2)
    ≡ ok (record {
      calls = 6;
      log =
          Session.opened 5
          ∷ Session.mapped 4096 8
          ∷ Session.asked
          ∷ Session.unmapped 4096 8
          ∷ Session.unmapped 4096 8
          ∷ Session.closed 5
          ∷ [];
    })
unfolding destroy Session.Files.unregister_all Session.Files.close_all Direct.unread_ahead
    Direct.find_entry Direct.unregister_file_path Direct.unmap_entries insert find assign erase
    at_or
unmapped_twice = refl

abbrev daemon : Daemon
daemon = record { sessions = (3, empty_session) ∷ []; world = world }

daemon-IsHealthy : IsHealthy daemon
unfolding find assign erase
daemon-IsHealthy =
    assigned-IsHealthy 3 empty_session world (record { sessions = []; world = world })
      (λ id s e. absurd (ground arith)) (new_session-IsConsistent (b's' ∷ []))

abbrev creation : Command
creation = record (blank Wire.create_session) { session_id = 4; file_path = some (b't' ∷ []) }

receive_command-IsHealthy_example : Serves (receive_command kernel creation daemon)
receive_command-IsHealthy_example =
    receive_command-IsHealthy kernel creation daemon daemon-IsHealthy refl

creation-Fits : Fits creation
creation-Fits = omega arith

main-encoding_example :
    main kernel false
      (pieces_received ((4 ∷ 0 ∷ []) ∷ (0 ∷ 0 ∷ 4 ∷ 0 ∷ 0 ∷ 0 ∷ 1 ∷ 0 ∷ 0 ∷ 0 ∷ b't' ∷ []) ∷ []))
      new_parser
      daemon
    ≡ handle_commands kernel (map sent (creation ∷ [])) daemon
unfolding flatten write_bytes le_bytes field_bytes Wire.string_bytes choice_code
main-encoding_example =
    main-encoding kernel (creation ∷ [])
      ((4 ∷ 0 ∷ []) ∷ (0 ∷ 0 ∷ 4 ∷ 0 ∷ 0 ∷ 0 ∷ 1 ∷ 0 ∷ 0 ∷ 0 ∷ b't' ∷ []) ∷ []) daemon
      (creation-Fits, tt) refl

abbrev unregistration : Command
unregistration = record (blank Wire.unregister_file_path) { session_id = 3; id = 1 }

main-indirect_command_example :
    main kernel false (pieces_received (write_bytes unregistration ∷ [])) new_parser daemon
    ≡ direct kernel (unregister 1) 3 empty_session daemon
unfolding flatten write_bytes le_bytes field_bytes choice_code write space_for send_command
    indirect_command find
main-indirect_command_example =
    main-indirect_command kernel (unregister 1) 3 unregistration (write_bytes unregistration)
      (write_bytes unregistration ∷ []) empty_session daemon (omega arith) refl refl refl refl
