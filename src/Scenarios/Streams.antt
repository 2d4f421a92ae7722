-- ===== src/Scenarios/Streams.antt =====
-- The command protocol and the stream parser on concrete bytes.
use mathlib.Core.List.{flatten}
use android_system_iorap.Prelude.{
  ◌≡◌, refl, ◌⊎◌, Bool, false, List, [], ◌∷◌, ◌++◌, none, some, arith, length, map, ◌≤◌,
}
use android_system_iorap.Prelude.Outcome.{ok, fatal}
use android_system_iorap.Wire.{
  ByteList, Command, read_ahead, create_fd_session, blank, read, write, write_bytes, le_bytes,
  choice_code, field_bytes, string_bytes, space_for,
}
use android_system_iorap.Wire.RoundTrip.{Fits, sent, sent_fields, read-write_bytes, write_bounds}
use android_system_iorap.Wire.Prefix.{read_stable}
use android_system_iorap.Stream.{
  CommandParser, new_parser, received, parse_commands, parse_socket_commands,
}
use android_system_iorap.Stream.Frames.{encoding, Frames-encoding}
use android_system_iorap.Stream.Loop.{feed, feed-encoding, parse_commands-Frames}
use android_system_iorap.Stream.Total.{Breaks, parse_commands_total}
use android_system_iorap.Stream.Sockets.{assign_fds, spare_fds, parse_socket_commands-Frames}

abbrev page : Command
page = record (blank read_ahead) {
  session_id = 7;
  id = 2;
  read_ahead_kind = 1;
  length = 4096;
  offset = 8192;
}

abbrev traced : Command
traced = record (blank create_fd_session) { session_id = 9; file_path = some (b'a' ∷ b'b' ∷ []) }

page-Fits : Fits page
page-Fits = omega arith

traced-Fits : Fits traced
traced-Fits = omega arith

page_bytes : length (write_bytes page) ≡ 32
unfolding write_bytes le_bytes field_bytes choice_code
page_bytes = refl

traced_bytes : write_bytes traced ≡ 8 ∷ 0 ∷ 0 ∷ 0 ∷ 9 ∷ 0 ∷ 0 ∷ 0 ∷ 2 ∷ 0 ∷ 0 ∷ 0 ∷ b'a' ∷ b'b' ∷ []
unfolding write_bytes le_bytes field_bytes string_bytes choice_code
traced_bytes = refl

read-write_bytes_example :
    read (some (write_bytes page ++ 1 ∷ [])) (length (write_bytes page ++ 1 ∷ []))
    ≡ ok (some (sent page), length (write_bytes page))
read-write_bytes_example = read-write_bytes page (1 ∷ []) page-Fits

write_bounds_example :
    (write_bytes page ≡ write_bytes page) × (32 ≡ length (write_bytes page)) × (32 ≤ 1024)
unfolding write space_for
write_bounds_example = write_bounds page 1024 (write_bytes page) 32 refl

read_stable_example :
    (read (some ((write_bytes page ++ []) ++ 5 ∷ [])) (length ((write_bytes page ++ []) ++ 5 ∷ []))
      ≡ ok (some (sent page), length (write_bytes page)))
    × (4 ≤ length (write_bytes page))
    × (length (write_bytes page) ≤ length (write_bytes page ++ []))
read_stable_example =
    read_stable (write_bytes page ++ []) (5 ∷ []) (sent page) (length (write_bytes page))
      (read-write_bytes page [] page-Fits)

-- The two commands in three pieces, the first of which ends inside the first command.
abbrev pieces : List ByteList
pieces =
    (2 ∷ 0 ∷ 0 ∷ [])
    ∷ (0 ∷ 7 ∷ 0 ∷ 0 ∷ 0 ∷ 2 ∷ 0 ∷ 0 ∷ 0 ∷ 1 ∷ 0 ∷ 0 ∷ 0 ∷ 0 ∷ 16 ∷ 0 ∷ 0 ∷ 0 ∷ 0 ∷ 0 ∷ 0 ∷ 0 ∷ 32
        ∷ 0 ∷ 0 ∷ 0 ∷ 0 ∷ 0 ∷ 0 ∷ 8 ∷ [])
    ∷ (0 ∷ 0 ∷ 0 ∷ 9 ∷ 0 ∷ 0 ∷ 0 ∷ 2 ∷ 0 ∷ 0 ∷ 0 ∷ b'a' ∷ b'b' ∷ [])
    ∷ []

pieces_joined : flatten pieces ≡ encoding (page ∷ traced ∷ [])
unfolding flatten write_bytes le_bytes field_bytes string_bytes choice_code
pieces_joined = refl

feed-encoding_example : feed new_parser pieces ≡ ok (map sent (page ∷ traced ∷ []), new_parser)
feed-encoding_example =
    feed-encoding (page ∷ traced ∷ []) pieces (page-Fits, (traced-Fits, tt)) pieces_joined

parse_commands-Frames_example :
    parse_commands new_parser (received (encoding (page ∷ traced ∷ [])) none)
    ≡ ok (map sent (page ∷ traced ∷ []), false, new_parser)
parse_commands-Frames_example =
    parse_commands-Frames new_parser (encoding (page ∷ traced ∷ [])) none
      (Frames-encoding (page ∷ traced ∷ []) (page-Fits, (traced-Fits, tt)))

parse_commands_total_example :
    (Breaks new_parser (received (9 ∷ 0 ∷ 0 ∷ 0 ∷ []) none)
      × (parse_commands new_parser (received (9 ∷ 0 ∷ 0 ∷ 0 ∷ []) none) ≡ fatal))
    ⊎ ((cs : List Command) × (eof : Bool) × (q : CommandParser) × (parse_commands new_parser
            (received (9 ∷ 0 ∷ 0 ∷ 0 ∷ []) none)
          ≡ ok (cs, eof, q)))
parse_commands_total_example = parse_commands_total new_parser (received (9 ∷ 0 ∷ 0 ∷ 0 ∷ []) none)

parse_socket_commands-Frames_example :
    parse_socket_commands new_parser (received (encoding (page ∷ traced ∷ [])) (some 33))
    ≡ ok (sent page ∷ record (sent traced) { fd = some 33 } ∷ [], false, new_parser)
unfolding assign_fds spare_fds choice_code sent_fields
parse_socket_commands-Frames_example =
    parse_socket_commands-Frames new_parser (encoding (page ∷ traced ∷ [])) (some 33)
      (Frames-encoding (page ∷ traced ∷ []) (page-Fits, (traced-Fits, tt)))
