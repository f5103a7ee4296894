-- ===== src/Examples/ChatFile/Session.antt =====
-- src/nbs-chat/chat_file.c: a chat with one message, and the same chat with a reply.
use nbs_framework.Base64
use nbs_framework.Common.{ℕ, ◌*◌, ◌/◌, ◌≤◌, ◌≡◌, refl, some, [], ◌∷◌, map, length, arith}
use nbs_framework.Common.Decimal
use nbs_framework.Common.Decimal.{pos, long_max}
use nbs_framework.Common.Outcome.{ok, abort}
use nbs_framework.Common.Text.{Bytes, codes, str_eq}
use nbs_framework.ChatFile.File
use nbs_framework.ChatFile.File.{ChatState, chat_read, chat_send, Sent}
use nbs_framework.ChatFile.Length
use nbs_framework.ChatFile.Lines
use nbs_framework.ChatFile.Log.{Entry, Log, IsLegal, IsLog, Holds, line_of}
use nbs_framework.ChatFile.Log.Read.{state_of, chat_read-Holds}
use nbs_framework.ChatFile.Log.Send.{
  append, chat_send-Holds, chat_read-chat_send, chat_send_crowded,
}
use nbs_framework.ChatFile.Message
use nbs_framework.ChatFile.Message.{parse_wire, wire_text}
use nbs_framework.ChatFile.Number
use nbs_framework.ChatFile.Participants
use nbs_framework.ChatFile.Participants.RoundTrip.{IsEntry}
use nbs_framework.ChatFile.Participants.{
  Participant, parse_participants, format_participants, update_participants,
}
use nbs_framework.Examples.ChatFile.{alice, alice-IsEntry, alice-IsSender}

abbrev pub first_entry : Entry
first_entry = record { handle = codes "alice"; time = 1700000000; content = codes "hello" }

abbrev pub reply : Entry
reply = record { handle = codes "bob"; time = 1700000060; content = codes "hi" }

abbrev pub before : Log
before = record {
  writer = codes "alice";
  stamp = codes "2023-11-14T22:13:20+0000";
  participants = alice ∷ [];
  entries = first_entry ∷ [];
}

abbrev pub stamp : Bytes
stamp = codes "2023-11-14T22:14:20+0000"

abbrev pub chat : Bytes
chat =
    codes
      "=== nbs-chat ===\nlast-writer: alice\nlast-write: 2023-11-14T22:13:20+0000\nfile-length: 150\nparticipants: alice(1)\n---\nYWxpY2V8MTcwMDAwMDAwMDogaGVsbG8=\n"

abbrev pub chat_after : Bytes
chat_after =
    codes
      "=== nbs-chat ===\nlast-writer: bob\nlast-write: 2023-11-14T22:14:20+0000\nfile-length: 181\nparticipants: alice(1), bob(1)\n---\nYWxpY2V8MTcwMDAwMDAwMDogaGVsbG8=\nYm9ifDE3MDAwMDAwNjA6IGhp\n"

pub before-Holds : Holds chat before
unfolding File.header_top File.header_bottom File.lines_text Length.length_line
    Participants.entry_text Participants.separator Decimal.show_int Decimal.show_nat
    Message.wire_text Base64.encode_groups Base64.sextet_char Base64.encode_table Base64.join3
before-Holds = record { shape = refl }

first_entry-IsLegal : IsLegal first_entry
unfolding Message.wire_text Decimal.show_nat
first_entry-IsLegal = record {
  sender = alice-IsSender;
  clean = omega arith;
  bytes = omega arith;
  in_time = omega arith;
  fits = omega arith;
}

pub reply-IsLegal : IsLegal reply
unfolding Message.wire_text Decimal.show_nat
reply-IsLegal = record {
  sender = omega arith;
  clean = omega arith;
  bytes = omega arith;
  in_time = omega arith;
  fits = omega arith;
}

pub before-IsLog : IsLog before
unfolding Participants.entry_text Participants.separator Decimal.show_int Decimal.show_nat
before-IsLog = record {
  writer_plain = omega arith;
  writer_short = omega arith;
  stamp_plain = omega arith;
  stamp_short = omega arith;
  participants_legal = (alice-IsEntry, tt);
  participants_few = omega arith;
  participants_plain = omega arith;
  participants_short = omega arith;
  entries_legal = (first_entry-IsLegal, tt);
  entries_few = omega arith;
}

abbrev bob_once : Participant
bob_once = record { handle = codes "bob"; count = pos 1 }

bob_once-IsEntry : IsEntry bob_once
unfolding Participants.ends_handle
bob_once-IsEntry = record {
  legal = record {
    first = b'b';
    others = codes "ob";
    splits = refl;
    no_space = omega arith;
    short = omega arith;
    clear = (refl, (refl, (refl, tt)));
  };
  number = 1;
  counted = refl;
  in_range = omega arith;
}

pub after-IsLog : IsLog (append before reply stamp)
unfolding Participants.entry_text Participants.separator Decimal.show_int Decimal.show_nat
    Participants.update_participants str_eq
after-IsLog = record {
  writer_plain = omega arith;
  writer_short = omega arith;
  stamp_plain = omega arith;
  stamp_short = omega arith;
  participants_legal = (alice-IsEntry, (bob_once-IsEntry, tt));
  participants_few = omega arith;
  participants_plain = omega arith;
  participants_short = omega arith;
  entries_legal = (first_entry-IsLegal, (reply-IsLegal, tt));
  entries_few = omega arith;
}

chat_read-Holds_example : chat_read (some chat) ≡ ok (state_of before (length chat))
chat_read-Holds_example = chat_read-Holds chat before before-Holds before-IsLog (omega arith)

pub two_listed : length (append before reply stamp).participants ≤ 52
unfolding Participants.update_participants str_eq
two_listed = omega arith

chat_send-Holds_example :
    (s : Sent) × (chat_send 1700000060 stamp (some chat) (codes "bob") (codes "hi") ≡ ok s)
    × Holds s.file (append before reply stamp)
    × (s.all_lines ≡ map line_of (first_entry ∷ reply ∷ []))
chat_send-Holds_example =
    chat_send-Holds chat before reply stamp before-Holds before-IsLog (omega arith) reply-IsLegal
      after-IsLog two_listed

abbrev sent : Sent
sent = record {
  file = chat_after;
  state = record {
    last_writer = codes "bob";
    last_write = stamp;
    file_length = pos 150;
    participants = alice ∷ bob_once ∷ [];
    messages =
        record { handle = codes "alice"; content = codes "hello"; timestamp = pos 1700000000 } ∷ [];
    skipped_count = 0;
  };
  all_lines = codes "YWxpY2V8MTcwMDAwMDAwMDogaGVsbG8=" ∷ codes "Ym9ifDE3MDAwMDAwNjA6IGhp" ∷ [];
}

sent_run : chat_send 1700000060 stamp (some chat) (codes "bob") (codes "hi") ≡ ok sent
unfolding Decimal.digits Decimal.show_nat Decimal.show_int Decimal.skip_spaces Decimal.signed
    Decimal.scan_digits Decimal.no_number Decimal.scan_number Decimal.scan_signed Decimal.strtol
    Base64.encode_table Base64.decode_table Base64.is_valid_char Base64.encoded_size
    Base64.decoded_size Base64.sextet_char Base64.join3 Base64.encode_groups Base64.all_valid
    Base64.encode Base64.is_trailing Base64.strip_len Base64.all_padding Base64.validate Base64.put
    Base64.table_value Base64.join4 Base64.put_triple Base64.decode_group Base64.decode_groups
    Base64.output_length Base64.decode_checked Base64.decode_empty Base64.decode str_eq
    Participants.skip_separators Participants.ends_handle Participants.before_stop
    Participants.from_stop Participants.is_close Participants.count_text Participants.count_at
    Participants.skip_close Participants.after_count Participants.at_end Participants.parse_entries
    Participants.parse_participants Participants.entry_text Participants.separator
    Participants.format_entries Participants.format_participants Participants.incr
    Participants.update_entries Participants.update_participants Message.is_nul Message.c_string
    Message.begins_with_space Message.behind_space Message.split_colon Message.is_pipe
    Message.behind_pipe Message.positive Message.epoch_value Message.prefix_time Message.parse_split
    Message.parse_wire Message.wire_text File.strip_prefix File.all_spaces File.set_file_length
    File.read_participants File.read_length File.read_time File.read_field File.store
    File.read_decoded File.read_body File.read_line File.chat_read File.collect_line File.header_top
    File.lines_text File.header_bottom File.write_file chat_send Length.candidate
    Length.compute_file_length Length.length_line Lines.fgets_lines Lines.is_eol Lines.strip_eol_len
    Lines.strip_eol Lines.fold_lines Lines.fold_file Number.at_line_end Number.in_int_range
    Number.safe_parse_int64 Number.safe_parse_int
sent_run = refl

chat_read-chat_send_example :
    chat_read (some sent.file)
    ≡ ok (record {
      last_writer = codes "bob";
      last_write = stamp;
      file_length = pos (length sent.file);
      participants = update_participants (alice ∷ []) (codes "bob") 256;
      messages =
          record { handle = codes "alice"; content = codes "hello"; timestamp = pos 1700000000 }
          ∷ record { handle = codes "bob"; content = codes "hi"; timestamp = pos 1700000060 }
          ∷ [];
      skipped_count = 0;
    })
chat_read-chat_send_example =
    chat_read-chat_send chat before reply stamp sent before-Holds before-IsLog (omega arith)
      reply-IsLegal after-IsLog two_listed sent_run (omega arith)

-- A header with 53 participants.
abbrev crowd : Bytes
crowd =
    codes
      "=== nbs-chat ===\nparticipants: a(1), b(1), c(1), d(1), e(1), f(1), g(1), h(1), i(1), j(1), k(1), l(1), m(1), n(1), o(1), p(1), q(1), r(1), s(1), t(1), u(1), v(1), w(1), x(1), y(1), z(1), A(1), B(1), C(1), D(1), E(1), F(1), G(1), H(1), I(1), J(1), K(1), L(1), M(1), N(1), O(1), P(1), Q(1), R(1), S(1), T(1), U(1), V(1), W(1), X(1), Y(1), Z(1), 0(1)\n---\n"

abbrev once : ℕ → Participant
once c = record { handle = c ∷ []; count = pos 1 }

abbrev crowd_state : ChatState
crowd_state = record {
  last_writer = [];
  last_write = [];
  file_length = pos 0;
  participants = map once (codes "abcdefghijklmnopqrstuvwxyzABCDEFGHIJKLMNOPQRSTUVWXYZ0");
  messages = [];
  skipped_count = 0;
}

crowd_read : chat_read (some crowd) ≡ ok crowd_state
unfolding Decimal.digits Decimal.show_nat Decimal.show_int Decimal.skip_spaces Decimal.signed
    Decimal.scan_digits Decimal.no_number Decimal.scan_number Decimal.scan_signed Decimal.strtol
    Base64.encode_table Base64.decode_table Base64.is_valid_char Base64.encoded_size
    Base64.decoded_size Base64.sextet_char Base64.join3 Base64.encode_groups Base64.all_valid
    Base64.encode Base64.is_trailing Base64.strip_len Base64.all_padding Base64.validate Base64.put
    Base64.table_value Base64.join4 Base64.put_triple Base64.decode_group Base64.decode_groups
    Base64.output_length Base64.decode_checked Base64.decode_empty Base64.decode str_eq
    Participants.skip_separators Participants.ends_handle Participants.before_stop
    Participants.from_stop Participants.is_close Participants.count_text Participants.count_at
    Participants.skip_close Participants.after_count Participants.at_end Participants.parse_entries
    Participants.parse_participants Participants.entry_text Participants.separator
    Participants.format_entries Participants.format_participants Participants.incr
    Participants.update_entries Participants.update_participants Message.is_nul Message.c_string
    Message.begins_with_space Message.behind_space Message.split_colon Message.is_pipe
    Message.behind_pipe Message.positive Message.epoch_value Message.prefix_time Message.parse_split
    Message.parse_wire Message.wire_text File.strip_prefix File.all_spaces File.set_file_length
    File.read_participants File.read_length File.read_time File.read_field File.store
    File.read_decoded File.read_body File.read_line File.chat_read File.collect_line File.header_top
    File.lines_text File.header_bottom File.write_file chat_send Length.candidate
    Length.compute_file_length Length.length_line Lines.fgets_lines Lines.is_eol Lines.strip_eol_len
    Lines.strip_eol Lines.fold_lines Lines.fold_file Number.at_line_end Number.in_int_range
    Number.safe_parse_int64 Number.safe_parse_int
crowd_read = refl

crowded : 53 ≤ length (update_participants crowd_state.participants (codes "a") 256)
unfolding Participants.update_participants Participants.update_entries Participants.incr str_eq
crowded = omega arith

short_wire : length (wire_text (codes "a") 1700000000 (codes "hi")) ≤ Base64.int_max / 4 * 3
unfolding Message.wire_text Decimal.show_nat
short_wire = omega arith

chat_send_crowded_example : chat_send 1700000000 stamp (some crowd) (codes "a") (codes "hi") ≡ abort
chat_send_crowded_example =
    chat_send_crowded 1700000000 stamp (some crowd) (codes "a") (codes "hi") (omega arith)
      (omega arith) crowd_read short_wire crowded
