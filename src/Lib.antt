-- ===== src/Lib.antt =====
-- The verification library of the NBS framework's C tools: models of parts of src/, and theorems
-- about them.
--
-- The program is a set of command line tools for teams of agents. They meet in chat files
-- (src/nbs-chat): a file has a header with its own length and the participants, and one Base64
-- line for each message. What must not wait goes over an event queue (src/nbs-bus), a directory of files, one
-- for each event.
--
-- Which file models what:
--   * Common: tests, lists, bits, decimal numbers with strtol, and outcomes. `ok` is a call that
--     returns, `fail k` one that returns the error -k, `abort` a failed ASSERT_MSG.
--   * Base64: src/nbs-chat/base64.c and base64.h. `encode` and `decode` are base64_encode and
--     base64_decode; a buffer is its size going in, its bytes coming out.
--   * ChatFile: src/nbs-chat/chat_file.c. Number is safe_parse_int and safe_parse_int64, Length is
--     compute_file_length, Participants is parse_participants, format_participants and
--     update_participants, Message is the text of one message as chat_send writes and chat_read
--     parses it, Lines is fgets and the stripping of line ends, File is chat_read and chat_send up to
--     the rename. Cursors is chat_cursor_read and chat_cursor_write, Archive is chat_auto_archive and
--     the end of chat_send, Truncate is chat_truncate, chat_create, chat_poll and
--     chat_state_check_invariants; Truncate/Tally and Truncate/Latest say what the header of a
--     chat is, counted from its entries.
--     A file is its bytes, and a missing file is `none`.
--   * ChatFile/Log: the abstract view, a log of entries with its header. `Holds file g` says that
--     the file is a log's text; reading and sending are proved against it.
--   * Bus: src/nbs-bus/bus.c and bus.h. Name is parse_event_filename_timestamp and
--     validate_event_filename, Content the text of an event with read_event_fields and
--     read_event_dedup_key, Scan is scan_events and scan_events_dynamic, Publish is bus_publish and
--     bus_publish_dedup, Listing is bus_check and bus_status, Upkeep is bus_read, bus_ack, bus_ack_all and
--     bus_prune, Config is bus_load_config. The directory is two lists of files, pending and processed,
--     in the order of readdir. Which order that is after a rename is a parameter (Directory), and it may
--     change between two commands. Bus/Reach has the step relation of the commands; Queue, Drain, Dedup
--     and Prune are about the queues they lead to.
--   * Registry: src/nbs-sidecar/registry.c, Registry itself the file and one command, Watch the inbox, seeding,
--     registry_find_first and registry_for_each. Registry/Entries is the abstract view, a list of different
--     entries; Inbox is proved against it, Pieces and Unfinished are about an inbox that grows.
--   * StripAnsi: src/nbs-sidecar/strip_ansi.c.
--   * TimeParse: src/nbs-chat/time_parse.c, parse_timespec.
--   * Mentions: bus_extract_mentions of src/nbs-chat/bus_bridge.c with the tests of
--     src/nbs-common/nbs_mention.h, and sanitise_at_signs and escape_mentions of
--     src/nbs-sidecar/mention_escape.c, by which the sidecar keeps a copied text from mentioning anyone.
--   * Examples: the theorems at concrete inputs.
--
-- Numbers are natural numbers or integers; a limit of the source's types (INT_MAX, LONG_MAX, SIZE_MAX,
-- the sizes of its buffers) is written out where the source tests it. Loops recurse on
-- the text. Where the recursion is on fuel (`parse_entries`, `digits`, `scan_mentions`, `strip_loop`) the caller gives the
-- length of the text or more, and the round trips, or a theorem of their own, show it to be enough.
--
-- Not modelled: failures of malloc, of locks and of writes; the clock, which is an argument; the names of
-- archives, which are made from the time in seconds and taken to be different; and the
-- rest of the tools, which act mostly by system calls or draw on a terminal.
mod Common
pub mod Base64
pub mod ChatFile
pub mod Mentions
pub mod StripAnsi
pub mod Bus
pub mod Registry
pub mod TimeParse
mod Examples
