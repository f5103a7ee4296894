-- ===== src/Examples/ChatFile.antt =====
-- src/nbs-chat/chat_file.c at concrete inputs.
mod Session
mod Upkeep
mod Whole
use nbs_framework.Base64
use nbs_framework.Common.{
  ℕ, ◌+◌, ◌*◌, ◌/◌, ◌<◌, ◌≤◌, ◌≡◌, ◌≢◌, ◌⊎◌, inl, inr, refl, true, false, some, List, [], ◌∷◌, ◌++◌,
  map, length, ltb, arith, if◌then◌else◌,
}
use nbs_framework.Common.Decimal
use nbs_framework.Common.Decimal.{pos, long_max}
use nbs_framework.Common.Outcome.{Outcome, ok, fail, abort, ◌>>=◌}
use nbs_framework.Common.Text.{Bytes, codes, str_eq}
use nbs_framework.ChatFile.File
use nbs_framework.ChatFile.File.{chat_read, chat_send, Sent}
use nbs_framework.ChatFile.Length.{compute_file_length, length_line, compute_file_length_total}
use nbs_framework.ChatFile.Lines
use nbs_framework.ChatFile.Log.{Entry, Log, IsLegal, IsLog, Holds, line_of}
use nbs_framework.ChatFile.Log.Read.{state_of, chat_read-Holds}
use nbs_framework.ChatFile.Log.Send.{
  append, chat_send-Holds, chat_read-chat_send, chat_send_crowded,
}
use nbs_framework.ChatFile.Message
use nbs_framework.ChatFile.Message.RoundTrip
use nbs_framework.ChatFile.Message.{parse_wire, wire_text}
use nbs_framework.ChatFile.Number
use nbs_framework.ChatFile.Participants
use nbs_framework.ChatFile.Participants.RoundTrip.{IsEntry, IsHeaderHandle, parse-format, render}
use nbs_framework.ChatFile.Participants.Update.{
  count_of, plus_one, is_listed, count_of-update_participants, length-update_participants,
}
use nbs_framework.ChatFile.Participants.{
  Participant, parse_participants, format_participants, update_participants,
}

abbrev pub alice : Participant
alice = record { handle = codes "alice"; count = pos 1 }

abbrev pub bob : Participant
bob = record { handle = codes "bob"; count = pos 12 }

pub alice-IsEntry : IsEntry alice
unfolding Participants.ends_handle
alice-IsEntry = record {
  legal = record {
    first = b'a';
    others = codes "lice";
    splits = refl;
    no_space = omega arith;
    short = omega arith;
    clear = (refl, (refl, (refl, (refl, (refl, tt)))));
  };
  number = 1;
  counted = refl;
  in_range = omega arith;
}

bob-IsEntry : IsEntry bob
unfolding Participants.ends_handle
bob-IsEntry = record {
  legal = record {
    first = b'b';
    others = codes "ob";
    splits = refl;
    no_space = omega arith;
    short = omega arith;
    clear = (refl, (refl, (refl, tt)));
  };
  number = 12;
  counted = refl;
  in_range = omega arith;
}

header_text : render true (alice ∷ bob ∷ []) ≡ codes "alice(1), bob(12)"
unfolding Participants.entry_text Participants.separator Decimal.show_int Decimal.show_nat
header_text = refl

parse-format_example :
    (do line ← format_participants (alice ∷ bob ∷ []) 4096; ok (parse_participants line 256))
    ≡ ok (alice ∷ bob ∷ [])
parse-format_example =
    parse-format (alice ∷ bob ∷ []) 256 4096 (alice-IsEntry, (bob-IsEntry, tt)) (omega arith)
      (rw header_text (omega arith))

count_of-update_participants_example :
    count_of (update_participants (alice ∷ bob ∷ []) (codes "bob") 256) (codes "bob") ≡ (
      if str_eq (codes "bob") (codes "bob")
      then plus_one (count_of (alice ∷ bob ∷ []) (codes "bob"))
      else count_of (alice ∷ bob ∷ []) (codes "bob"))
unfolding str_eq
count_of-update_participants_example =
    count_of-update_participants (alice ∷ bob ∷ []) (codes "bob") (codes "bob") 256 (omega arith)
      (inr (omega arith)) (ground arith)

pub alice-IsSender : RoundTrip.IsSender (codes "alice")
alice-IsSender = omega arith

parse_wire-wire_text_example :
    parse_wire (wire_text (codes "alice") 1700000000 (codes "a: b|c"))
    ≡ ok (
        some
          (record { handle = codes "alice"; content = codes "a: b|c"; timestamp = pos 1700000000 }))
parse_wire-wire_text_example =
    RoundTrip.parse_wire-wire_text (codes "alice") 1700000000 (codes "a: b|c") alice-IsSender
      (omega arith) (omega arith)

parse_wire_nul_example :
    parse_wire (codes "bob" ++ b':' ∷ b' ' ∷ (codes "hi" ++ 0 ∷ codes "x")) ≡ abort
unfolding Participants.before_stop Message.is_pipe
parse_wire_nul_example =
    RoundTrip.parse_wire_nul (codes "bob") (codes "hi") (codes "x") (omega arith) (omega arith)
      (omega arith) (omega arith) (omega arith)

length-update_participants_example :
    length (update_participants (alice ∷ bob ∷ []) (codes "eve") 256)
    ≡ 2 + (if is_listed (alice ∷ bob ∷ []) (codes "eve") then 0 else if ltb 2 256 then 1 else 0)
length-update_participants_example = length-update_participants (alice ∷ bob ∷ []) (codes "eve") 256

compute_file_length_total_example :
    (n : ℕ) × (compute_file_length (codes "top" ++ codes "bottom") ≡ ok n)
    × (length (codes "top" ++ (length_line n ++ codes "bottom")) ≡ n)
compute_file_length_total_example = compute_file_length_total (codes "top") (codes "bottom")
