-- ===== src/Examples/Registry.antt =====
-- src/nbs-sidecar/registry.c at concrete inputs.
use nbs_framework.Common.{
  ℕ, ◌+◌, ◌-◌, ◌≤◌, ◌≡◌, refl, Option, none, some, List, [], ◌∷◌, ◌++◌, arith,
}
use nbs_framework.Common.Distinct.{member}
use nbs_framework.Common.Outcome.{ok}
use nbs_framework.Common.Text.{Bytes, codes, str_eq}
use Prim.Native.Nat.{max}
use nbs_framework.Registry.{
  chomp, count_lines, line_total, count_from, get_line_n, skip_lines, copy_line, strip_whitespace,
  skip_blanks, trim_blanks, is_blank, process_control_command, verb_and_path, skip_white, take_word,
  run_command, with_entry, register, registry_remove, without_line, registry_contains, has_line,
  registry_append,
}
use nbs_framework.ChatFile.Lines.{fgets_lines}
use nbs_framework.ChatFile.Message.{is_nul, c_string}
use nbs_framework.ChatFile.Number.{int_max}
use nbs_framework.ChatFile.Participants.{before_stop}
use nbs_framework.Registry.Entries.{IsRegistry, registry_text}
use nbs_framework.Registry.Inbox
use nbs_framework.Registry.Inbox.{apply_lines}
use nbs_framework.Registry.Pieces
use nbs_framework.Registry.Unfinished
use nbs_framework.Registry.Watch.{
  process_text, registry_process_inbox, process_lines, process_line, is_skipped,
}

abbrev listed : List Bytes
listed = codes "chat:/a.chat" ∷ codes "bus:/e" ∷ []

listed-IsRegistry : IsRegistry (some (registry_text listed)) listed
listed-IsRegistry = record {
  held = refl;
  legal = ground arith;
  distinct = (unfold member str_eq in refl, (unfold member in refl, tt));
}

-- A comment, and one command for each of two chats.
abbrev inbox : Bytes
inbox = codes "# hello\nregister-chat /b.chat\nunregister-chat /a.chat\n"

few_lines : line_total (c_string inbox) ≤ int_max
unfolding line_total count_from c_string is_nul before_stop
few_lines = omega arith

registry_process_inbox-IsRegistry_example :
    (file' : Option Bytes) × (n : ℕ) × (registry_process_inbox
        (some inbox)
        (some (registry_text listed))
        1
      ≡ ok (file', max 1 (line_total (c_string inbox)), n))
    × IsRegistry file' (apply_lines (line_total (c_string inbox) - 1) (c_string inbox) 1 listed)
registry_process_inbox-IsRegistry_example =
    Inbox.registry_process_inbox-IsRegistry inbox (some (registry_text listed)) listed 1
      listed-IsRegistry few_lines

first_run :
    registry_process_inbox (some (codes "register-chat /b" ++ b'\n' ∷ [])) none 0
    ≡ ok (some (codes "chat:/b\n"), 1, 1)
unfolding registry_process_inbox process_lines process_line is_skipped chomp count_lines line_total
    count_from c_string is_nul before_stop process_text get_line_n skip_lines copy_line
    strip_whitespace skip_blanks trim_blanks is_blank process_control_command verb_and_path
    skip_white take_word run_command with_entry register registry_remove without_line
    registry_contains has_line registry_append fgets_lines str_eq
first_run = refl

second_run :
    registry_process_inbox
      (some (codes "register-chat /b" ++ b'\n' ∷ codes "unregister-chat /b\n"))
      (some (codes "chat:/b\n"))
      1
    ≡ ok (some [], 2, 1)
unfolding registry_process_inbox process_lines process_line is_skipped chomp count_lines line_total
    count_from c_string is_nul before_stop process_text get_line_n skip_lines copy_line
    strip_whitespace skip_blanks trim_blanks is_blank process_control_command verb_and_path
    skip_white take_word run_command with_entry register registry_remove without_line
    registry_contains has_line registry_append fgets_lines str_eq
second_run = refl

registry_process_inbox-append_example :
    registry_process_inbox
      (some (codes "register-chat /b" ++ b'\n' ∷ codes "unregister-chat /b\n"))
      none
      0
    ≡ ok (some [], 2, 1 + 1)
registry_process_inbox-append_example =
    Pieces.registry_process_inbox-append (codes "register-chat /b") (codes "unregister-chat /b\n")
      none (some (codes "chat:/b\n")) (some []) 1 2 1 1 first_run second_run

unfinished_run :
    registry_process_inbox (some (codes "register-chat " ++ b'/' ∷ [])) none 0
    ≡ ok (some (codes "chat:/\n"), 1, 1)
unfolding registry_process_inbox process_lines process_line is_skipped chomp count_lines line_total
    count_from c_string is_nul before_stop process_text get_line_n skip_lines copy_line
    strip_whitespace skip_blanks trim_blanks is_blank process_control_command verb_and_path
    skip_white take_word run_command with_entry register registry_remove without_line
    registry_contains has_line registry_append fgets_lines str_eq
unfinished_run = refl

registry_process_inbox_unfinished_example :
    registry_process_inbox
      (some (codes "register-chat " ++ b'/' ∷ (codes "b" ++ b'\n' ∷ [])))
      (some (codes "chat:/\n"))
      1
    ≡ ok (some (codes "chat:/\n"), 1, 0)
registry_process_inbox_unfinished_example =
    Unfinished.registry_process_inbox_unfinished (codes "register-chat ") b'/' (codes "b") none
      (some (codes "chat:/\n")) 0 1 1 (ground arith) (ground arith) unfinished_run
