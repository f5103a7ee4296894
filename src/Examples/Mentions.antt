-- ===== src/Examples/Mentions.antt =====
-- src/nbs-chat/bus_bridge.c and src/nbs-sidecar/mention_escape.c at concrete inputs.
use nbs_framework.Common.{◌+◌, ◌≤◌, ◌≡◌, refl, none, List, [], ◌∷◌, length, arith}
use nbs_framework.Common.Outcome.{ok, ◌>>=◌}
use nbs_framework.Common.Text.{Bytes, codes, str_eq}
use nbs_framework.Mentions
use nbs_framework.Mentions.{
  Mention, bus_extract_mentions, scan_mentions, escape_mentions, sanitise_at_signs,
}
use nbs_framework.Mentions.Bounds.{bus_extract_mentions_total}
use nbs_framework.Mentions.Escape.{
  bus_extract_mentions-escape_mentions, bus_extract_mentions-sanitise_at_signs,
}

abbrev message : Bytes
message = codes "@bob! mail a@b.c, @eve @eve\\?"

mentioned :
    bus_extract_mentions message 8
    ≡ ok
        (record { handle = codes "bob"; flag = 1 } ∷ record { handle = codes "eve"; flag = 2 } ∷ [])
unfolding bus_extract_mentions scan_mentions Mentions.scan_step Mentions.is_handle_char
    Mentions.handle_at Mentions.behind_handle Mentions.after_email_char
    Mentions.is_email_prefix_char Mentions.suffix_flag Mentions.add_mention str_eq
mentioned = refl

bus_extract_mentions-escape_mentions_example :
    (do out ← escape_mentions message; bus_extract_mentions out 8) ≡ ok []
bus_extract_mentions-escape_mentions_example =
    bus_extract_mentions-escape_mentions message 8 (omega arith)

bus_extract_mentions-sanitise_at_signs_example :
    (do out ← sanitise_at_signs message; bus_extract_mentions out 8) ≡ ok []
bus_extract_mentions-sanitise_at_signs_example =
    bus_extract_mentions-sanitise_at_signs message 8 (omega arith)

bus_extract_mentions_total_example :
    (ms : List Mention) × (bus_extract_mentions message 8 ≡ ok ms)
    × (length ms ≤ 8)
    × (scan_mentions (length message + 5) 8 (record { prev = none; text = message; found = [] })
        ≡ ms)
bus_extract_mentions_total_example = bus_extract_mentions_total message 8 5 (omega arith)
