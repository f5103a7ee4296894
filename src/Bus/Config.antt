-- ===== src/Bus/Config.antt =====
-- The configuration file of the bus, of src/nbs-bus/bus.c.
pub mod Range
use nbs_framework.Common.{
  ℕ, zero, suc, ◌+◌, ◌-◌, ◌*◌, ◌/◌, ◌%◌, ◌^◌, ◌≤◌, ◌<◌, min, ◌≡◌, refl, sym, ap, ◌∙◌, subst, ◌≢◌,
  ◌↔◌, ◌⊎◌, inl, inr, Bool, true, false, not, ◌&&◌, ◌||◌, Option, none, some, List, [], ◌∷◌, ◌++◌,
  map, append-nil, append_assoc, arith, ltb, leb, ◌==◌, if◌then◌else◌, within, ltb→lt, lt→ltb,
  leb→le, le→leb, ==_iff, Bool-cases, Option-cases, length, get_or, take, drop, length-append,
  length-take, length-drop, take-append-drop, take-length, map-take, map-drop, length-map, All,
  All-append, All-append_left, All-append_right, All-map,
}
use nbs_framework.Common.Outcome.{Outcome, ok, fail, abort, ◌>>=◌, ◌>>◌, assert, require}
use nbs_framework.Common.Text.{
  Bytes, codes, IsByte, Lacks, is_digit, is_alnum, is_space, str_eq, str_eq_iff,
}
use nbs_framework.Common.Decimal.{ℤ, pos, negsuc, strtol, long_max, skip_spaces}
use nbs_framework.ChatFile.Lines.{fgets_lines}
use nbs_framework.ChatFile.Message.{c_string}
use nbs_framework.ChatFile.Participants.{before_stop, from_stop}

-- `bus_config_t`
pub record Config : Type 0 where
  pub retention_max_bytes : ℕ
  pub dedup_window_s : ℕ
  pub ack_timeout_s : ℕ

abbrev pub default_config : Config
default_config = record {
  retention_max_bytes = 16 * 1024 * 1024;
  dedup_window_s = 0;
  ack_timeout_s = 0;
}

unfoldable pub is_colon : ℕ → Bool
is_colon c = c == b':'

-- The text without the spaces at its end.
unfoldable pub trim_end : Bytes → Bytes
trim_end [] = []
trim_end (c ∷ s) = let rest = trim_end s in if is_space c && length rest == 0 then [] else c ∷ rest

-- A number that takes the whole text, when it is not negative.
unfoldable pub whole_number : Bytes → Option ℕ
whole_number val =
    let r = strtol val in
    if r.erange || not (length r.rest == 0)
    then none
    else elim r.value [ pos n ↦ some n | negsuc n ↦ none ]

unfoldable pub set_retention : Config → Option ℕ → Config
set_retention cfg none = cfg
set_retention cfg (some v) = if ltb 0 v then record cfg { retention_max_bytes = v } else cfg

abbrev pub max_seconds : ℕ
max_seconds = long_max / 1000000

unfoldable pub set_window : Config → Option ℕ → Config
set_window cfg none = cfg
set_window cfg (some v) = if leb v max_seconds then record cfg { dedup_window_s = v } else cfg

unfoldable pub set_timeout : Config → Option ℕ → Config
set_timeout cfg none = cfg
set_timeout cfg (some v) = if leb v max_seconds then record cfg { ack_timeout_s = v } else cfg

-- The chain of tests on the key; an unknown key is only warned of.
unfoldable pub set_key : Config → Bytes → Bytes → Config
unfolding whole_number set_retention set_window set_timeout
set_key cfg key val =
    if str_eq key (codes "retention-max-bytes")
    then set_retention cfg (whole_number val)
    else if str_eq key (codes "dedup-window")
    then set_window cfg (whole_number val)
    else if str_eq key (codes "ack-timeout")
    then set_timeout cfg (whole_number val)
    else cfg

unfoldable pub is_comment : Bytes → Bool
is_comment [] = false
is_comment (c ∷ s) = c == b'#' || c == b'\n' || c == b'\r'

-- What stands behind the first colon; `none` where there is no colon.
unfoldable pub behind_colon : Bytes → Option Bytes
behind_colon line = elim (from_stop is_colon line) [ [] ↦ none | c ∷ s ↦ some s ]

unfoldable pub set_value : Config → Bytes → Option Bytes → Config
set_value cfg line none = cfg
set_value cfg line (some rest) =
    let val = trim_end (skip_spaces rest) in
    if length val == 0 then cfg else set_key cfg (trim_end (before_stop is_colon line)) val

unfoldable pub config_line : Config → Bytes → Config
unfolding is_comment behind_colon is_colon trim_end set_key set_value
config_line cfg line = if is_comment line then cfg else set_value cfg line (behind_colon line)

unfoldable pub config_lines : Config → List Bytes → Config
unfolding config_line
config_lines cfg [] = cfg
config_lines cfg (line ∷ lines) = config_lines (config_line cfg (c_string line)) lines

-- `none` stands for a missing file.
unfoldable pub bus_load_config : Option Bytes → Config
unfolding config_lines
bus_load_config none = default_config
bus_load_config (some text) = config_lines default_config (fgets_lines 511 text [])
