-- ===== src/Bus/Config/Range.antt =====
-- What the configuration of src/nbs-bus/bus.c holds, whatever is in its file.
use nbs_framework.Common.{
  ℕ, ◌*◌, ◌≤◌, ◌<◌, inl, inr, Bool, true, false, Option, none, some, List, [], ◌∷◌, arith, ltb, leb,
  if◌then◌else◌, ltb→lt, leb→le, Bool-cases,
}
use nbs_framework.Common.Text.{Bytes, codes, str_eq}
use nbs_framework.Bus.Config.{
  Config, default_config, set_retention, max_seconds, set_window, set_timeout, set_key,
  whole_number, set_value, behind_colon, config_line, config_lines, is_comment, is_colon, trim_end,
  bus_load_config,
}
use nbs_framework.ChatFile.Lines.{fgets_lines}
use nbs_framework.ChatFile.Message.{c_string}
use nbs_framework.ChatFile.Participants.{before_stop}
use nbs_framework.Common.Decimal.{skip_spaces, long_max}

-- A positive limit, and times in seconds whose microseconds fit 64 bits.
pub record IsConfig (cfg : Config) : Type 0 where
  pub some_retention : 0 < cfg.retention_max_bytes
  pub window : cfg.dedup_window_s * 1000000 ≤ long_max
  pub timeout : cfg.ack_timeout_s * 1000000 ≤ long_max

set_retention-IsConfig :
    (cfg : Config) (v : Option ℕ) → IsConfig cfg → IsConfig (set_retention cfg v)
unfolding set_retention
set_retention-IsConfig cfg none c = c
set_retention-IsConfig cfg (some v) c = elim (Bool-cases (ltb 0 v)) [
  | inl positive ↦
      rw positive
        (record { some_retention = ltb→lt 0 v positive; window = c.window; timeout = c.timeout })
  | inr other ↦ rw other c
]

set_window-IsConfig : (cfg : Config) (v : Option ℕ) → IsConfig cfg → IsConfig (set_window cfg v)
unfolding set_window
set_window-IsConfig cfg none c = c
set_window-IsConfig cfg (some v) c = elim (Bool-cases (leb v max_seconds)) [
  | inl fits ↦ rw fits (record {
    some_retention = c.some_retention;
    window = omega (arith, leb→le v max_seconds fits);
    timeout = c.timeout;
  })
  | inr other ↦ rw other c
]

set_timeout-IsConfig : (cfg : Config) (v : Option ℕ) → IsConfig cfg → IsConfig (set_timeout cfg v)
unfolding set_timeout
set_timeout-IsConfig cfg none c = c
set_timeout-IsConfig cfg (some v) c = elim (Bool-cases (leb v max_seconds)) [
  | inl fits ↦ rw fits (record {
    some_retention = c.some_retention;
    window = c.window;
    timeout = omega (arith, leb→le v max_seconds fits);
  })
  | inr other ↦ rw other c
]

if-IsConfig : (b : Bool) (c d : Config) → IsConfig c → IsConfig d → IsConfig (if b then c else d)
if-IsConfig true c d hc hd = hc
if-IsConfig false c d hc hd = hd

set_key-IsConfig : (cfg : Config) (key val : Bytes) → IsConfig cfg → IsConfig (set_key cfg key val)
unfolding set_key
set_key-IsConfig cfg key val c =
    let v = whole_number val in
    if-IsConfig (str_eq key (codes "retention-max-bytes")) _ _ (set_retention-IsConfig cfg v c) (
      if-IsConfig (str_eq key (codes "dedup-window")) _ _ (set_window-IsConfig cfg v c)
        (if-IsConfig (str_eq key (codes "ack-timeout")) _ _ (set_timeout-IsConfig cfg v c) c))

set_value-IsConfig :
    (cfg : Config) (line : Bytes) (rest : Option Bytes)
    → IsConfig cfg
    → IsConfig (set_value cfg line rest)
unfolding set_value
set_value-IsConfig cfg line none c = c
set_value-IsConfig cfg line (some rest) c =
    if-IsConfig _ _ _ c
      (set_key-IsConfig cfg (trim_end (before_stop is_colon line)) (trim_end (skip_spaces rest)) c)

config_lines-IsConfig :
    (cfg : Config) (lines : List Bytes) → IsConfig cfg → IsConfig (config_lines cfg lines)
unfolding config_lines config_line
config_lines-IsConfig cfg [] c = c
config_lines-IsConfig cfg (line ∷ lines) c =
    let text = c_string line in
    config_lines-IsConfig (config_line cfg text) lines
      (if-IsConfig (is_comment text) _ _ c (set_value-IsConfig cfg text (behind_colon text) c))

default_config-IsConfig : IsConfig default_config
default_config-IsConfig = record {
  some_retention = omega arith;
  window = omega arith;
  timeout = omega arith;
}

-- Whatever bytes the configuration file holds, and where it is missing, the limit of the retention is
-- positive, and the window and the timeout are times whose microseconds fit 64 bits: the callers' products do not overflow.
pub bus_load_config-IsConfig : (file : Option Bytes) → IsConfig (bus_load_config file)
unfolding bus_load_config
bus_load_config-IsConfig none = default_config-IsConfig
bus_load_config-IsConfig (some text) =
    config_lines-IsConfig default_config (fgets_lines 511 text []) default_config-IsConfig
