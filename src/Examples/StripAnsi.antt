-- ===== src/Examples/StripAnsi.antt =====
-- src/nbs-sidecar/strip_ansi.c at concrete inputs.
use nbs_framework.Common.{◌≤◌, ◌≡◌, refl, true, ◌∷◌, ◌++◌, length}
use nbs_framework.Common.Outcome.{ok}
use nbs_framework.Common.Text.{Bytes, codes}
use nbs_framework.StripAnsi.{
  strip_ansi, strip_loop, strip_step, after_escape, scan_csi, end_csi, skip_osc, is_control,
  is_leading, is_continuation, expected, take_continuation, space_count, spaces,
}
use nbs_framework.StripAnsi.Clean
use nbs_framework.StripAnsi.Clean.{is_clean}
use nbs_framework.StripAnsi.Shrink

-- "a", then green, then "b", two columns to the right, a title and "c".
abbrev coloured : Bytes
coloured = b'a' ∷ 27 ∷ codes "[32mb" ++ 27 ∷ codes "[2C" ++ 27 ∷ codes "]0;t" ++ 7 ∷ codes "c"

coloured_stripped : strip_ansi coloured ≡ ok (codes "ab  c")
unfolding strip_ansi strip_loop strip_step after_escape scan_csi end_csi skip_osc is_control
    is_leading is_continuation expected take_continuation space_count spaces
coloured_stripped = refl

strip_ansi_total_example :
    (out : Bytes) × (strip_ansi coloured ≡ ok out) × (length out ≤ length coloured)
strip_ansi_total_example = Shrink.strip_ansi_total coloured

strip_ansi-clean_example : is_clean 0 (codes "ab  c") ≡ true
strip_ansi-clean_example = Clean.strip_ansi-clean coloured (codes "ab  c") coloured_stripped

strip_ansi-strip_ansi_example : strip_ansi (codes "ab  c") ≡ ok (codes "ab  c")
strip_ansi-strip_ansi_example =
    Clean.strip_ansi-strip_ansi coloured (codes "ab  c") coloured_stripped
