-- ===== src/Examples/TimeParse.antt =====
-- src/nbs-chat/time_parse.c at concrete inputs.
use nbs_framework.Common.{◌*◌, ◌≡◌, none, [], ◌∷◌, ◌++◌, arith}
use nbs_framework.Common.Decimal.{show_nat}
use nbs_framework.TimeParse.{parse_timespec}
use nbs_framework.TimeParse.Age
use nbs_framework.TimeParse.Age.{age_result, hour}

parse_timespec-show_nat_example :
    parse_timespec (λ spec. none) 1771834287 (show_nat 5 ++ b'h' ∷ [])
    ≡ age_result 1771834287 (5 * 3600)
parse_timespec-show_nat_example =
    Age.parse_timespec-show_nat (λ spec. none) 1771834287 5 hour (omega arith) (omega arith)
      (omega arith)
