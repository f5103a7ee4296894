-- ===== src/Examples/Base64.antt =====
-- src/nbs-chat/base64.c at concrete inputs.
use nbs_framework.Base64.Decode
use nbs_framework.Base64.Encode
use nbs_framework.Base64.RoundTrip
use nbs_framework.Base64.{encode, decode, all_valid, strip_len}
use nbs_framework.Common.Outcome.{ok, fail, ◌>>=◌}
use nbs_framework.Common.Text.{Bytes, codes}
use nbs_framework.Common.{arith, ◌+◌, ◌*◌, ◌/◌, ◌<◌, ◌≤◌, ◌≡◌, ◌⊎◌, true, length}

decode-encode_example : (do s ← encode (codes "chat") 9; decode s 4) ≡ ok (codes "chat")
decode-encode_example =
    RoundTrip.decode-encode (codes "chat") 9 4 (omega arith) (omega arith) (omega arith)
      (omega arith) (omega arith)

encode_total_example :
    ((s : Bytes) × (encode (codes "chat") 9 ≡ ok s)
      × (length s ≡ (4 + 2) / 3 * 4)
      × (all_valid s ≡ true)
      × (length s < 9))
    ⊎ ((encode (codes "chat") 9 ≡ fail 1) × (9 ≤ (4 + 2) / 3 * 4))
encode_total_example = Encode.encode_total (codes "chat") 9 (omega arith)

decode_total_example :
    Decode.Accepts
      (decode (codes "Y2hhdA==\n") 4)
      (codes "Y2hhdA==\n")
      4
      (strip_len (codes "Y2hhdA==\n") 9)
    ⊎ Decode.Refuses
        (decode (codes "Y2hhdA==\n") 4)
        (codes "Y2hhdA==\n")
        4
        (strip_len (codes "Y2hhdA==\n") 9)
decode_total_example = Decode.decode_total (codes "Y2hhdA==\n") 4 (omega arith) (omega arith)
