-- ===== src/Protocol/FrameType.antt =====
-- src/protocol/framing.h, enum class FrameType: the numbers that travel.
use flume_ascend_host_bypass.Prelude.{ℕ}

abbrev pub hello : ℕ
hello = 1

abbrev pub hello_ack : ℕ
hello_ack = 2

abbrev pub open_req : ℕ
open_req = 3

abbrev pub open_resp : ℕ
open_resp = 4

abbrev pub read_req : ℕ
read_req = 5

abbrev pub read_resp : ℕ
read_resp = 6

abbrev pub close_req : ℕ
close_req = 7

abbrev pub close_resp : ℕ
close_resp = 8

abbrev pub error : ℕ
error = 9
