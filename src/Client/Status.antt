-- ===== src/Client/Status.antt =====
-- include/flume/flume.h: flume_status_t.
use flume_ascend_host_bypass.Prelude.{ℕ}

abbrev pub ok : ℕ
ok = 0

abbrev pub invalid_argument : ℕ
invalid_argument = 1

abbrev pub io_error : ℕ
io_error = 2

abbrev pub timeout : ℕ
timeout = 3

abbrev pub unsupported : ℕ
unsupported = 4

abbrev pub backend : ℕ
backend = 5

abbrev pub remote : ℕ
remote = 6

abbrev pub protocol : ℕ
protocol = 7

abbrev pub pending : ℕ
pending = 8
