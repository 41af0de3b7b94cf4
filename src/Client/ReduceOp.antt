-- ===== src/Client/ReduceOp.antt =====
-- include/flume/flume.h: flume_reduce_op_t, as the number that a caller passes.
use flume_ascend_host_bypass.Prelude.{ℕ}

abbrev pub sum : ℕ
sum = 0

abbrev pub prod : ℕ
prod = 1

abbrev pub max_of : ℕ
max_of = 2

abbrev pub min_of : ℕ
min_of = 3
