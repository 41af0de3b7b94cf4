-- ===== src/Client/BufferType.antt =====
-- include/flume/flume.h: flume_buffer_type_t, as the number that a caller passes.
use flume_ascend_host_bypass.Prelude.{ℕ}

abbrev pub host : ℕ
host = 0

abbrev pub ascend_hbm : ℕ
ascend_hbm = 1

abbrev pub hccl_comm : ℕ
hccl_comm = 2

abbrev pub sim_hbm : ℕ
sim_hbm = 100

abbrev pub sim_hccl_comm : ℕ
sim_hccl_comm = 101
