-- ===== src/Client/DataType.antt =====
-- include/flume/flume.h: flume_data_type_t, as the number that a caller passes.
use flume_ascend_host_bypass.Prelude.{ℕ}

abbrev pub int8 : ℕ
int8 = 0

abbrev pub int16 : ℕ
int16 = 1

abbrev pub int32 : ℕ
int32 = 2

abbrev pub fp16 : ℕ
fp16 = 3

abbrev pub fp32 : ℕ
fp32 = 4

abbrev pub int64 : ℕ
int64 = 5

abbrev pub uint64 : ℕ
uint64 = 6

abbrev pub uint8 : ℕ
uint8 = 7

abbrev pub uint16 : ℕ
uint16 = 8

abbrev pub uint32 : ℕ
uint32 = 9

abbrev pub fp64 : ℕ
fp64 = 10

abbrev pub bfp16 : ℕ
bfp16 = 11
