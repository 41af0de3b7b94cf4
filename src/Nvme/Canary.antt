-- ===== src/Nvme/Canary.antt =====
-- src/nvme_storage/nvme_hbm_canary.cc: the plan of one NVMe command. The path is a list of
-- character codes, of which the plan reads only whether it is empty. Arithmetic on 64 bits wraps.
pub mod Plan
use flume_ascend_host_bypass.Prelude.{
  ℕ, ◌+◌, ◌-◌, ◌*◌, ◌/◌, ◌%◌, ◌^◌, Bool, true, false, not, ◌&&◌, ◌||◌, List, [], ◌∷◌, bit_and, ltb,
  leb, ◌==◌, ◌!=◌, if◌then◌else◌,
}

abbrev pub nvme_write_opcode : ℕ
nvme_write_opcode = 1

abbrev pub nvme_read_opcode : ℕ
nvme_read_opcode = 2

abbrev pub max_nvme_blocks_per_command : ℕ
max_nvme_blocks_per_command = 65536

abbrev pub protected_namespace_prefix_bytes : ℕ
protected_namespace_prefix_bytes = 1024 * 1024

abbrev pub uint64_max : ℕ
uint64_max = 2 ^ 64 - 1

abbrev pub uint32_max : ℕ
uint32_max = 2 ^ 32 - 1

pub data CanaryDirection : Type 0 where
  read_to_hbm : CanaryDirection
  write_round_trip : CanaryDirection

pub record CanaryConfig : Type 0 where
  pub namespace_path : List ℕ
  pub direction : CanaryDirection
  pub slba : ℕ
  pub bytes : ℕ
  pub lba_bytes : ℕ
  pub namespace_bytes : ℕ
  pub timeout_ms : ℕ
  pub destructive_write_confirmed : Bool

pub record IoPlan : Type 0 where
  pub opcode : ℕ
  pub nsid : ℕ
  pub data_len : ℕ
  pub cdw10 : ℕ
  pub cdw11 : ℕ
  pub cdw12 : ℕ
  pub timeout_ms : ℕ
  pub byte_offset : ℕ
  pub block_count : ℕ

-- The six messages of a refusal.
pub data Error : Type 0 where
  missing_input : Error
  unaligned : Error
  block_count : Error
  outside_namespace : Error
  unconfirmed_write : Error
  protected_prefix : Error

pub data Result : Type 0 where
  planned : IoPlan → Result
  refused : Error → Result

unfoldable pub is_empty : List ℕ → Bool
is_empty [] = true
is_empty (c ∷ cs) = false

unfoldable pub is_power_of_two : ℕ → Bool
is_power_of_two value = (value != 0) && (bit_and value (value - 1) == 0)

unfoldable pub is_write : CanaryDirection → Bool
is_write CanaryDirection.read_to_hbm = false
is_write CanaryDirection.write_round_trip = true

-- The plan of a command that passed every test.
unfoldable pub plan : CanaryConfig → ℕ → ℕ → IoPlan
plan config nsid blocks = record {
  opcode = if is_write config.direction then nvme_write_opcode else nvme_read_opcode;
  nsid = nsid;
  data_len = config.bytes % 2 ^ 32;
  cdw10 = config.slba % 2 ^ 32;
  cdw11 = config.slba / 2 ^ 32 % 2 ^ 32;
  cdw12 = (blocks - 1) % 2 ^ 32;
  timeout_ms = config.timeout_ms;
  byte_offset = config.slba * config.lba_bytes % 2 ^ 64;
  block_count = blocks;
}

unfoldable pub build_canary_plan : CanaryConfig → ℕ → Result
unfolding is_empty is_power_of_two is_write plan
build_canary_plan config nsid =
    if is_empty config.namespace_path
      || ((nsid == 0)
          || ((config.bytes == 0) || (ltb uint32_max config.bytes || (config.timeout_ms == 0))))
    then Result.refused Error.missing_input
    else if ltb config.lba_bytes 512
        || (not (is_power_of_two config.lba_bytes) || (config.bytes % config.lba_bytes != 0))
    then Result.refused Error.unaligned
    else let blocks = config.bytes / config.lba_bytes in
      if (blocks == 0)
        || (ltb max_nvme_blocks_per_command blocks || ltb (uint64_max - blocks) config.slba)
      then Result.refused Error.block_count
      else if ltb config.namespace_bytes config.lba_bytes
          || ((config.namespace_bytes % config.lba_bytes != 0)
              || (leb (config.namespace_bytes / config.lba_bytes) config.slba
                  || ltb (config.namespace_bytes / config.lba_bytes - config.slba) blocks))
      then Result.refused Error.outside_namespace
      else if is_write config.direction && not config.destructive_write_confirmed
      then Result.refused Error.unconfirmed_write
      else if is_write config.direction
          && ltb (config.slba * config.lba_bytes % 2 ^ 64) protected_namespace_prefix_bytes
      then Result.refused Error.protected_prefix
      else Result.planned (plan config nsid blocks)
