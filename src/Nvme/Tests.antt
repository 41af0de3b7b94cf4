-- ===== src/Nvme/Tests.antt =====
-- The properties of the plan, applied to a write of two blocks.
use flume_ascend_host_bypass.Prelude.{◌≡◌, refl, inr, true, [], ◌∷◌, arith}
use flume_ascend_host_bypass.Nvme.Canary.{
  CanaryDirection, CanaryConfig, planned, build_canary_plan, is_power_of_two, is_write, is_empty,
  plan,
}
use flume_ascend_host_bypass.Nvme.Canary.Plan.{
  IsConfig, IsPlan, IsServable, build_canary_plan-IsPlan, build_canary_plan_total,
}

abbrev config : CanaryConfig
config = record {
  namespace_path = 47 ∷ [];
  direction = CanaryDirection.write_round_trip;
  slba = 2048;
  bytes = 1024;
  lba_bytes = 512;
  namespace_bytes = 2097152;
  timeout_ms = 30000;
  destructive_write_confirmed = true;
}

config-IsConfig : IsConfig config
config-IsConfig = record {
  slba_fits = omega arith;
  bytes_fits = omega arith;
  lba_bytes_fits = omega arith;
  namespace_bytes_fits = omega arith;
  timeout_fits = omega arith;
}

build_canary_plan-IsPlan_example : IsPlan config 1 (plan config 1 2)
unfolding build_canary_plan
build_canary_plan-IsPlan_example = build_canary_plan-IsPlan config 1 config-IsConfig refl

config-IsServable : IsServable config 1
unfolding is_empty is_power_of_two is_write
config-IsServable = record {
  named = refl;
  some_nsid = omega arith;
  some_timeout = omega arith;
  bytes_fit = omega arith;
  block_size = omega arith;
  power = refl;
  aligned = refl;
  some_block = omega arith;
  few_blocks = omega arith;
  namespace_aligned = refl;
  inside = omega arith;
  harmless = inr (refl, omega arith);
}

build_canary_plan_total_example : build_canary_plan config 1 ≡ planned (plan config 1 2)
build_canary_plan_total_example = build_canary_plan_total config 1 config-IsConfig config-IsServable
