-- ===== src/Exposure/Tests.antt =====
-- A payment of ETH to a contract.
use presign.Prelude.{◌≡◌, ◌↔◌, true, none}
use presign.Mappings.Tests.{plain_viem}
use presign.Engine.Tests.{diff, plain_tx}
use presign.Exposure.{exposure_growth}
use presign.Exposure.Growth.{Exposes, exposure_growth_iff}

exposure_growth_iff_example :
    ((exposure_growth plain_viem (record plain_tx { value = 5 }) diff "0xBB").grows ≡ true)
    ↔ ((diff.revert_reason ≡ none) × Exposes plain_viem (record plain_tx { value = 5 }) diff "0xBB")
exposure_growth_iff_example =
    exposure_growth_iff plain_viem (record plain_tx { value = 5 }) diff "0xBB"
