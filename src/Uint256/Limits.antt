-- ===== src/Uint256/Limits.antt =====
-- The modulus of src/inc/essential.h's `uint256_t`.
use bandchain_legacy.Common.{ℕ, ◌^◌}

abbrev pub u256_mod : ℕ
u256_mod = 2 ^ 256
