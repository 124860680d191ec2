-- ===== src/MoeMath.antt =====
-- src/amms/moe/math: the fixed-point and packed-word arithmetic of the Merchant Moe pools.
pub mod Error
pub mod Encoded
pub mod BitMath
pub mod TreeMath
pub mod PackedUint128
pub mod FeeHelper
pub mod SafeCast
pub mod SampleMath
pub mod LiquidityConfigurations
pub mod PairParameters
pub mod Uint256x256Math
pub mod Uint128x128Math
pub mod PriceHelper
pub mod BinHelper
