-- ===== src/Arbitrage/Data.antt =====
-- src/arbitrage/data.rs and error.rs, and of src/amms/amm.rs what the search uses of a pool.
use arbitrage_bot_v.Base.{ℕ, ◌/◌, ◌%◌, ◌^◌, List, [], ◌∷◌, ◌==◌, if◌then◌else◌}
use arbitrage_bot_v.Base.Outcome.{Outcome, failed, done, ◌>>=◌}
use arbitrage_bot_v.UniswapV2.{Token}

pub data ArbitrageError : Type 0 where
  missing_token_decimals : ℕ → ArbitrageError
  optimization simulation : ArbitrageError

pub data Variant : Type 0 where
  uniswap_v2_pool uniswap_v3_pool agni_pool moe_lb_pair : Variant

-- A pool behind the trait AutomatedMarketMaker. Its swap may fail, here without the reason.
pub record Amm : Type 0 where
  pub variant : Variant
  pub address : ℕ
  pub token_a : Token  -- token_x of a MoeLbPair
  pub token_b : Token
  pub fee : ℕ  -- bin_step of a MoeLbPair
  pub simulate_swap : (base_token quote_token amount_in : ℕ) → Outcome (Unit {0}) ℕ

abbrev pub tokens : Amm → List ℕ
tokens amm = amm.token_a.address ∷ amm.token_b.address ∷ []

pub record TokenState : Type 0 where
  pub address : ℕ
  pub decimals : ℕ

pub record PoolEdge : Type 0 where
  pub pool_address : ℕ
  pub token_in : TokenState
  pub token_out : TokenState
  pub fee_bps : ℕ

pub record PoolExtraction : Type 0 where
  pub token_a : TokenState
  pub token_b : TokenState
  pub fee_bps : ℕ

abbrev pub from_token : Token → Outcome ArbitrageError TokenState
from_token token =
    if token.decimals == 0
    then failed (missing_token_decimals token.address)
    else done (record { address = token.address; decimals = token.decimals })

abbrev pub reversed : PoolEdge → PoolEdge
reversed edge = record edge { token_in = edge.token_out; token_out = edge.token_in }

abbrev pub into_edges : PoolExtraction → ℕ → PoolEdge × PoolEdge
into_edges extraction pool_address =
    let forward : PoolEdge = record {
      pool_address = pool_address;
      token_in = extraction.token_a;
      token_out = extraction.token_b;
      fee_bps = extraction.fee_bps;
    } in
    (forward, reversed forward)

-- The fee in basis points: that of a V2 pool counts in 1e5 and is cut to 32 bits first.
abbrev pub extracted_fee : Variant → ℕ → ℕ
extracted_fee uniswap_v2_pool fee = fee % 2 ^ 32 / 10
extracted_fee uniswap_v3_pool fee = fee
extracted_fee agni_pool fee = fee
extracted_fee moe_lb_pair bin_step = bin_step

unfoldable pub extract_pool : Amm → Outcome ArbitrageError PoolExtraction
extract_pool pool = do
  a ← from_token pool.token_a
  b ← from_token pool.token_b
  done (record { token_a = a; token_b = b; fee_bps = extracted_fee pool.variant pool.fee })
