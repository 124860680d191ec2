-- ===== src/Tests/Pools.antt =====
-- src/amms/uniswap_v2/mod.rs at concrete values.
use arbitrage_bot_v.Base.{
  ℕ, ◌+◌, ◌-◌, ◌*◌, ◌/◌, ◌^◌, ◌≤◌, ◌<◌, ◌≡◌, refl, arith, some, ltb, ◌==◌, if◌then◌else◌,
}
use arbitrage_bot_v.UniswapV2.{
  UniswapV2Pool, get_amount_out, simulate_swap, simulate_swap_mut, div_uu, ok,
}
use arbitrage_bot_v.UniswapV2.Swap.{quoted, simulate_swap_mut-product}
use arbitrage_bot_v.UniswapV2.Division.{div_uu-floor}

abbrev pool : UniswapV2Pool
pool = record {
  address = 1;
  token_a = record { address = 2; decimals = 6 };
  token_b = record { address = 3; decimals = 18 };
  reserve_0 = 47092140895915;
  reserve_1 = 28396598565590008529300;
  fee = 300;
}

pool_quote : get_amount_out pool (10 ^ 10) pool.reserve_0 pool.reserve_1 ≡ some 6010645432102828997
unfolding get_amount_out
pool_quote = refl

simulate_swap_mut-product_example :
    (p' : UniswapV2Pool) × (out : ℕ) × (simulate_swap_mut pool 2 3 (10 ^ 10) ≡ some (p', out))
    × (simulate_swap pool 2 3 (10 ^ 10) ≡ some out)
    × (p' ≡ (
        if pool.token_a.address == 2
        then record pool { reserve_0 = pool.reserve_0 + 10 ^ 10; reserve_1 = pool.reserve_1 - out }
        else record pool {
          reserve_0 = pool.reserve_0 - out;
          reserve_1 = pool.reserve_1 + 10 ^ 10;
        }))
    × (out ≡ (
        if pool.token_a.address == 2
        then quoted pool.fee (10 ^ 10) pool.reserve_0 pool.reserve_1
        else quoted pool.fee (10 ^ 10) pool.reserve_1 pool.reserve_0))
    × (0 < p'.reserve_0)
    × (0 < p'.reserve_1)
    × (pool.reserve_0 * pool.reserve_1 ≤ p'.reserve_0 * p'.reserve_1)
simulate_swap_mut-product_example =
    simulate_swap_mut-product pool 2 3 (10 ^ 10) (omega arith) (omega arith)

div_uu-floor_example :
    div_uu 7 2 ≡ ok (if ltb (7 * 2 ^ 64 / 2) (2 ^ 128) then 7 * 2 ^ 64 / 2 else 0)
div_uu-floor_example = div_uu-floor 7 2 (omega arith) (omega arith)
