-- ===== src/UniswapV2.antt =====
-- src/amms/uniswap_v2/mod.rs: the constant-product pool, its swap and its price.
pub mod Swap
pub mod Division
use arbitrage_bot_v.Base.{ℕ, zero, suc, ◌+◌, ◌-◌, ◌*◌, ◌/◌, ◌^◌, bit_and}
use arbitrage_bot_v.Base.{
  Option, none, some, Bool, ◌||◌, ltb, leb, ◌==◌, if◌then◌else◌, List, [], ◌∷◌,
}
use arbitrage_bot_v.Base.Word.{add256, sub256, mul256, shl256, shr, u128}

-- src/amms/mod.rs.
pub record Token : Type 0 where
  pub address : ℕ
  pub decimals : ℕ

pub record UniswapV2Pool : Type 0 where
  pub address : ℕ
  pub token_a : Token
  pub token_b : Token
  pub reserve_0 : ℕ
  pub reserve_1 : ℕ
  pub fee : ℕ

-- `none` is a panic: an unwrap or a division by zero.
infixl 5 ◌>>=◌
abbrev pub ◌>>=◌ {ℓ κ} : {A : Type ℓ} {B : Type κ} → Option A → (A → Option B) → Option B
none >>= f = none
some a >>= f = f a

abbrev div256 : ℕ → ℕ → Option ℕ
div256 x y = if y == 0 then none else some (x / y)

-- `to::<u128>()`.
abbrev to_u128 : ℕ → Option ℕ
to_u128 x = if ltb x (2 ^ 128) then some x else none

abbrev pub u256_100000 : ℕ
u256_100000 = 100_000

unfoldable pub tokens : UniswapV2Pool → List ℕ
tokens p = p.token_a.address ∷ p.token_b.address ∷ []

unfoldable pub get_amount_out : UniswapV2Pool → ℕ → ℕ → ℕ → Option ℕ
get_amount_out p amount_in reserve_in reserve_out =
    if amount_in == 0 || (reserve_in == 0 || reserve_out == 0)
    then some 0
    else (let fee = sub256 u256_100000 p.fee in
        let with_fee = mul256 amount_in fee in
        let numerator = mul256 with_fee reserve_out in
        let denominator = add256 (mul256 reserve_in u256_100000) with_fee in
        div256 numerator denominator)

unfoldable pub simulate_swap : UniswapV2Pool → ℕ → ℕ → ℕ → Option ℕ
simulate_swap p base_token quote_token amount_in =
    if p.token_a.address == base_token
    then get_amount_out p amount_in p.reserve_0 p.reserve_1
    else get_amount_out p amount_in p.reserve_1 p.reserve_0

-- The reserves are u128; a sum or a difference out of range wraps.
unfoldable pub simulate_swap_mut : UniswapV2Pool → ℕ → ℕ → ℕ → Option (UniswapV2Pool × ℕ)
simulate_swap_mut p base_token quote_token amount_in =
    if p.token_a.address == base_token
    then (do
      amount_out ← get_amount_out p amount_in p.reserve_0 p.reserve_1
      paid ← to_u128 amount_in
      taken ← to_u128 amount_out
      some (
        record p {
          reserve_0 = u128 (p.reserve_0 + paid);
          reserve_1 = u128 (p.reserve_1 + 2 ^ 128 - taken);
        },
        amount_out,
      ))
    else (do
      amount_out ← get_amount_out p amount_in p.reserve_1 p.reserve_0
      taken ← to_u128 amount_out
      paid ← to_u128 amount_in
      some (
        record p {
          reserve_0 = u128 (p.reserve_0 + 2 ^ 128 - taken);
          reserve_1 = u128 (p.reserve_1 + paid);
        },
        amount_out,
      ))

-- A decoded Sync event, of two uint112 reserves, replaces both; a log that is none is an error.
unfoldable pub sync : UniswapV2Pool → Option (ℕ × ℕ) → Option UniswapV2Pool
sync p none = none
sync p (some (reserve0, reserve1)) = some (record p { reserve_0 = reserve0; reserve_1 = reserve1 })

pub data UniswapV2Error : Type 0 where
  division_by_zero rounding_error : UniswapV2Error

pub data Quotient : Type 0 where
  ok : ℕ → Quotient
  err : UniswapV2Error → Quotient

abbrev mask_192 : ℕ
mask_192 = 2 ^ 192 - 1

abbrev mask_128 : ℕ
mask_128 = 2 ^ 128 - 1

-- One step of the search for the highest bit: `if xc >= 1 << k { xc >>= k; msb += k }`.
abbrev msb_step : ℕ → ℕ × ℕ → ℕ × ℕ
msb_step k (xc, msb) = if leb (2 ^ k) xc then (shr xc k, msb + k) else (xc, msb)

unfoldable pub high_bit : ℕ → ℕ
high_bit x =
    (msb_step 1
      (msb_step 2 (msb_step 4 (msb_step 8 (msb_step 16 (msb_step 32 (shr x 192, 192))))))).1

-- The first estimate of `x << 64 / y`.
unfoldable pub estimate : ℕ → ℕ → ℕ
estimate x y =
    if leb x mask_192
    then shl256 x 64 / y
    else (let msb = high_bit x in shl256 x (255 - msb) / add256 (shr (sub256 y 1) (msb - 191)) 1)

unfoldable pub div_uu : ℕ → ℕ → Quotient
unfolding estimate
div_uu x y =
    if y == 0
    then err division_by_zero
    else (let answer = estimate x y in
        if ltb mask_128 answer
        then ok 0
        else (let hi = mul256 answer (shr y 128) in
            let lo = mul256 answer (bit_and y mask_128) in
            let xh = shr x 192 in
            let xl = shl256 x 64 in
            let xh1 = if ltb xl lo then sub256 xh 1 else xh in
            let xl1 = sub256 xl lo in
            let lo1 = shl256 hi 128 in
            let xh2 = if ltb xl1 lo1 then sub256 xh1 1 else xh1 in
            let xl2 = sub256 xl1 lo1 in
            if xh2 == shr hi 128
            then (let total = add256 answer (xl2 / y) in
                if ltb mask_128 total then ok 0 else ok total)
            else err rounding_error))
