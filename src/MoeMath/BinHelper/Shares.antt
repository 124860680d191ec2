-- ===== src/MoeMath/BinHelper/Shares.antt =====
-- What a deposit in a bin takes.
use arbitrage_bot_v.Base.{ℕ, ◌-◌, ◌^◌, ◌≤◌, ◌<◌, inl, inr, arith, ◌||◌, Bool-cases, ltb, leb, ◌==◌}
use arbitrage_bot_v.Base.Word.{add256}
use arbitrage_bot_v.MoeMath.Error.{
  refuse, max_liquidity_per_bin_exceeded, Gives, Gives-chain, Gives-after,
}
use arbitrage_bot_v.MoeMath.PackedUint128.{encode, decode}
use arbitrage_bot_v.MoeMath.PackedUint128.Halves.{decode-encode, decode-lt}
use arbitrage_bot_v.MoeMath.Uint256x256Math.{sqrt, mul_div_round_down, mul_div_round_up}
use arbitrage_bot_v.MoeMath.BinHelper.{
  less_y, less_x, effective_in, shares_of, get_shares_and_effective_amounts_in, get_liquidity,
  get_liquidity_components, max_liquidity_per_bin,
}

-- Of either token no more than was offered.
abbrev pub NoMore : ℕ → ℕ → Type 0
NoMore offered taken =
    ((decode taken).0 ≤ (decode offered).0) × ((decode taken).1 ≤ (decode offered).1)

less_y-le : (delta y : ℕ) → y < 2 ^ 128 → (less_y delta y).0 ≤ y
less_y-le delta y small = ground arith

less_x-le : (delta x price : ℕ) → x < 2 ^ 128 → Gives (λ x'. x' ≤ x) (less_x delta x price)
less_x-le delta x price small = elim (Bool-cases (leb price delta)) [
  | inl some_left ↦ rw some_left (elim (Bool-cases (price == 0)) [
    | inl free ↦ rw free tt
    | inr priced ↦ rw priced (ground arith)
  ])
  | inr none_left ↦ rw none_left (omega arith)
]

encode-NoMore :
    (offered x y : ℕ)
    → x ≤ (decode offered).0
    → y ≤ (decode offered).1
    → NoMore offered (encode x y)
encode-NoMore offered x y hx hy =
    let halves = decode-lt offered in
    let read = decode-encode x y (omega (arith, halves.0, hx)) (omega (arith, halves.1, hy)) in
    rw read (omega (arith, hx), omega (arith, hy))

effective_in-NoMore :
    (offered user effective price : ℕ)
    → Gives (NoMore offered) (effective_in offered user effective price)
effective_in-NoMore offered user effective price =
    let (x, y) = decode offered in
    let halves = decode-lt offered in
    let left = less_y (user - effective) y in
    elim (Bool-cases (ltb effective user)) [
      | inl over ↦ rw over (
          Gives-chain (λ x'. x' ≤ x) (NoMore offered) (less_x left.1 x price) _
            (less_x-le left.1 x price (omega (arith, halves.0)))
            (λ x' fits.
              encode-NoMore offered x' left.0 fits
                (less_y-le (user - effective) y (omega (arith, halves.1)))))
      | inr exact ↦ rw exact (omega arith, omega arith)
    ]

zero-NoMore : (offered : ℕ) → NoMore offered 0
unfolding decode
zero-NoMore offered = (omega arith, omega arith)

shares_of-NoMore :
    (bin_reserves amounts_in price total_supply user bin_liquidity : ℕ)
    → Gives
        (λ r. NoMore amounts_in r.1)
        (shares_of bin_reserves amounts_in price total_supply user bin_liquidity)
shares_of-NoMore bin_reserves amounts_in price total_supply user bin_liquidity =
    let Q : ℕ × ℕ → Type 0 = λ r. NoMore amounts_in r.1 in
    Gives-after Q (mul_div_round_down user total_supply bin_liquidity) _ (λ shares.
      Gives-after Q (mul_div_round_up shares bin_liquidity total_supply) _ (λ effective.
        Gives-chain (NoMore amounts_in) Q (effective_in amounts_in user effective price) _
          (effective_in-NoMore amounts_in user effective price)
          (λ amounts kept.
            Gives-after Q (get_liquidity (add256 bin_reserves amounts) price) _ (λ new.
              Gives-after Q (refuse (ltb max_liquidity_per_bin new) max_liquidity_per_bin_exceeded)
                _ (λ _. kept)))))

-- A deposit in a bin that succeeds takes of either token no more than was offered of it.
pub get_shares_and_effective_amounts_in-NoMore :
    (bin_reserves amounts_in price total_supply : ℕ)
    → Gives
        (λ r. NoMore amounts_in r.1)
        (get_shares_and_effective_amounts_in bin_reserves amounts_in price total_supply)
unfolding get_shares_and_effective_amounts_in
get_shares_and_effective_amounts_in-NoMore bin_reserves amounts_in price total_supply =
    Gives-after (λ r. NoMore amounts_in r.1)
      (get_liquidity_components (decode amounts_in).0 (decode amounts_in).1 price) _
      (λ user. elim (Bool-cases (user == 0)) [
        | inl nothing ↦ rw nothing (zero-NoMore amounts_in)
        | inr something ↦ rw something (
            Gives-after (λ r. NoMore amounts_in r.1) (get_liquidity bin_reserves price) _
              (λ bin_liquidity. elim (Bool-cases ((bin_liquidity == 0) || (total_supply == 0))) [
                | inl first ↦ rw first (
                    Gives-after (λ r. NoMore amounts_in r.1) (sqrt user) _
                      (λ root. (omega arith, omega arith)))
                | inr later ↦
                    rw later (
                      shares_of-NoMore bin_reserves amounts_in price total_supply user
                        bin_liquidity)
              ]))
      ])
