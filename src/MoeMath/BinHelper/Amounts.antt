-- ===== src/MoeMath/BinHelper/Amounts.antt =====
-- What a swap in one bin takes and gives.
use arbitrage_bot_v.Base.{
  ℕ, ◌+◌, ◌-◌, ◌^◌, ◌≤◌, ◌<◌, ◌≡◌, inl, inr, arith, Bool, true, false, not, Bool-cases, ltb, leb,
  if◌then◌else◌,
}
use arbitrage_bot_v.Base.Word.{u128}
use arbitrage_bot_v.MoeMath.Error.{
  Result, refuse, max_liquidity_per_bin_exceeded, Gives, Gives-chain, Gives-after,
}
use arbitrage_bot_v.MoeMath.FeeHelper.{get_fee_amount, get_fee_amount_from}
use arbitrage_bot_v.MoeMath.PackedUint128.{encode, decode_x, decode_y, decode_first}
use arbitrage_bot_v.MoeMath.PackedUint128.Halves.{decode_x_lem, decode_y_lem, encode_sum}
use arbitrage_bot_v.MoeMath.PairParameters.{get_total_fee}
use arbitrage_bot_v.MoeMath.PriceHelper.{get_price_from_id}
use arbitrage_bot_v.MoeMath.BinHelper.{
  packed_in, packed_out, max_amount_in, bought, amounts_of, get_amounts, get_liquidity,
  max_liquidity_per_bin,
}

-- No more is taken than there is, nor given than the bin holds.
abbrev Within : (amount_in reserve : ℕ) → ℕ × ℕ × ℕ → Type 0
Within amount_in reserve (taken, given, fee) = (taken ≤ amount_in) × (given ≤ reserve)

amounts_of-Within :
    (swap_for_y : Bool) (price reserve : ℕ) (read_fee : Result ℕ) (amount_in : ℕ)
    → Gives (Within amount_in reserve) (amounts_of swap_for_y price reserve read_fee amount_in)
unfolding amounts_of
amounts_of-Within swap_for_y price reserve read_fee amount_in =
    Gives-after (Within amount_in reserve) (max_amount_in swap_for_y price reserve) _ (λ most.
      Gives-after (Within amount_in reserve) read_fee _ (λ total_fee.
        Gives-after (Within amount_in reserve) (get_fee_amount most total_fee) _ (λ max_fee.
          elim (Bool-cases (leb (u128 (most + max_fee)) amount_in)) [
            | inl all ↦ rw all (ground arith, omega arith)
            | inr part ↦ rw part (
                Gives-after (Within amount_in reserve) (get_fee_amount_from amount_in total_fee) _
                  (λ fee.
                    Gives-after (Within amount_in reserve)
                      (bought swap_for_y price (u128 (amount_in + 2 ^ 128 - fee))) _
                      (λ raw. (omega arith, omega arith))))
          ])))

abbrev pub reserve_of : ℕ → Bool → ℕ
reserve_of bin_reserves swap_for_y =
    if swap_for_y then decode_y bin_reserves else decode_x bin_reserves

-- The packed amounts of a swap in one bin.
abbrev pub PackedWithin : Bool → (amounts_in_left bin_reserves : ℕ) → ℕ × ℕ × ℕ → Type 0
PackedWithin swap_for_y amounts_in_left bin_reserves (taken, given, fee) =
    (decode_first taken swap_for_y ≤ decode_first amounts_in_left swap_for_y)
    × (decode_first given (not swap_for_y) ≤ reserve_of bin_reserves swap_for_y)
    × (decode_first taken (not swap_for_y) ≡ 0)
    × (decode_first given swap_for_y ≡ 0)

low_half : (a : ℕ) → a < 2 ^ 64 → (decode_x (encode a 0) ≡ a) × (decode_y (encode a 0) ≡ 0)
low_half a small =
    let whole = encode_sum a 0 (omega arith) (omega arith) in
    (
      omega (arith, decode_x_lem (encode a 0), whole),
      omega (arith, decode_y_lem (encode a 0), whole),
    )

high_half : (a : ℕ) → a < 2 ^ 64 → (decode_x (encode 0 a) ≡ 0) × (decode_y (encode 0 a) ≡ a)
high_half a small =
    let whole = encode_sum 0 a (omega arith) (omega arith) in
    (
      omega (arith, decode_x_lem (encode 0 a), whole),
      omega (arith, decode_y_lem (encode 0 a), whole),
    )

packed-PackedWithin :
    (swap_for_y : Bool) (left reserves taken given fee : ℕ)
    → Within (decode_first left swap_for_y) (reserve_of reserves swap_for_y) (taken, given, fee)
    → PackedWithin swap_for_y left reserves
        (packed_in swap_for_y taken, packed_out swap_for_y given, packed_in swap_for_y fee)
unfolding decode_first
packed-PackedWithin true left reserves taken given fee (fits, holds) =
    let in_half = low_half taken (omega (arith, decode_x_lem left)) in
    let out_half = high_half given (omega (arith, decode_y_lem reserves)) in
    (omega (arith, in_half.0), omega (arith, out_half.1), in_half.1, out_half.0)
packed-PackedWithin false left reserves taken given fee (fits, holds) =
    let in_half = high_half taken (omega (arith, decode_y_lem left)) in
    let out_half = low_half given (omega (arith, decode_x_lem reserves)) in
    (omega (arith, in_half.1), omega (arith, out_half.0), in_half.0, out_half.1)

-- A swap in one bin that succeeds takes no more of its token than was left of it, gives no more
-- than the bin holds of the other, and neither takes of the other nor gives of the first.
pub get_amounts-PackedWithin :
    (bin_reserves parameters bin_step : ℕ) (swap_for_y : Bool) (active_id amounts_in_left : ℕ)
    → Gives
        (PackedWithin swap_for_y amounts_in_left bin_reserves)
        (get_amounts bin_reserves parameters bin_step swap_for_y active_id amounts_in_left)
unfolding get_amounts
get_amounts-PackedWithin bin_reserves parameters bin_step swap_for_y active_id amounts_in_left =
    let Q = PackedWithin swap_for_y amounts_in_left bin_reserves in
    Gives-after Q (get_price_from_id active_id bin_step) _ (λ price.
      Gives-chain
        (Within (decode_first amounts_in_left swap_for_y) (reserve_of bin_reserves swap_for_y)) Q
        (amounts_of swap_for_y price (reserve_of bin_reserves swap_for_y)
          (get_total_fee parameters bin_step) (decode_first amounts_in_left swap_for_y))
        _
        (amounts_of-Within swap_for_y price (reserve_of bin_reserves swap_for_y)
          (get_total_fee parameters bin_step) (decode_first amounts_in_left swap_for_y))
        (λ a within. Gives-after Q (get_liquidity _ price) _ (λ new_liquidity.
          Gives-after Q
            (refuse (ltb max_liquidity_per_bin new_liquidity) max_liquidity_per_bin_exceeded) _
            (λ _. packed-PackedWithin swap_for_y amounts_in_left bin_reserves a.0 a.1 a.2 within))))
