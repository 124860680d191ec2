-- ===== src/MoePool/Swaps/Conserving.antt =====
-- What a swap over bins pays out is what the reserve of the pair loses.
use arbitrage_bot_v.Base.{
  ℕ, ◌+◌, ◌^◌, ◌<◌, ◌≡◌, refl, inl, inr, arith, Bool, true, false, Bool-cases, ◌==◌,
}
use arbitrage_bot_v.Base.Outcome.{Holds, Holds-chain, Holds-weaken, Holds-after}
use arbitrage_bot_v.Base.AssocMap.{AssocMap, get}
use arbitrage_bot_v.MoePool.{MoeLbPair, BinReserve, arithmetic}
use arbitrage_bot_v.MoePool.Parameters.{Parameters, write_back, protocol_fee_amount_u256}
use arbitrage_bot_v.MoePool.Bins.{
  BinSwapResult, exchanged, as_u128, checked_sub, bin_or_default, booked, stored_bin,
  compute_bin_swap, simulate_single_bin,
}
use arbitrage_bot_v.MoePool.Bins.Exchanging.{IsExchange, exchanged-IsExchange, as_u128_same}
use arbitrage_bot_v.MoePool.Swaps.Keeping.{with_out, AfterBin, IsKept, simulate_swap_precise-keeps}
use arbitrage_bot_v.MoePool.Swaps.{simulate_swap_precise}

-- The reserve that a swap in this direction pays from.
abbrev pub reserve_out : Bool → MoeLbPair → ℕ
reserve_out true p = p.reserve_y
reserve_out false p = p.reserve_x

abbrev out_of : Bool → ℕ × ℕ → ℕ
out_of true r = r.1
out_of false r = r.0

exchanged-out :
    (swap_for_y : Bool) (paid taken : ℕ) (r : ℕ × ℕ)
    → Holds
        (λ r'. out_of swap_for_y r' + taken ≡ out_of swap_for_y r)
        (exchanged swap_for_y paid taken r)
exchanged-out true paid taken r =
    Holds-weaken (IsExchange true paid taken r) (λ r'. r'.1 + taken ≡ r.1)
      (exchanged true paid taken r) (λ r' is. is.1) (exchanged-IsExchange true paid taken r)
exchanged-out false paid taken r =
    Holds-weaken (IsExchange false paid taken r) (λ r'. r'.0 + taken ≡ r.0)
      (exchanged false paid taken r) (λ r' is. is.1) (exchanged-IsExchange false paid taken r)

-- A swap in one bin pays out what it takes from the reserve of the pair.
abbrev Pays : Bool → MoeLbPair → MoeLbPair × BinSwapResult → Type 0
Pays swap_for_y pair (pair', result) =
    reserve_out swap_for_y pair' + result.amount_out ≡ reserve_out swap_for_y pair

pays_what_left :
    (swap_for_y : Bool) (pair : MoeLbPair) (bins : AssocMap BinReserve) (r : ℕ × ℕ)
    (taken amount_out : ℕ)
    → taken ≡ amount_out
    → out_of swap_for_y r + taken ≡ out_of swap_for_y (pair.reserve_x, pair.reserve_y)
    → reserve_out swap_for_y (record pair { reserve_x = r.0; reserve_y = r.1; bins = bins })
        + amount_out
      ≡ reserve_out swap_for_y pair
pays_what_left true pair bins r taken amount_out same left = ground arith
pays_what_left false pair bins r taken amount_out same left = ground arith

booked-Pays :
    (pair : MoeLbPair) (s : Parameters) (id : ℕ) (swap_for_y : Bool) (swapped : ℕ × ℕ × ℕ × Bool)
    → Holds (Pays swap_for_y pair) (booked pair s id swap_for_y swapped)
unfolding booked
booked-Pays pair s id swap_for_y (amount_in, amount_out, fee, exhausted) =
    let bin = bin_or_default (get pair.bins id) in
    let kept = protocol_fee_amount_u256 s fee in
    Holds-chain (λ taken. taken ≡ amount_out) (Pays swap_for_y pair) (as_u128 amount_out) _
      (as_u128_same amount_out)
      (λ taken same. Holds-after (Pays swap_for_y pair) (as_u128 amount_in) _ (λ paid.
        Holds-after (Pays swap_for_y pair) (as_u128 kept) _ (λ kept'.
          Holds-after (Pays swap_for_y pair) (checked_sub paid kept' arithmetic) _ (λ after.
            Holds-after (Pays swap_for_y pair)
              (exchanged swap_for_y after taken (bin.reserve_x, bin.reserve_y)) _
              (λ of_bin.
                Holds-chain
                  (λ r.
                    out_of swap_for_y r + taken
                    ≡ out_of swap_for_y (pair.reserve_x, pair.reserve_y))
                  (Pays swap_for_y pair)
                  (exchanged swap_for_y after taken (pair.reserve_x, pair.reserve_y)) _
                  (exchanged-out swap_for_y after taken (pair.reserve_x, pair.reserve_y))
                  (λ of_pair left.
                    pays_what_left swap_for_y pair (stored_bin pair.bins id of_bin) of_pair taken
                      amount_out same left))))))

simulate_single_bin-Pays :
    (pair : MoeLbPair) (s : Parameters) (id : ℕ) (swap_for_y : Bool) (amount_in : ℕ)
    → Holds (Pays swap_for_y pair) (simulate_single_bin pair s id swap_for_y amount_in)
unfolding simulate_single_bin
simulate_single_bin-Pays pair s id swap_for_y amount_in =
    Holds-after (Pays swap_for_y pair) (compute_bin_swap pair s id swap_for_y amount_in) _
      (λ swapped. elim (Bool-cases (swapped.1 == 0)) [
        | inl none_out ↦ rw none_out (ground arith)
        | inr some_out ↦ rw some_out (booked-Pays pair s id swap_for_y swapped)
      ])

-- What is left in the reserve and what is paid out make up the reserve before.
abbrev Conserves : Bool → ℕ → MoeLbPair → ℕ → Type 0
Conserves swap_for_y total p amount_out = reserve_out swap_for_y p + amount_out ≡ total

saturating_add_same : (a b : ℕ) → a + b < 2 ^ 256 → with_out a b ≡ a + b
saturating_add_same a b below = ground arith

simulate_single_bin-Conserves :
    (swap_for_y : Bool) (total : ℕ)
    → total < 2 ^ 256
    → IsKept swap_for_y (Conserves swap_for_y total)
simulate_single_bin-Conserves swap_for_y total below p out s id amount_in kept =
    Holds-weaken (Pays swap_for_y p) (AfterBin (Conserves swap_for_y total) out)
      (simulate_single_bin p s id swap_for_y amount_in)
      (λ r pays.
        let summed = saturating_add_same out r.1.amount_out (omega (arith, below, kept, pays)) in
        omega (arith, summed, kept, pays))
      (simulate_single_bin-Pays p s id swap_for_y amount_in)

reserve_out-write_back :
    (swap_for_y : Bool) (s : Parameters) (p : MoeLbPair)
    → reserve_out swap_for_y (write_back s p) ≡ reserve_out swap_for_y p
unfolding write_back
reserve_out-write_back true s p = refl
reserve_out-write_back false s p = refl

-- A precise swap that is done pays out exactly what the reserve of the pair on the side of the
-- output has lost, for a pair whose reserve on that side fits 256 bits.
pub simulate_swap_precise-conserves :
    (p : MoeLbPair) (swap_for_y : Bool) (amount_in timestamp : ℕ)
    → reserve_out swap_for_y p < 2 ^ 256
    → Holds
        (λ r. reserve_out swap_for_y r.0 + r.1 ≡ reserve_out swap_for_y p)
        (simulate_swap_precise p swap_for_y amount_in timestamp)
simulate_swap_precise-conserves p swap_for_y amount_in timestamp below =
    let total = reserve_out swap_for_y p in
    simulate_swap_precise-keeps (Conserves swap_for_y total) swap_for_y
      (simulate_single_bin-Conserves swap_for_y total below)
      (λ s q out kept. omega (arith, kept, reserve_out-write_back swap_for_y s q)) p amount_in
      timestamp (omega arith)
