-- ===== src/MoePool/Swaps/Twice.antt =====
-- A swap that changes the pair books its output after the swap over the bins has booked it.
use arbitrage_bot_v.Base.{
  ℕ, ◌+◌, ◌-◌, ◌*◌, ◌^◌, ◌<◌, ◌≡◌, refl, ◌⊎◌, inl, inr, arith, Bool, true, false, ◌||◌, Bool-cases,
  ltb, ◌==◌,
}
use arbitrage_bot_v.Base.Outcome.{Holds, Holds-chain, Holds-after}
use arbitrage_bot_v.Base.AssocMap.{is_empty}
use arbitrage_bot_v.MoePool.{MoeLbPair, max_reasonable_reserve}
use arbitrage_bot_v.MoePool.Swaps.{
  simulate_swap_precise, simulate_swap_across_bins, unrealistic, simulate_swap_mut, to_u128,
  exchanged_totals,
}
use arbitrage_bot_v.MoePool.Swaps.Conserving.{reserve_out, simulate_swap_precise-conserves}

-- Nothing was given, or what was given is what the reserve of the pair has lost.
abbrev Lost : ℕ → Bool → MoeLbPair → MoeLbPair × ℕ → Type 0
Lost times swap_for_y p r =
    (r.1 ≡ 0) ⊎ (reserve_out swap_for_y r.0 ≡ reserve_out swap_for_y p - times * r.1)

across_bins-Lost :
    (p : MoeLbPair) (swap_for_y : Bool) (amount_in timestamp : ℕ)
    → reserve_out swap_for_y p < 2 ^ 256
    → Holds (Lost 1 swap_for_y p) (simulate_swap_across_bins p swap_for_y amount_in timestamp)
unfolding simulate_swap_across_bins
across_bins-Lost p swap_for_y amount_in timestamp below = elim (Bool-cases (amount_in == 0)) [
  | inl nothing ↦ rw nothing (inl refl)
  | inr something ↦ rw something (elim (Bool-cases ((p.reserve_x == 0) || (p.reserve_y == 0))) [
    | inl lacks ↦ rw lacks (inl refl)
    | inr has ↦
        rw has
          (elim (Bool-cases
            (ltb max_reasonable_reserve p.reserve_x || ltb max_reasonable_reserve p.reserve_y)) [
              | inl large ↦ rw large (inl refl)
              | inr small ↦ rw small (
                  Holds-chain (λ r. reserve_out swap_for_y r.0 + r.1 ≡ reserve_out swap_for_y p)
                    (Lost 1 swap_for_y p) (simulate_swap_precise p swap_for_y amount_in timestamp) _
                    (simulate_swap_precise-conserves p swap_for_y amount_in timestamp below)
                    (λ r kept. elim (Bool-cases (unrealistic r.0 swap_for_y amount_in r.1)) [
                      | inl refused ↦ rw refused (inl refl)
                      | inr allowed ↦ rw allowed (inr (omega (arith, kept)))
                    ]))
            ])
  ])
]

to_u128_same : (x : ℕ) → Holds (λ y. y ≡ x) (to_u128 x)
to_u128_same x = elim (Bool-cases (ltb x (2 ^ 128))) [
  | inl fits ↦ rw fits refl
  | inr large ↦ rw large tt
]

exchanged_totals-Lost :
    (swap_for_y : Bool) (p : MoeLbPair) (r : MoeLbPair × ℕ) (paid taken : ℕ)
    → taken ≡ r.1
    → Lost 1 swap_for_y p r
    → Lost 2 swap_for_y p (exchanged_totals swap_for_y r.0 paid taken, r.1)
exchanged_totals-Lost swap_for_y p r paid taken same (inl nothing) = inl nothing
exchanged_totals-Lost true p r paid taken same (inr lost) = inr (omega (arith, same, lost))
exchanged_totals-Lost false p r paid taken same (inr lost) = inr (omega (arith, same, lost))

-- On a pair with bins a swap that is done takes twice the output it gives, down to 0, from the
-- reserve on the side of the output, unless it gives nothing. That reserve fits 256 bits.
pub simulate_swap_mut-twice :
    (p : MoeLbPair) (base_token quote_token amount_in : ℕ)
    → is_empty p.bins ≡ false
    → reserve_out (base_token == p.token_x.address) p < 2 ^ 256
    → Holds
        (λ r.
          (r.1 ≡ 0)
          ⊎ (reserve_out (base_token == p.token_x.address) r.0
              ≡ reserve_out (base_token == p.token_x.address) p - 2 * r.1))
        (simulate_swap_mut p base_token quote_token amount_in)
unfolding simulate_swap_mut
simulate_swap_mut-twice p base_token quote_token amount_in has below =
    let swap_for_y = base_token == p.token_x.address in
    rw has (
      Holds-chain (Lost 1 swap_for_y p) (Lost 2 swap_for_y p)
        (simulate_swap_across_bins p swap_for_y amount_in p.time_of_last_update) _
        (across_bins-Lost p swap_for_y amount_in p.time_of_last_update below)
        (λ r lost. Holds-after (Lost 2 swap_for_y p) (to_u128 amount_in) _ (λ paid.
          Holds-chain (λ taken. taken ≡ r.1) (Lost 2 swap_for_y p) (to_u128 r.1) _
            (to_u128_same r.1)
            (λ taken same. exchanged_totals-Lost swap_for_y p r paid taken same lost))))
