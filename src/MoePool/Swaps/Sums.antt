-- ===== src/MoePool/Swaps/Sums.antt =====
-- The reserves of a pair stay the sums of those of its bins.
use arbitrage_bot_v.Base.{ℕ, Bool, true, false}
use arbitrage_bot_v.Base.Outcome.{Holds}
use arbitrage_bot_v.MoePool.{MoeLbPair}
use arbitrage_bot_v.MoePool.Parameters.{Parameters, write_back}
use arbitrage_bot_v.MoePool.Bins.Sums.{IsSum, simulate_single_bin-IsSum}
use arbitrage_bot_v.MoePool.Bins.Deposits.{AllFit, update_bins-IsSum}
use arbitrage_bot_v.MoePool.Swaps.{
  simulate_swap_precise, sync, PairLog, swap_log, deposited_to_bins, withdrawn_from_bins, undecoded,
  unknown_log,
}
use arbitrage_bot_v.MoePool.Swaps.Keeping.{simulate_swap_precise-keeps}

write_back-IsSum : (s : Parameters) (p : MoeLbPair) → IsSum p → IsSum (write_back s p)
unfolding write_back
write_back-IsSum s p sums = sums

-- Where each bin of a pair has one entry and the reserves of the pair are the sums of those of its
-- bins, the same is true of the pair after a swap over its bins that is done.
pub simulate_swap_precise-IsSum :
    (p : MoeLbPair) (swap_for_y : Bool) (amount_in timestamp : ℕ)
    → IsSum p
    → Holds (λ r. IsSum r.0) (simulate_swap_precise p swap_for_y amount_in timestamp)
simulate_swap_precise-IsSum p swap_for_y amount_in timestamp sums =
    simulate_swap_precise-keeps (λ q out. IsSum q) swap_for_y
      (λ q out s id amount now. simulate_single_bin-IsSum q s id swap_for_y amount now)
      (λ s q out now. write_back-IsSum s q now) p amount_in timestamp sums

-- Each entry of a deposit or of a withdrawal fits in its turn.
abbrev pub LogFits : PairLog → MoeLbPair → Type 0
LogFits (swap_log id) p = Unit
LogFits (deposited_to_bins ids amounts) p = AllFit true ids amounts p
LogFits (withdrawn_from_bins ids amounts) p = AllFit false ids amounts p
LogFits undecoded p = Unit
LogFits (unknown_log signature) p = Unit

-- Where each bin of a pair has one entry and the reserves of the pair are the sums of those of its
-- bins, the same is true of the pair after a log that is taken, provided that in its turn every
-- deposit leaves the reserves of the pair below 2^128 and every withdrawal is at most what its bin
-- holds.
pub sync-IsSum :
    (log : PairLog) (p : MoeLbPair) → LogFits log p → IsSum p → Holds IsSum (sync log p)
unfolding sync
sync-IsSum (swap_log id) p fits sums = sums
sync-IsSum (deposited_to_bins ids amounts) p fits sums =
    update_bins-IsSum true ids amounts p fits sums
sync-IsSum (withdrawn_from_bins ids amounts) p fits sums =
    update_bins-IsSum false ids amounts p fits sums
sync-IsSum undecoded p fits sums = tt
sync-IsSum (unknown_log signature) p fits sums = tt
