-- ===== src/StateSpace/Filters.antt =====
-- src/state_space/filters: the blacklist and the two whitelists.
pub mod Laws
use arbitrage_bot_v.Base.{ℕ, Bool, true, false, ◌&&◌, ◌||◌, not, List, [], ◌∷◌, ◌==◌, if◌then◌else◌}
use arbitrage_bot_v.Arbitrage.Data.{Amm, tokens}

pub data FilterStage : Type 0 where
  discovery sync : FilterStage

pub data PoolFilter : Type 0 where
  blacklist_filter : (blacklist : List ℕ) → PoolFilter
  pool_whitelist_filter : (pools : List ℕ) → PoolFilter
  token_whitelist_filter : (tokens : List ℕ) → PoolFilter

abbrev pub contains : List ℕ → ℕ → Bool
contains [] x = false
contains (y ∷ ys) x = (y == x) || contains ys x

abbrev pub none_in : List ℕ → List ℕ → Bool
none_in list [] = true
none_in list (t ∷ ts) = not (contains list t) && none_in list ts

abbrev pub some_in : List ℕ → List ℕ → Bool
some_in list [] = false
some_in list (t ∷ ts) = contains list t || some_in list ts

unfoldable pub keeps : PoolFilter → Amm → Bool
keeps (blacklist_filter blacklist) amm =
    not (contains blacklist amm.address) && none_in blacklist (tokens amm)
keeps (pool_whitelist_filter pools) amm = contains pools amm.address
keeps (token_whitelist_filter listed) amm = some_in listed (tokens amm)

unfoldable pub filter : PoolFilter → List Amm → List Amm
filter f [] = []
filter f (amm ∷ amms) = if keeps f amm then amm ∷ filter f amms else filter f amms

abbrev pub stage : PoolFilter → FilterStage
stage (blacklist_filter blacklist) = sync
stage (pool_whitelist_filter pools) = discovery
stage (token_whitelist_filter listed) = sync
