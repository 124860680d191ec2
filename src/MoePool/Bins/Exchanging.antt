-- ===== src/MoePool/Bins/Exchanging.antt =====
-- What a swap moves in the reserves of a bin or of the pair.
use arbitrage_bot_v.Base.{
  ℕ, ◌+◌, ◌^◌, ◌≡◌, refl, inl, inr, arith, Bool, true, false, Bool-cases, ltb, leb,
}
use arbitrage_bot_v.Base.Outcome.{Holds, Holds-chain}
use arbitrage_bot_v.MoePool.{MoeError, insufficient_liquidity}
use arbitrage_bot_v.MoePool.Bins.{exchanged, as_u128, checked_add, checked_sub}

-- What is exchanged: `paid` for `taken`, in the direction of the swap.
abbrev pub IsExchange : Bool → (paid taken : ℕ) → (before after : ℕ × ℕ) → Type 0
IsExchange true paid taken r r' = (r'.0 ≡ r.0 + paid) × (r'.1 + taken ≡ r.1)
IsExchange false paid taken r r' = (r'.1 ≡ r.1 + paid) × (r'.0 + taken ≡ r.0)

checked_add_sum : (a b : ℕ) → Holds (λ s. s ≡ a + b) (checked_add a b)
checked_add_sum a b = elim (Bool-cases (ltb (a + b) (2 ^ 128))) [
  | inl fits ↦ rw fits refl
  | inr over ↦ rw over tt
]

checked_sub_rest : (a b : ℕ) (e : MoeError) → Holds (λ rest. rest + b ≡ a) (checked_sub a b e)
checked_sub_rest a b e = elim (Bool-cases (leb b a)) [
  | inl fits ↦ rw fits (ground arith)
  | inr short ↦ rw short tt
]

pub exchanged-IsExchange :
    (swap_for_y : Bool) (paid taken : ℕ) (r : ℕ × ℕ)
    → Holds (IsExchange swap_for_y paid taken r) (exchanged swap_for_y paid taken r)
exchanged-IsExchange true paid taken (x, y) =
    Holds-chain (λ s. s ≡ x + paid) (IsExchange true paid taken (x, y)) (checked_add x paid) _
      (checked_add_sum x paid)
      (λ x' sum.
        Holds-chain (λ rest. rest + taken ≡ y) (IsExchange true paid taken (x, y))
          (checked_sub y taken insufficient_liquidity) _
          (checked_sub_rest y taken insufficient_liquidity) (λ y' rest. (sum, rest)))
exchanged-IsExchange false paid taken (x, y) =
    Holds-chain (λ s. s ≡ y + paid) (IsExchange false paid taken (x, y)) (checked_add y paid) _
      (checked_add_sum y paid)
      (λ y' sum.
        Holds-chain (λ rest. rest + taken ≡ x) (IsExchange false paid taken (x, y))
          (checked_sub x taken insufficient_liquidity) _
          (checked_sub_rest x taken insufficient_liquidity) (λ x' rest. (sum, rest)))

pub as_u128_same : (x : ℕ) → Holds (λ y. y ≡ x) (as_u128 x)
as_u128_same x = elim (Bool-cases (ltb x (2 ^ 128))) [
  | inl fits ↦ rw fits refl
  | inr large ↦ rw large tt
]
