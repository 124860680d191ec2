-- ===== src/MoePool/Bins/Sums.antt =====
-- The reserves of a pair are the sums of those of its bins.
use arbitrage_bot_v.Base.{
  ℕ, ◌+◌, ◌≡◌, refl, ap, ◌∙◌, inl, inr, arith, Bool, true, false, ◌&&◌, [], ◌∷◌, Option, none,
  Bool-cases, ◌==◌, if◌then◌else◌,
}
use arbitrage_bot_v.Base.Outcome.{Holds, Holds-chain, Holds-after}
use arbitrage_bot_v.Base.AssocMap.{AssocMap, get, delete, contains_key}
use arbitrage_bot_v.MoePool.{MoeLbPair, BinReserve, arithmetic}
use arbitrage_bot_v.MoePool.Parameters.{Parameters, protocol_fee_amount_u256}
use arbitrage_bot_v.MoePool.Bins.Exchanging.{IsExchange, exchanged-IsExchange}
use arbitrage_bot_v.MoePool.Bins.{
  BinSwapResult, exchanged, as_u128, checked_sub, stored_bin, bin_or_default, booked,
  compute_bin_swap, simulate_single_bin,
}

abbrev pub half : Bool → BinReserve → ℕ
half first b = if first then b.reserve_x else b.reserve_y

-- The sum of one of the reserves over all bins.
abbrev pub total : Bool → AssocMap BinReserve → ℕ
total first [] = 0
total first ((id, b) ∷ m) = half first b + total first m

-- No bin has two entries.
abbrev pub IsOnce : AssocMap BinReserve → Type 0
IsOnce [] = Unit
IsOnce ((id, b) ∷ m) = (contains_key m id ≡ false) × IsOnce m

-- The reserves of the pair are those of its bins, taken together.
abbrev pub IsSum : MoeLbPair → Type 0
IsSum p = IsOnce p.bins × (p.reserve_x ≡ total true p.bins) × (p.reserve_y ≡ total false p.bins)

lacks-delete :
    (m : AssocMap BinReserve) (id k : ℕ)
    → contains_key m k ≡ false
    → contains_key (delete m id) k ≡ false
lacks-delete [] id k lacks = refl
lacks-delete ((key, b) ∷ m) id k lacks = ground (arith, lacks-delete m id k)

pub lacks-delete_self : (m : AssocMap BinReserve) (id : ℕ) → contains_key (delete m id) id ≡ false
lacks-delete_self [] id = refl
lacks-delete_self ((key, b) ∷ m) id = ground (arith, lacks-delete_self m id)

pub delete-IsOnce : (m : AssocMap BinReserve) (id : ℕ) → IsOnce m → IsOnce (delete m id)
delete-IsOnce [] id once = tt
delete-IsOnce ((key, b) ∷ m) id (lacks, once) = elim (Bool-cases (id == key)) [
  | inl same ↦ rw same (delete-IsOnce m id once)
  | inr apart ↦ rw apart (lacks-delete m id key lacks, delete-IsOnce m id once)
]

lacking_default : (m : AssocMap BinReserve) (id : ℕ) → contains_key m id ≡ false → get m id ≡ none
lacking_default [] id lacks = refl
lacking_default ((key, b) ∷ m) id lacks = elim (Bool-cases (id == key)) [
  | inl same ↦ ground arith
  | inr apart ↦ rw apart (lacking_default m id (ground arith))
]

half_default : (first : Bool) → half first (bin_or_default none) ≡ 0
half_default true = refl
half_default false = refl

pub total-delete :
    (first : Bool) (m : AssocMap BinReserve) (id : ℕ)
    → IsOnce m
    → total first (delete m id) + half first (bin_or_default (get m id)) ≡ total first m
total-delete true [] id once = refl
total-delete false [] id once = refl
total-delete first ((key, b) ∷ m) id (lacks, once) = elim (Bool-cases (id == key)) [
  | inl same ↦
      let there : id ≡ key = ground arith in
      let absent : (contains_key m id ≡ false) = ap (λ (k : ℕ). contains_key m k) there ∙ lacks in
      let nothing : (half first (bin_or_default (get m id)) ≡ 0) =
        ap (λ (o : Option BinReserve). half first (bin_or_default o)) (lacking_default m id absent)
        ∙ half_default first in
      rw same (omega (arith, total-delete first m id once, nothing))
  | inr apart ↦ rw apart (omega (arith, total-delete first m id once))
]

pub stored_bin-IsOnce :
    (m : AssocMap BinReserve) (id : ℕ) (r : ℕ × ℕ) → IsOnce m → IsOnce (stored_bin m id r)
stored_bin-IsOnce m id (x, y) once = elim (Bool-cases ((x == 0) && (y == 0))) [
  | inl empty ↦ rw empty (delete-IsOnce m id once)
  | inr some_left ↦ rw some_left (lacks-delete_self m id, delete-IsOnce m id once)
]

pub total-stored_bin :
    (m : AssocMap BinReserve) (id x y : ℕ)
    → IsOnce m
    → (total true (stored_bin m id (x, y)) + (bin_or_default (get m id)).reserve_x
        ≡ total true m + x)
      × (total false (stored_bin m id (x, y)) + (bin_or_default (get m id)).reserve_y
          ≡ total false m + y)
total-stored_bin m id x y once =
    let of_x = total-delete true m id once in
    let of_y = total-delete false m id once in
    elim (Bool-cases ((x == 0) && (y == 0))) [
      | inl empty ↦ rw empty (ground arith, ground arith)
      | inr some_left ↦ rw some_left (omega (arith, of_x), omega (arith, of_y))
    ]

exchange-IsSum :
    (swap_for_y : Bool) (p : MoeLbPair) (id paid taken : ℕ) (of_bin of_pair : ℕ × ℕ)
    → IsSum p
    → IsExchange swap_for_y paid taken
        ((bin_or_default (get p.bins id)).reserve_x, (bin_or_default (get p.bins id)).reserve_y)
        of_bin
    → IsExchange swap_for_y paid taken (p.reserve_x, p.reserve_y) of_pair
    → IsSum (record p {
      reserve_x = of_pair.0;
      reserve_y = of_pair.1;
      bins = stored_bin p.bins id of_bin;
    })
exchange-IsSum true p id paid taken of_bin of_pair (once, x_sum, y_sum) in_bin in_pair =
    let (of_x, of_y) = total-stored_bin p.bins id of_bin.0 of_bin.1 once in
    (
      stored_bin-IsOnce p.bins id of_bin once,
      omega (arith, of_x, x_sum, in_bin.0, in_pair.0),
      omega (arith, of_y, y_sum, in_bin.1, in_pair.1),
    )
exchange-IsSum false p id paid taken of_bin of_pair (once, x_sum, y_sum) in_bin in_pair =
    let (of_x, of_y) = total-stored_bin p.bins id of_bin.0 of_bin.1 once in
    (
      stored_bin-IsOnce p.bins id of_bin once,
      omega (arith, of_x, x_sum, in_bin.1, in_pair.1),
      omega (arith, of_y, y_sum, in_bin.0, in_pair.0),
    )

booked-IsSum :
    (p : MoeLbPair) (s : Parameters) (id : ℕ) (swap_for_y : Bool) (swapped : ℕ × ℕ × ℕ × Bool)
    → IsSum p
    → Holds (λ r. IsSum r.0) (booked p s id swap_for_y swapped)
unfolding booked
booked-IsSum p s id swap_for_y (amount_in, amount_out, fee, exhausted) sums =
    let bin = bin_or_default (get p.bins id) in
    let Q : MoeLbPair × BinSwapResult → Type 0 = λ r. IsSum r.0 in
    let kept = protocol_fee_amount_u256 s fee in
    Holds-after Q (as_u128 amount_out) _ (λ taken. Holds-after Q (as_u128 amount_in) _ (λ paid.
      Holds-after Q (as_u128 kept) _ (λ kept'.
        Holds-after Q (checked_sub paid kept' arithmetic) _ (λ after.
          Holds-chain (IsExchange swap_for_y after taken (bin.reserve_x, bin.reserve_y)) Q
            (exchanged swap_for_y after taken (bin.reserve_x, bin.reserve_y)) _
            (exchanged-IsExchange swap_for_y after taken (bin.reserve_x, bin.reserve_y))
            (λ of_bin in_bin.
              Holds-chain (IsExchange swap_for_y after taken (p.reserve_x, p.reserve_y)) Q
                (exchanged swap_for_y after taken (p.reserve_x, p.reserve_y)) _
                (exchanged-IsExchange swap_for_y after taken (p.reserve_x, p.reserve_y))
                (λ of_pair in_pair.
                  exchange-IsSum swap_for_y p id after taken of_bin of_pair sums in_bin
                    in_pair))))))

pub simulate_single_bin-IsSum :
    (p : MoeLbPair) (s : Parameters) (id : ℕ) (swap_for_y : Bool) (amount_in : ℕ)
    → IsSum p
    → Holds (λ r. IsSum r.0) (simulate_single_bin p s id swap_for_y amount_in)
unfolding simulate_single_bin
simulate_single_bin-IsSum p s id swap_for_y amount_in sums =
    Holds-after (λ r. IsSum r.0) (compute_bin_swap p s id swap_for_y amount_in) _
      (λ swapped. elim (Bool-cases (swapped.1 == 0)) [
        | inl none_out ↦ rw none_out sums
        | inr some_out ↦ rw some_out (booked-IsSum p s id swap_for_y swapped sums)
      ])
