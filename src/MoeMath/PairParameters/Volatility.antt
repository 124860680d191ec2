-- ===== src/MoeMath/PairParameters/Volatility.antt =====
-- The updates of pair_parameter_helper.rs against what they promise on the record of fields.
use arbitrage_bot_v.Base.{ℕ, ◌+◌, ◌-◌, ◌*◌, ◌/◌, ◌^◌, ◌<◌, min, arith}
use arbitrage_bot_v.Base.{◌≡◌, ltb, leb, if◌then◌else◌, Bool-cases, inl, inr}
use arbitrage_bot_v.Base.Word.{u32, u64}
use arbitrage_bot_v.MoeMath.Error.{Result, ok}
use arbitrage_bot_v.MoeMath.PairParameters.{
  get_volatility_reference, get_id_reference, get_max_volatility_accumulator,
  get_time_of_last_update, get_filter_period, get_decay_period, update_id_reference,
  update_time_of_last_update, update_volatility_accumulator, update_references,
  update_volatility_parameters,
}
use arbitrage_bot_v.MoeMath.PairParameters.Steps.{
  IsPair, Becomes, Becomes-then, Becomes-along, moved, referenced, collected, timed, decayed,
  read-lt,
}
use arbitrage_bot_v.MoeMath.PairParameters.View.{Slot}
use arbitrage_bot_v.MoeMath.PairParameters.Fields.{Params, view, getters}

-- After the filter period the reference moves to the active bin; the volatility reference decays,
-- or is forgotten after the decay period.
pub references : Params → ℕ → Params
references q timestamp =
    let dt = timestamp - q.time_of_last_update in
    let now = min timestamp (2 ^ 40 - 1) in
    if leb q.filter_period dt
    then record q {
      id_reference = q.active_id;
      volatility_reference =
          if ltb dt q.decay_period
          then q.volatility_accumulator * q.reduction_factor / 10_000
          else 0;
      time_of_last_update = now;
    }
    else record q { time_of_last_update = now }

pub distance : ℕ → ℕ → ℕ
distance a b = if ltb a b then b - a else a - b

-- 10000 is added for each bin between the reference and the new active bin, up to the maximum.
pub accumulated : Params → ℕ → Params
accumulated q id = record q {
  volatility_accumulator =
      min q.max_volatility_accumulator
        (q.volatility_reference + distance q.id_reference id * 10_000);
}

-- The references are updated as specified, and on a pair the call never fails.
pub update_references-Becomes :
    (p timestamp : ℕ)
    → IsPair p
    → Becomes (update_references p timestamp) (references (view p) timestamp)
unfolding update_references references
update_references-Becomes p timestamp h = elim (Bool-cases (leb (get_filter_period p) dt)) [
  | inl elapsed ↦ rw elapsed (elim (Bool-cases (ltb dt (get_decay_period p))) [
    | inl recent ↦ rw recent (
        Becomes-along _ (λ a. timed_at (halved a)) (moved p h).1
          (Becomes-then _ last _ timed_at (decayed next pair) (λ q hq. timed q timestamp hq)))
    | inr old ↦ rw old (
        Becomes-along _ (λ a. timed_at (record a { volatility_reference = 0 })) (moved p h).1
          (Becomes-then _ last _ timed_at (referenced next 0 pair (omega arith))
            (λ q hq. timed q timestamp hq)))
  ])
  | inr within ↦ rw within (timed p timestamp h)
]
  where
    dt : ℕ
    dt = timestamp - get_time_of_last_update p

    next : ℕ
    next = update_id_reference p

    pair : IsPair next
    pair = (moved p h).0

    last : ℕ → Result ℕ
    last q = ok (update_time_of_last_update q timestamp)

    timed_at : Params → Params
    timed_at a = record a { time_of_last_update = min timestamp (2 ^ 40 - 1) }

    halved : Params → Params
    halved a = record a {
      volatility_reference = a.volatility_accumulator * a.reduction_factor / 10_000;
    }

distance-lt : (a b : ℕ) → a < 2 ^ 32 → b < 2 ^ 32 → distance a b < 2 ^ 32
unfolding distance
distance-lt a b ha hb = ground arith

capped :
    (r m d : ℕ)
    → r < 2 ^ 20
    → m < 2 ^ 20
    → d < 2 ^ 32
    → let sum = u64 (r + u64 (d * 10_000)) in
      u32 (if ltb m sum then m else sum) ≡ min m (r + d * 10_000)
capped r m d hr hm hd = ground arith

-- The accumulator moves as specified.
pub update_volatility_accumulator-Becomes :
    (p id : ℕ)
    → IsPair p
    → id < 2 ^ 32
    → Becomes (update_volatility_accumulator p id) (accumulated (view p) id)
unfolding update_volatility_accumulator accumulated distance
update_volatility_accumulator-Becomes p id h hid =
    let reference : get_volatility_reference p < 2 ^ 20 =
      simp getters (read-lt Slot.volatility_reference p) in
    let max : get_max_volatility_accumulator p < 2 ^ 20 =
      simp getters (read-lt Slot.max_volatility_accumulator p) in
    let start : get_id_reference p < 2 ^ 24 = simp getters (read-lt Slot.id_reference p) in
    rw
      (capped (get_volatility_reference p) (get_max_volatility_accumulator p)
        (distance (get_id_reference p) id) reference max
        (distance-lt (get_id_reference p) id (omega arith) hid))
      (collected p _ h (omega arith))

-- The whole update is the two, one after the other.
pub update_volatility_parameters-Becomes :
    (p id timestamp : ℕ)
    → IsPair p
    → id < 2 ^ 32
    → Becomes
        (update_volatility_parameters p id timestamp)
        (accumulated (references (view p) timestamp) id)
unfolding update_volatility_parameters
update_volatility_parameters-Becomes p id timestamp h hid =
    Becomes-then (update_references p timestamp) (λ q. update_volatility_accumulator q id)
      (references (view p) timestamp) (λ q. accumulated q id)
      (update_references-Becomes p timestamp h)
      (λ q hq. update_volatility_accumulator-Becomes q id hq hid)
