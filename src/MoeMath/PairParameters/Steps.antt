-- ===== src/MoeMath/PairParameters/Steps.antt =====
-- Single writes of pair_parameter_helper.rs, on the record of fields.
use arbitrage_bot_v.Base.{ℕ, ◌-◌, ◌*◌, ◌/◌, ◌^◌, ◌≤◌, ◌<◌, min, arith}
use arbitrage_bot_v.Base.{◌≡◌, refl, ap, subst, ◌∙◌, false, ltb}
use arbitrage_bot_v.Base.Word.{word_mod, u32, u64}
use arbitrage_bot_v.MoeMath.Error.{Result, ok, ◌>>=◌}
use arbitrage_bot_v.MoeMath.Encoded.Readers.{decode-lt}
use arbitrage_bot_v.MoeMath.PairParameters.{
  get_reduction_factor, get_volatility_accumulator, get_active_id, set_volatility_reference,
  set_volatility_accumulator, update_id_reference, update_time_of_last_update,
  update_volatility_reference,
}
use arbitrage_bot_v.MoeMath.PairParameters.View.{Slot, width, offset, read, write, write-lt}
use arbitrage_bot_v.MoeMath.PairParameters.Fields.{Params, view, put, view-write, getters}
use native.Mathlib.Nat.{mod-eq_of_lt, mul-le-mul_left}

-- A word whose reduction factor is a share of the basis points.
pub record IsPair (p : ℕ) : Type 0 where
  pub word : p < word_mod
  pub share : get_reduction_factor p ≤ 10_000

-- The call succeeds, and its fields are these.
pub Becomes : Result ℕ → Params → Type 0
Becomes r q = (p : ℕ) × (r ≡ ok p) × IsPair p × (view p ≡ q)

pub read-lt : (s : Slot) (p : ℕ) → read s p < 2 ^ width s
read-lt s p = decode-lt p (width s) (offset s)

-- A slot written with a value that fits.
write-fits :
    (s : Slot) (v p : ℕ) → p < word_mod → v < 2 ^ width s → view (write s v p) ≡ put s v (view p)
write-fits s v p hp hv = view-write s v p hp ∙ ap (λ (x : ℕ). put s x (view p)) (mod-eq_of_lt hv)

write-IsPair :
    (s : Slot) (v p : ℕ)
    → IsPair p
    → v < 2 ^ width s
    → (put s v (view p)).reduction_factor ≡ get_reduction_factor p
    → IsPair (write s v p) × (view (write s v p) ≡ put s v (view p))
write-IsPair s v p h hv same =
    let seen = write-fits s v p h.word hv in
    let share = ap (λ (q : Params). q.reduction_factor) seen ∙ same in
    (record { word = write-lt s v p h.word; share = rw share h.share }, seen)

write-Becomes :
    (s : Slot) (v p : ℕ)
    → IsPair p
    → v < 2 ^ width s
    → (put s v (view p)).reduction_factor ≡ get_reduction_factor p
    → Becomes (ok (write s v p)) (put s v (view p))
unfolding Becomes
write-Becomes s v p h hv same =
    let (pair, seen) = write-IsPair s v p h hv same in (write s v p, refl, pair, seen)

-- What a later call makes of the fields of an earlier one.
pub Becomes-then :
    (m : Result ℕ) (f : ℕ → Result ℕ) (q : Params) (g : Params → Params)
    → Becomes m q
    → ((p : ℕ) → IsPair p → Becomes (f p) (g (view p)))
    → Becomes (m >>= f) (g q)
unfolding Becomes
Becomes-then m f q g (p, e, h, seen) next =
    rw e (subst (λ (x : Params). Becomes (f p) (g x)) seen (next p h))

pub Becomes-along :
    (r : Result ℕ) (g : Params → Params) {a b : Params} → a ≡ b → Becomes r (g a) → Becomes r (g b)
Becomes-along r g e h = subst (λ (x : Params). Becomes r (g x)) e h

-- The id of the active bin is copied to the reference.
pub moved :
    (p : ℕ)
    → IsPair p
    → IsPair (update_id_reference p)
      × (view (update_id_reference p) ≡ record (view p) { id_reference = get_active_id p })
unfolding update_id_reference
moved p h =
    write-IsPair Slot.id_reference (get_active_id p) p h (simp getters (read-lt Slot.active_id p))
      refl

pub referenced :
    (p v : ℕ)
    → IsPair p
    → v < 2 ^ 20
    → Becomes (set_volatility_reference p v) (record (view p) { volatility_reference = v })
unfolding set_volatility_reference
referenced p v h hv =
    let fits : ltb 0xfffff v ≡ false = ground arith in
    rw fits (write-Becomes Slot.volatility_reference v p h hv refl)

pub collected :
    (p v : ℕ)
    → IsPair p
    → v < 2 ^ 20
    → Becomes (set_volatility_accumulator p v) (record (view p) { volatility_accumulator = v })
unfolding set_volatility_accumulator
collected p v h hv =
    let fits : ltb 0xfffff v ≡ false = ground arith in
    rw fits (write-Becomes Slot.volatility_accumulator v p h hv refl)

pub timed :
    (p t : ℕ)
    → IsPair p
    → Becomes
        (ok (update_time_of_last_update p t))
        (record (view p) { time_of_last_update = min t (2 ^ 40 - 1) })
unfolding update_time_of_last_update
timed p t h = write-Becomes Slot.time_of_last_update (min t (2 ^ 40 - 1)) p h (omega arith) refl

pub decayed :
    (p : ℕ)
    → IsPair p
    → Becomes (update_volatility_reference p) (record (view p) {
      volatility_reference = get_volatility_accumulator p * get_reduction_factor p / 10_000;
    })
unfolding update_volatility_reference
decayed p h =
    let va = get_volatility_accumulator p in
    let product = mul-le-mul_left va h.share in
    let bound : va < 2 ^ 20 = simp getters (read-lt Slot.volatility_accumulator p) in
    let exact : u32 (u64 (va * get_reduction_factor p) / 10_000)
        ≡ va * get_reduction_factor p / 10_000 =
      omega arith in
    rw exact (referenced p (va * get_reduction_factor p / 10_000) h (omega arith))
