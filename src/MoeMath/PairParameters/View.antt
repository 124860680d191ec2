-- ===== src/MoeMath/PairParameters/View.antt =====
-- The thirteen fields of the parameters of a pair, side by side in the word.
use arbitrage_bot_v.Base.{ℕ, ◌+◌, ◌-◌, ◌%◌, ◌^◌, ◌≤◌, ◌<◌, ◌≡◌, refl, ◌⊎◌}
use arbitrage_bot_v.Base.{◌≢◌, ◌==◌, if◌then◌else◌, ==_self, ==_ne, arith}
use native.Mathlib.Decide.{ℕ_discrete}
use arbitrage_bot_v.Base.Word.{word_mod}
use arbitrage_bot_v.MoeMath.Encoded.{set, decode}
use arbitrage_bot_v.MoeMath.Encoded.Fields.{set-lt, decode-set_self, decode-set_other}

pub data Slot : Type 0 where
  base_factor filter_period decay_period reduction_factor variable_fee_control : Slot
  protocol_share max_volatility_accumulator volatility_accumulator : Slot
  volatility_reference id_reference time_of_last_update oracle_id active_id : Slot

abbrev pub offset : Slot → ℕ
offset base_factor = 0
offset filter_period = 16
offset decay_period = 28
offset reduction_factor = 40
offset variable_fee_control = 54
offset protocol_share = 78
offset max_volatility_accumulator = 92
offset volatility_accumulator = 112
offset volatility_reference = 132
offset id_reference = 152
offset time_of_last_update = 176
offset oracle_id = 216
offset active_id = 232

abbrev pub width : Slot → ℕ
width base_factor = 16
width filter_period = 12
width decay_period = 12
width reduction_factor = 14
width variable_fee_control = 24
width protocol_share = 14
width max_volatility_accumulator = 20
width volatility_accumulator = 20
width volatility_reference = 20
width id_reference = 24
width time_of_last_update = 40
width oracle_id = 16
width active_id = 24

slots_apart :
    (r s : Slot)
    → offset r ≢ offset s
    → (offset r + width r ≤ offset s) ⊎ (offset s + width s ≤ offset r)
slots_apart base_factor s h = ground arith
slots_apart _ s h = ground arith

slot_room : (s : Slot) → offset s + width s + (256 - (offset s + width s)) ≡ 256
slot_room base_factor = refl
slot_room _ = refl

same_slot : (r s : Slot) → offset r ≡ offset s → r ≡ s
same_slot base_factor s h = ground arith
same_slot _ s h = ground arith

abbrev pub read : Slot → ℕ → ℕ
read s p = decode p (2 ^ width s - 1) (offset s)

abbrev pub write : Slot → ℕ → ℕ → ℕ
write s v p = set p v (2 ^ width s - 1) (offset s)

-- A write changes its own field alone.
pub read-write :
    (r s : Slot) (v p : ℕ)
    → p < word_mod
    → read r (write s v p) ≡ (if offset r == offset s then v % 2 ^ width s else read r p)
read-write r s v p hp = elim (ℕ_discrete (offset r) (offset s)) [
  | yes e ↦
      rw (same_slot r s e)
        (rw (==_self (offset s)) (decode-set_self (offset s) (width s) _ p v (slot_room s) hp))
  | no ne ↦ rw (==_ne (offset r) (offset s) ne) (
      decode-set_other (offset s) (width s) _ p v (slot_room s) hp (width r) (offset r)
        (slots_apart r s ne))
]

pub write-lt : (s : Slot) (v p : ℕ) → p < word_mod → write s v p < word_mod
write-lt s v p hp = set-lt (offset s) (width s) _ p v (slot_room s) hp
