-- ===== src/MoeMath/TreeMath.antt =====
-- src/amms/moe/math/tree_math.rs: a set of 24-bit ids as three levels of words of 256 bits.
pub mod Words
pub mod Leaves
pub mod Members
use arbitrage_bot_v.Base.{
  ℕ, ◌+◌, ◌*◌, ◌/◌, ◌%◌, ◌^◌, Bool, true, false, not, Option, none, some, ◌==◌, if◌then◌else◌,
  bit_and, bit_or,
}
use arbitrage_bot_v.Base.Word.{shl256, shr, not256, u16, u32, u8}
use arbitrage_bot_v.Base.HashMap.{HashMap, insert, remove, unwrap_or}
use arbitrage_bot_v.MoeMath.Error.{Result, ok, err, panic}
use arbitrage_bot_v.MoeMath.BitMath.{
  no_bit, closest_bit_right, closest_bit_left, most_significant_bit, least_significant_bit,
}

pub record TreeUint24 : Type 0 where
  pub level0 : ℕ
  pub level1 : HashMap ℕ
  pub level2 : HashMap ℕ

-- `key & 0xff`, and the mask of that bit.
abbrev pub low_byte : ℕ → ℕ
low_byte key = bit_and key 0xff

abbrev pub bit_of : ℕ → ℕ
bit_of key = shl256 1 (low_byte key)

abbrev pub has_bit : Option ℕ → ℕ → Bool
has_bit none mask = false
has_bit (some leaves) mask = not (bit_and leaves mask == 0)

unfoldable pub contains : TreeUint24 → ℕ → Bool
contains t id = has_bit (t.level2 (shr id 8)) (bit_of id)

-- The upper levels once `key2` has got its first leaf, or has some already.
unfoldable pub add_key : TreeUint24 → ℕ → TreeUint24
add_key t key2 =
    let key1 = u16 (shr key2 8) in
    let bit1 = bit_of key2 in
    let word = unwrap_or (t.level1 key1) 0 in
    if bit_and word bit1 == 0
    then record t {
      level1 = insert t.level1 key1 (bit_or word bit1);
      level0 = bit_or t.level0 (bit_of key1);
    }
    else record t { level1 = insert t.level1 key1 word }

unfoldable pub add : TreeUint24 → ℕ → TreeUint24 × Bool
add t id =
    let key2 = shr id 8 in
    let bit = bit_of id in
    let leaves = unwrap_or (t.level2 key2) 0 in
    if bit_and leaves bit == 0
    then (add_key (record t { level2 = insert t.level2 key2 (bit_or leaves bit) }) key2, true)
    else (record t { level2 = insert t.level2 key2 leaves }, false)

-- The upper levels once `key2` has lost its last leaf.
abbrev pub drop_key : TreeUint24 → ℕ → ℕ → Option ℕ → TreeUint24
drop_key t key1 bit1 none = t
drop_key t key1 bit1 (some word) =
    let rest = bit_and word (not256 bit1) in
    if rest == 0
    then record t {
      level1 = remove t.level1 key1;
      level0 = bit_and t.level0 (not256 (bit_of key1));
    }
    else record t { level1 = insert t.level1 key1 rest }

abbrev pub remove_leaf : TreeUint24 → ℕ → ℕ → Option ℕ → TreeUint24 × Bool
remove_leaf t key2 bit none = (t, false)
remove_leaf t key2 bit (some leaves) =
    if bit_and leaves bit == 0
    then (t, false)
    else (let rest = bit_and leaves (not256 bit) in
        if rest == 0
        then (let key1 = u16 (shr key2 8) in
            (
              drop_key (record t { level2 = remove t.level2 key2 }) key1 (bit_of key2)
                  (t.level1 key1),
              true,
            ))
        else (record t { level2 = insert t.level2 key2 rest }, true))

unfoldable pub remove_id : TreeUint24 → ℕ → TreeUint24 × Bool
remove_id t id = let key2 = shr id 8 in remove_leaf t key2 (bit_of id) (t.level2 key2)

abbrev pub or_else : Option ℕ → Option ℕ → Option ℕ
or_else none second = second
or_else (some x) second = some x

-- `if let Ok(bit)`, and `if next_bit != u32::MAX`.
abbrev pub found : Result ℕ → Option ℕ
found (ok bit) = some bit
found (err e) = none
found panic = none

abbrev pub near : Result ℕ → Option ℕ
near (ok bit) = if bit == no_bit then none else some bit
near (err e) = none
near panic = none

abbrev pub on {ℓ} : {A : Type ℓ} → Option A → (A → Option ℕ) → Option ℕ
on none next = none
on (some x) next = next x

-- `(key << 8) | bit`.
abbrev pub join : ℕ → ℕ → ℕ
join key bit = bit_or (u32 (key * 2 ^ 8)) bit

-- The extreme leaf below a word of each level.
abbrev pub leaf_of : (ℕ → Result ℕ) → TreeUint24 → ℕ → Option ℕ
leaf_of extreme t key2 =
    on (t.level2 key2) λ leaves. on (found (extreme leaves)) λ bit. some (join key2 bit)

abbrev pub key_of : (ℕ → Result ℕ) → TreeUint24 → ℕ → Option ℕ
key_of extreme t key1 =
    on (t.level1 (u16 key1))
      λ word. on (found (extreme word)) λ bit. leaf_of extreme t (join key1 bit)

-- A search from one bit of each level on; `skip` is the bit with nothing beyond it.
abbrev pub find_first :
    (skip : ℕ) (nearest : ℕ → ℕ → Result ℕ) (extreme : ℕ → Result ℕ) → TreeUint24 → ℕ → Option ℕ
find_first skip nearest extreme t id =
    let key2 = shr id 8 in
    let bit = low_byte id in
    let key1 = shr key2 8 in
    let bit1 = low_byte key2 in
    let bit0 = low_byte key1 in
    or_else
      (if bit == skip
        then none
        else on (t.level2 key2)
            λ leaves. on (near (nearest leaves bit)) λ next. some (join key2 next))
      (or_else
        (if bit1 == skip
          then none
          else on (t.level1 (u16 key1))
              λ word. on (near (nearest word bit1)) λ next. leaf_of extreme t (join key1 next))
        (if bit0 == skip
          then none
          else on (near (nearest t.level0 bit0)) λ next. key_of extreme t next))

unfoldable pub find_first_right : TreeUint24 → ℕ → Option ℕ
find_first_right = find_first 0 closest_bit_right most_significant_bit

unfoldable pub find_first_left : TreeUint24 → ℕ → Option ℕ
find_first_left = find_first 255 closest_bit_left least_significant_bit
