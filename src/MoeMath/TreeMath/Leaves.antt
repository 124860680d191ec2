-- ===== src/MoeMath/TreeMath/Leaves.antt =====
-- The lowest level of a tree, digit by digit, after an id is added.
use arbitrage_bot_v.Base.{
  ℕ, ◌%◌, ◌<◌, ◌≡◌, ◌≢◌, refl, ap, ◌∙◌, arith, inl, inr, not, Bool-cases, Option, none, some, ◌==◌,
  if◌then◌else◌, bit_and, bit_or,
}
use native.Mathlib.Decide.{ℕ_discrete}
use arbitrage_bot_v.Base.Digit.{digit, digit-lt, digit-zero}
use arbitrage_bot_v.Base.Word.{shr, not256, u16}
use arbitrage_bot_v.Base.HashMap.{HashMap, insert, remove, unwrap_or}
use arbitrage_bot_v.MoeMath.TreeMath.{TreeUint24, bit_of, has_bit, contains, add_key, add, drop_key}
use arbitrage_bot_v.MoeMath.TreeMath.Words.{bit_test, digit-set}

-- The digit of an id in the lowest level.
abbrev pub leaf : HashMap ℕ → ℕ → ℕ
leaf level2 id = digit (id % 256) (unwrap_or (level2 (shr id 8)) 0)

pub has_bit-leaf :
    (o : Option ℕ) (id : ℕ) → has_bit o (bit_of id) ≡ not (digit (id % 256) (unwrap_or o 0) == 0)
has_bit-leaf none id = rw (digit-zero (id % 256)) refl
has_bit-leaf (some leaves) id = ap not (bit_test id leaves)

pub contains-leaf : (t : TreeUint24) (id : ℕ) → contains t id ≡ not (leaf t.level2 id == 0)
unfolding contains
contains-leaf t id = has_bit-leaf (t.level2 (shr id 8)) id

pub add_key-level2 : (t : TreeUint24) (key2 : ℕ) → (add_key t key2).level2 ≡ t.level2
unfolding add_key
add_key-level2 t key2 =
    let word = unwrap_or (t.level1 (u16 (shr key2 8))) 0 in
    elim (Bool-cases (bit_and word (bit_of key2) == 0)) [
      | inl absent ↦ rw absent refl
      | inr present ↦ rw present refl
    ]

pub drop_key-level2 :
    (t : TreeUint24) (key1 bit1 : ℕ) (o : Option ℕ) → (drop_key t key1 bit1 o).level2 ≡ t.level2
drop_key-level2 t key1 bit1 none = refl
drop_key-level2 t key1 bit1 (some word) = elim (Bool-cases (bit_and word (not256 bit1) == 0)) [
  | inl last ↦ rw last refl
  | inr others ↦ rw others refl
]

-- The lowest level after its word at a key has become another, or has gone.
pub leaf-insert :
    (m : HashMap ℕ) (key word q : ℕ)
    → leaf (insert m key word) q ≡ (if shr q 8 == key then digit (q % 256) word else leaf m q)
leaf-insert m key word q = elim (Bool-cases (shr q 8 == key)) [
  | inl here ↦ rw here refl
  | inr away ↦ rw away refl
]

pub leaf-remove :
    (m : HashMap ℕ) (key q : ℕ)
    → leaf (remove m key) q ≡ (if shr q 8 == key then digit (q % 256) 0 else leaf m q)
leaf-remove m key q = elim (Bool-cases (shr q 8 == key)) [
  | inl here ↦ rw here refl
  | inr away ↦ rw away refl
]

-- An id is its key and its low byte.
same_id : (q id : ℕ) → shr q 8 ≡ shr id 8 → q % 256 ≡ id % 256 → q ≡ id
same_id q id high low = omega arith

-- The digits of a level in which only the word of `id` has changed, to one that differs in its bit.
pub one_changed :
    (m m' : HashMap ℕ) (id bit word q : ℕ)
    → leaf m' q ≡ (if shr q 8 == shr id 8 then digit (q % 256) word else leaf m q)
    → ((i : ℕ)
        → i < 256
        → digit i word ≡ (if i == id % 256 then bit else digit i (unwrap_or (m (shr id 8)) 0)))
    → leaf m' q ≡ (if q == id then bit else leaf m q)
one_changed m m' id bit word q level changed = elim (ℕ_discrete (shr q 8) (shr id 8)) [
  | yes here ↦
      let same_word = ap (λ (key : ℕ). digit (q % 256) (unwrap_or (m key) 0)) here in
      let now = changed (q % 256) (omega arith) in
      elim (ℕ_discrete (q % 256) (id % 256)) [
        | yes low ↦ let same = same_id q id here low in ground arith
        | no low ↦ let apart : q ≢ id = omega arith in ground arith
      ]
  | no away ↦ let apart : q ≢ id = omega arith in ground arith
]

pub leaf-add :
    (t : TreeUint24) (id q : ℕ)
    → leaf (add t id).0.level2 q ≡ (if q == id then 1 else leaf t.level2 q)
unfolding add
leaf-add t id q =
    let key2 = shr id 8 in
    let leaves = unwrap_or (t.level2 key2) 0 in
    let there = bit_test id leaves in
    let small = digit-lt (id % 256) leaves in
    elim (Bool-cases (bit_and leaves (bit_of id) == 0)) [
      | inl absent ↦
          let word = bit_or leaves (bit_of id) in
          let grown = record t { level2 = insert t.level2 key2 word } in
          rw absent (
            one_changed t.level2 (add_key grown key2).level2 id 1 word q
              (ap (λ (m : HashMap ℕ). leaf m q) (add_key-level2 grown key2)
                ∙ leaf-insert t.level2 key2 word q)
              (λ i low. digit-set i id leaves))
      | inr present ↦ rw present (
          one_changed t.level2 (insert t.level2 key2 leaves) id 1 leaves q
            (leaf-insert t.level2 key2 leaves q)
            (λ i low. already i (id % 256) leaves (ground arith)))
    ]
  where
    already : (i b w : ℕ) → digit b w ≡ 1 → digit i w ≡ (if i == b then 1 else digit i w)
    already i b w one = elim (ℕ_discrete i b) [
      | yes here ↦ ap (λ (k : ℕ). digit k w) here ∙ one ∙ ground arith
      | no away ↦ ground arith
    ]
