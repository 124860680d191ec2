-- ===== src/MoeMath/TreeMath/Members.antt =====
-- The ids of a tree as a set: what `contains` answers after an id is added or removed.
use arbitrage_bot_v.Base.{
  ℕ, ◌%◌, ◌<◌, ◌≡◌, refl, ap, ◌∙◌, sym, arith, inl, inr, Bool, true, false, not, Bool-cases, ==_ne,
  Option, none, some, ◌==◌, if◌then◌else◌, bit_and,
}
use mathlib.Core.Path.{fun_ext}
use native.Mathlib.Decide.{ℕ_discrete}
use arbitrage_bot_v.Base.Digit.{digit, digit-zero}
use arbitrage_bot_v.Base.Word.{shr, not256, u16}
use arbitrage_bot_v.Base.HashMap.{HashMap, insert, remove, unwrap_or}
use arbitrage_bot_v.MoeMath.TreeMath.{
  TreeUint24, bit_of, contains, add, drop_key, remove_leaf, remove_id,
}
use arbitrage_bot_v.MoeMath.TreeMath.Words.{bit_test, digit-clear}
use arbitrage_bot_v.MoeMath.TreeMath.Leaves.{
  leaf, contains-leaf, drop_key-level2, leaf-insert, leaf-remove, one_changed, leaf-add,
}

unchanged :
    (m : HashMap ℕ) (id q : ℕ) → leaf m id ≡ 0 → leaf m q ≡ (if q == id then 0 else leaf m q)
unchanged m id q nothing = elim (ℕ_discrete q id) [
  | yes here ↦ ap (leaf m) here ∙ nothing ∙ ground arith
  | no away ↦ ground arith
]

-- A leaf that is taken out of the word of its key, or is not there.
leaf-remove_leaf :
    (t : TreeUint24) (id q : ℕ) (o : Option ℕ)
    → t.level2 (shr id 8) ≡ o
    → leaf (remove_leaf t (shr id 8) (bit_of id) o).0.level2 q
      ≡ (if q == id then 0 else leaf t.level2 q)
leaf-remove_leaf t id q none held =
    let nothing : leaf t.level2 id ≡ 0 =
      ap (λ (o : Option ℕ). digit (id % 256) (unwrap_or o 0)) held ∙ digit-zero (id % 256) in
    unchanged t.level2 id q nothing
leaf-remove_leaf t id q (some leaves) held =
    let key2 = shr id 8 in
    let word = bit_and leaves (not256 (bit_of id)) in
    let stored = ap (λ (o : Option ℕ). unwrap_or o 0) held in
    let there = bit_test id leaves in
    let cleared : (i : ℕ)
        → i < 256
        → digit i word ≡ (if i == id % 256 then 0 else digit i (unwrap_or (t.level2 key2) 0)) =
      λ i low. rw stored (digit-clear i id leaves low) in
    elim (Bool-cases (bit_and leaves (bit_of id) == 0)) [
      | inl absent ↦
          rw absent (unchanged t.level2 id q (ap (digit (id % 256)) stored ∙ ground arith))
      | inr present ↦ elim (ℕ_discrete word 0) [
        | yes last ↦
            let test : (word == 0) ≡ true = ground arith in
            let kept = record t { level2 = remove t.level2 key2 } in
            rw (present, test)
              (one_changed t.level2
                (drop_key kept (u16 (shr key2 8)) (bit_of key2)
                  (t.level1 (u16 (shr key2 8)))).level2
                id 0 word q
                (ap (λ (m : HashMap ℕ). leaf m q)
                    (drop_key-level2 kept (u16 (shr key2 8)) (bit_of key2)
                      (t.level1 (u16 (shr key2 8))))
                  ∙ leaf-remove t.level2 key2 q
                  ∙ ap (λ (w : ℕ). if shr q 8 == key2 then digit (q % 256) w else leaf t.level2 q)
                      (sym last))
                cleared)
        | no others ↦
            rw (present, ==_ne word 0 others)
              (one_changed t.level2 (insert t.level2 key2 word) id 0 word q
                (leaf-insert t.level2 key2 word q) cleared)
      ]
    ]

pub leaf-remove_id :
    (t : TreeUint24) (id q : ℕ)
    → leaf (remove_id t id).0.level2 q ≡ (if q == id then 0 else leaf t.level2 q)
unfolding remove_id
leaf-remove_id t id q = leaf-remove_leaf t id q (t.level2 (shr id 8)) refl

-- What the two changes answer.
add-was_absent : (t : TreeUint24) (id : ℕ) → (add t id).1 ≡ (leaf t.level2 id == 0)
unfolding add
add-was_absent t id =
    let leaves = unwrap_or (t.level2 (shr id 8)) 0 in
    let there = bit_test id leaves in
    elim (Bool-cases (bit_and leaves (bit_of id) == 0)) [
      | inl absent ↦ rw absent (sym absent ∙ there)
      | inr present ↦ rw present (sym present ∙ there)
    ]

remove_leaf-was_present :
    (t : TreeUint24) (key2 id : ℕ) (o : Option ℕ)
    → (remove_leaf t key2 (bit_of id) o).1 ≡ not (digit (id % 256) (unwrap_or o 0) == 0)
remove_leaf-was_present t key2 id none = rw (digit-zero (id % 256)) refl
remove_leaf-was_present t key2 id (some leaves) =
    let there = bit_test id leaves in
    elim (Bool-cases (bit_and leaves (bit_of id) == 0)) [
      | inl absent ↦ rw absent (ap not (sym absent ∙ there))
      | inr present ↦ elim (Bool-cases (bit_and leaves (not256 (bit_of id)) == 0)) [
        | inl last ↦ rw (present, last) (ap not (sym present ∙ there))
        | inr others ↦ rw (present, others) (ap not (sym present ∙ there))
      ]
    ]

-- A set, changed at one id.
abbrev pub update : (ℕ → Bool) → ℕ → Bool → ℕ → Bool
update members id b q = if q == id then b else members q

-- Adding an id to the tree makes its set of members that set with the id in it and no other
-- change, and answers whether the id was absent.
pub contains-add :
    (t : TreeUint24) (id : ℕ)
    → (contains (add t id).0 ≡ update (contains t) id true) × ((add t id).1 ≡ not (contains t id))
contains-add t id = (
  fun_ext λ q.
      let now = leaf-add t id q in
      let before = contains-leaf t q in contains-leaf (add t id).0 q ∙ ground arith,
  let before = contains-leaf t id in add-was_absent t id ∙ ground arith,
)

-- Removing an id from the tree makes its set of members that set without the id and no other
-- change, and answers whether the id was present.
pub contains-remove_id :
    (t : TreeUint24) (id : ℕ)
    → (contains (remove_id t id).0 ≡ update (contains t) id false)
      × ((remove_id t id).1 ≡ contains t id)
unfolding remove_id
contains-remove_id t id = (
  fun_ext λ q.
      let now = leaf-remove_id t id q in
      let before = contains-leaf t q in contains-leaf (remove_id t id).0 q ∙ ground arith,
  remove_leaf-was_present t (shr id 8) id (t.level2 (shr id 8)) ∙ sym (contains-leaf t id),
)
