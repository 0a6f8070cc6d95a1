-- ===== src/Lua/Rehash/Entries.antt =====
-- lua515/ltable.c: the counts of `rehash` and the entries that will need a node.
use lua_engine.Base.{
  ℕ, zero, suc, ◌+◌, ◌-◌, ◌^◌, ◌≤◌, ◌<◌, ◌≡◌, refl, sym, ap, ◌∙◌, Bool, true, false, ◌&&◌, none,
  some, ltb, leb, if◌then◌else◌, arith, Bool-cases, Option-cases, inl, inr,
}
use lua_engine.Lua.Nodes.{Vector, is_some}
use lua_engine.Lua.Tables.{LuaTable, maxbits, in_range, node_item, slot_item}
use lua_engine.Lua.Tables.Sound.{IndexLaws}
use lua_engine.Lua.Tables.Refill.{outsiders, outsiders-skip, outsiders-entry}
use lua_engine.Lua.Rehash.{Nums, bit, countint, key_index, count_nodes}
use lua_engine.Lua.Rehash.Counts.{prefix, prefix-countint, filled}

countint-one :
    (k : ℕ) (nums : Nums) → (countint k nums).1 ≡ (if ltb 0 k && leb k (2 ^ maxbits) then 1 else 0)
unfolding countint
countint-one k nums = elim (Bool-cases (ltb 0 k && leb k (2 ^ maxbits))) [
  | inl q ↦ rw q refl
  | inr q ↦ rw q refl
]

-- What `countint` adds to the sum of all entries is its result.
pub countint-all :
    (k : ℕ) (nums : Nums)
    → prefix (countint k nums).0 maxbits ≡ (countint k nums).1 + prefix nums maxbits
countint-all k nums =
    prefix-countint k nums maxbits (omega arith)
    ∙ ap (λ m. m + prefix nums maxbits) (sym (countint-one k nums))

module _ {K V : Type 0} (index : K → ℕ) (h : Vector K V)
    (keyed : (j : ℕ) (v : V)
      → (h.node j).value ≡ some v
      → (k : K) × ((h.node j).key ≡ some k)) where
  none_yet : (size p total : ℕ) → p + outsiders index (node_item h) size 0 + total ≡ p + total
  unfolding outsiders
  none_yet size p total = omega arith

  outside_nothing : (k : K) → in_range index k 0 ≡ false
  outside_nothing k = ground arith

  move_one :
      (b : Bool) (p o o' q t r m : ℕ)
      → p + o + (t + 1) ≡ q + r
      → q ≡ (if b then 1 else 0) + m
      → o' ≡ (if b then 0 else 1) + o
      → p + o' + t ≡ m + r
  move_one true p o o' q t r m e e' f = omega arith
  move_one false p o o' q t r m e e' f = omega arith

  free_item : (j : ℕ) → (h.node j).value ≡ none → node_item h j ≡ none
  free_item j e = grind arith

  live_item :
      (j : ℕ) (k : K) (v : V)
      → (h.node j).value ≡ some v
      → (h.node j).key ≡ some k
      → node_item h j ≡ some (k, v)
  live_item j k v e f = grind arith

  -- The entries that are numbers up to 2 ^ l are counted in `nums`, and the others are not.
  pub count_nodes-prefix :
      (n l : ℕ) (nums : Nums) (ause total : ℕ)
      → l ≤ maxbits
      → prefix (count_nodes index h n nums ause total).0 l
          + outsiders index (node_item h) (2 ^ l) n
          + total
        ≡ prefix nums l + (count_nodes index h n nums ause total).2
  unfolding count_nodes
  count_nodes-prefix zero l nums ause total le = none_yet (2 ^ l) _ total
  count_nodes-prefix (suc n) l nums ause total le = elim (Option-cases (h.node n).value) [
    | inl e ↦ rw e (
        omega (
          arith,
          count_nodes-prefix n l nums ause total le,
          outsiders-skip index (node_item h) (2 ^ l) n (free_item n e),
        ))
    | inr (v, e) ↦
        let (k, f) = keyed n v e in
        let counted = countint (index k) nums in
        rw (e, f)
          (move_one (in_range index k (2 ^ l)) _ _ _ _ _ _ _
            (count_nodes-prefix n l counted.0 (ause + counted.1) (total + 1) le)
            (prefix-countint (index k) nums l le)
            (outsiders-entry index (node_item h) (2 ^ l) n k v (live_item n k v e f)))
  ]

  pub count_nodes-ause :
      (n : ℕ) (nums : Nums) (ause total : ℕ)
      → (count_nodes index h n nums ause total).1 + prefix nums maxbits
        ≡ ause + prefix (count_nodes index h n nums ause total).0 maxbits
  unfolding count_nodes
  count_nodes-ause zero nums ause total = refl
  count_nodes-ause (suc n) nums ause total = elim (Option-cases (h.node n).value) [
    | inl e ↦ rw e (count_nodes-ause n nums ause total)
    | inr (v, e) ↦
        let counted = countint (key_index index (h.node n).key) nums in
        rw e (
          omega (
            arith,
            count_nodes-ause n counted.0 (ause + counted.1) (total + 1),
            countint-all (key_index index (h.node n).key) nums,
          ))
  ]

  -- All entries need a node where there is no array part.
  pub count_nodes-total :
      (n : ℕ) (nums : Nums) (ause total : ℕ)
      → outsiders index (node_item h) 0 n + total ≡ (count_nodes index h n nums ause total).2
  unfolding count_nodes
  count_nodes-total zero nums ause total = omega (arith, none_yet 0 0 total)
  count_nodes-total (suc n) nums ause total = elim (Option-cases (h.node n).value) [
    | inl e ↦ rw e (
        omega (
          arith,
          count_nodes-total n nums ause total,
          outsiders-skip index (node_item h) 0 n (free_item n e),
        ))
    | inr (v, e) ↦
        let (k, f) = keyed n v e in
        let counted = countint (index k) nums in
        let last : outsiders index (node_item h) 0 (suc n) ≡ 1 + outsiders index (node_item h) 0 n =
          outsiders-entry index (node_item h) 0 n k v (live_item n k v e f)
          ∙ rw (outside_nothing k) refl in
        rw (e, f)
          (omega (arith, count_nodes-total n counted.0 (ause + counted.1) (total + 1), last))
  ]

module _ {K V : Type 0} (index : K → ℕ) (equal : K → K → Bool) (home : ℕ → K → ℕ) (number : ℕ → K)
    (laws : IndexLaws index equal home number) (t : LuaTable K V)
    (limit : t.sizearray < 2 ^ 31) where
  slot_needs :
      (j c n : ℕ)
      → c ≡ suc j
      → c ≤ t.sizearray - n
      → outsiders index (slot_item index equal home number t) n (suc j)
        ≡ bit (is_some (t.array (t.sizearray - 1 - j)))
          + outsiders index (slot_item index equal home number t) n j
  unfolding outsiders
  slot_needs j c n e le = elim (Option-cases (t.array (t.sizearray - 1 - j))) [
    | inl q ↦
        outsiders-skip index (slot_item index equal home number t) n j (rw (q, slot_item) refl)
        ∙ rw q (omega arith)
    | inr (v, q) ↦
        let place = laws.index_of_number (suc (t.sizearray - 1 - j)) (omega arith) in
        outsiders-entry index (slot_item index equal home number t) n j
          (number (suc (t.sizearray - 1 - j))) v (rw (q, slot_item) refl)
        ∙ rw (q, place) (ground arith)
  ]

  -- The slots that vanish all need a node.
  pub slots-filled :
      (c n : ℕ)
      → c ≤ t.sizearray - n
      → outsiders index (slot_item index equal home number t) n c + filled t.array (t.sizearray - c)
        ≡ filled t.array t.sizearray
  unfolding filled outsiders
  slots-filled zero n le =
      omega (arith, ap (filled t.array) {x = t.sizearray - 0} {y = t.sizearray} (omega arith))
  slots-filled (suc c) n le =
      let more : filled t.array (t.sizearray - c)
          ≡ bit (is_some (t.array (t.sizearray - 1 - c))) + filled t.array (t.sizearray - suc c) =
        ap (filled t.array) {x = t.sizearray - c} {y = suc (t.sizearray - suc c)} (omega arith)
        ∙ ap (λ j. bit (is_some (t.array j)) + filled t.array (t.sizearray - suc c))
            {x = t.sizearray - suc c} {y = t.sizearray - 1 - c} (omega arith) in
      omega (arith, more, slot_needs c (suc c) n refl le, slots-filled c n (omega arith))
