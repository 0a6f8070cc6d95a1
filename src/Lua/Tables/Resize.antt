-- ===== src/Lua/Tables/Resize.antt =====
-- lua515/ltable.c: the values of keys in `resize`.
use lua_engine.Base.{
  ℕ, zero, suc, ◌-◌, ◌^◌, ◌<◌, ◌≡◌, ◌↔◌, refl, sym, ap, ◌∙◌, subst, Bool, true, false, Option, none,
  some, ltb, ◌==◌, if◌then◌else◌, arith, Bool-cases, Option-cases, inl, inr, eqb→eq, eqb→ne,
}
use lua_engine.Lua.Nodes.{Vector, new_vector, value_of, find_key, find}
use lua_engine.Lua.Nodes.Links.{KeyLaws}
use lua_engine.Lua.Nodes.Entries.{value_of_iff, key_inside}
use lua_engine.Lua.Tables.{LuaTable, in_range, in_array, get, node_item, slot_item}
use lua_engine.Lua.Tables.Sound.{IndexLaws, IsSound}
use lua_engine.Lua.Tables.Refill.{among, item_or}

module _ {K V : Type 0} (index : K → ℕ) (equal : K → K → Bool) where
  -- Entries that agree on a value do not change it.
  among_agrees :
      (item : ℕ → Option (K × V)) (n : ℕ) (x : K) (d w : Option V)
      → ((j : ℕ) (k : K) (v : V) → j < n → item j ≡ some (k, v) → equal k x ≡ true → some v ≡ w)
      → d ≡ w
      → among index equal item n x d ≡ w
  unfolding among
  among_agrees item zero x d w agree e = e
  among_agrees item (suc n) x d w agree e =
      among_agrees item n x _ w (λ j k v lt. agree j k v (omega arith)) (first (item n) refl)
    where
      first : (i : Option (K × V)) → item n ≡ i → item_or index equal i x d ≡ w
      first none q = e
      first (some (k, v)) q = elim (Bool-cases (equal k x)) [
        | inl s ↦ rw s (agree n k v (omega arith) q s)
        | inr s ↦ rw s e
      ]

  -- And one of them is enough.
  among_found :
      (item : ℕ → Option (K × V)) (n : ℕ) (x : K) (d w : Option V) (j : ℕ) (k : K) (v : V)
      → ((j : ℕ) (k : K) (v : V) → j < n → item j ≡ some (k, v) → equal k x ≡ true → some v ≡ w)
      → j < n
      → item j ≡ some (k, v)
      → equal k x ≡ true
      → among index equal item n x d ≡ w
  unfolding among
  among_found item zero x d w j k v agree lt e s = absurd (omega arith)
  among_found item (suc n) x d w j k v agree lt e s = elim (Bool-cases (j == n)) [
    | inl q ↦
        let last : item n ≡ some (k, v) = subst (λ y. item y ≡ some (k, v)) (eqb→eq j n q) e in
        among_agrees item n x _ w (λ j' k' v' lt'. agree j' k' v' (omega arith))
          (rw (last, s) (agree j k v lt e s))
    | inr q ↦
        let other = eqb→ne j n q in
        among_found item n x _ w j k v (λ j' k' v' lt'. agree j' k' v' (omega arith)) (omega arith)
          e s
  ]

  pub new_vector-empty :
      (home : K → ℕ) (m : ℕ) (x : K) → value_of {V = V} equal home (new_vector m) x ≡ none
  unfolding value_of find_key find
  new_vector-empty home zero x = refl
  new_vector-empty home (suc m) x = refl

-- The item of a node is its entry.
pub node_item_lem :
    {K V : Type 0} (h : Vector K V) (j : ℕ) (k : K) (v : V)
    → (node_item h j ≡ some (k, v)) ↔ (((h.node j).key ≡ some k) × ((h.node j).value ≡ some v))
node_item_lem h j k v = ((λ e. (grind arith, grind arith)), (λ (e, f). grind arith))

module _ {K V : Type 0} (index : K → ℕ) (equal : K → K → Bool) (home : ℕ → K → ℕ) (number : ℕ → K)
    (laws : IndexLaws index equal home number) (old : LuaTable K V)
    (sound : IsSound index equal home old) (limit : old.sizearray < 2 ^ 31) where
  old_laws : KeyLaws equal (home old.hash.size) old.hash.size
  old_laws =
      subst (λ n. KeyLaws equal (home n) n) (sym sound.size_power) (laws.key_laws sound.exponent)

  pub nodes_proper : (j : ℕ) (k : K) (v : V) → node_item old.hash j ≡ some (k, v) → equal k k ≡ true
  nodes_proper j k v e =
      (key_inside equal (home old.hash.size) old.hash j k sound.hash_table
        ((node_item_lem old.hash j k v).0 e).0).1

  slot_item_key :
      (j : ℕ) (k : K) (v : V)
      → slot_item index equal home number old j ≡ some (k, v)
      → (k ≡ number (suc (old.sizearray - 1 - j))) × (old.array (old.sizearray - 1 - j) ≡ some v)
  slot_item_key j k v e = elim (Option-cases (old.array (old.sizearray - 1 - j))) [
    | inl q ↦ absurd (grind arith)
    | inr (w, q) ↦ (grind arith, grind arith)
  ]

  slot_item-some :
      (j : ℕ) (v : V)
      → old.array (old.sizearray - 1 - j) ≡ some v
      → slot_item index equal home number old j ≡ some (number (suc (old.sizearray - 1 - j)), v)
  slot_item-some j v e = rw (e, slot_item) refl

  pub slots_proper :
      (j : ℕ) (k : K) (v : V)
      → slot_item index equal home number old j ≡ some (k, v)
      → equal k k ≡ true
  slots_proper j k v e =
      subst (λ y. equal y y ≡ true) (sym (slot_item_key j k v e).0) (laws.number_itself _)

  -- A node gives the value that the key has in the table.
  nodes_agree :
      (x : K) (j : ℕ) (k : K) (v : V)
      → node_item old.hash j ≡ some (k, v)
      → equal k x ≡ true
      → some v ≡ get index equal home old x
  unfolding get
  nodes_agree x j k v e s =
      let (key, value) = (node_item_lem old.hash j k v).0 e in
      let there : value_of equal (home old.hash.size) old.hash x ≡ some v =
        (value_of_iff equal (home old.hash.size) old.hash x v sound.hash_table old_laws).1
          (j, k, key, s, value) in
      elim (Bool-cases (in_array index old x)) [
        | inl q ↦ let nothing = sound.outside x q in absurd (grind arith)
        | inr q ↦ rw q (sym there)
      ]

  -- And so does a slot.
  slots_agree :
      (x : K) (j : ℕ) (k : K) (v : V)
      → j < old.sizearray
      → slot_item index equal home number old j ≡ some (k, v)
      → equal k x ≡ true
      → some v ≡ get index equal home old x
  unfolding get
  slots_agree x j k v lt e s =
      let (key, value) = slot_item_key j k v e in
      let place : index x ≡ suc (old.sizearray - 1 - j) =
        sym (laws.same_index k x s) ∙ ap index key ∙ laws.index_of_number _ (omega arith) in
      let inside : in_array index old x ≡ true = ground arith in
      rw inside (sym (subst (λ i. old.array i ≡ some v) (omega arith) value))

  module _ (n m : ℕ) (array : ℕ → Option V)
      (empty : (i : ℕ)
        → i < n
        → array i ≡ (if ltb i old.sizearray then old.array i else none)) where
    -- The table with its new vectors.
    abbrev pub sized : LuaTable K V
    sized = record { array = array; sizearray = n; hash = new_vector m }

    get-sized :
        (x : K)
        → get index equal home sized x ≡ (if in_range index x n then array (index x - 1) else none)
    unfolding get
    get-sized x = elim (Bool-cases (in_range index x n)) [
      | inl q ↦ rw q refl
      | inr q ↦ rw q (new_vector-empty index equal (home sized.hash.size) m x)
    ]

    abbrev pub both_loops : K → Option V
    both_loops x = among index equal (node_item old.hash) old.hash.size x (
        among index equal (slot_item index equal home number old) (old.sizearray - n) x
          (get index equal home sized x))

    -- Where the new vectors have the value already, the loops keep it.
    kept_value :
        (x : K)
        → get index equal home sized x ≡ get index equal home old x
        → both_loops x ≡ get index equal home old x
    kept_value x e =
        among_agrees index equal _ old.hash.size x _ _ (λ j k v lt. nodes_agree x j k v)
          (among_agrees index equal _ (old.sizearray - n) x _ _
            (λ j k v lt. slots_agree x j k v (omega arith)) e)

    slot_value :
        (x : K) (v : V)
        → in_array index old x ≡ true
        → n < index x
        → old.array (index x - 1) ≡ some v
        → both_loops x ≡ get index equal home old x
    slot_value x v inside past there =
        let j = old.sizearray - index x in
        let place : index x - 1 ≡ old.sizearray - 1 - j = ground arith in
        let slot : suc (old.sizearray - 1 - j) ≡ index x = ground arith in
        let value = subst (λ i. old.array i ≡ some v) place there in
        let key : equal (number (suc (old.sizearray - 1 - j))) x ≡ true =
          subst (λ i. equal (number i) x ≡ true) (sym slot)
            (laws.number_of_index x (omega arith)) in
        let inside_loop : j < old.sizearray - n = ground arith in
        among_agrees index equal _ old.hash.size x _ _ (λ j k v lt. nodes_agree x j k v)
          (among_found index equal _ (old.sizearray - n) x _ _ j _ v
            (λ j k v lt. slots_agree x j k v (omega (arith, lt))) inside_loop
            (slot_item-some j v value) key)

    old_slot :
        (x : K)
        → in_array index old x ≡ true
        → in_range index x n ≡ true
        → array (index x - 1) ≡ old.array (index x - 1)
    old_slot x q q' = grind (arith, empty)

    no_slot :
        (x : K)
        → in_array index old x ≡ false
        → (if in_range index x n then array (index x - 1) else none) ≡ none
    no_slot x q = elim (Bool-cases (in_range index x n)) [
      | inl q' ↦ grind (arith, empty)
      | inr q' ↦ rw q' refl
    ]

    node_value :
        (x : K) (v : V)
        → in_array index old x ≡ false
        → value_of equal (home old.hash.size) old.hash x ≡ some v
        → both_loops x ≡ get index equal home old x
    node_value x v out there =
        let (j, k, key, s, value) =
          (value_of_iff equal (home old.hash.size) old.hash x v sound.hash_table old_laws).0
            there in
        among_found index equal _ old.hash.size x _ _ j k v (λ j k v lt. nodes_agree x j k v)
          (key_inside equal (home old.hash.size) old.hash j k sound.hash_table key).0
          ((node_item_lem old.hash j k v).1 (key, value)) s

    pub both_loops_lem : (x : K) → both_loops x ≡ get index equal home old x
    unfolding get
    both_loops_lem x = elim (Bool-cases (in_array index old x)) [
      | inl q ↦ elim (Bool-cases (in_range index x n)) [
        | inl q' ↦ kept_value x (get-sized x ∙ rw (q, q') (old_slot x q q'))
        | inr q' ↦ elim (Option-cases (old.array (index x - 1))) [
          | inl e ↦ kept_value x (get-sized x ∙ rw (q, q', e) refl)
          | inr (v, e) ↦ slot_value x v q (ground arith) e
        ]
      ]
      | inr q ↦ elim (Option-cases (value_of equal (home old.hash.size) old.hash x)) [
        | inl e ↦ kept_value x (get-sized x ∙ rw q (no_slot x q ∙ sym e))
        | inr (v, e) ↦ node_value x v q e
      ]
    ]
