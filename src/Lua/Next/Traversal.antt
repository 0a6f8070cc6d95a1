-- ===== src/Lua/Next/Traversal.antt =====
-- lua515/ltable.c: traversals by `luaH_next`.
use lua_engine.Base.{
  ℕ, zero, suc, ◌+◌, ◌-◌, ◌^◌, ◌≤◌, ◌<◌, ◌≡◌, ◌↔◌, refl, sym, ap, ap₂, ◌∙◌, subst, Bool, true,
  false, Option, none, some, List, ◌∷◌, ltb, if◌then◌else◌, arith, Bool-cases, inl, inr, ltb→lt,
  lt→ltb, ltb-false,
}
use lua_engine.Lua.Nodes.{find_key, Search, at, missing, endless, value_of}
use lua_engine.Lua.Nodes.Links.{KeyLaws}
use lua_engine.Lua.Nodes.Entries.{
  value_of_iff, key_inside, one_node, Looked, present, absent, find_key-Looked,
}
use lua_engine.Lua.Tables.{LuaTable, in_array, get, node_item}
use lua_engine.Lua.Tables.Sound.{IndexLaws, IsSound}
use lua_engine.Lua.Tables.Resize.{node_item_lem}
use lua_engine.Lua.Next.Firsts.{
  entries_from, first_from, Firsts, no_entry, first_entry, first_from-Firsts,
}
use lua_engine.Lua.Next.{
  behind_node, first_of, slot_entry, find_index, next_node, next_slot, next_from, luah_next,
  with_entry, go_on, traverse,
}

module _ {K V : Type 0} (index : K → ℕ) (equal : K → K → Bool) (home : ℕ → K → ℕ) (number : ℕ → K)
    (laws : IndexLaws index equal home number) (t : LuaTable K V)
    (sound : IsSound index equal home t) (limit : t.sizearray < 2 ^ 31) where
  -- The entry with a number of the traversal: first the slots, then the nodes.
  abbrev pub entry_at : ℕ → Option (K × V)
  entry_at j =
      if ltb j t.sizearray then slot_entry number t j else node_item t.hash (j - t.sizearray)

  abbrev pub total : ℕ
  total = t.sizearray + t.hash.size

  hash_laws : KeyLaws equal (home t.hash.size) t.hash.size
  hash_laws =
      subst (λ n. KeyLaws equal (home n) n) (sym sound.size_power) (laws.key_laws sound.exponent)

  entry_slot : (j : ℕ) → j < t.sizearray → entry_at j ≡ slot_entry number t j
  entry_slot j lt =
      let inside : ltb j t.sizearray ≡ true = ground arith in rw (inside, entry_at) refl

  entry_node : (j : ℕ) → t.sizearray ≤ j → entry_at j ≡ node_item t.hash (j - t.sizearray)
  entry_node j le = let out : ltb j t.sizearray ≡ false = ground arith in rw (out, entry_at) refl

  next_node_lem :
      (f j : ℕ)
      → t.sizearray ≤ j
      → next_node index equal home number t f (j - t.sizearray) ≡ first_from entry_at f j
  unfolding next_node first_from
  next_node_lem zero j le = refl
  next_node_lem (suc f) j le =
      let rest =
        ap (next_node index equal home number t f) {x = suc (j - t.sizearray)}
          {y = suc j - t.sizearray} (omega arith)
        ∙ next_node_lem f (suc j) (omega arith) in
      ap₂ first_of (sym (entry_node j le)) rest

  next_slot_lem :
      (f j : ℕ)
      → t.sizearray - j ≡ f
      → j ≤ total
      → next_slot index equal home number t f j ≡ first_from entry_at (total - j) j
  unfolding next_slot first_from
  next_slot_lem zero j e le =
      ap (λ f. next_node index equal home number t f (j - t.sizearray))
        {x = t.hash.size - (j - t.sizearray)} {y = total - j} (omega arith)
      ∙ next_node_lem (total - j) j (omega arith)
  next_slot_lem (suc f) j e le =
      ap₂ first_of (sym (entry_slot j (omega arith)))
        (next_slot_lem f (suc j) (omega arith) (omega arith))
      ∙ ap (λ r. first_from entry_at r j) {x = suc (total - suc j)} {y = total - j} (omega arith)

  slot_index :
      (j : ℕ) (k : K) (v : V)
      → j < t.sizearray
      → slot_entry number t j ≡ some (k, v)
      → find_index index equal home number t (some k) ≡ some (suc j)
  unfolding find_index
  slot_index j k v lt e =
      let key : k ≡ number (suc j) = grind arith in
      let place : index k ≡ suc j = ap index key ∙ laws.index_of_number (suc j) (omega arith) in
      let inside : in_array index t k ≡ true = ground arith in rw inside (ap some place)

  node_index :
      (i : ℕ) (k : K) (v : V)
      → total < 2 ^ 31
      → (t.hash.node i).key ≡ some k
      → (t.hash.node i).value ≡ some v
      → find_index index equal home number t (some k) ≡ some (suc (i + t.sizearray))
  unfolding find_index
  node_index i k v few key value =
      let (inside, self) = key_inside equal (home t.hash.size) t.hash i k sound.hash_table key in
      let fits : ltb (suc (i + t.sizearray)) (2 ^ 31) ≡ true = lt→ltb _ _ (omega arith) in
      let there =
        (value_of_iff equal (home t.hash.size) t.hash k v sound.hash_table hash_laws).1
          (i, k, key, self, value) in
      let out : in_array index t k ≡ false = elim (Bool-cases (in_array index t k)) [
        | inl q ↦ let nothing = sound.outside k q in absurd (grind arith)
        | inr q ↦ q
      ] in
      rw out (
        found (find_key equal (home t.hash.size) t.hash k)
          (find_key-Looked equal (home t.hash.size) t.hash k sound.hash_table hash_laws) self fits)
    where
      found :
          (r : Search)
          → Looked equal (home t.hash.size) t.hash.node k r
          → equal k k ≡ true
          → ltb (suc (i + t.sizearray)) (2 ^ 31) ≡ true
          → behind_node t.sizearray r ≡ some (suc (i + t.sizearray))
      found (at i') (present {a = a} e s) self fits =
          ap (λ x. behind_node t.sizearray (at x))
            (one_node equal (home t.hash.size) t.hash i' i a k sound.hash_table e key s)
          ∙ rw fits refl
      found missing (absent lacks) self fits = absurd (grind (arith, lacks))
      found endless none_found self fits = elim none_found [ ]

  -- The index behind a key of an entry is the next number.
  find_index_lem :
      (j : ℕ) (k : K) (v : V)
      → total < 2 ^ 31
      → entry_at j ≡ some (k, v)
      → find_index index equal home number t (some k) ≡ some (suc j)
  unfolding find_index
  find_index_lem j k v few e = elim (Bool-cases (ltb j t.sizearray)) [
    | inl q ↦
        slot_index j k v (ltb→lt j t.sizearray q) (sym (entry_slot j (ltb→lt j t.sizearray q)) ∙ e)
    | inr q ↦
        let past = ltb-false j t.sizearray q in
        let (key, value) =
          (node_item_lem t.hash (j - t.sizearray) k v).0 (sym (entry_node j past) ∙ e) in
        node_index (j - t.sizearray) k v few key value
        ∙ ap (λ x. some (suc x)) {x = j - t.sizearray + t.sizearray} {y = j} (omega arith)
  ]

  luah_next_lem :
      (p : ℕ) (key : Option K)
      → find_index index equal home number t key ≡ some p
      → p ≤ total
      → luah_next index equal home number t key ≡ some (first_from entry_at (total - p) p)
  unfolding luah_next
  luah_next_lem p key e le =
      ap (next_from index equal home number t) e
      ∙ ap some (next_slot_lem (t.sizearray - p) p refl le)

  go_on_lem :
      (p : ℕ) (rest : K → Option (List (K × V))) (r : Option (K × V))
      → p ≤ total
      → Firsts entry_at (total - p) p r
      → ((j : ℕ) (k : K) (v : V)
          → entry_at j ≡ some (k, v)
          → p ≤ j
          → j < total
          → rest k ≡ some (entries_from entry_at (total - suc j) (suc j)))
      → go_on index equal home number (some r) rest ≡ some (entries_from entry_at (total - p) p)
  go_on_lem p rest none le (no_entry q) others = ap some (sym q)
  go_on_lem p rest (some (k, v)) le (first_entry j e ge lt q) others =
      ap (with_entry index equal home number (k, v)) (others j k v e ge (omega arith))
      ∙ ap some (
          ap (λ m. (k, v) ∷ entries_from entry_at m (suc j)) {x = total - suc j}
            {y = p + (total - p) - suc j} (omega arith)
          ∙ sym q)

  -- From a key on, a traversal gives the entries behind it.
  traverse-entries_from :
      (f p : ℕ) (key : Option K)
      → total < 2 ^ 31
      → find_index index equal home number t key ≡ some p
      → p ≤ total
      → total - p < f
      → traverse index equal home number f t key ≡ some (entries_from entry_at (total - p) p)
  unfolding traverse
  traverse-entries_from zero p key few e le lt = absurd (omega arith)
  traverse-entries_from (suc f) p key few e le lt =
      ap (λ r. go_on index equal home number r (λ k. traverse index equal home number f t (some k)))
        (luah_next_lem p key e le)
      ∙ go_on_lem p (λ k. traverse index equal home number f t (some k))
          (first_from entry_at (total - p) p) le (first_from-Firsts entry_at (total - p) p)
          (λ j k v at_j ge past.
            traverse-entries_from f (suc j) (some k) few (find_index_lem j k v few at_j)
              (omega arith) (omega arith))

  -- On a sound table with fewer than 2 ^ 31 slots and nodes together, the calls of `luaH_next` that start with nil and go on with the key of
  -- each entry give no error, and give the entries in order: those of the slots of the array part that
  -- have a value, and then those of the nodes that have one.
  pub traverse-entries :
      total < 2 ^ 31
      → traverse index equal home number (suc total) t none ≡ some (entries_from entry_at total 0)
  unfolding find_index
  traverse-entries few =
      traverse-entries_from (suc total) 0 none few refl (omega arith) (omega arith)
      ∙ ap (λ n. some (entries_from entry_at n 0)) {x = total - 0} {y = total} (omega arith)

  -- On a sound table with fewer than 2 ^ 31 slots, a key has a value exactly if an entry of the traversal has an equal key
  -- and that value.
  pub get_iff :
      (x : K) (v : V)
      → (get index equal home t x ≡ some v)
        ↔ ((j : ℕ) × (k : K) × (j < total) × (entry_at j ≡ some (k, v)) × (equal k x ≡ true))
  unfolding get
  get_iff x v = (there, back)
    where
      there :
          get index equal home t x ≡ some v
          → (j : ℕ) × (k : K) × (j < total) × (entry_at j ≡ some (k, v)) × (equal k x ≡ true)
      there e = elim (Bool-cases (in_array index t x)) [
        | inl q ↦
            let slot : t.array (index x - 1) ≡ some v = grind arith in
            let whole : suc (index x - 1) ≡ index x = ground arith in
            let lt : index x - 1 < t.sizearray = ground arith in
            (
              index x - 1,
              number (suc (index x - 1)),
              omega (arith, lt),
              entry_slot (index x - 1) lt ∙ rw (slot, slot_entry) refl,
              subst (λ i. equal (number i) x ≡ true) (sym whole)
                  (laws.number_of_index x (omega arith)),
            )
        | inr q ↦
            let found : value_of equal (home t.hash.size) t.hash x ≡ some v = grind arith in
            let (i, k, key, s, value) =
              (value_of_iff equal (home t.hash.size) t.hash x v sound.hash_table hash_laws).0
                found in
            let inside = (key_inside equal (home t.hash.size) t.hash i k sound.hash_table key).0 in
            (
              i + t.sizearray,
              k,
              omega (arith, inside),
              entry_node (i + t.sizearray) (omega arith)
                  ∙ ap (node_item t.hash) {x = i + t.sizearray - t.sizearray} {y = i} (omega arith)
                  ∙ (node_item_lem t.hash i k v).1 (key, value),
              s,
            )
      ]

      back :
          (j : ℕ) × (k : K) × (j < total) × (entry_at j ≡ some (k, v)) × (equal k x ≡ true)
          → get index equal home t x ≡ some v
      back (j, k, lt, e, s) = elim (Bool-cases (ltb j t.sizearray)) [
        | inl q ↦
            let lt' = ltb→lt j t.sizearray q in
            let here : slot_entry number t j ≡ some (k, v) = sym (entry_slot j lt') ∙ e in
            let key : k ≡ number (suc j) = grind arith in
            let value : t.array j ≡ some v = grind arith in
            let place : index x ≡ suc j =
              sym (laws.same_index k x s)
              ∙ ap index key
              ∙ laws.index_of_number (suc j) (omega arith) in
            let inside : in_array index t x ≡ true = ground arith in
            rw inside
              (subst (λ i. t.array i ≡ some v) {x = j} {y = index x - 1} (omega arith) value)
        | inr q ↦
            let past = ltb-false j t.sizearray q in
            let (key, value) =
              (node_item_lem t.hash (j - t.sizearray) k v).0 (sym (entry_node j past) ∙ e) in
            let found =
              (value_of_iff equal (home t.hash.size) t.hash x v sound.hash_table hash_laws).1
                (j - t.sizearray, k, key, s, value) in
            let out : in_array index t x ≡ false = elim (Bool-cases (in_array index t x)) [
              | inl w ↦ let nothing = sound.outside x w in absurd (grind arith)
              | inr w ↦ w
            ] in
            rw out found
      ]
