-- ===== src/Lua/Tables/Resized.antt =====
-- lua515/ltable.c: `resize` with a node vector of some size.
use lua_engine.Base.{
  ℕ, zero, suc, ◌+◌, ◌-◌, ◌^◌, ◌≤◌, ◌<◌, ◌≡◌, refl, sym, ap, ◌∙◌, subst, Bool, Option, none, some,
  ltb, if◌then◌else◌, arith,
}
use lua_engine.Lua.Nodes.{new_vector}
use lua_engine.Lua.Nodes.Links.{used, used-none}
use lua_engine.Lua.Nodes.Setting.{new_vector-IsTable}
use lua_engine.Lua.Tables.{LuaTable, get, node_item, slot_item, reinsert, refill}
use lua_engine.Lua.Tables.Sound.{IndexLaws, IsSound}
use lua_engine.Lua.Tables.Refill.{outsiders, among, Refilled, refilled, HasRoom, reinsert-Refilled}
use lua_engine.Lua.Tables.Resize.{
  new_vector-empty, nodes_proper, slots_proper, sized, both_loops_lem,
}

-- A new vector has all its nodes free.
used-new_vector : (K V : Type 0) (m s : ℕ) → used {V = V} (new_vector {K = K} m).node s ≡ 0
used-new_vector K V zero s = used-none _ s (λ i. refl)
used-new_vector K V (suc m) s = used-none _ s (λ i. refl)

new_vector-HasRoom :
    {K V : Type 0} (a : ℕ → Option V) (n m k : ℕ)
    → k ≤ m
    → HasRoom {K = K} (record { array = a; sizearray = n; hash = new_vector m }) k
new_vector-HasRoom {K} {V} a n zero k le = record {
  enough = omega (arith, used-new_vector K V zero 1);
  own_nodes = λ pos. absurd (omega arith);
}
new_vector-HasRoom {K} {V} a n (suc m) k le = record {
  enough = omega (arith, used-new_vector K V (suc m) (suc m));
  own_nodes = λ pos. refl;
}

module _ {K V : Type 0} (index : K → ℕ) (equal : K → K → Bool) (home : ℕ → K → ℕ)
    (number : ℕ → K) where
  -- How many entries of a table need a node when the array part gets `n` slots.
  abbrev pub moves : LuaTable K V → ℕ → ℕ
  moves old n =
      outsiders index (slot_item index equal home number old) n (old.sizearray - n)
      + outsiders index (node_item old.hash) n old.hash.size

  pub data Resized (old : LuaTable K V) (n m : ℕ) : Option (LuaTable K V) → Type 0 where
    resized :
        {t : LuaTable K V}
        → IsSound index equal home t
        → t.sizearray ≡ n
        → t.hash.size ≡ (new_vector {K = K} {V = V} m).size
        → t.hash.is_dummy ≡ (new_vector {K = K} {V = V} m).is_dummy
        → used t.hash.node t.hash.size ≤ moves old n
        → ((x : K) → get index equal home t x ≡ get index equal home old x)
        → Resized old n m (some t)

  module _ (laws : IndexLaws index equal home number) (old : LuaTable K V)
      (sound : IsSound index equal home old) (limit : old.sizearray < 2 ^ 31) (n m : ℕ)
      (array : ℕ → Option V)
      (empty : (i : ℕ) → i < n → array i ≡ (if ltb i old.sizearray then old.array i else none))
      (e : ℕ) (power : (new_vector {K = K} {V = V} m).size ≡ 2 ^ e) (enough : moves old n ≤ m) where
    abbrev start : LuaTable K V
    start = sized index equal home number laws old sound limit n m array empty

    start-IsSound : IsSound index equal home start
    start-IsSound = record {
      exponent = e;
      size_power = power;
      hash_table = new_vector-IsTable equal (home start.hash.size) m;
      outside = λ x inside. new_vector-empty index equal (home start.hash.size) m x;
    }

    abbrev from_slots : ℕ
    from_slots = outsiders index (slot_item index equal home number old) n (old.sizearray - n)

    abbrev from_nodes : ℕ → ℕ
    from_nodes a = outsiders index (node_item old.hash) a old.hash.size

    start_room : HasRoom start (moves old n)
    start_room = new_vector-HasRoom array n m (moves old n) enough

    last-Resized :
        (t : LuaTable K V)
        → t.sizearray ≡ n
        → t.hash.size ≡ start.hash.size
        → t.hash.is_dummy ≡ start.hash.is_dummy
        → used t.hash.node t.hash.size ≤ from_slots
        → ((x : K)
            → get index equal home t x
              ≡ among index equal
                  (slot_item index equal home number old)
                  (old.sizearray - n)
                  x
                  (get index equal home start x))
        → (r : Option (LuaTable K V))
        → Refilled index equal home (node_item old.hash) old.hash.size t r
        → Resized old n m r
    last-Resized t array' size dummy few values none none_filled = elim none_filled [ ]
    last-Resized t array' size dummy few values (some t')
          (refilled sound' array'' size' dummy' few' values') =
        let more : used t'.hash.node t.hash.size ≤ from_nodes n + used t.hash.node t.hash.size =
          subst (λ a. used t'.hash.node t.hash.size ≤ from_nodes a + used t.hash.node t.hash.size)
            array' few' in
        resized sound' (array'' ∙ array') (size' ∙ size) (dummy' ∙ dummy)
          (subst (λ s. used t'.hash.node s ≤ moves old n) (sym size') (omega (arith, more, few)))
          (λ x.
            values' x
            ∙ ap (among index equal (node_item old.hash) old.hash.size x) (values x)
            ∙ both_loops_lem index equal home number laws old sound limit n m array empty x)

    nodes-Resized :
        (r : Option (LuaTable K V))
        → Refilled index equal home
            (slot_item index equal home number old)
            (old.sizearray - n)
            start
            r
        → Resized old n m (elim r [
          | none ↦ none
          | some t ↦ reinsert index equal home (node_item old.hash) old.hash.size t
        ])
    nodes-Resized none none_filled = elim none_filled [ ]
    nodes-Resized (some t) (refilled sound' array' size dummy few values) =
        let few_slots : used t.hash.node t.hash.size ≤ from_slots =
          subst (λ s. used t.hash.node s ≤ from_slots) (sym size)
            (omega (arith, few, used-new_vector K V m start.hash.size)) in
        let left : from_nodes t.sizearray + used t.hash.node t.hash.size ≤ t.hash.size =
          omega (arith, few_slots, size, start_room.enough, ap from_nodes array') in
        last-Resized t array' size dummy few_slots values _ (
          reinsert-Refilled index equal home number laws (node_item old.hash)
            (nodes_proper index equal home number laws old sound limit) old.hash.size t sound'
            (record {
              enough = left;
              own_nodes =
                  λ pos. dummy ∙ start_room.own_nodes (omega (arith, pos, ap from_nodes array'));
            }))

    pub refill-Resized : Resized old n m (refill index equal home number old start)
    unfolding refill
    refill-Resized = nodes-Resized _ (
        reinsert-Refilled index equal home number laws (slot_item index equal home number old)
          (slots_proper index equal home number laws old sound limit) (old.sizearray - n) start
          start-IsSound (new_vector-HasRoom array n m _ (omega (arith, enough))))
