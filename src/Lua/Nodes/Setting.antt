-- ===== src/Lua/Nodes/Setting.antt =====
-- lua515/ltable.c: `luaH_set` and the assignment that follows it, as an update of a finite map.
use lua_engine.Base.{
  ℕ, zero, suc, ◌≤◌, ◌≡◌, ◌≢◌, ◌↔◌, refl, sym, subst, Bool, true, Option, none, some, if◌then◌else◌,
  arith, inl, inr, Bool-cases,
}
use lua_engine.Lua.Nodes.{
  Node, Vector, Placement, placed, full, broken, Search, at, missing, endless, put, with_value,
  find_key, newkey, value_of, store, set_key, new_vector,
}
use lua_engine.Lua.Nodes.Links.{
  Reach, here, onward, used, used-same, used-fewer, IsChained, KeyLaws, Absent, Kept,
}
use lua_engine.Lua.Nodes.Entries.{
  IsTable, empty_table, chained, one_node, Looked, present, absent, find_key-Looked, value_of_iff,
}
use lua_engine.Lua.Nodes.Insert.{IsFull, Placing, put_in, no_room, newkey-Placing}

option_ext : {A : Type 0} → (x y : Option A) → ((a : A) → (x ≡ some a) ↔ (y ≡ some a)) → x ≡ y
option_ext none none same = refl
option_ext none (some b) same = (same b).1 refl
option_ext (some a) y same = sym ((same a).0 refl)

module _ {K V : Type 0} (equal : K → K → Bool) (home : K → ℕ) where
  module _ (t : ℕ → Node K V) (size last : ℕ) (rank : ℕ → ℕ)
      (c : IsChained equal home t size last rank) (i : ℕ) (a : K) (e : (t i).key ≡ some a)
      (v : Option V) where
    abbrev stored : ℕ → Node K V
    stored = put t i (with_value (t i) v)

    stored-Reach : (x y : ℕ) → Reach t x y → Reach stored x y
    unfolding put
    stored-Reach x y (here q) = here q
    stored-Reach x y (onward {j = m} q r) = onward {j = m} (ground arith) (stored-Reach m y r)

    stored-IsChained : IsChained equal home stored size last rank
    unfolding put
    stored-IsChained = record {
      last_inside = c.last_inside;
      proper = λ x b q. c.proper x b (ground arith);
      next_keyed = λ x y q. grind (arith, c.next_keyed);
      free_next = λ x q. grind (arith, c.free_next);
      free_value = λ x q. grind (arith, c.free_value);
      inside = λ x q. grind (arith, c.inside);
      ranked = λ x y q. grind (arith, c.ranked);
      bounded = λ x. omega (arith, c.bounded x, used-fewer t stored size (λ j q. ground arith));
      one_before = λ x y z q q'. grind (arith, c.one_before);
      above = λ x le lt. grind (arith, c.above);
      reached = λ x b q. stored-Reach (home b) x (c.reached x b (ground arith));
      owned = λ x b q. let (d, there, own) = c.owned x b (ground arith) in (d, ground arith, own);
      unique = λ x y b d q q' s. grind (arith, c.unique);
    }

  store-IsTable :
      (h : Vector K V) (i : ℕ) (a : K) (v : Option V)
      → IsTable equal home h
      → (h.node i).key ≡ some a
      → IsTable equal home (store h i v)
  store-IsTable h i a v (empty_table d l q) e = absurd (grind (arith, q))
  store-IsTable h i a v (chained d rank c) e =
      chained d rank (stored-IsChained h.node h.size h.lastfree rank c i a e v)

  -- The entries of a key are as before, but for the key stored to.
  store-value_of :
      (h : Vector K V) (i : ℕ) (a k : K) (v : Option V)
      → IsTable equal home h
      → KeyLaws equal home h.size
      → (h.node i).key ≡ some a
      → equal a k ≡ true
      → (x : K)
      → value_of equal home (store h i v) x ≡ (if equal k x then v else value_of equal home h x)
  unfolding put
  store-value_of h i a k v table laws e q x =
      let table' = store-IsTable h i a v table e in
      elim (Bool-cases (equal k x)) [
        | inl s ↦ rw s (
            option_ext _ _ (λ w. (
              (λ z.
                  let (j, b, f, s', there) =
                    (value_of_iff equal home (store h i v) x w table' laws).0 z in
                  let both : equal b a ≡ true =
                    laws.transitive b x a s' (laws.symmetric a x (laws.transitive a k x q s)) in
                  let same : j ≡ i =
                    one_node equal home (store h i v) j i b a table' f (grind arith) both in
                  grind arith),
              (λ z.
                  (value_of_iff equal home (store h i v) x w table' laws).1
                    (i, a, grind arith, laws.transitive a k x q s, grind arith)),
            )))
        | inr s ↦ rw s (
            option_ext _ _ (λ w. (
              (λ z.
                  let (j, b, f, s', there) =
                    (value_of_iff equal home (store h i v) x w table' laws).0 z in
                  let other : j ≢ i =
                    λ w'. absurd (grind (arith, laws.transitive, laws.symmetric)) in
                  (value_of_iff equal home h x w table laws).1
                    (j, b, grind arith, s', grind arith)),
              (λ z.
                  let (j, b, f, s', there) = (value_of_iff equal home h x w table laws).0 z in
                  let other : j ≢ i =
                    λ w'. absurd (grind (arith, laws.transitive, laws.symmetric)) in
                  (value_of_iff equal home (store h i v) x w table' laws).1
                    (j, b, grind arith, s', grind arith)),
            )))
      ]

  -- The same entries are the same finite map.
  Kept-value_of :
      (h h' : Vector K V)
      → IsTable equal home h
      → IsTable equal home h'
      → KeyLaws equal home h.size
      → KeyLaws equal home h'.size
      → Kept h.node h'.node × Kept h'.node h.node
      → (x : K) → value_of equal home h' x ≡ value_of equal home h x
  Kept-value_of h h' table table' laws laws' (forth, back) x = option_ext _ _ (λ w. (
    (λ z.
        let (i, a, e, q, there) = (value_of_iff equal home h' x w table' laws').0 z in
        let (j, e', there') = back i a w e there in
        (value_of_iff equal home h x w table laws).1 (j, a, e', q, there')),
    (λ z.
        let (i, a, e, q, there) = (value_of_iff equal home h x w table laws).0 z in
        let (j, e', there') = forth i a w e there in
        (value_of_iff equal home h' x w table' laws').1 (j, a, e', q, there')),
  ))

  -- What `luaH_set` and the assignment may give.
  pub data Setting (h : Vector K V) (k : K) (v : Option V) : Option (Vector K V) → Type 0 where
    done :
        {h' : Vector K V}
        → IsTable equal home h'
        → h'.size ≡ h.size
        → h'.is_dummy ≡ h.is_dummy
        → used h'.node h.size ≤ suc (used h.node h.size)
        → ((x : K) → value_of equal home h' x ≡ (if equal k x then v else value_of equal home h x))
        → Setting h k v (some h')
    no_room_for : Absent equal h.node k → IsFull equal home h → Setting h k v none

  store-used :
      (h : Vector K V) (i : ℕ) (v : Option V) → used (store h i v).node h.size ≡ used h.node h.size
  unfolding put
  store-used h i v = used-same h.node (store h i v).node h.size (λ j. grind arith)

  put_in-Setting :
      (h : Vector K V) (k : K) (v : Option V) (r : Placement K V)
      → IsTable equal home h
      → KeyLaws equal home h.size
      → Absent equal h.node k
      → equal k k ≡ true
      → Placing equal home h k r
      → Setting h k v (elim r [ placed h' i ↦ some (store h' i v) | full ↦ none | broken ↦ none ])
  put_in-Setting h k v (placed h' i) table laws new same (put_in table' size dummy e w more kept) =
      let laws' : KeyLaws equal home h'.size = subst (KeyLaws equal home) (sym size) laws in
      done (store-IsTable h' i k v table' e) size dummy
        (subst (λ m. used (store h' i v).node m ≤ suc (used h.node m)) size
          (omega (arith, more, store-used h' i v)))
        (λ x.
          rw
            (
              store-value_of h' i k k v table' laws' e same x,
              Kept-value_of h h' table table' laws laws' kept x,
            )
            refl)
  put_in-Setting h k v full table laws new same (no_room no_place) = no_room_for new no_place
  put_in-Setting h k v broken table laws new same none_placed = elim none_placed [ ]

  -- On a well-formed node vector, setting a key that equals itself ends in one of two ways. Either the
  -- vector is well-formed and as large as before, at most one more of its nodes has a key, the key has the
  -- value (none for nil), and every key that does not equal it has the value that it had; or no node
  -- has the key and there is no room: the vector is the common empty one, or all its nodes have keys.
  pub set_key-Setting :
      (h : Vector K V) (k : K) (v : Option V)
      → IsTable equal home h
      → KeyLaws equal home h.size
      → equal k k ≡ true
      → Setting h k v (set_key equal home h k v)
  unfolding set_key
  set_key-Setting h k v table laws same =
      found (find_key equal home h k) (find_key-Looked equal home h k table laws)
    where
      found :
          (r : Search)
          → Looked equal home h.node k r
          → Setting h k v (elim r [
            | at i ↦ some (store h i v)
            | missing ↦ elim (newkey equal home h k) [
              | placed h' i ↦ some (store h' i v)
              | full ↦ none
              | broken ↦ none
            ]
            | endless ↦ none
          ])
      found (at i) (present {a = a} e q) =
          done (store-IsTable h i a v table e) refl refl (omega (arith, store-used h i v))
            (store-value_of h i a k v table laws e q)
      found missing (absent new) =
          put_in-Setting h k v (newkey equal home h k) table laws new same
            (newkey-Placing equal home h k table laws new same)
      found endless none_found = elim none_found [ ]

  Setting-IsTable :
      (h h' : Vector K V) (k : K) (v : Option V) (r : Option (Vector K V))
      → Setting h k v r
      → r ≡ some h'
      → IsTable equal home h'
  Setting-IsTable h h' k v (some h'') (done table size dummy few values) e =
      subst (IsTable equal home) (grind arith) table
  Setting-IsTable h h' k v none (no_room_for new no_place) e = absurd (grind arith)

  pub set_key-IsTable :
      (h h' : Vector K V) (k : K) (v : Option V)
      → IsTable equal home h
      → KeyLaws equal home h.size
      → equal k k ≡ true
      → set_key equal home h k v ≡ some h'
      → IsTable equal home h'
  set_key-IsTable h h' k v table laws same e =
      Setting-IsTable h h' k v _ (set_key-Setting h k v table laws same) e

  -- A vector is empty as `setnodevector` makes it.
  pub new_vector-IsTable : (n : ℕ) → IsTable {V = V} equal home (new_vector n)
  new_vector-IsTable zero = empty_table refl refl (λ i. refl)
  new_vector-IsTable (suc n) =
      chained refl (λ i. 0)
        (record {
          last_inside = omega arith;
          proper = λ x b q. absurd (cc);
          next_keyed = λ x y q. absurd (cc);
          free_next = λ x q. refl;
          free_value = λ x q. refl;
          inside = λ x q. absurd (q refl);
          ranked = λ x y q. absurd (cc);
          bounded = λ x. omega arith;
          one_before = λ x y z q q'. absurd (cc);
          above = λ x le lt. absurd (omega arith);
          reached = λ x b q. absurd (cc);
          owned = λ x b q. absurd (cc);
          unique = λ x y b e q q' s. absurd (cc);
        })
