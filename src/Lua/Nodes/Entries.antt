-- ===== src/Lua/Nodes/Entries.antt =====
-- lua515/ltable.c: the node vector as a finite map.
use lua_engine.Base.{
  ℕ, zero, suc, ◌<◌, ◌≡◌, ◌⊎◌, ◌↔◌, subst, Bool, true, false, none, some, ◌==◌, arith, eqb→eq,
  eqb→ne, Option-cases, inl, inr, Bool-cases,
}
use lua_engine.Lua.Nodes.{
  Node, Vector, Search, at, missing, endless, empty_node, has_key, find, find_key, value_of,
}
use lua_engine.Lua.Nodes.Links.{Reach, used-le, IsChained, KeyLaws, Absent}
use lua_engine.Lua.Nodes.Walks.{find-at, find-missing}

module _ {K V : Type 0} (equal : K → K → Bool) (home : K → ℕ) where
  -- The common empty node, or chains in a vector of its own.
  pub data IsTable (h : Vector K V) : Type 0 where
    empty_table : h.is_dummy ≡ true → h.lastfree ≡ 0 → ((i : ℕ) → h.node i ≡ empty_node) → IsTable h
    chained :
        h.is_dummy ≡ false
        → (rank : ℕ → ℕ) → IsChained equal home h.node h.size h.lastfree rank
        → IsTable h

  -- A node has the key, with the value.
  abbrev pub HasEntry : (ℕ → Node K V) → K → V → Type 0
  HasEntry t k v =
      (i : ℕ) × (a : K) × ((t i).key ≡ some a) × (equal a k ≡ true) × ((t i).value ≡ some v)

  -- What the search for a key finds.
  pub data Looked (t : ℕ → Node K V) (k : K) : Search → Type 0 where
    present : {i : ℕ} {a : K} → (t i).key ≡ some a → equal a k ≡ true → Looked t k (at i)
    absent : Absent equal t k → Looked t k missing

  held :
      (t : ℕ → Node K V) (k : K) (n : ℕ)
      → ((i : ℕ) × (a : K) × ((t i).key ≡ some a) × (equal a k ≡ true))
        ⊎ ((i : ℕ) (a : K) → i < n → (t i).key ≡ some a → equal a k ≡ false)
  held t k zero = inr (λ i a lt e. absurd (omega arith))
  held t k (suc n) = elim (held t k n) [
    | inl found ↦ inl found
    | inr lacks ↦ elim (Bool-cases (has_key equal home (t n) k)) [
      | inl h ↦ elim (Option-cases (t n).key) [
        | inl e ↦ absurd (grind arith)
        | inr (b, e) ↦ inl (n, b, e, grind arith)
      ]
      | inr h ↦ inr (λ i a lt e. elim (Bool-cases (i == n)) [
        | inl q ↦ let last : i ≡ n = eqb→eq i n q in grind arith
        | inr q ↦ let other = eqb→ne i n q in lacks i a (omega arith) e
      ])
    ]
  ]

  -- In a well-formed node vector, the search for a key along the chain of its main position ends: at a
  -- node that has an equal key, or with none, and then no node of the vector has one.
  pub find_key-Looked :
      (h : Vector K V) (k : K)
      → IsTable h
      → KeyLaws equal home h.size
      → Looked h.node k (find_key equal home h k)
  unfolding find_key find
  find_key-Looked h k (empty_table d l e) laws =
      rw (e (home k)) (absent (λ i a f. absurd (grind (arith, e))))
  find_key-Looked h k (chained d rank c) laws =
      let short : (i : ℕ) → rank i < suc h.size =
        λ i. omega (arith, c.bounded i, used-le h.node h.size) in
      elim (held h.node k h.size) [
        | inl (i, a, e, q) ↦
            let on_chain = subst (λ x. Reach h.node x i) (laws.same_home a k q) (c.reached i a e) in
            rw
              (find-at equal home h.node h.size h.lastfree rank c (suc h.size) (home k) i k a laws e
                q on_chain (short (home k)))
              (present e q)
        | inr lacks ↦
            let none_has : Absent equal h.node k =
              λ i a e. lacks i a (c.inside i (λ w. grind arith)) e in
            rw
              (find-missing equal home h.node h.size h.lastfree rank c (suc h.size) (home k) k
                none_has (short (home k)))
              (absent none_has)
      ]

  pub one_node :
      (h : Vector K V) (i j : ℕ) (a b : K)
      → IsTable h
      → (h.node i).key ≡ some a
      → (h.node j).key ≡ some b
      → equal a b ≡ true
      → i ≡ j
  one_node h i j a b (empty_table d l e) f g q = absurd (grind (arith, e))
  one_node h i j a b (chained d rank c) f g q = c.unique i j a b f g q

  -- A node with a key is inside the vector, and its key equals itself.
  pub key_inside :
      (h : Vector K V) (i : ℕ) (a : K)
      → IsTable h
      → (h.node i).key ≡ some a
      → (i < h.size) × (equal a a ≡ true)
  key_inside h i a (empty_table d l e) f = absurd (grind (arith, e))
  key_inside h i a (chained d rank c) f = (c.inside i (λ w. grind arith), c.proper i a f)

  -- A node with a value has a key.
  pub key_of_value :
      (h : Vector K V)
      → IsTable h
      → (i : ℕ) (v : V) → (h.node i).value ≡ some v
      → (k : K) × ((h.node i).key ≡ some k)
  key_of_value h (empty_table d l e) i v f = absurd (grind (arith, e))
  key_of_value h (chained d rank c) i v f = elim (Option-cases (h.node i).key) [
    | inl e ↦ absurd (grind (arith, c.free_value))
    | inr found ↦ found
  ]

  Looked-entry :
      (h : Vector K V) (k : K) (v : V) (r : Search)
      → IsTable h
      → KeyLaws equal home h.size
      → Looked h.node k r
      → (elim r [ at i ↦ (h.node i).value | missing ↦ none | endless ↦ none ] ≡ some v)
        ↔ HasEntry h.node k v
  Looked-entry h k v (at i) table laws (present {a = a} e q) = (
    (λ w. (i, a, e, q, w)),
    (λ (j, b, e', q', w).
        let same : j ≡ i =
          one_node h j i b a table e' e (laws.transitive b k a q' (laws.symmetric a k q)) in
        subst (λ x. (h.node x).value ≡ some v) same w),
  )
  Looked-entry h k v missing table laws (absent lacks) =
      ((λ w. absurd (cc)), (λ (j, b, e', q', w). absurd (grind (arith, lacks))))
  Looked-entry h k v endless table laws none_found = elim none_found [ ]

  pub value_of_iff :
      (h : Vector K V) (k : K) (v : V)
      → IsTable h
      → KeyLaws equal home h.size
      → (value_of equal home h k ≡ some v) ↔ HasEntry h.node k v
  unfolding value_of
  value_of_iff h k v table laws =
      Looked-entry h k v (find_key equal home h k) table laws (find_key-Looked h k table laws)
