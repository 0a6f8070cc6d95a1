-- ===== src/Lua/Nodes/Links.antt =====
-- lua515/ltable.c: what is kept of the chains of nodes.
use lua_engine.Base.{
  ℕ, zero, suc, ◌+◌, ◌≤◌, ◌<◌, ◌≡◌, ◌≢◌, refl, sym, ap, subst, Bool, true, false, none, some, ◌==◌,
  if◌then◌else◌, arith, Option-cases, eqb→eq, eqb→ne, inl, inr, Bool-cases,
}
use lua_engine.Lua.Nodes.{Node, is_some}

module _ {K : Type 0} (equal : K → K → Bool) (home : K → ℕ) where
  -- What is known of `equal` and `home`, on a vector of the size.
  pub record KeyLaws (size : ℕ) : Type 0 where
    pub symmetric : (a b : K) → equal a b ≡ true → equal b a ≡ true
    pub transitive : (a b c : K) → equal a b ≡ true → equal b c ≡ true → equal a c ≡ true
    pub same_home : (a b : K) → equal a b ≡ true → home a ≡ home b
    pub home_inside : (a : K) → home a < size

module _ {K V : Type 0} where
  -- The second node is on the chain from the first.
  pub data Reach (t : ℕ → Node K V) : ℕ → ℕ → Type 0 where
    here : {i j : ℕ} → i ≡ j → Reach t i j
    onward : {i j k : ℕ} → (t i).next ≡ some j → Reach t j k → Reach t i k

  -- The nodes below `n` that have a key.
  unfoldable pub used : (ℕ → Node K V) → ℕ → ℕ
  used t zero = 0
  used t (suc n) = (if is_some (t n).key then 1 else 0) + used t n

  pub used-le : (t : ℕ → Node K V) (n : ℕ) → used t n ≤ n
  unfolding used
  used-le t zero = omega arith
  used-le t (suc n) = ground (arith, used-le t n)

  used-others :
      (t t' : ℕ → Node K V) (i n : ℕ)
      → ((j : ℕ) → j ≢ i → is_some (t' j).key ≡ is_some (t j).key)
      → n ≤ i
      → used t' n ≡ used t n
  unfolding used
  used-others t t' i zero same le = refl
  used-others t t' i (suc n) same le =
      rw (same n (omega arith), used-others t t' i n same (omega arith)) refl

  -- A key in a node that had none is one more.
  pub used-more :
      (t t' : ℕ → Node K V) (i n : ℕ)
      → ((j : ℕ) → j ≢ i → is_some (t' j).key ≡ is_some (t j).key)
      → (t i).key ≡ none
      → is_some (t' i).key ≡ true
      → i < n
      → used t' n ≡ suc (used t n)
  unfolding used
  used-more t t' i zero same empty full lt = absurd (omega arith)
  used-more t t' i (suc n) same empty full lt = elim (Bool-cases (n == i)) [
    | inl e ↦
        let last = eqb→eq n i e in
        let now : is_some (t' n).key ≡ true =
          subst (λ x. is_some (t' x).key ≡ true) (sym last) full in
        let before : is_some (t n).key ≡ false =
          subst (λ x. is_some (t x).key ≡ false) (sym last) (ap is_some empty) in
        rw (now, before) (omega (arith, used-others t t' i n same (omega arith)))
    | inr e ↦
        let other = eqb→ne n i e in
        rw (same n other) (omega (arith, used-more t t' i n same empty full (omega arith)))
  ]

  pub used-fewer :
      (t t' : ℕ → Node K V) (n : ℕ)
      → ((j : ℕ) → is_some (t j).key ≡ true → is_some (t' j).key ≡ true)
      → used t n ≤ used t' n
  unfolding used
  used-fewer t t' zero more = omega arith
  used-fewer t t' (suc n) more = elim (Bool-cases (is_some (t n).key)) [
    | inl e ↦ rw (e, more n e) (omega (arith, used-fewer t t' n more))
    | inr e ↦ rw e (omega (arith, used-fewer t t' n more))
  ]

  pub used-same :
      (t t' : ℕ → Node K V) (n : ℕ)
      → ((j : ℕ) → is_some (t' j).key ≡ is_some (t j).key)
      → used t' n ≡ used t n
  unfolding used
  used-same t t' zero same = refl
  used-same t t' (suc n) same = rw (same n, used-same t t' n same) refl

  pub used-full : (t : ℕ → Node K V) (n : ℕ) → ((i : ℕ) → i < n → (t i).key ≢ none) → used t n ≡ n
  unfolding used
  used-full t zero keyed = refl
  used-full t (suc n) keyed = elim (Option-cases (t n).key) [
    | inl e ↦ absurd (keyed n (omega arith) e)
    | inr (a, e) ↦ rw e (omega (arith, used-full t n (λ i lt. keyed i (omega arith))))
  ]

  pub used-none : (t : ℕ → Node K V) (n : ℕ) → ((i : ℕ) → (t i).key ≡ none) → used t n ≡ 0
  unfolding used
  used-none t zero free = refl
  used-none t (suc n) free = rw (free n, used-none t n free) refl

  -- Each key that has a value in `t` has it in `t'`, maybe in another node.
  abbrev pub Kept : (ℕ → Node K V) → (ℕ → Node K V) → Type 0
  Kept t t' =
      (i : ℕ) (a : K) (v : V)
      → (t i).key ≡ some a
      → (t i).value ≡ some v
      → (j : ℕ) × ((t' j).key ≡ some a) × ((t' j).value ≡ some v)

  module _ (equal : K → K → Bool) where
    -- No node has a key that is equal to `k`.
    abbrev pub Absent : (ℕ → Node K V) → K → Type 0
    Absent t k = (i : ℕ) (a : K) → (t i).key ≡ some a → equal a k ≡ false

  module _ (equal : K → K → Bool) (home : K → ℕ) where
    -- `rank` falls along a chain, so that a walk ends.
    pub record IsChained (t : ℕ → Node K V) (size last : ℕ) (rank : ℕ → ℕ) : Type 0 where
      pub last_inside : last ≤ size
      pub proper : (i : ℕ) (a : K) → (t i).key ≡ some a → equal a a ≡ true
      pub next_keyed : (i j : ℕ) → (t i).next ≡ some j → (t j).key ≢ none
      pub free_next : (i : ℕ) → (t i).key ≡ none → (t i).next ≡ none
      pub free_value : (i : ℕ) → (t i).key ≡ none → (t i).value ≡ none
      pub inside : (i : ℕ) → (t i).key ≢ none → i < size
      pub ranked : (i j : ℕ) → (t i).next ≡ some j → rank j < rank i
      pub bounded : (i : ℕ) → rank i ≤ used t size
      pub one_before : (i j k : ℕ) → (t i).next ≡ some k → (t j).next ≡ some k → i ≡ j
      pub above : (i : ℕ) → last ≤ i → i < size → (t i).key ≢ none
      pub reached : (i : ℕ) (k : K) → (t i).key ≡ some k → Reach t (home k) i
      pub owned :
          (i : ℕ) (k : K)
          → (t i).key ≡ some k
          → (c : K) × ((t (home k)).key ≡ some c) × (home c ≡ home k)
      pub unique :
          (i j : ℕ) (a b : K) → (t i).key ≡ some a → (t j).key ≡ some b → equal a b ≡ true → i ≡ j
