-- ===== src/Lua/Nodes/Behind.antt =====
-- lua515/ltable.c: the branch of `newkey` that puts the key in a free node behind the main position.
use lua_engine.Base.{
  ℕ, suc, ◌+◌, ◌<◌, ◌≡◌, ◌≢◌, sym, ◌∙◌, subst, Bool, true, none, some, ◌==◌, if◌then◌else◌, arith,
  eqb→eq, leb, inl, inr, Bool-cases,
}
use lua_engine.Lua.Nodes.{Node, put, is_some, with_next}
use lua_engine.Lua.Nodes.Links.{
  Reach, here, onward, used, used-more, IsChained, KeyLaws, Absent, Kept,
}

module _ {K V : Type 0} (equal : K → K → Bool) (home : K → ℕ) (t : ℕ → Node K V) (size last : ℕ)
    (rank : ℕ → ℕ) (k : K) (c : IsChained equal home t size last rank)
    (laws : KeyLaws equal home size) (new : Absent equal t k) (self : equal k k ≡ true) (n : ℕ)
    (free : (t n).key ≡ none) (inside : n < size)
    (filled : (i : ℕ) → n < i → i < size → (t i).key ≢ none) (c0 : K)
    (found : (t (home k)).key ≡ some c0) (own : home c0 ≡ home k) where
  abbrev pub behind : ℕ → Node K V
  behind =
      put (put t (home k) (with_next (t (home k)) n)) n
        (record { key = some k; value = none; next = (t (home k)).next })

  abbrev new_rank : ℕ → ℕ
  new_rank x =
      if x == n then rank (home k) else if leb (rank (home k)) (rank x) then rank x + 1 else rank x

  apart : home k ≢ n
  apart e = let clash : (t (home k)).key ≡ none = subst (λ x. (t x).key ≡ none) (sym e) free in cc

  behind-Reach : (i j : ℕ) → Reach t i j → Reach behind i j
  unfolding put
  behind-Reach i j (here e) = here e
  behind-Reach i j (onward {j = m} e r) = elim (Bool-cases (i == home k)) [
    | inl q ↦
        onward {j = n} (grind (arith, apart)) (onward {j = m} (ground arith) (behind-Reach m j r))
    | inr q ↦ onward {j = m} (grind (arith, c.free_next)) (behind-Reach m j r)
  ]

  keyed : (j : ℕ) → j ≢ n → is_some (behind j).key ≡ is_some (t j).key
  unfolding put
  keyed j e = ground arith

  pub behind-used : used behind size ≡ suc (used t size)
  unfolding put
  behind-used = used-more t behind n size keyed free (ground arith) inside

  pub behind-IsChained : IsChained equal home behind size n new_rank
  unfolding put
  behind-IsChained = record {
    last_inside = omega (arith, inside);
    proper = λ i a e. grind (arith, c.proper, self);
    next_keyed = λ i j e. grind (arith, c.next_keyed);
    free_next = λ i e. grind (arith, c.free_next);
    free_value = λ i e. grind (arith, c.free_value);
    inside = λ i e. grind (arith, c.inside);
    ranked = λ i j e. grind (arith, c.ranked, c.next_keyed, c.free_next, apart);
    bounded = λ i. grind (arith, behind-used, c.bounded);
    one_before = λ i j x e e'. grind (arith, c.one_before, c.next_keyed, c.free_next, apart);
    above = λ i le lt. grind (arith, filled);
    reached = λ i a e. elim (Bool-cases (i == n)) [
      | inl q ↦
          let same : i ≡ n = eqb→eq i n q in
          let main : home a ≡ home k = grind arith in
          onward {j = n} (grind (arith, apart)) (here (sym same))
      | inr q ↦ behind-Reach (home a) i (c.reached i a (grind arith))
    ];
    owned = λ i a e. elim (Bool-cases (i == n)) [
      | inl q ↦
          let main : home a ≡ home k = grind arith in (c0, grind (arith, apart), own ∙ sym main)
      | inr q ↦ let (b, there, main) = c.owned i a (grind arith) in (b, grind arith, main)
    ];
    unique = λ i j a b e e' s. grind (arith, c.unique, new, laws.symmetric);
  }

  pub behind-Kept : Kept t behind × Kept behind t
  unfolding put
  behind-Kept = (
    (λ i a v e w. let other : i ≢ n = λ q. grind arith in (i, grind arith, grind arith)),
    (λ i a v e w. let other : i ≢ n = λ q. grind arith in (i, grind arith, grind arith)),
  )

  pub behind-slot : ((behind n).key ≡ some k) × ((behind n).value ≡ none)
  unfolding put
  behind-slot = (ground arith, ground arith)
