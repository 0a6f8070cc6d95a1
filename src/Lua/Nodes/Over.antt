-- ===== src/Lua/Nodes/Over.antt =====
-- lua515/ltable.c: `newkey` at a main position without a value.
use lua_engine.Base.{
  ℕ, suc, ◌≤◌, ◌≡◌, ◌≢◌, sym, ◌∙◌, Bool, true, none, ◌==◌, arith, eqb→eq, eqb→ne, Option-cases, inl,
  inr, Bool-cases,
}
use lua_engine.Lua.Nodes.{Node, put, is_some, with_key}
use lua_engine.Lua.Nodes.Links.{
  Reach, here, onward, used, used-more, used-same, used-fewer, IsChained, KeyLaws, Absent, Kept,
}

module _ {K V : Type 0} (equal : K → K → Bool) (home : K → ℕ) (t : ℕ → Node K V) (size last : ℕ)
    (rank : ℕ → ℕ) (k : K) where
  module _ (c : IsChained equal home t size last rank) (laws : KeyLaws equal home size)
      (new : Absent equal t k) (self : equal k k ≡ true) where
    abbrev pub over : ℕ → Node K V
    over = put t (home k) (with_key (t (home k)) k)

    -- The chains are as before.
    over-Reach : (i j : ℕ) → Reach t i j → Reach over i j
    unfolding put
    over-Reach i j (here e) = here e
    over-Reach i j (onward {j = m} e r) = onward (ground arith) (over-Reach m j r)

    keyed : (j : ℕ) → is_some (t j).key ≡ true → is_some (over j).key ≡ true
    unfolding put
    keyed j e = ground arith

    pub over-IsChained : (t (home k)).value ≡ none → IsChained equal home over size last rank
    unfolding put
    over-IsChained h = record {
      last_inside = c.last_inside;
      proper = λ i a e. grind (arith, c.proper, self);
      next_keyed = λ i j e. grind (arith, c.next_keyed);
      free_next = λ i e. grind (arith, c.free_next);
      free_value = λ i e. grind (arith, c.free_value);
      inside = λ i e. grind (arith, c.inside, laws.home_inside);
      ranked = λ i j e. grind (arith, c.ranked);
      bounded = λ i. omega (arith, c.bounded i, used-fewer t over size keyed);
      one_before = λ i j x e e'. grind (arith, c.one_before);
      above = λ i le lt. grind (arith, c.above);
      reached = λ i a e. elim (Bool-cases (i == home k)) [
        | inl q ↦
            let same = eqb→eq i (home k) q in
            let own : home a ≡ home k = grind arith in here (own ∙ sym same)
        | inr q ↦ over-Reach (home a) i (c.reached i a (ground arith))
      ];
      owned = λ i a e. elim (Bool-cases (home a == home k)) [
        | inl q ↦ let same = eqb→eq (home a) (home k) q in (k, ground arith, sym same)
        | inr q ↦
            let other = eqb→ne (home a) (home k) q in
            let elsewhere : i ≢ home k = λ q'. other (grind arith) in
            let (b, found, own) = c.owned i a (ground arith) in (b, ground arith, own)
      ];
      unique = λ i j a b e e' s. grind (arith, c.unique, new, laws.symmetric);
    }

    pub over-Kept : (t (home k)).value ≡ none → Kept t over × Kept over t
    unfolding put
    over-Kept h =
        ((λ i a v e w. (i, grind arith, grind arith)), (λ i a v e w. (i, grind arith, grind arith)))

    pub over-used : (t (home k)).value ≡ none → used over size ≤ suc (used t size)
    unfolding put
    over-used h = elim (Option-cases (t (home k)).key) [
      | inl e ↦ omega (
        arith,
        used-more t over (home k) size (λ j ne. ground arith) e (ground arith) (laws.home_inside k),
      )
      | inr (c0, e) ↦ omega (arith, used-same t over size (λ j. grind arith))
    ]
