-- ===== src/Lua/Nodes/Moved.antt =====
-- lua515/ltable.c: the branch of `newkey` that moves a node out of the main position.
use lua_engine.Base.{
  ℕ, suc, ◌<◌, ◌≡◌, ◌≢◌, sym, ap, ◌∙◌, subst, Bool, true, false, none, some, ◌==◌, if◌then◌else◌,
  arith, ◌⊎◌, eqb→eq, eqb→ne, inl, inr, Bool-cases,
}
use lua_engine.Lua.Nodes.{Node, put, is_some, with_next}
use lua_engine.Lua.Nodes.Links.{
  Reach, here, onward, used, used-more, IsChained, KeyLaws, Absent, Kept,
}

module _ {K V : Type 0} (equal : K → K → Bool) (home : K → ℕ) (t : ℕ → Node K V) (size last : ℕ)
    (rank : ℕ → ℕ) (k : K) (c : IsChained equal home t size last rank)
    (laws : KeyLaws equal home size) (new : Absent equal t k) (self : equal k k ≡ true) (n : ℕ)
    (free : (t n).key ≡ none) (inside : n < size)
    (filled : (i : ℕ) → n < i → i < size → (t i).key ≢ none) (c0 : K)
    (found : (t (home k)).key ≡ some c0) (foreign : home c0 ≢ home k) (prev : ℕ)
    (tied : (t prev).next ≡ some (home k)) where
  abbrev pub linked : ℕ → Node K V
  linked = put t prev (with_next (t prev) n)

  abbrev pub moved : ℕ → Node K V
  moved =
      put (put linked n (linked (home k))) (home k)
        (record { key = some k; value = none; next = none })

  abbrev new_rank : ℕ → ℕ
  new_rank x = if x == n then rank (home k) else rank x

  -- Where a node has gone.
  abbrev pub goes : ℕ → ℕ
  goes x = if x == home k then n else x

  apart : home k ≢ n
  apart e = let clash : (t (home k)).key ≡ none = subst (λ x. (t x).key ≡ none) (sym e) free in cc

  not_itself : prev ≢ home k
  not_itself e = let less = c.ranked prev (home k) tied in absurd (grind arith)

  not_free : prev ≢ n
  not_free e = let clash : (t n).key ≢ none = λ q. grind (arith, c.free_next) in clash free

  -- Where the entry of a node comes from.
  abbrev comes : ℕ → ℕ
  comes x = if x == n then home k else x

  moved_next : (i m : ℕ) → i ≢ n → (t i).next ≡ some m → (moved (goes i)).next ≡ some (goes m)
  unfolding put
  moved_next i m h e = elim (Bool-cases (i == home k)) [
    | inl q ↦
        let same : i ≡ home k = eqb→eq i (home k) q in
        let less : rank m < rank i = c.ranked i m e in
        let other : m ≢ home k = λ q'. absurd (grind arith) in grind (arith, apart, not_itself)
    | inr q ↦ elim (Bool-cases (i == prev)) [
      | inl q' ↦
          let same : i ≡ prev = eqb→eq i prev q' in
          let last : m ≡ home k = grind arith in grind (arith, apart, not_itself)
      | inr q' ↦
          let other : m ≢ home k = λ w. eqb→ne i prev q' (grind (arith, c.one_before)) in
          grind (arith, apart, not_itself)
    ]
  ]

  moved-Reach : (i j : ℕ) → i ≢ n → Reach t i j → Reach moved (goes i) (goes j)
  moved-Reach i j h (here e) = here (ap goes e)
  moved-Reach i j h (onward {j = m} e r) =
      onward {j = goes m} (moved_next i m h e)
        (moved-Reach m j (λ q. c.next_keyed i m e (grind arith)) r)

  -- A link of the new chains comes from one of the old.
  next_back :
      (i x : ℕ)
      → (moved i).next ≡ some x
      → (y : ℕ) × ((t (comes i)).next ≡ some y) × (x ≡ goes y) × (i ≢ home k) × (y ≢ n)
  unfolding put
  next_back i x e = elim (Bool-cases (i == prev)) [
    | inl q ↦
        let same : i ≡ prev = eqb→eq i prev q in
        (
          home k,
          grind (arith, not_free, tied),
          grind (arith, apart, not_itself, not_free),
          grind (arith, not_itself),
          apart,
        )
    | inr q ↦
        let other : i ≢ prev = eqb→ne i prev q in
        let main : i ≢ home k = λ w. grind arith in
        let there : (t (comes i)).next ≡ some x = grind (arith, not_itself) in
        let far : x ≢ n = λ w. c.next_keyed (comes i) x there (grind arith) in
        let past : x ≢ home k = λ w. absurd (other (grind (arith, c.one_before, c.ranked))) in
        (x, there, grind arith, main, far)
  ]

  -- A key of the new nodes is the new one, or comes from an old node.
  key_back :
      (i : ℕ) (a : K)
      → (moved i).key ≡ some a
      → ((i ≡ home k) × (a ≡ k)) ⊎ ((i ≢ home k) × ((t (comes i)).key ≡ some a))
  unfolding put
  key_back i a e = elim (Bool-cases (i == home k)) [
    | inl q ↦ let same : i ≡ home k = eqb→eq i (home k) q in inl (same, grind arith)
    | inr q ↦ let other : i ≢ home k = eqb→ne i (home k) q in inr (other, grind (arith, not_itself))
  ]

  keyed : (j : ℕ) → j ≢ n → is_some (moved j).key ≡ is_some (t j).key
  unfolding put
  keyed j e = grind (arith, apart, not_itself, not_free)

  pub moved-used : used moved size ≡ suc (used t size)
  unfolding put
  moved-used =
      used-more t moved n size keyed free (grind (arith, apart, not_itself, not_free)) inside

  -- No key has the main position, since its node has a foreign key.
  nobody : (i : ℕ) (a : K) → (t i).key ≡ some a → home a ≢ home k
  nobody i a e q = let (b, there, main) = c.owned i a e in foreign (grind arith)

  pub moved-IsChained : IsChained equal home moved size n new_rank
  unfolding put
  moved-IsChained = record {
    last_inside = omega (arith, inside);
    proper = λ i a e. elim (key_back i a e) [
      | inl (q, w) ↦ grind arith
      | inr (q, there) ↦ c.proper (comes i) a there
    ];
    next_keyed = λ i j e. grind (arith, c.next_keyed, apart, not_itself, not_free);
    free_next = λ i e. grind (arith, c.free_next, apart, not_itself, not_free);
    free_value = λ i e. grind (arith, c.free_value, apart, not_itself, not_free);
    inside = λ i e. grind (arith, c.inside, apart, not_itself, not_free);
    ranked = λ i j e.
        let (y, there, q, main, far) = next_back i j e in
        let less : rank y < rank (comes i) = c.ranked (comes i) y there in grind arith;
    bounded = λ i. grind (arith, moved-used, c.bounded);
    one_before = λ i j x e e'.
        let (y, there, q, main, far) = next_back i x e in
        let (y', there', q', main', far') = next_back j x e' in
        let same : y ≡ y' = grind arith in
        let from : comes i ≡ comes j =
          c.one_before (comes i) (comes j) y there
            (subst (λ z. (t (comes j)).next ≡ some z) (sym same) there') in
        grind arith;
    above = λ i le lt. grind (arith, filled, apart, not_itself, not_free);
    reached = λ i a e. elim (key_back i a e) [
      | inl (q, w) ↦ here (ap home w ∙ sym q)
      | inr (q, there) ↦
          let first : home a ≢ n =
            λ w. let (b, f, main) = c.owned (comes i) a there in absurd (grind arith) in
          let other : home a ≢ home k = nobody (comes i) a there in
          let start : goes (home a) ≡ home a = grind arith in
          let end : goes (comes i) ≡ i = grind arith in
          subst (λ x. Reach moved x i) start
            (subst (λ x. Reach moved (goes (home a)) x) end
              (moved-Reach (home a) (comes i) first (c.reached (comes i) a there)))
    ];
    owned = λ i a e. elim (key_back i a e) [
      | inl (q, w) ↦
          (k, subst (λ x. (moved (home x)).key ≡ some k) (sym w) (ground arith), ap home (sym w))
      | inr (q, there) ↦
          let (b, f, main) = c.owned (comes i) a there in
          let other : home a ≢ home k = nobody (comes i) a there in
          let first : home a ≢ n = λ w. absurd (grind arith) in (b, grind (arith, not_itself), main)
    ];
    unique = λ i j a b e e' s. elim (key_back i a e) [
      | inl (q, w) ↦ elim (key_back j b e') [
        | inl (q', w') ↦ q ∙ sym q'
        | inr (q', there') ↦
            let no : equal b k ≡ false = new (comes j) b there' in
            let yes' : equal b a ≡ true = laws.symmetric a b s in absurd (grind arith)
      ]
      | inr (q, there) ↦ elim (key_back j b e') [
        | inl (q', w') ↦ let no : equal a k ≡ false = new (comes i) a there in absurd (grind arith)
        | inr (q', there') ↦
            let same : comes i ≡ comes j = c.unique (comes i) (comes j) a b there there' s in
            grind arith
      ]
    ];
  }

  pub moved-Kept : Kept t moved × Kept moved t
  unfolding put
  moved-Kept = (
    (λ i a v e w.
        let other : i ≢ n = λ q. grind arith in
        (goes i, grind (arith, apart, not_itself), grind (arith, apart, not_itself))),
    (λ i a v e w.
        let other : i ≢ home k = λ q. grind arith in
        (comes i, grind (arith, not_itself), grind (arith, not_itself))),
  )

  pub moved-slot : ((moved (home k)).key ≡ some k) × ((moved (home k)).value ≡ none)
  unfolding put
  moved-slot = (ground arith, ground arith)
