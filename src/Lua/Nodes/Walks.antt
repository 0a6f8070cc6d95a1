-- ===== src/Lua/Nodes/Walks.antt =====
-- lua515/ltable.c: the walks along a chain, and `getfreepos`.
use lua_engine.Base.{
  ℕ, zero, suc, ◌<◌, ◌≡◌, ◌≢◌, refl, sym, ap, subst, Bool, true, false, Option, none, some, ◌==◌,
  arith, eqb→eq, eqb→ne, Option-cases, inl, inr, Bool-cases,
}
use lua_engine.Lua.Nodes.{Node, at, missing, has_key, find, previous, free_loop}
use lua_engine.Lua.Nodes.Links.{Reach, here, onward, IsChained, KeyLaws, Absent}

module _ {K V : Type 0} (equal : K → K → Bool) (home : K → ℕ) (t : ℕ → Node K V) (size last : ℕ)
    (rank : ℕ → ℕ) (c : IsChained equal home t size last rank) where
  has_key-yes :
      (s : ℕ) (k a : K) → (t s).key ≡ some a → equal a k ≡ true → has_key equal home (t s) k ≡ true
  has_key-yes s k a e q = rw e q

  has_key-some :
      (s : ℕ) (k : K)
      → has_key equal home (t s) k ≡ true
      → (b : K) × ((t s).key ≡ some b) × (equal b k ≡ true)
  has_key-some s k h = elim (Option-cases (t s).key) [
    | inl e ↦ absurd (grind arith)
    | inr (b, e) ↦ (b, e, grind arith)
  ]

  has_key-no : (s : ℕ) (k : K) → Absent equal t k → has_key equal home (t s) k ≡ false
  has_key-no s k absent = elim (Option-cases (t s).key) [
    | inl e ↦ rw e refl
    | inr (b, e) ↦ rw e (absent s b e)
  ]

  -- The node of a key on the chain is found.
  pub find-at :
      (f s i : ℕ) (k a : K)
      → KeyLaws equal home size
      → (t i).key ≡ some a
      → equal a k ≡ true
      → Reach t s i
      → rank s < f
      → find equal home f t k s ≡ at i
  unfolding find
  find-at zero s i k a laws e q r fuel = absurd (omega arith)
  find-at (suc f) s i k a laws e q (here w) fuel =
      rw (has_key-yes s k a (subst (λ x. (t x).key ≡ some a) (sym w) e) q) (ap at w)
  find-at (suc f) s i k a laws e q (onward {j = j} w r) fuel =
      elim (Bool-cases (has_key equal home (t s) k)) [
        | inl h ↦
            let (b, e', q') = has_key-some s k h in
            let same : s ≡ i =
              c.unique s i b a e' e (laws.transitive b k a q' (laws.symmetric a k q)) in
            rw h (ap at same)
        | inr h ↦ rw (h, w) (find-at f j i k a laws e q r (omega (arith, c.ranked s j w)))
      ]

  -- A key that no node has is not found.
  pub find-missing :
      (f s : ℕ) (k : K) → Absent equal t k → rank s < f → find equal home f t k s ≡ missing
  unfolding find
  find-missing zero s k absent fuel = absurd (omega arith)
  find-missing (suc f) s k absent fuel = elim (Option-cases (t s).next) [
    | inl w ↦ rw (has_key-no s k absent, w) refl
    | inr (j, w) ↦
        rw (has_key-no s k absent, w) (find-missing f j k absent (omega (arith, c.ranked s j w)))
  ]

  -- The walk of `newkey` finds the node before.
  pub previous-at :
      (f i mp : ℕ)
      → Reach t i mp
      → i ≢ mp
      → rank i < f
      → (p : ℕ) × (previous f t mp i ≡ at p) × ((t p).next ≡ some mp)
  unfolding previous
  previous-at zero i mp r ne fuel = absurd (omega arith)
  previous-at (suc f) i mp (here w) ne fuel = absurd (ne w)
  previous-at (suc f) i mp (onward {j = j} w r) ne fuel = elim (Bool-cases (j == mp)) [
    | inl h ↦ let same = eqb→eq j mp h in (i, rw (w, h, previous) refl, grind arith)
    | inr h ↦
        let less = c.ranked i j w in
        let (p, found, tied) = previous-at f j mp r (eqb→ne j mp h) (omega arith) in
        (p, rw (w, h, previous) found, tied)
  ]

module _ {K V : Type 0} (t : ℕ → Node K V) where
  -- What `getfreepos` gives from `last` down.
  pub data Frees (last : ℕ) : Option ℕ × ℕ → Type 0 where
    all_used : ((i : ℕ) → i < last → (t i).key ≢ none) → Frees last (none, 0)
    freed :
        {n : ℕ}
        → n < last
        → (t n).key ≡ none
        → ((i : ℕ) → n < i → i < last → (t i).key ≢ none)
        → Frees last (some n, n)

  Frees-suc : (k : ℕ) (r : Option ℕ × ℕ) → (t k).key ≢ none → Frees k r → Frees (suc k) r
  Frees-suc k (none, m) ne (all_used h) = all_used (λ i lt. elim (Bool-cases (i == k)) [
    | inl q ↦ subst (λ x. (t x).key ≢ none) (sym (eqb→eq i k q)) ne
    | inr q ↦ let other = eqb→ne i k q in h i (omega arith)
  ])
  Frees-suc k (some n, m) ne (freed lt e h) = freed (omega arith) e (λ i lt lt'.
      elim (Bool-cases (i == k)) [
        | inl q ↦ subst (λ x. (t x).key ≢ none) (sym (eqb→eq i k q)) ne
        | inr q ↦ let other = eqb→ne i k q in h i lt (omega arith)
      ])

  pub free_loop-Frees : (last : ℕ) → Frees last (free_loop t last)
  unfolding free_loop
  free_loop-Frees zero = all_used (λ i h. absurd (omega arith))
  free_loop-Frees (suc k) = elim (Option-cases (t k).key) [
    | inl e ↦ rw e (freed (omega arith) e (λ i lt lt'. absurd (omega arith)))
    | inr (a, e) ↦ rw e (Frees-suc k (free_loop t k) (λ q. grind arith) (free_loop-Frees k))
  ]
