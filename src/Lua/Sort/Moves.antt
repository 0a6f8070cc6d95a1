-- ===== src/Lua/Sort/Moves.antt =====
-- lua515/ltablib.c: `auxsort` ends without an error and only exchanges entries, for an asymmetric order.
use lua_engine.Base.{
  ap, sym, ℕ, zero, suc, ◌+◌, ◌-◌, ◌≤◌, ◌<◌, ◌≡◌, ◌≢◌, refl, ◌∙◌, subst, Bool, true, false, arith,
  Bool-cases, inl, inr, ltb, ltb→lt, ◌==◌, eqb→eq, eqb→ne, ne→eqb, ==_refl, if◌then◌else◌,
}
use lua_engine.Lua.Sort.{Res, ok, ◌>>=◌, Table, swap, scan_up, scan_down}

-- A result without an error, with what is said of it.
pub data Yields {A : Type 0} (P : A → Type 0) : Res A → Type 0 where
  yields : {a : A} → P a → Yields P (ok a)

pub Yields-bind :
    {A B : Type 0} {P : A → Type 0} {Q : B → Type 0} {m : Res A} {k : A → Res B}
    → Yields P m
    → ((a : A) → P a → Yields Q (k a))
    → Yields Q (m >>= k)
Yields-bind (yields h) k = k _ h

pub Yields-map :
    {A : Type 0} {P Q : A → Type 0} {m : Res A} → Yields P m → ((a : A) → P a → Q a) → Yields Q m
Yields-map (yields h) k = yields (k _ h)

pub Yields-if :
    {A : Type 0} {P : A → Type 0} (b : Bool) {m n : Res A}
    → (b ≡ true → Yields P m)
    → (b ≡ false → Yields P n)
    → Yields P (if b then m else n)
Yields-if true h k = h refl
Yields-if false h k = k refl

module _ {V : Type 0} where
  -- The second table comes from the first by exchanges of entries from `l` to `u`.
  pub data Moved (l u : ℕ) (t : Table V) : Table V → Type 0 where
    stay : Moved l u t t
    exchange :
        {t' : Table V} (i j : ℕ)
        → Moved l u t t'
        → l ≤ i
        → i ≤ u
        → l ≤ j
        → j ≤ u
        → Moved l u t (swap i j t')

  pub Moved-wider :
      (l u l' u' : ℕ) (t t' : Table V) → l ≤ l' → u' ≤ u → Moved l' u' t t' → Moved l u t t'
  Moved-wider l u l' u' t t' h k stay = stay
  Moved-wider l u l' u' t t'' h k (exchange {t' = t'} i j m a b c d) =
      exchange i j (Moved-wider l u l' u' t t' h k m) (omega arith) (omega arith) (omega arith)
        (omega arith)

  pub Moved-trans :
      (l u : ℕ) (t t' t'' : Table V) → Moved l u t t' → Moved l u t' t'' → Moved l u t t''
  Moved-trans l u t t' t'' m stay = m
  Moved-trans l u t t' t'' m (exchange {t' = s} i j n a b c d) =
      exchange i j (Moved-trans l u t t' s m n) a b c d

  pub swap-other : (i j k : ℕ) (t : Table V) → k ≢ i → k ≢ j → swap i j t k ≡ t k
  unfolding swap
  swap-other i j k t h h' = rw (ne→eqb k j h', ne→eqb k i h) refl

  pub swap-right : (i j : ℕ) (t : Table V) → swap i j t j ≡ t i
  unfolding swap
  swap-right i j t = rw (==_refl j) refl

  pub swap-left : (i j : ℕ) (t : Table V) → swap i j t i ≡ t j
  unfolding swap
  swap-left i j t = elim (Bool-cases (i == j)) [
    | inl e ↦ rw e (ap t (eqb→eq i j e))
    | inr e ↦ rw (e, ==_refl i) refl
  ]

  -- Entries outside of the range stay.
  pub Moved-outside : (l u : ℕ) (t t' : Table V) (k : ℕ) → k < l → Moved l u t t' → t' k ≡ t k
  Moved-outside l u t t' k h stay = refl
  Moved-outside l u t t'' k h (exchange {t' = t'} i j m a b c d) =
      swap-other i j k t' (omega arith) (omega arith) ∙ Moved-outside l u t t' k h m

  pub Moved-behind : (l u : ℕ) (t t' : Table V) (k : ℕ) → u < k → Moved l u t t' → t' k ≡ t k
  Moved-behind l u t t' k h stay = refl
  Moved-behind l u t t'' k h (exchange {t' = t'} i j m a b c d) =
      swap-other i j k t' (omega arith) (omega arith) ∙ Moved-behind l u t t' k h m

  module _ (comp : V → V → Bool) (asym : (x y : V) → comp x y ≡ true → comp y x ≡ false) where
    pub irreflexive : (x : V) → comp x x ≡ false
    irreflexive x = elim (Bool-cases (comp x x)) [ inl e ↦ asym x x e | inr e ↦ e ]

    -- A scan from `i` up to `top` ends at an entry not before `p`, and those it passed are not behind `p`.
    abbrev pub Stops : V → Table V → ℕ → ℕ → ℕ → Type 0
    Stops p t i top i' =
        (i < i')
        × (i' ≤ top)
        × (comp (t i') p ≡ false)
        × ((k : ℕ) → i < k → k < i' → comp p (t k) ≡ false)

    -- A scan from `j` down to `l` ends at an entry not behind `p`, and those it passed are not before `p`.
    abbrev pub StopsDown : V → Table V → ℕ → ℕ → ℕ → Type 0
    StopsDown p t l j j' =
        (l ≤ j')
        × (j' < j)
        × (comp p (t j') ≡ false)
        × ((k : ℕ) → j' < k → k < j → comp (t k) p ≡ false)

    pub scan_up-Yields :
        (n : ℕ) (p : V) (u : ℕ) (t : Table V) (i top : ℕ)
        → comp (t top) p ≡ false
        → i < top
        → top ≤ u
        → top ≤ n + i
        → Yields (Stops p t i top) (scan_up comp n p u t i)
    unfolding scan_up
    scan_up-Yields zero p u t i top stop lt le fuel = absurd (omega arith)
    scan_up-Yields (suc n) p u t i top stop lt le fuel =
        Yields-if (comp (t (i + 1)) p)
          (λ e. elim (Bool-cases (i + 1 == top)) [
            | inl q ↦
                let clash : comp (t top) p ≡ true =
                  subst (λ k. comp (t k) p ≡ true) (eqb→eq (i + 1) top q) e in
                absurd (cc)
            | inr q ↦
                let other = eqb→ne (i + 1) top q in
                Yields-if (ltb u (i + 1))
                  (λ far. let past = ltb→lt u (i + 1) far in absurd (omega arith))
                  (λ _.
                    Yields-map
                      (scan_up-Yields n p u t (i + 1) top stop (omega arith) le (omega arith))
                      (λ i' h. (
                        omega (arith, h),
                        h.1,
                        h.2,
                        λ k a b. elim (Bool-cases (k == i + 1)) [
                          | inl r ↦
                              subst (λ x. comp p (t x) ≡ false) (sym (eqb→eq k (i + 1) r))
                                (asym (t (i + 1)) p e)
                          | inr r ↦ let later = eqb→ne k (i + 1) r in h.3 k (omega arith) b
                        ],
                      )))
          ])
          (λ e. yields (omega arith, omega arith, e, λ k a b. absurd (omega arith)))

    pub scan_down-Yields :
        (n : ℕ) (p : V) (l : ℕ) (t : Table V) (j : ℕ)
        → comp p (t l) ≡ false
        → l < j
        → j ≤ n + l
        → Yields (StopsDown p t l j) (scan_down comp n p l t j)
    unfolding scan_down
    scan_down-Yields zero p l t j stop lt fuel = absurd (omega arith)
    scan_down-Yields (suc n) p l t j stop lt fuel =
        Yields-if (comp p (t (j - 1)))
          (λ e. elim (Bool-cases (j - 1 == l)) [
            | inl q ↦
                let clash : comp p (t l) ≡ true =
                  subst (λ k. comp p (t k) ≡ true) (eqb→eq (j - 1) l q) e in
                absurd (cc)
            | inr q ↦
                let other = eqb→ne (j - 1) l q in
                Yields-if (ltb (j - 1) l)
                  (λ far. let past = ltb→lt (j - 1) l far in absurd (omega arith))
                  (λ _.
                    Yields-map (scan_down-Yields n p l t (j - 1) stop (omega arith) (omega arith))
                      (λ j' h. (
                        h.0,
                        omega (arith, h),
                        h.2,
                        λ k a b. elim (Bool-cases (k == j - 1)) [
                          | inl r ↦
                              subst (λ x. comp (t x) p ≡ false) (sym (eqb→eq k (j - 1) r))
                                (asym p (t (j - 1)) e)
                          | inr r ↦ let before = eqb→ne k (j - 1) r in h.3 k a (omega arith)
                        ],
                      )))
          ])
          (λ e. yields (omega arith, omega arith, e, λ k a b. absurd (omega arith)))
