-- ===== src/Lua/Sort/Order.antt =====
-- lua515/ltablib.c: entries in order, and in order around a pivot.
use lua_engine.Base.{
  ℕ, ◌+◌, ◌-◌, ◌≤◌, ◌<◌, ◌≡◌, sym, subst, Bool, true, false, arith, Bool-cases, inl, inr, ltb,
  ltb→lt, ltb-false, ◌==◌, eqb→eq, eqb→ne,
}
use lua_engine.Lua.Sort.{Table, swap}
use lua_engine.Lua.Sort.Moves.{
  Moved, stay, exchange, swap-other, swap-right, swap-left, irreflexive, Moved-outside,
  Moved-behind,
}

-- What holds of each entry from `l` to `u`.
abbrev pub Each : {V : Type 0} → ℕ → ℕ → (V → Type 0) → Table V → Type 0
Each l u Q t = (k : ℕ) → l ≤ k → k ≤ u → Q (t k)

module _ {V : Type 0} where
  Each-swap :
      (l u i j : ℕ) (Q : V → Type 0) (t : Table V)
      → l ≤ i
      → i ≤ u
      → l ≤ j
      → j ≤ u
      → Each l u Q t
      → Each l u Q (swap i j t)
  Each-swap l u i j Q t a b c d h k le le' = elim (Bool-cases (k == j)) [
    | inl e ↦
        let same : k ≡ j = eqb→eq k j e in
        subst (λ x. Q (swap i j t x)) (sym same) (subst Q (sym (swap-right i j t)) (h i a b))
    | inr e ↦ elim (Bool-cases (k == i)) [
      | inl e' ↦
          let same : k ≡ i = eqb→eq k i e' in
          subst (λ x. Q (swap i j t x)) (sym same) (subst Q (sym (swap-left i j t)) (h j c d))
      | inr e' ↦ subst Q (sym (swap-other i j k t (eqb→ne k i e') (eqb→ne k j e))) (h k le le')
    ]
  ]

  pub Each-Moved :
      (l u : ℕ) (Q : V → Type 0) (t t' : Table V) → Moved l u t t' → Each l u Q t → Each l u Q t'
  Each-Moved l u Q t t' stay h = h
  Each-Moved l u Q t t'' (exchange {t' = t'} i j m a b c d) h =
      Each-swap l u i j Q t' a b c d (Each-Moved l u Q t t' m h)

  module _ (comp : V → V → Bool) where
    -- The order does not put the first value before the second.
    abbrev pub NotBefore : V → V → Type 0
    NotBefore x y = comp x y ≡ false

    -- No entry from `l` to `u` stands before one in front of it.
    abbrev pub Sorted : ℕ → ℕ → Table V → Type 0
    Sorted l u t = (a b : ℕ) → l ≤ a → a ≤ b → b ≤ u → NotBefore (t b) (t a)

    -- The entries below `m` are not behind the one at `m`, and those above are not before it.
    abbrev pub Split : ℕ → ℕ → ℕ → Table V → Type 0
    Split l m u t =
        ((k : ℕ) → l ≤ k → k < m → NotBefore (t m) (t k))
        × ((k : ℕ) → m < k → k ≤ u → NotBefore (t k) (t m))

    pub Split-lower :
        (l m u : ℕ) (t t' : Table V) → 0 < m → Moved l (m - 1) t t' → Split l m u t → Split l m u t'
    Split-lower l m u t t' p moved split =
        let middle : t' m ≡ t m = Moved-behind l (m - 1) t t' m (omega arith) moved in
        (
          (λ k a b.
              Each-Moved l (m - 1) (λ x. NotBefore (t' m) x) t t' moved
                (λ k' a' b'.
                  subst (λ x. NotBefore x (t k')) (sym middle) (split.0 k' a' (omega arith)))
                k a (omega arith)),
          (λ k a b.
              subst (λ x. NotBefore x (t' m))
                (sym (Moved-behind l (m - 1) t t' k (omega arith) moved))
                (subst (λ x. NotBefore (t k) x) (sym middle) (split.1 k a b))),
        )

    pub Split-upper :
        (l m u : ℕ) (t t' : Table V) → Moved (m + 1) u t t' → Split l m u t → Split l m u t'
    Split-upper l m u t t' moved split =
        let middle : t' m ≡ t m = Moved-outside (m + 1) u t t' m (omega arith) moved in
        (
          (λ k a b.
              subst (λ x. NotBefore (t' m) x)
                (sym (Moved-outside (m + 1) u t t' k (omega arith) moved))
                (subst (λ x. NotBefore x (t k)) (sym middle) (split.0 k a b))),
          (λ k a b.
              Each-Moved (m + 1) u (λ x. NotBefore x (t' m)) t t' moved
                (λ k' a' b'.
                  subst (λ x. NotBefore (t k') x) (sym middle) (split.1 k' (omega arith) b'))
                k (omega arith) b),
        )

    -- A range in order stays in order when another table has the same entries in it.
    pub Sorted-same :
        (l u : ℕ) (t t' : Table V)
        → ((k : ℕ) → l ≤ k → k ≤ u → t' k ≡ t k)
        → Sorted l u t
        → Sorted l u t'
    Sorted-same l u t t' same h a b la ab bu =
        subst (λ x. NotBefore x (t' a)) (sym (same b (omega arith) bu))
          (subst (λ x. NotBefore (t b) x) (sym (same a la (omega arith))) (h a b la ab bu))

    module _ (asym : (x y : V) → comp x y ≡ true → comp y x ≡ false)
        (trans : (x y z : V) → NotBefore x y → NotBefore y z → NotBefore x z) where
      -- Two sorted parts around a pivot are sorted as a whole.
      pub Sorted-join :
          (l m u : ℕ) (t : Table V)
          → 0 < m
          → Split l m u t
          → Sorted l (m - 1) t
          → Sorted (m + 1) u t
          → Sorted l u t
      Sorted-join l m u t p split lower upper a b la ab bu = elim (Bool-cases (ltb b m)) [
        | inl e ↦ let below = ltb→lt b m e in lower a b la ab (omega arith)
        | inr e ↦
            let above = ltb-false b m e in
            elim (Bool-cases (ltb m a)) [
              | inl e' ↦ let above' = ltb→lt m a e' in upper a b (omega arith) ab bu
              | inr e' ↦
                  let below' = ltb-false m a e' in
                  trans (t b) (t m) (t a) (from_middle (omega arith)) (to_middle (omega arith))
            ]
      ]
        where
          from_middle : m ≤ b → NotBefore (t b) (t m)
          from_middle h = elim (Bool-cases (ltb m b)) [
            | inl e ↦ split.1 b (ltb→lt m b e) bu
            | inr e ↦
                let same : m ≡ b = omega (arith, h, ltb-false m b e) in
                subst (λ k. NotBefore (t k) (t m)) same (irreflexive comp asym (t m))
          ]

          to_middle : a ≤ m → NotBefore (t m) (t a)
          to_middle h = elim (Bool-cases (ltb a m)) [
            | inl e ↦ split.0 a la (ltb→lt a m e)
            | inr e ↦
                let same : m ≡ a = omega (arith, h, ltb-false a m e) in
                subst (λ k. NotBefore (t m) (t k)) same (irreflexive comp asym (t m))
          ]
