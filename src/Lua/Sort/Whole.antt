-- ===== src/Lua/Sort/Whole.antt =====
-- lua515/ltablib.c: `auxsort` as a whole, for an asymmetric order.
use lua_engine.Base.{
  ℕ, zero, suc, ◌+◌, ◌-◌, ◌/◌, ◌≤◌, ◌<◌, ◌≡◌, sym, ◌∙◌, subst, Bool, true, false, arith, Bool-cases,
  inl, inr, ltb, ltb→lt, ltb-false, ◌==◌, eqb→eq, eqb→ne,
}
use lua_engine.Lua.Sort.{◌>>=◌, Table, swap, order_ends, order_middle, auxsort, sort}
use lua_engine.Lua.Sort.Moves.{
  Yields, yields, Yields-bind, Yields-map, Yields-if, Moved, stay, exchange, Moved-wider,
  Moved-trans, Moved-outside, Moved-behind, swap-other, swap-right, swap-left, irreflexive,
}
use lua_engine.Lua.Sort.Order.{
  NotBefore, Sorted, Split, Split-lower, Split-upper, Sorted-same, Sorted-join,
}
use lua_engine.Lua.Sort.Partition.{
  Sides, Partitioned, partition-Yields, InOrder, order_ends-Moved, order_middle-Moved,
}

module _ {V : Type 0} (comp : V → V → Bool)
    (asym : (x y : V) → comp x y ≡ true → comp y x ≡ false) where
  -- A value not before a second one, which is not before a third one, is not before the third one.
  abbrev pub Transitive : Type 0
  Transitive = (x y z : V) → NotBefore comp x y → NotBefore comp y z → NotBefore comp x z

  -- What a call of `auxsort` leaves.
  abbrev pub Done : ℕ → ℕ → Table V → Table V → Type 0
  Done l u t t' = Moved l u t t' × (Transitive → Sorted comp l u t')

  abbrev pub SortsIn : ℕ → Type 0
  SortsIn n =
      (l u : ℕ) (t : Table V) → 0 < n → u < n + l → Yields (Done l u t) (auxsort comp n l u t)

  module _ (n : ℕ) (sorts : SortsIn n) (l m u : ℕ) (t t' : Table V) (lm : l < m) (mu : m ≤ u - 1)
      (fuel : u < suc n + l) (moved : Moved l u t t') (split : Split comp l m u t') where
    -- The part below the pivot first.
    lower_first : Yields (Done l u t) (auxsort comp n l (m - 1) t' >>= auxsort comp n (m + 1) u)
    lower_first = Yields-bind (sorts l (m - 1) t' (omega arith) (omega arith)) (λ s h.
        Yields-map (sorts (m + 1) u s (omega arith) (omega arith)) (λ r k. (
          Moved-trans l u t s r
              (Moved-trans l u t t' s moved
                (Moved-wider l u l (m - 1) t' s (omega arith) (omega arith) h.0))
              (Moved-wider l u (m + 1) u s r (omega arith) (omega arith) k.0),
          λ trans.
              Sorted-join comp asym trans l m u r (omega arith)
                (Split-upper comp l m u s r k.0
                  (Split-lower comp l m u t' s (omega arith) h.0 split))
                (Sorted-same comp l (m - 1) s r
                  (λ i a b. Moved-outside (m + 1) u s r i (omega arith) k.0) (h.1 trans))
                (k.1 trans),
        )))

    -- The part above the pivot first.
    upper_first : Yields (Done l u t) (auxsort comp n (m + 1) u t' >>= auxsort comp n l (m - 1))
    upper_first = Yields-bind (sorts (m + 1) u t' (omega arith) (omega arith)) (λ s h.
        Yields-map (sorts l (m - 1) s (omega arith) (omega arith)) (λ r k. (
          Moved-trans l u t s r
              (Moved-trans l u t t' s moved
                (Moved-wider l u (m + 1) u t' s (omega arith) (omega arith) h.0))
              (Moved-wider l u l (m - 1) s r (omega arith) (omega arith) k.0),
          λ trans.
              Sorted-join comp asym trans l m u r (omega arith)
                (Split-lower comp l m u s r (omega arith) k.0
                  (Split-upper comp l m u t' s h.0 split))
                (k.1 trans)
                (Sorted-same comp (m + 1) u s r
                  (λ i a b. Moved-behind l (m - 1) s r i (omega arith) k.0) (h.1 trans)),
        )))

  -- The partition splits the table once the pivot is exchanged with the entry where it ended.
  Partitioned-Split :
      (p : V) (l u : ℕ) (t : Table V) (r : ℕ × Table V)
      → l + 2 < u
      → Partitioned comp asym p l u t r
      → Split comp l r.0 u (swap (u - 1) r.0 r.1)
  Partitioned-Split p l u t (m, s) wide (lm, mu, moved, sides, pivot) =
      let middle : swap (u - 1) m s m ≡ p = swap-right (u - 1) m s ∙ pivot in
      (
        (λ k a b.
            subst (λ x. NotBefore comp x (swap (u - 1) m s k)) (sym middle)
              (subst (NotBefore comp p) (sym (swap-other (u - 1) m k s (omega arith) (omega arith)))
                (sides.0 k a (omega arith)))),
        (λ k a b.
            subst (λ x. NotBefore comp (swap (u - 1) m s k) x) (sym middle)
              (elim (Bool-cases (k == u - 1)) [
                | inl e ↦
                    subst (λ x. NotBefore comp (swap (u - 1) m s x) p) (sym (eqb→eq k (u - 1) e))
                      (subst (λ x. NotBefore comp x p) (sym (swap-left (u - 1) m s))
                        (sides.1 m (omega arith) (omega arith)))
                | inr e ↦
                    subst (λ x. NotBefore comp x p)
                      (sym (swap-other (u - 1) m k s (eqb→ne k (u - 1) e) (omega arith)))
                      (sides.1 k (omega arith) b)
              ])),
      )

  -- The sides of the pivot before the partition.
  first_Sides :
      (l i u : ℕ) (t : Table V)
      → l < i
      → i < u - 1
      → InOrder comp asym l i u t
      → Sides comp asym (t i) l u l (u - 1) (swap i (u - 1) t)
  first_Sides l i u t li iu order = (
    (λ k a b.
        let same : l ≡ k = omega arith in
        subst (λ x. NotBefore comp (t i) (swap i (u - 1) t x)) same
          (subst (NotBefore comp (t i)) (sym (swap-other i (u - 1) l t (omega arith) (omega arith)))
            order.0)),
    (λ k a b. elim (Bool-cases (k == u - 1)) [
      | inl e ↦
          subst (λ x. NotBefore comp (swap i (u - 1) t x) (t i)) (sym (eqb→eq k (u - 1) e))
            (subst (λ x. NotBefore comp x (t i)) (sym (swap-right i (u - 1) t))
              (irreflexive comp asym (t i)))
      | inr e ↦
          let other = eqb→ne k (u - 1) e in
          let same : u ≡ k = omega arith in
          subst (λ x. NotBefore comp (swap i (u - 1) t x) (t i)) same
            (subst (λ x. NotBefore comp x (t i))
              (sym (swap-other i (u - 1) u t (omega arith) (omega arith))) order.1)
    ]),
  )

  single-Sorted : (l u : ℕ) (t : Table V) → u ≤ l → Sorted comp l u t
  single-Sorted l u t h a b la ab bu =
      let same : a ≡ b = omega arith in
      subst (λ k. NotBefore comp (t k) (t a)) same (irreflexive comp asym (t a))

  pair-Sorted : (l u : ℕ) (t : Table V) → u ≡ l + 1 → NotBefore comp (t u) (t l) → Sorted comp l u t
  pair-Sorted l u t e h a b la ab bu = elim (Bool-cases (a == b)) [
    | inl q ↦ subst (λ k. NotBefore comp (t k) (t a)) (eqb→eq a b q) (irreflexive comp asym (t a))
    | inr q ↦
        let other = eqb→ne a b q in
        let low : l ≡ a = omega arith in
        let high : u ≡ b = omega arith in
        subst (λ k. NotBefore comp (t b) (t k)) low (subst (λ k. NotBefore comp (t k) (t l)) high h)
  ]

  triple-Sorted :
      (trans : Transitive) (l i u : ℕ) (t : Table V)
      → i ≡ l + 1
      → u ≡ l + 2
      → InOrder comp asym l i u t
      → Sorted comp l u t
  triple-Sorted trans l i u t e e' order =
      Sorted-join comp asym trans l i u t (omega arith)
        (
          (λ k a b.
              let same : l ≡ k = omega arith in
              subst (λ x. NotBefore comp (t i) (t x)) same order.0),
          (λ k a b.
              let same : u ≡ k = omega arith in
              subst (λ x. NotBefore comp (t x) (t i)) same order.1),
        )
        (single-Sorted l (i - 1) t (omega arith)) (single-Sorted (i + 1) u t (omega arith))

  auxsort-Yields : (n : ℕ) → SortsIn n
  unfolding auxsort
  auxsort-Yields zero l u t some_fuel fuel = absurd (omega arith)
  auxsort-Yields (suc n) l u t some_fuel fuel =
      Yields-if (ltb l u)
        (λ e.
          let lt = ltb→lt l u e in
          let (moved, ends) = order_ends-Moved comp asym l u t lt in
          let t1 = order_ends comp l u t in
          Yields-if (u - l == 1)
            (λ e1.
              yields (moved, λ trans. pair-Sorted l u t1 (omega (arith, eqb→eq (u - l) 1 e1)) ends))
            (λ e1.
              let three = eqb→ne (u - l) 1 e1 in
              let i = (l + u) / 2 in
              let t2 = order_middle comp l i u t1 in
              let (moved', order) =
                order_middle-Moved comp asym l i u t1 (omega arith) (omega arith) ends in
              let two = Moved-trans l u t t1 t2 moved moved' in
              Yields-if (u - l == 2)
                (λ e2.
                  let gap = eqb→eq (u - l) 2 e2 in
                  yields
                    (two, λ trans. triple-Sorted trans l i u t2 (omega arith) (omega arith) order))
                (λ e2.
                  let four = eqb→ne (u - l) 2 e2 in
                  let t3 = swap i (u - 1) t2 in
                  Yields-bind
                    (partition-Yields comp asym (suc u) (t2 i) l u l (u - 1) t3
                      (swap-right i (u - 1) t2)
                      (first_Sides l i u t2 (omega arith) (omega arith) order) (omega arith)
                      (omega arith) (omega arith) (omega arith) (omega arith))
                    (λ r h.
                      let three' =
                        exchange {t' = t2} i (u - 1) two (omega arith) (omega arith) (omega arith)
                          (omega arith) in
                      let four' = Moved-trans l u t t3 r.1 three' h.2 in
                      let five =
                        exchange {t' = r.1} (u - 1) r.0 four' (omega arith) (omega arith)
                          (omega (arith, h.0)) (omega (arith, h.1)) in
                      let split = Partitioned-Split (t2 i) l u t3 r (omega arith) h in
                      Yields-if (ltb (r.0 - l) (u - r.0))
                        (λ _.
                          lower_first n (auxsort-Yields n) l r.0 u t (swap (u - 1) r.0 r.1) h.0 h.1
                            fuel five split)
                        (λ _.
                          upper_first n (auxsort-Yields n) l r.0 u t (swap (u - 1) r.0 r.1) h.0 h.1
                            fuel five split)))))
        (λ e. yields (stay, λ trans. single-Sorted l u t (ltb-false l u e)))

  -- `table.sort`, on a table with `n` elements and by an order that never puts each of two values before
  -- the other, ends without an error, and the table that it leaves comes from the first one by
  -- exchanges of entries from 1 to `n`.
  pub sort-Yields : (n : ℕ) (t : Table V) → Yields (Moved 1 n t) (sort comp n t)
  unfolding sort
  sort-Yields n t =
      Yields-map (auxsort-Yields (suc n) 1 n t (omega arith) (omega arith)) (λ r h. h.0)

  -- `table.sort`, on a table with `n` elements and by an order that never puts each of two values before
  -- the other, and for which `not before` is transitive, ends without an error, and leaves a table in
  -- which no entry from 1 to `n` is before one in front of it.
  pub sort-Sorted : (n : ℕ) (t : Table V) → Transitive → Yields (Sorted comp 1 n) (sort comp n t)
  unfolding sort
  sort-Sorted n t trans =
      Yields-map (auxsort-Yields (suc n) 1 n t (omega arith) (omega arith)) (λ r h. h.1 trans)
