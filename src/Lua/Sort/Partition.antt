-- ===== src/Lua/Sort/Partition.antt =====
-- lua515/ltablib.c: the partition of `auxsort`, and the three entries that it orders first.
use lua_engine.Base.{
  ℕ, zero, suc, ◌+◌, ◌-◌, ◌≤◌, ◌<◌, ◌≡◌, sym, ◌∙◌, subst, Bool, true, false, arith, Bool-cases, inl,
  inr, ltb, ltb→lt, ltb-false, ◌==◌, eqb→eq, eqb→ne,
}
use lua_engine.Lua.Sort.{Table, swap, partition, order_ends, order_middle}
use lua_engine.Lua.Sort.Moves.{
  Yields, yields, Yields-bind, Yields-map, Yields-if, Moved, stay, exchange, Moved-trans,
  swap-other, swap-right, swap-left, irreflexive, Stops, StopsDown, scan_up-Yields,
  scan_down-Yields,
}
use lua_engine.Lua.Sort.Order.{NotBefore, Each}

module _ {V : Type 0} (comp : V → V → Bool)
    (asym : (x y : V) → comp x y ≡ true → comp y x ≡ false) where
  -- What `p` has on its sides: entries from `l` to `i` are not behind it, those from `j` to `u` not before.
  abbrev pub Sides : V → ℕ → ℕ → ℕ → ℕ → Table V → Type 0
  Sides p l u i j t = Each l i (NotBefore comp p) t × Each j u (λ x. NotBefore comp x p) t

  -- What the partition leaves for the place `m` where it ended.
  abbrev pub Partitioned : V → ℕ → ℕ → Table V → ℕ × Table V → Type 0
  Partitioned p l u t r =
      (l < r.0)
      × (r.0 ≤ u - 1)
      × Moved l u t r.1
      × Sides p l u (r.0 - 1) r.0 r.1
      × (r.1 (u - 1) ≡ p)

  -- Where the scans met, both sides are complete.
  met :
      (p : V) (l u i j i' j' : ℕ) (t : Table V)
      → Stops comp asym p t i (u - 1) i'
      → StopsDown comp asym p t l j j'
      → j' < i'
      → Sides p l u i j t
      → Sides p l u (i' - 1) i' t
  met p l u i j i' j' t up down lt sides = (
    (λ k a b. elim (Bool-cases (ltb i k)) [
      | inl e ↦ up.3 k (ltb→lt i k e) (omega (arith, up.0))
      | inr e ↦ sides.0 k a (ltb-false i k e)
    ]),
    (λ k a b. elim (Bool-cases (k == i')) [
      | inl e ↦ subst (λ x. NotBefore comp (t x) p) (sym (eqb→eq k i' e)) up.2
      | inr e ↦
          let other = eqb→ne k i' e in
          elim (Bool-cases (ltb k j)) [
            | inl e' ↦ down.3 k (omega arith) (ltb→lt k j e')
            | inr e' ↦ sides.1 k (ltb-false k j e') b
          ]
    ]),
  )

  -- After an exchange, the sides reach to the exchanged entries.
  exchanged :
      (p : V) (l u i j i' j' : ℕ) (t : Table V)
      → Stops comp asym p t i (u - 1) i'
      → StopsDown comp asym p t l j j'
      → i' ≤ j'
      → Sides p l u i j t
      → Sides p l u i' j' (swap i' j' t)
  exchanged p l u i j i' j' t up down le sides = (
    (λ k a b. elim (Bool-cases (k == i')) [
      | inl e ↦
          subst (λ x. NotBefore comp p (swap i' j' t x)) (sym (eqb→eq k i' e))
            (subst (NotBefore comp p) (sym (swap-left i' j' t)) down.2)
      | inr e ↦
          let other = eqb→ne k i' e in
          subst (NotBefore comp p) (sym (swap-other i' j' k t other (omega arith)))
            (elim (Bool-cases (ltb i k)) [
              | inl e' ↦ up.3 k (ltb→lt i k e') (omega arith)
              | inr e' ↦ sides.0 k a (ltb-false i k e')
            ])
    ]),
    (λ k a b. elim (Bool-cases (k == j')) [
      | inl e ↦
          subst (λ x. NotBefore comp (swap i' j' t x) p) (sym (eqb→eq k j' e))
            (subst (λ x. NotBefore comp x p) (sym (swap-right i' j' t)) up.2)
      | inr e ↦
          let other = eqb→ne k j' e in
          subst (λ x. NotBefore comp x p) (sym (swap-other i' j' k t (omega arith) other))
            (elim (Bool-cases (ltb k j)) [
              | inl e' ↦ down.3 k (omega arith) (ltb→lt k j e')
              | inr e' ↦ sides.1 k (ltb-false k j e') b
            ])
    ]),
  )

  pub partition-Yields :
      (n : ℕ) (p : V) (l u i j : ℕ) (t : Table V)
      → t (u - 1) ≡ p
      → Sides p l u i j t
      → l ≤ i
      → i < u - 1
      → l < j
      → j ≤ u - 1
      → j ≤ n + l
      → Yields (Partitioned p l u t) (partition comp n p l u i j t)
  unfolding partition
  partition-Yields zero p l u i j t pivot sides li iu lj ju fuel = absurd (omega arith)
  partition-Yields (suc n) p l u i j t pivot sides li iu lj ju fuel =
      let top : NotBefore comp (t (u - 1)) p =
        subst (λ x. NotBefore comp x p) (sym pivot) (irreflexive comp asym p) in
      let first : NotBefore comp p (t l) = sides.0 l (omega arith) li in
      Yields-bind
        (scan_up-Yields comp asym (suc u) p u t i (u - 1) top iu (omega arith) (omega arith))
        (λ i' up.
          Yields-bind (scan_down-Yields comp asym (suc u) p l t j first lj (omega arith))
            (λ j' down.
              Yields-if (ltb j' i')
                (λ e. yields (
                  omega (arith, up.0),
                  up.1,
                  stay,
                  met p l u i j i' j' t up down (ltb→lt j' i' e) sides,
                  pivot,
                ))
                (λ e.
                  let le : i' ≤ j' = ltb-false j' i' e in
                  let still : swap i' j' t (u - 1) ≡ p =
                    swap-other i' j' (u - 1) t (omega (arith, down.1, le)) (omega (arith, down.1))
                    ∙ pivot in
                  let once : Moved l u t (swap i' j' t) =
                    exchange i' j' stay (omega (arith, up.0)) (omega (arith, up.1))
                      (omega (arith, down.0)) (omega (arith, down.1)) in
                  Yields-map
                    (partition-Yields n p l u i' j' (swap i' j' t) still
                      (exchanged p l u i j i' j' t up down le sides) (omega (arith, up.0))
                      (omega (arith, down.1, le)) (omega (arith, up.0, le)) (omega (arith, down.1))
                      (omega (arith, down.1)))
                    (λ r h. (h.0, h.1, Moved-trans l u t (swap i' j' t) r.1 once h.2, h.3, h.4)))))

  pub order_ends-Moved :
      (l u : ℕ) (t : Table V)
      → l < u
      → Moved l u t (order_ends comp l u t)
        × NotBefore comp (order_ends comp l u t u) (order_ends comp l u t l)
  unfolding order_ends
  order_ends-Moved l u t h = elim (Bool-cases (comp (t u) (t l))) [
    | inl e ↦
        rw (e, order_ends)
          (
            exchange l u stay (omega arith) (omega arith) (omega arith) (omega arith),
            rw (swap-right l u t, swap-left l u t) (asym (t u) (t l) e),
          )
    | inr e ↦ rw (e, order_ends) (stay, e)
  ]

  -- Three entries in order.
  abbrev pub InOrder : ℕ → ℕ → ℕ → Table V → Type 0
  InOrder l i u t = NotBefore comp (t i) (t l) × NotBefore comp (t u) (t i)

  pub order_middle-Moved :
      (l i u : ℕ) (t : Table V)
      → l < i
      → i < u
      → NotBefore comp (t u) (t l)
      → Moved l u t (order_middle comp l i u t) × InOrder l i u (order_middle comp l i u t)
  unfolding order_middle
  order_middle-Moved l i u t h k ends = elim (Bool-cases (comp (t i) (t l))) [
    | inl e ↦
        rw (e, order_middle)
          (
            exchange i l stay (omega arith) (omega arith) (omega arith) (omega arith),
            rw (swap-left i l t, swap-right i l t, swap-other i l u t (omega arith) (omega arith))
                (asym (t i) (t l) e, ends),
          )
    | inr e ↦ elim (Bool-cases (comp (t u) (t i))) [
      | inl e' ↦
          rw (e, e', order_middle)
            (
              exchange i u stay (omega arith) (omega arith) (omega arith) (omega arith),
              rw (swap-left i u t, swap-right i u t, swap-other i u l t (omega arith) (omega arith))
                  (ends, asym (t u) (t i) e'),
            )
      | inr e' ↦ rw (e, e', order_middle) (stay, (e, e'))
    ]
  ]
