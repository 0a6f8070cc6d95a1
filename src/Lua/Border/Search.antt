-- ===== src/Lua/Border/Search.antt =====
-- lua515/ltable.c: the searches of `luaH_getn`.
use lua_engine.Base.{
  ℕ, zero, suc, ◌+◌, ◌-◌, ◌*◌, ◌/◌, ◌%◌, ◌^◌, ◌≤◌, ◌<◌, ◌≡◌, ◌≢◌, refl, sym, ap, ◌∙◌, subst, Bool,
  true, false, some, ltb, arith, Bool-cases, inl, inr, ltb-false,
}
use lua_engine.Lua.Border.{
  max_int, binary_search, linear_search, search_all, doubling, unbound_search,
}
use native.Mathlib.Nat.{pow-succ', mul_assoc}

-- A number that is present or 0, with none behind it.
pub record IsBorder (present : ℕ → Bool) (r : ℕ) : Type 0 where
  pub present_here : r ≢ 0 → present r ≡ true
  pub none_behind : present (suc r) ≡ false

enough_rounds : (j f : ℕ) → max_int < j * 2 ^ suc f → j ≤ max_int → max_int < j * 2 % 2 ^ 32 * 2 ^ f
enough_rounds j f fuel small =
    let more : j * 2 ^ suc f ≡ j * 2 * 2 ^ f =
      ap (λ x. j * x) (pow-succ' 2 f) ∙ sym (mul_assoc j 2 (2 ^ f)) in
    let whole : j * 2 % 2 ^ 32 ≡ j * 2 = omega arith in
    subst (λ x. max_int < x * 2 ^ f) (sym whole) (subst (λ x. max_int < x) more fuel)

module _ (present : ℕ → Bool) where
  pub binary_search-IsBorder :
      (f i j : ℕ)
      → i < j
      → j ≤ 2 ^ 31
      → j - i ≤ suc f
      → (i ≢ 0 → present i ≡ true)
      → present j ≡ false
      → IsBorder present (binary_search f present i j)
  unfolding binary_search
  binary_search-IsBorder zero i j lt small fuel low high = record {
    present_here = low;
    none_behind = subst (λ x. present x ≡ false) {x = j} {y = suc i} (omega arith) high;
  }
  binary_search-IsBorder (suc f) i j lt small fuel low high =
      let m = (i + j) % 2 ^ 32 / 2 in
      elim (Bool-cases (ltb 1 (j - i))) [
        | inl q ↦ elim (Bool-cases (present m)) [
          | inl s ↦
              rw (q, s)
                (binary_search-IsBorder f m j (ground arith) small (ground arith) (λ ne. s) high)
          | inr s ↦
              rw (q, s)
                (binary_search-IsBorder f i m (ground arith) (ground arith) (ground arith) low s)
        ]
        | inr q ↦ rw q (record {
          present_here = low;
          none_behind = subst (λ x. present x ≡ false) {x = j} {y = suc i} (ground arith) high;
        })
      ]

  pub binary_search-lt : (f i j : ℕ) → i < j → j ≤ 2 ^ 31 → binary_search f present i j < j
  unfolding binary_search
  binary_search-lt zero i j lt small = lt
  binary_search-lt (suc f) i j lt small =
      let m = (i + j) % 2 ^ 32 / 2 in
      elim (Bool-cases (ltb 1 (j - i))) [
        | inl q ↦ elim (Bool-cases (present m)) [
          | inl s ↦ rw (q, s) (binary_search-lt f m j (ground arith) small)
          | inr s ↦
              rw (q, s)
                (let less = binary_search-lt f i m (ground arith) (ground arith) in ground arith)
        ]
        | inr q ↦ rw q lt
      ]

  pub linear_search-IsBorder :
      (f i b : ℕ)
      → 0 < i
      → i ≤ b
      → b < i + f
      → present b ≡ false
      → (i ≢ 1 → present (i - 1) ≡ true)
      → (r : ℕ) × (linear_search f present i ≡ some r) × IsBorder present r
  unfolding linear_search
  linear_search-IsBorder zero i b pos le lt gap low = absurd (omega arith)
  linear_search-IsBorder (suc f) i b pos le lt gap low = elim (Bool-cases (present i)) [
    | inl q ↦
        let other : i ≢ b = λ e. absurd (grind arith) in
        let (r, e, border) =
          linear_search-IsBorder f (i + 1) b (omega arith) (omega arith) (omega arith) gap
            (λ ne. subst (λ x. present x ≡ true) {x = i} {y = i + 1 - 1} (omega arith) q) in
        (r, rw q e, border)
    | inr q ↦ (
      i - 1,
      rw q refl,
      record {
        present_here = λ ne. low (omega arith);
        none_behind = subst (λ x. present x ≡ false) {x = i} {y = suc (i - 1)} (omega arith) q;
      },
    )
  ]

  module _ (b : ℕ) (pos : 0 < b) (small : b < 2 ^ 31) (gap : present b ≡ false) where
    search_all-IsBorder : (r : ℕ) × (search_all present ≡ some r) × IsBorder present r
    unfolding search_all
    search_all-IsBorder =
        linear_search-IsBorder (2 ^ 31) 1 b (omega arith) (omega arith) (omega arith) gap
          (λ ne. absurd (ne refl))

    doubling-IsBorder :
        (f i j : ℕ)
        → i < j
        → j ≤ max_int
        → max_int < j * 2 ^ f
        → (i ≢ 0 → present i ≡ true)
        → (r : ℕ) × (doubling f present i j ≡ some r) × IsBorder present r
    unfolding doubling
    doubling-IsBorder zero i j lt le fuel low = absurd (omega arith)
    doubling-IsBorder (suc f) i j lt le fuel low = elim (Bool-cases (present j)) [
      | inr q ↦ (
        binary_search j present i j,
        rw q refl,
        binary_search-IsBorder j i j lt (omega arith) (omega arith) low q,
      )
      | inl q ↦ elim (Bool-cases (ltb max_int (j * 2 % 2 ^ 32))) [
        | inl s ↦ let (r, e, border) = search_all-IsBorder in (r, rw (q, s) e, border)
        | inr s ↦
            let (r, e, border) =
              doubling-IsBorder f j (j * 2 % 2 ^ 32) (omega arith) (omega (arith, ltb-false _ _ s))
                (enough_rounds j f fuel le) (λ ne. q) in
            (r, rw (q, s) e, border)
      ]
    ]

    pub unbound_search-IsBorder :
        (j : ℕ)
        → j < max_int
        → (j ≢ 0 → present j ≡ true)
        → (r : ℕ) × (unbound_search present j ≡ some r) × IsBorder present r
    unfolding unbound_search
    unbound_search-IsBorder j lt low =
        doubling-IsBorder 32 j ((j + 1) % 2 ^ 32) (omega arith) (omega arith) (omega arith) low
