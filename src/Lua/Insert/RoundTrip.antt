-- ===== src/Lua/Insert/RoundTrip.antt =====
-- lua515/ltablib.c: what is inserted can be removed again.
use lua_engine.Base.{
  ℕ, zero, suc, ◌+◌, ◌-◌, ◌≤◌, ◌<◌, ◌≡◌, ◌≢◌, ◌⊎◌, refl, sym, ap, ◌∙◌, subst, false, some, arith,
  Bool-cases, inl, inr, ltb, ltb→lt, ltb-false, le→leb, ◌==◌, eqb→eq, eqb→ne, ne→eqb, ==_refl,
}
use lua_engine.Base.Int.{pos}
use lua_engine.Lua.Sort.{Table, raw_set}
use lua_engine.Lua.Insert.{move_up, tinsert, move_down, tremove}

not_less : (a b : ℕ) → b ≤ a → ltb a b ≡ false
not_less a b h = ground arith

module _ {V : Type 0} where
  set-same : (t : Table V) (i : ℕ) (v : V) → raw_set t i v i ≡ v
  unfolding raw_set
  set-same t i v = rw (==_refl i) refl

  set-other : (t : Table V) (i : ℕ) (v : V) (k : ℕ) → k ≢ i → raw_set t i v k ≡ t k
  unfolding raw_set
  set-other t i v k h = rw (ne→eqb k i h) refl

  move_up-kept : (n at : ℕ) (t : Table V) (k : ℕ) → (k ≤ at) ⊎ (at + n < k) → move_up n at t k ≡ t k
  unfolding move_up
  move_up-kept zero at t k h = refl
  move_up-kept (suc n) at t k h =
      move_up-kept n at (raw_set t (at + suc n) (t (at + n))) k (nearer h)
      ∙ set-other t (at + suc n) (t (at + n)) k (apart h)
    where
      nearer : (k ≤ at) ⊎ (at + suc n < k) → (k ≤ at) ⊎ (at + n < k)
      nearer (inl le) = inl le
      nearer (inr lt) = inr (omega arith)

      apart : (k ≤ at) ⊎ (at + suc n < k) → k ≢ at + suc n
      apart (inl le) = omega arith
      apart (inr lt) = omega arith

  move_up-moved :
      (n at : ℕ) (t : Table V) (k : ℕ) → at ≤ k → k < at + n → move_up n at t (k + 1) ≡ t k
  unfolding move_up
  move_up-moved zero at t k h h' = absurd (omega arith)
  move_up-moved (suc n) at t k h h' =
      let t1 = raw_set t (at + suc n) (t (at + n)) in
      elim (Bool-cases (k == at + n)) [
        | inl e ↦
            let last = eqb→eq k (at + n) e in
            move_up-kept n at t1 (k + 1) (inr (omega arith))
            ∙ ap t1 {x = k + 1} {y = at + suc n} (omega arith)
            ∙ set-same t (at + suc n) (t (at + n))
            ∙ ap t (sym last)
        | inr e ↦
            let other = eqb→ne k (at + n) e in
            move_up-moved n at t1 k h (omega arith)
            ∙ set-other t (at + suc n) (t (at + n)) k (omega arith)
      ]

  move_down-kept :
      (n at : ℕ) (t : Table V) (k : ℕ) → (k < at) ⊎ (at + n ≤ k) → move_down n at t k ≡ t k
  unfolding move_down
  move_down-kept zero at t k h = refl
  move_down-kept (suc n) at t k h =
      move_down-kept n (at + 1) (raw_set t at (t (at + 1))) k (nearer h)
      ∙ set-other t at (t (at + 1)) k (apart h)
    where
      nearer : (k < at) ⊎ (at + suc n ≤ k) → (k < at + 1) ⊎ (at + 1 + n ≤ k)
      nearer (inl lt) = inl (omega arith)
      nearer (inr le) = inr (omega arith)

      apart : (k < at) ⊎ (at + suc n ≤ k) → k ≢ at
      apart (inl lt) = omega arith
      apart (inr le) = omega arith

  move_down-moved :
      (n at : ℕ) (t : Table V) (k : ℕ) → at ≤ k → k < at + n → move_down n at t k ≡ t (k + 1)
  unfolding move_down
  move_down-moved zero at t k h h' = absurd (omega arith)
  move_down-moved (suc n) at t k h h' =
      let t1 = raw_set t at (t (at + 1)) in
      elim (Bool-cases (k == at)) [
        | inl e ↦
            let first = eqb→eq k at e in
            move_down-kept n (at + 1) t1 k (inl (omega arith))
            ∙ ap t1 first
            ∙ set-same t at (t (at + 1))
            ∙ ap t {x = at + 1} {y = k + 1} (omega arith)
        | inr e ↦
            let other = eqb→ne k at e in
            move_down-moved n (at + 1) t1 k (omega arith) (omega arith)
            ∙ set-other t at (t (at + 1)) (k + 1) (omega arith)
      ]

  module _ (getn : Table V → ℕ) where
    tinsert-moved :
        (at : ℕ) (t : Table V) (v : V)
        → at ≤ getn t + 1
        → tinsert getn t (some at) v ≡ raw_set (move_up (getn t + 1 - at) at t) at v
    unfolding tinsert
    tinsert-moved at t v h = rw (not_less (getn t + 1) at h) refl

-- A length that `luaH_getn` may give: a number with a value or 0, and the next number has none.
pub record IsLength {V : Type 0} (nil : V) (t : Table V) (e : ℕ) : Type 0 where
  pub value_here : (e ≡ 0) ⊎ (t e ≢ nil)
  pub nil_behind : t (e + 1) ≡ nil

-- The table with `v` inserted at `at`, where `n` numbers have a value and none behind them.
module _ {V : Type 0} (nil v : V) (t : Table V) (n at : ℕ) (h : 1 ≤ at) (h' : at ≤ n + 1)
    (value : v ≢ nil) (full : (k : ℕ) → 1 ≤ k → k ≤ n → t k ≢ nil)
    (empty : (k : ℕ) → n < k → t k ≡ nil) where
  inserted : Table V
  inserted = raw_set (move_up (n + 1 - at) at t) at v

  inserted-value : (k : ℕ) → 1 ≤ k → k ≤ n + 1 → inserted k ≢ nil
  unfolding inserted
  inserted-value k le ge e = elim (Bool-cases (k == at)) [
    | inl q ↦ value (
        sym (set-same (move_up (n + 1 - at) at t) at v)
        ∙ ap (raw_set (move_up (n + 1 - at) at t) at v) (sym (eqb→eq k at q))
        ∙ e)
    | inr q ↦
        let other = eqb→ne k at q in
        let moved = sym (set-other (move_up (n + 1 - at) at t) at v k other) ∙ e in
        elim (Bool-cases (ltb k at)) [
          | inl w ↦
              let lt = ltb→lt k at w in
              full k le (omega arith)
                (sym (move_up-kept (n + 1 - at) at t k (inl (omega arith))) ∙ moved)
          | inr w ↦
              let past = ltb-false k at w in
              full (k - 1) (omega arith) (omega arith) (
                sym (move_up-moved (n + 1 - at) at t (k - 1) (omega arith) (omega arith))
                ∙ ap (move_up (n + 1 - at) at t) {x = k - 1 + 1} {y = k} (omega arith)
                ∙ moved)
        ]
  ]

  inserted-nil : (k : ℕ) → n + 1 < k → inserted k ≡ nil
  unfolding inserted
  inserted-nil k lt =
      set-other (move_up (n + 1 - at) at t) at v k (omega arith)
      ∙ move_up-kept (n + 1 - at) at t k (inr (omega arith))
      ∙ empty k (omega arith)

  -- The only length is one more than before.
  one_more : (e : ℕ) → IsLength nil inserted e → e ≡ n + 1
  one_more e len = elim (Bool-cases (ltb e (n + 1))) [
    | inl q ↦
        let lt = ltb→lt e (n + 1) q in
        absurd (inserted-value (e + 1) (omega arith) (omega arith) len.nil_behind)
    | inr q ↦ elim (Bool-cases (e == n + 1)) [
      | inl s ↦ eqb→eq e (n + 1) s
      | inr s ↦
          let past = ltb-false e (n + 1) q in
          let other = eqb→ne e (n + 1) s in
          absurd (elim len.value_here [
            | inl z ↦ omega arith
            | inr some_value ↦ some_value (inserted-nil e (omega arith))
          ])
    ]
  ]

  abbrev up : Table V
  up = move_up (n + 1 - at) at t

  behind : t (n + 1) ≡ nil
  behind = empty (n + 1) (omega arith)

  restored : (k : ℕ) → raw_set (move_down (n + 1 - at) at (raw_set up at v)) (n + 1) nil k ≡ t k
  restored k = elim (Bool-cases (k == n + 1)) [
    | inl e ↦
        let last = eqb→eq k (n + 1) e in
        ap (raw_set (move_down (n + 1 - at) at (raw_set up at v)) (n + 1) nil) last
        ∙ set-same (move_down (n + 1 - at) at (raw_set up at v)) (n + 1) nil
        ∙ sym behind
        ∙ ap t (sym last)
    | inr e ↦
        let other = eqb→ne k (n + 1) e in
        set-other (move_down (n + 1 - at) at (raw_set up at v)) (n + 1) nil k other ∙ inside other
  ]
    where
      kept_above : n + 1 < k → up k ≡ t k
      kept_above lt = move_up-kept (n + 1 - at) at t k (inr (omega arith))

      inside : k ≢ n + 1 → move_down (n + 1 - at) at (raw_set up at v) k ≡ t k
      inside other = elim (Bool-cases (ltb k at)) [
        | inl e ↦
            let lt = ltb→lt k at e in
            move_down-kept (n + 1 - at) at (raw_set up at v) k (inl lt)
            ∙ set-other up at v k (omega arith)
            ∙ move_up-kept (n + 1 - at) at t k (inl (omega arith))
        | inr e ↦
            let ge = ltb-false k at e in
            elim (Bool-cases (ltb k (n + 1))) [
              | inl e' ↦
                  let lt = ltb→lt k (n + 1) e' in
                  move_down-moved (n + 1 - at) at (raw_set up at v) k ge (omega arith)
                  ∙ set-other up at v (k + 1) (omega arith)
                  ∙ move_up-moved (n + 1 - at) at t k ge (omega arith)
              | inr e' ↦
                  let ge' = ltb-false k (n + 1) e' in
                  move_down-kept (n + 1 - at) at (raw_set up at v) k (inr (omega arith))
                  ∙ set-other up at v k (omega arith)
                  ∙ kept_above (omega arith)
            ]
      ]

  removed :
      (getn : Table V → ℕ)
      → getn inserted ≡ n + 1
      → ((tremove getn nil inserted (some (pos at))).0 ≡ some v)
        × ((k : ℕ) → (tremove getn nil inserted (some (pos at))).1 k ≡ t k)
  unfolding tremove inserted
  removed getn e =
      rw (e, tremove, le→leb 1 at h, le→leb at (n + 1) h')
        (ap some (set-same (move_up (n + 1 - at) at t) at v), restored)

module _ {V : Type 0} (getn : Table V → ℕ) where
  -- In a table whose numbers with a value are those from 1 to its length, `table.insert` of a value that is not nil
  -- at a position from 1 to one behind the last, followed by `table.remove` at that position, returns the value
  -- inserted and leaves at each key what was there before. The length that `table.remove` computes of the
  -- table after the insertion may be any that `luaH_getn` promises.
  pub tremove-tinsert :
      (nil v : V) (t : Table V) (at : ℕ)
      → 1 ≤ at
      → at ≤ getn t + 1
      → v ≢ nil
      → ((k : ℕ) → 1 ≤ k → k ≤ getn t → t k ≢ nil)
      → ((k : ℕ) → getn t < k → t k ≡ nil)
      → IsLength nil (tinsert getn t (some at) v) (getn (tinsert getn t (some at) v))
      → ((tremove getn nil (tinsert getn t (some at) v) (some (pos at))).0 ≡ some v)
        × ((k : ℕ) → (tremove getn nil (tinsert getn t (some at) v) (some (pos at))).1 k ≡ t k)
  unfolding inserted
  tremove-tinsert nil v t at h h' value full empty len =
      let moved = tinsert-moved getn at t v h' in
      let one = one_more nil v t (getn t) at h h' value full empty in
      let size = one _ (subst (λ s. IsLength nil s (getn s)) moved len) in
      subst
        (λ s.
          ((tremove getn nil s (some (pos at))).0 ≡ some v)
          × ((k : ℕ) → (tremove getn nil s (some (pos at))).1 k ≡ t k))
        (sym moved) (removed nil v t (getn t) at h h' value full empty getn size)
