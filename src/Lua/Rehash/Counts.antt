-- ===== src/Lua/Rehash/Counts.antt =====
-- lua515/ltable.c: what `numusearray`, `numusehash` and `countint` count.
use lua_engine.Base.{
  ℕ, zero, suc, ◌+◌, ◌-◌, ◌*◌, ◌^◌, ◌≤◌, ◌<◌, ◌≡◌, refl, ap, ◌∙◌, true, false, ◌&&◌, Option, ltb,
  leb, ◌==◌, if◌then◌else◌, arith, Bool-cases, inl, inr, eqb→eq, eqb→ne, min, leb→le,
}
use lua_engine.Lua.Nodes.{is_some}
use lua_engine.Lua.Logs.{ceillog2}
use lua_engine.Lua.Logs.Ceiling.{ceillog2_le_iff}
use lua_engine.Lua.Tables.{maxbits}
use lua_engine.Lua.Rehash.{Nums, add_at, bit, countint, count_slice, slices}
use native.Mathlib.Nat.{pow-suc, pow-le-pow_right}

-- The sum of the entries up to `l`.
unfoldable pub prefix : Nums → ℕ → ℕ
prefix nums zero = nums 0
prefix nums (suc l) = nums (suc l) + prefix nums l

pub prefix-add_at :
    (nums : Nums) (g c l : ℕ)
    → prefix (add_at nums g c) l ≡ (if leb g l then c else 0) + prefix nums l
unfolding prefix
prefix-add_at nums g c zero = ground arith
prefix-add_at nums g c (suc l) = ground (arith, prefix-add_at nums g c l)

-- A key that is a number of the range of the entries is counted in it, and no other.
pub prefix-countint :
    (k : ℕ) (nums : Nums) (l : ℕ)
    → l ≤ maxbits
    → prefix (countint k nums).0 l ≡ (if ltb 0 k && leb k (2 ^ l) then 1 else 0) + prefix nums l
unfolding countint
prefix-countint k nums l le = elim (Bool-cases (ltb 0 k && leb k (2 ^ maxbits))) [
  | inl q ↦ rw q (
      prefix-add_at nums (ceillog2 k) 1 l
      ∙ ap (λ b. (if b then 1 else 0) + prefix nums l) (same_test q))
  | inr q ↦ rw (q, out q) (omega arith)
]
  where
    wide : 2 ^ l ≤ 2 ^ maxbits
    wide = pow-le-pow_right {n = 2} (omega arith) le

    out : ltb 0 k && leb k (2 ^ maxbits) ≡ false → ltb 0 k && leb k (2 ^ l) ≡ false
    out q = ground (arith, wide)

    same_test :
        ltb 0 k && leb k (2 ^ maxbits) ≡ true → leb (ceillog2 k) l ≡ ltb 0 k && leb k (2 ^ l)
    same_test q =
        let iff = ceillog2_le_iff k l (ground arith) (ground arith) in
        elim (Bool-cases (leb k (2 ^ l))) [
          | inl s ↦ let small = iff.1 (leb→le k (2 ^ l) s) in ground arith
          | inr s ↦ elim (Bool-cases (leb (ceillog2 k) l)) [
            | inl s' ↦ let small = iff.0 (leb→le (ceillog2 k) l s') in absurd (ground arith)
            | inr s' ↦ ground arith
          ]
        ]

-- How many of the first `n` slots have a value.
unfoldable pub filled : {V : Type 0} → (ℕ → Option V) → ℕ → ℕ
filled a zero = 0
filled a (suc n) = bit (is_some (a n)) + filled a n

count_slice-filled :
    {V : Type 0} (a : ℕ → Option V) (i n : ℕ)
    → count_slice a (suc i) n + filled a i ≡ filled a (i + n)
unfolding count_slice filled
count_slice-filled a i zero = omega (arith, ap (filled a) {x = i} {y = i + 0} (omega arith))
count_slice-filled a i (suc n) =
    let slot : bit (is_some (a (suc i - 1))) ≡ bit (is_some (a i)) =
      ap (λ j. bit (is_some (a j))) {x = suc i - 1} {y = i} (omega arith) in
    omega (
      arith,
      slot,
      count_slice-filled a (suc i) n,
      ap (filled a) {x = suc i + n} {y = i + suc n} (omega arith),
    )

abbrev slice_limit : ℕ → ℕ → ℕ
slice_limit size ttlg = if ltb size ttlg then size else ttlg

next_slot : (lim i : ℕ) → i ≤ lim → (if leb (suc i) lim then suc lim else suc i) ≡ suc lim
next_slot lim i le = ground arith

slice_count :
    {V : Type 0} (a : ℕ → Option V) (lim i : ℕ)
    → i ≤ lim
    → count_slice a (suc i) (suc lim - suc i) + filled a i ≡ filled a lim
slice_count a lim i le = omega (
  arith,
  count_slice-filled a i (suc lim - suc i),
  ap (filled a) {x = i + (suc lim - suc i)} {y = lim} (omega arith),
)

-- The loop of `numusearray` leaves the entries of lower slices as they are.
slices-below :
    {V : Type 0} (a : ℕ → Option V) (size f lg ttlg i l : ℕ) (nums : Nums) (ause : ℕ)
    → l < lg
    → prefix (slices a size f lg ttlg i nums ause).0 l ≡ prefix nums l
unfolding slices
slices-below a size zero lg ttlg i l nums ause lt = refl
slices-below a size (suc f) lg ttlg i l nums ause lt =
    elim (Bool-cases (ltb size ttlg && ltb (slice_limit size ttlg) i)) [
      | inl q ↦ rw q refl
      | inr q ↦ rw q (
          slices-below a size f (suc lg) _ _ l _ _ (omega arith)
          ∙ prefix-add_at nums lg _ l
          ∙ ground arith)
    ]

-- Its second result counts what its first one does.
pub slices-ause :
    {V : Type 0} (a : ℕ → Option V) (size f lg ttlg i l : ℕ) (nums : Nums) (ause : ℕ)
    → lg + f ≤ suc l
    → (slices a size f lg ttlg i nums ause).1 + prefix nums l
      ≡ ause + prefix (slices a size f lg ttlg i nums ause).0 l
unfolding slices
slices-ause a size zero lg ttlg i l nums ause le = refl
slices-ause a size (suc f) lg ttlg i l nums ause le =
    elim (Bool-cases (ltb size ttlg && ltb (slice_limit size ttlg) i)) [
      | inl q ↦ rw q refl
      | inr q ↦
          let lc = count_slice a i (suc (slice_limit size ttlg) - i) in
          let here : leb lg l ≡ true = ground arith in
          let more : prefix (add_at nums lg lc) l ≡ lc + prefix nums l =
            prefix-add_at nums lg lc l ∙ rw here refl in
          rw q (
            omega (
              arith,
              more,
              slices-ause a size f (suc lg) (ttlg * 2)
                  (if leb i (slice_limit size ttlg) then suc (slice_limit size ttlg) else i) l
                  (add_at nums lg lc) (ause + lc) (omega arith),
            ))
    ]

-- What it gives from the slot after the first `i`.
pub slices-prefix :
    {V : Type 0} (a : ℕ → Option V) (size f lg ttlg i l : ℕ) (nums : Nums) (ause : ℕ)
    → ttlg ≡ 2 ^ lg
    → i ≤ size
    → i ≤ ttlg
    → lg ≤ l
    → l < lg + f
    → prefix (slices a size f lg ttlg (suc i) nums ause).0 l + filled a i
      ≡ prefix nums l + filled a (min (2 ^ l) size)
unfolding slices
slices-prefix a size zero lg ttlg i l nums ause tt le le' ge lt = absurd (omega arith)
slices-prefix a size (suc f) lg ttlg i l nums ause tt le le' ge lt =
    elim (Bool-cases (ltb size ttlg && ltb (slice_limit size ttlg) (suc i))) [
      | inl q ↦
          let wide : 2 ^ lg ≤ 2 ^ l = pow-le-pow_right {n = 2} (omega arith) ge in
          let all : i ≡ min (2 ^ l) size = ground arith in
          rw q (ap (λ j. prefix nums l + filled a j) all)
      | inr q ↦
          let lim = slice_limit size ttlg in
          let inside : i ≤ lim = ground arith in
          let lc = count_slice a (suc i) (suc lim - suc i) in
          let here : leb lg l ≡ true = ground arith in
          let more : prefix (add_at nums lg lc) l ≡ lc + prefix nums l =
            prefix-add_at nums lg lc l ∙ rw here refl in
          rw (q, next_slot lim i inside)
            (elim (Bool-cases (lg == l)) [
              | inl s ↦
                  let same : ttlg ≡ 2 ^ l = tt ∙ ap (λ j. 2 ^ j) (eqb→eq lg l s) in
                  let last : lim ≡ min (2 ^ l) size = ground arith in
                  omega (
                    arith,
                    more,
                    slice_count a lim i inside,
                    ap (filled a) last,
                    slices-below a size f (suc lg) (ttlg * 2) (suc lim) l (add_at nums lg lc)
                        (ause + lc) (omega (arith, eqb→eq lg l s)),
                  )
              | inr s ↦ omega (
                arith,
                more,
                slice_count a lim i inside,
                slices-prefix a size f (suc lg) (ttlg * 2) lim l (add_at nums lg lc) (ause + lc)
                    (omega (arith, tt, pow-suc 2 lg)) (ground arith) (ground arith)
                    (omega (arith, eqb→ne lg l s)) (omega arith),
              )
            ])
    ]
