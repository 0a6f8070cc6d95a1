-- ===== src/Lua/Rehash/Sizes.antt =====
-- lua515/ltable.c: `computesizes`, the size of the array part.
use lua_engine.Base.{
  ℕ, zero, suc, ◌+◌, ◌-◌, ◌*◌, ◌/◌, ◌^◌, ◌≤◌, ◌<◌, ◌≡◌, ◌≢◌, refl, sym, ap, ◌∙◌, subst, Bool, true,
  false, ◌&&◌, some, ltb, leb, ◌==◌, if◌then◌else◌, arith, Bool-cases, inl, inr, eqb→eq, eqb→ne,
  leb→le, leb-false, ltb→lt, ltb-false,
}
use lua_engine.Lua.Tables.{maxbits}
use lua_engine.Lua.Rehash.{Nums, size_loop, computesizes}
use lua_engine.Lua.Rehash.Counts.{prefix}
use native.Mathlib.Nat.{pow-suc, pow-le-pow_right}

-- No array part, or one of 2 ^ l slots for the keys counted up to `l`, which are more than half of the slots.
pub data IsSize (nums : Nums) : ℕ → ℕ → Type 0 where
  no_array : IsSize nums 0 0
  array_of :
      {n na : ℕ} (l : ℕ)
      → l ≤ maxbits
      → n ≡ 2 ^ l
      → na ≡ prefix nums l
      → n < na * 2
      → IsSize nums n na

-- No size of fewer than `i` bits that would be more than half full is larger.
abbrev pub IsLargest : Nums → ℕ → ℕ → Type 0
IsLargest nums i n = (l : ℕ) → l < i → 2 ^ l < prefix nums l * 2 → 2 ^ l ≤ n

-- The keys are distinct numbers: up to 2 ^ l there are at most so many.
abbrev pub IsCount : Nums → Type 0
IsCount nums = (l : ℕ) → prefix nums l ≤ 2 ^ l

abbrev below : Nums → ℕ → ℕ
below nums zero = 0
below nums (suc i) = prefix nums i

prefix-below : (nums : Nums) (i : ℕ) → below nums i + nums i ≡ prefix nums i
unfolding prefix
prefix-below nums zero = omega arith
prefix-below nums (suc i) = omega arith

prefix-le : (nums : Nums) (i c : ℕ) → prefix nums i ≤ prefix nums (i + c)
unfolding prefix
prefix-le nums i zero = omega (arith, ap (prefix nums) {x = i + 0} {y = i} (omega arith))
prefix-le nums i (suc c) =
    omega
      (arith, prefix-le nums i c, ap (prefix nums) {x = i + suc c} {y = suc (i + c)} (omega arith))

prefix_mono : (nums : Nums) (i j : ℕ) → i ≤ j → prefix nums i ≤ prefix nums j
prefix_mono nums i j le =
    omega
      (arith, prefix-le nums i (j - i), ap (prefix nums) {x = i + (j - i)} {y = j} (omega arith))

module _ (nums : Nums) (distinct : IsCount nums) where
  -- A round that takes the size.
  taken : (i : ℕ) → IsLargest nums (suc i) (2 ^ i)
  taken i l lt half = pow-le-pow_right {n = 2} (omega arith) (omega arith)

  -- A round that does not.
  passed :
      (i n : ℕ)
      → IsLargest nums i n
      → ltb 0 (nums i) && ltb (2 ^ i / 2) (prefix nums i) ≡ false
      → IsLargest nums (suc i) n
  passed i n largest e l lt half = elim (Bool-cases (l == i)) [
    | inl q ↦ absurd (not_half i e (subst (λ j. 2 ^ j < prefix nums j * 2) (eqb→eq l i q) half))
    | inr q ↦ let other = eqb→ne l i q in largest l (omega arith) half
  ]
    where
      not_half :
          (i : ℕ)
          → ltb 0 (nums i) && ltb (2 ^ i / 2) (prefix nums i) ≡ false
          → ¬ (2 ^ i < prefix nums i * 2)
      not_half zero e half = let first = prefix-below nums 0 in ground arith
      not_half (suc j) e half =
          let more = prefix-below nums (suc j) in ground (arith, distinct j, pow-suc 2 j)

  -- Behind the size that holds all keys there is no other one.
  finished :
      (i n : ℕ)
      → IsLargest nums (suc i) n
      → prefix nums i ≡ prefix nums maxbits
      → IsLargest nums (suc maxbits) n
  finished i n largest all l lt half = elim (Bool-cases (leb l i)) [
    | inl q ↦ largest l (omega (arith, leb→le l i q)) half
    | inr q ↦ absurd (
        omega (
          arith,
          prefix_mono nums l maxbits (omega arith),
          distinct i,
          twice i l (leb-false l i q),
        ))
  ]
    where
      twice : (i l : ℕ) → i < l → 2 ^ i * 2 ≤ 2 ^ l
      twice i l lt =
          omega (arith, pow-suc 2 i, pow-le-pow_right {n = 2} (omega arith) {i = suc i} {j = l} lt)

  ended :
      (i n : ℕ)
      → IsLargest nums i n
      → prefix nums maxbits ≤ 2 ^ i / 2
      → IsLargest nums (suc maxbits) n
  ended i n largest all l lt half = elim (Bool-cases (ltb l i)) [
    | inl q ↦ largest l (ltb→lt l i q) half
    | inr q ↦ absurd (
        omega (
          arith,
          prefix_mono nums l maxbits (omega arith),
          pow-le-pow_right {n = 2} (omega arith) {i = i} {j = l} (ltb-false l i q),
        ))
  ]

module _ (nums : Nums) where
  more_than_half :
      (i twotoi a : ℕ)
      → twotoi ≡ 2 ^ i
      → ltb 0 (nums i) && ltb (twotoi / 2) a ≡ true
      → twotoi < a * 2
  more_than_half zero twotoi a power e = ground (arith, power)
  more_than_half (suc j) twotoi a power e = ground (arith, power, pow-suc 2 j)

  -- What a round keeps.
  chosen :
      (i twotoi a na n : ℕ) (b : Bool)
      → i ≤ maxbits
      → twotoi ≡ 2 ^ i
      → a ≡ prefix nums i
      → ltb 0 (nums i) && ltb (twotoi / 2) a ≡ b
      → IsSize nums n na
      → (IsCount nums → IsLargest nums i n)
      → IsSize nums (if b then twotoi else n) (if b then a else na)
        × (IsCount nums → IsLargest nums (suc i) (if b then twotoi else n))
  chosen i twotoi a na n true le power sum e size largest = (
    array_of i le power sum (more_than_half i twotoi a power e),
    λ d. subst (IsLargest nums (suc i)) (sym power) (taken nums d i),
  )
  chosen i twotoi a na n false le power sum e size largest =
      (size, λ d. passed nums d i n (largest d) (rw⁻¹ (power, sum) e))

  -- The loop ends inside the entries, with a size as described.
  size_loop_lem :
      (f i twotoi a na n : ℕ)
      → i + f ≡ suc maxbits
      → twotoi ≡ 2 ^ i
      → a ≡ below nums i
      → (i ≢ 0 → a ≢ prefix nums maxbits)
      → IsSize nums n na
      → (IsCount nums → IsLargest nums i n)
      → (n' : ℕ) × (na' : ℕ) × (size_loop f nums (prefix nums maxbits) i twotoi a na n
          ≡ some (n', na'))
        × IsSize nums n' na'
        × (IsCount nums → IsLargest nums (suc maxbits) n')
  unfolding size_loop
  size_loop_lem zero i twotoi a na n rounds power sum more size largest =
      absurd (more (omega arith) (sum ∙ ap (below nums) {x = i} {y = 27} (omega arith)))
  size_loop_lem (suc f) i twotoi a na n rounds power sum more size largest =
      elim (Bool-cases (ltb (twotoi / 2) (prefix nums maxbits))) [
        | inr q ↦ (
          n,
          na,
          rw q refl,
          size,
          λ d.
              ended nums d i n (largest d)
                (omega (arith, ltb-false (twotoi / 2) (prefix nums maxbits) q, power)),
        )
        | inl q ↦
            let a' = a + nums i in
            let sum' : a' ≡ prefix nums i = omega (arith, sum, prefix-below nums i) in
            let better = ltb 0 (nums i) && ltb (twotoi / 2) a' in
            let (size', largest') =
              chosen i twotoi a' na n better (omega arith) power sum' refl size largest in
            let n' = if better then twotoi else n in
            elim (Bool-cases (a' == prefix nums maxbits)) [
              | inl s ↦ (
                n',
                (if better then a' else na),
                rw (q, s) refl,
                size',
                λ d.
                    finished nums d i n' (largest' d)
                      (sym sum' ∙ eqb→eq a' (prefix nums maxbits) s),
              )
              | inr s ↦
                  let (n'', na'', e, size'', largest'') =
                    size_loop_lem f (suc i) (twotoi * 2) a' (if better then a' else na) n'
                      (omega arith) (omega (arith, power, pow-suc 2 i)) sum'
                      (λ w. eqb→ne a' (prefix nums maxbits) s) size' largest' in
                  (n'', na'', rw (q, s) e, size'', largest'')
            ]
      ]

  -- `computesizes` gives a size that is 0, or a power of two up to 2 ^ 26 of which more than half are counted,
  -- and the number of keys counted up to it, and reads no entry behind the last one.
  pub computesizes-IsSize :
      (n : ℕ) × (na : ℕ) × (computesizes nums (prefix nums maxbits) ≡ some (n, na))
      × IsSize nums n na
      × (IsCount nums → IsLargest nums (suc maxbits) n)
  unfolding computesizes
  computesizes-IsSize =
      size_loop_lem 27 0 1 0 0 0 refl refl refl (λ ne. absurd (ne refl)) no_array
        (λ d l lt. absurd (omega arith))

  -- Where up to 2 ^ l at most 2 ^ l keys are counted, the size that `computesizes` gives, on the number of
  -- all keys counted, is 0, or a power of two up to 2 ^ 26 of which more than half are counted; the second result
  -- is the number of keys counted up to it; and each power of two up to 2 ^ 26 of which more than half are counted is at most that size.
  pub computesizes-IsLargest :
      IsCount nums
      → (n : ℕ) × (na : ℕ) × (computesizes nums (prefix nums maxbits) ≡ some (n, na))
        × IsSize nums n na
        × IsLargest nums (suc maxbits) n
  computesizes-IsLargest distinct =
      let (n, na, e, size, largest) = computesizes-IsSize in (n, na, e, size, largest distinct)
