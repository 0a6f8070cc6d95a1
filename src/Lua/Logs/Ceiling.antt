-- ===== src/Lua/Logs/Ceiling.antt =====
-- lua515/lobject.c and lobject.h: `ceillog2` as a logarithm that is rounded up.
use lua_engine.Base.{
  ℕ, zero, suc, ◌+◌, ◌-◌, ◌*◌, ◌/◌, ◌^◌, ◌≤◌, ◌<◌, ◌≡◌, ◌↔◌, refl, ap, Bool, true, false, ◌&&◌, leb,
  ltb, ◌==◌, arith, Bool-cases, inl, inr, eqb→eq, eqb→ne, subst, sym, ◌∙◌, ltb→lt, leb→le,
  leb-false,
}
use lua_engine.Lua.Logs.{log_2, entry, log2_loop, ceillog2}
use native.Mathlib.Nat.{pow-suc, pow-le-pow_right}

-- The number has `b` bits.
abbrev HasBits : ℕ → ℕ → Type 0
HasBits x b = (x < 2 ^ b) × ((j : ℕ) → b ≡ suc j → 2 ^ j ≤ x)

abbrev bits_right : ℕ → ℕ → Bool
bits_right n zero = n == 0
bits_right n (suc b) = ltb n (2 ^ suc b) && leb (2 ^ b) n

abbrev entries_right : ℕ → Bool
entries_right zero = true
entries_right (suc n) = entries_right n && bits_right n (entry log_2 n)

all_right : entries_right 256 ≡ true
all_right = refl

both : (a b : Bool) → a && b ≡ true → (a ≡ true) × (b ≡ true)
both true true e = (refl, refl)
both true false e = absurd (cc)
both false b e = absurd (cc)

bits_right-HasBits : (n b : ℕ) → bits_right n b ≡ true → HasBits n b
bits_right-HasBits n zero e = (omega (arith, eqb→eq n 0 e), λ j q. absurd (omega arith))
bits_right-HasBits n (suc b) e =
    let (less, most) = both _ _ e in
    (ltb→lt n _ less, λ j q. subst (λ y. 2 ^ y ≤ n) (omega arith) (leb→le (2 ^ b) n most))

entry_lem : (n x : ℕ) → entries_right n ≡ true → x < n → HasBits x (entry log_2 x)
entry_lem zero x h lt = absurd (omega arith)
entry_lem (suc n) x h lt = elim (Bool-cases (x == n)) [
  | inl q ↦
      subst (λ y. HasBits y (entry log_2 y)) (sym (eqb→eq x n q))
        (bits_right-HasBits n (entry log_2 n) (both _ _ h).1)
  | inr q ↦ let other = eqb→ne x n q in entry_lem n x (both _ _ h).0 (omega arith)
]

four_more : (m : ℕ) → 2 ^ (suc (suc (suc (suc m)))) ≡ 16 * 2 ^ m
four_more m =
    omega (
      arith,
      pow-suc 2 m,
      pow-suc 2 (suc m),
      pow-suc 2 (suc (suc m)),
      pow-suc 2 (suc (suc (suc m))),
    )

eight_more : (m : ℕ) → 2 ^ (m + 8) ≡ 256 * 2 ^ m
eight_more m =
    ap (λ y. 2 ^ y) {x = m + 8} {y = suc (suc (suc (suc (suc (suc (suc (suc m)))))))} (omega arith)
    ∙ omega (arith, four_more m, four_more (suc (suc (suc (suc m)))))

HasBits-byte : (x m : ℕ) → 256 ≤ x → HasBits (x / 256) m → HasBits x (m + 8)
HasBits-byte x zero big (above, below) = absurd (omega (arith, above))
HasBits-byte x (suc i) big (above, below) =
    let less : 2 ^ i ≤ x / 256 = below i refl in
    (
      omega (arith, above, eight_more (suc i)),
      λ j e.
          subst (λ y. 2 ^ y ≤ x) {x = i + 8} {y = j} (omega arith)
            (omega (arith, less, eight_more i)),
    )

log2_loop_lem : (f l x : ℕ) → x < 256 ^ suc f → (m : ℕ) × (log2_loop f l x ≡ l + m) × HasBits x m
unfolding log2_loop
log2_loop_lem zero l x lt = (entry log_2 x, refl, entry_lem 256 x all_right lt)
log2_loop_lem (suc f) l x lt = elim (Bool-cases (leb 256 x)) [
  | inr q ↦ (entry log_2 x, rw q refl, entry_lem 256 x all_right (leb-false 256 x q))
  | inl q ↦
      let big = leb→le 256 x q in
      let (m, e, bits) = log2_loop_lem f (l + 8) (x / 256) (omega (arith, pow-suc 256 (suc f))) in
      (m + 8, rw q (omega (arith, e)), HasBits-byte x m big bits)
]

-- For a number of 1 to 2 ^ 32, `ceillog2` gives the least exponent of a power of two that is not less.
pub ceillog2_le_iff : (k b : ℕ) → 1 ≤ k → k ≤ 2 ^ 32 → (ceillog2 k ≤ b) ↔ (k ≤ 2 ^ b)
unfolding ceillog2
ceillog2_le_iff k b one small =
    let (m, e, bits) = log2_loop_lem 4 0 (k - 1) (omega arith) in
    (
      (λ le.
          let wide = pow-le-pow_right {n = 2} (omega arith) {i = m} {j = b} (omega (arith, e)) in
          omega (arith, bits.0)),
      (λ le. elim (Bool-cases (leb m b)) [
        | inl q ↦ let fits = leb→le m b q in omega (arith, e)
        | inr q ↦
            let wide =
              pow-le-pow_right {n = 2} (omega arith) {i = b} {j = m - 1}
                (omega (arith, leb-false m b q)) in
            let most = bits.1 (m - 1) (omega (arith, leb-false m b q)) in absurd (omega arith)
      ]),
    )
