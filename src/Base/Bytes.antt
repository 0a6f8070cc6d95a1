-- ===== src/Base/Bytes.antt =====
-- Numbers as bytes in the order of a little-endian machine.
use lua_engine.Base.{
  ℕ, zero, suc, ◌+◌, ◌*◌, ◌/◌, ◌%◌, ◌^◌, ◌<◌, ◌≡◌, refl, ap, List, [], ◌∷◌, length, arith,
}
use native.Mathlib.Nat.{pow-suc}

abbrev pub le_bytes : ℕ → ℕ → List ℕ
le_bytes zero w = []
le_bytes (suc k) w = (w % 256) ∷ le_bytes k (w / 256)

abbrev pub le_value : List ℕ → ℕ
le_value [] = 0
le_value (b ∷ bs) = b + 256 * le_value bs

pub length-le_bytes : (k w : ℕ) → length (le_bytes k w) ≡ k
length-le_bytes zero w = refl
length-le_bytes (suc k) w = ap suc (length-le_bytes k (w / 256))

quotient-lt : (k w : ℕ) → w < 256 ^ suc k → w / 256 < 256 ^ k
quotient-lt k w h = omega (arith, pow-suc 256 k)

pub le_value-le_bytes : (k w : ℕ) → w < 256 ^ k → le_value (le_bytes k w) ≡ w
le_value-le_bytes zero w h = omega arith
le_value-le_bytes (suc k) w h = omega (arith, le_value-le_bytes k (w / 256) (quotient-lt k w h))
