-- ===== src/Lua/Number/FloatByte.antt =====
-- lua515/lobject.c: how far `luaO_fb2int` after `luaO_int2fb` is from the number it was given.
use lua_engine.Base.{ℕ, ◌+◌, ◌-◌, ◌*◌, ◌^◌, ◌≤◌, ◌<◌, ◌≡◌, ◌⊎◌}

-- What `k` rounds of the loop make of `x`.
record Shrunk (x y k : ℕ) : Type 0 where
  above : x ≤ y * 2 ^ k
  near : y * 2 ^ k < x + 2 ^ k
  small : y < 16
  normal : ((k ≡ 0) × (y ≡ x)) ⊎ ((8 ≤ y) × (16 ≤ x))

-- The number is kept, or is 16 or more and grows by less than a seventh.
abbrev pub Near : ℕ → ℕ → Type 0
Near x v = (v ≡ x) ⊎ ((16 ≤ x) × (x ≤ v) × (7 * (v - x) < x))
