-- ===== src/Base/Int.antt =====
-- Signed integers over the native numbers, and the `int32_t` that a bit pattern stands for.
use lua_engine.Base.{ℕ, suc, ◌+◌, ◌-◌, ◌^◌, ◌%◌, Bool, ltb, if◌then◌else◌}

-- `negsuc n` is -(n + 1).
pub data ℤ : Type 0 where
  pos : ℕ → ℤ
  negsuc : ℕ → ℤ

abbrev pub pos_part : ℤ → ℕ
pos_part (pos n) = n
pos_part (negsuc n) = 0

abbrev pub neg_part : ℤ → ℕ
neg_part (pos n) = 0
neg_part (negsuc n) = suc n

abbrev pub ltb_ℤ : ℤ → ℤ → Bool
ltb_ℤ a b = ltb (pos_part a + neg_part b) (pos_part b + neg_part a)

-- The number that a 32-bit pattern stands for in two's complement.
abbrev pub signed32 : ℕ → ℤ
signed32 w = if ltb w (2 ^ 31) then pos w else negsuc (2 ^ 32 - w - 1)

-- The cast of an integer of Lua to `int`, as in `luaL_checkint` and `luaL_optint`.
abbrev pub cast_int : ℤ → ℤ
cast_int (pos n) = signed32 (n % 2 ^ 32)
cast_int (negsuc n) = signed32 (2 ^ 32 - 1 - n % 2 ^ 32)
