-- ===== src/Lua/Number.antt =====
-- lua515/lobject.c: the "floating point byte" in which the compiler keeps the size of a table.
-- A shift is a division or a product by a power of two, an `|` of numbers that share no bit a sum.
pub mod FloatByte
use lua_engine.Base.{
  ℕ, zero, suc, ◌+◌, ◌-◌, ◌*◌, ◌/◌, ◌%◌, ◌^◌, ltb, leb, ◌==◌, if◌then◌else◌, Option, none, some,
  Bool, true, false,
}

-- The `while` of `luaO_int2fb`, on `x` and `e`; `none` means that the fuel ran out. `x+1` wraps.
unfoldable pub shrink : ℕ → ℕ → ℕ → Option (ℕ × ℕ)
shrink zero x e = none
shrink (suc fuel) x e = elim (leb 16 x) [
  | false ↦ some (x, e)
  | true ↦ shrink fuel ((x + 1) % 2 ^ 32 / 2) (e + 1)
]

-- `luaO_int2fb`. A round halves `x`, so 32 rounds are enough.
abbrev pub pack : ℕ → ℕ → ℕ
pack x e = if ltb x 8 then x else (e + 1) * 8 + (x - 8)

unfoldable pub int2fb : ℕ → Option ℕ
int2fb x = elim (shrink 32 x 0) [ none ↦ none | some (y, e) ↦ some (pack y e) ]

-- `luaO_fb2int`
unfoldable pub fb2int : ℕ → ℕ
fb2int x = let e = x / 8 % 32 in if e == 0 then x else (x % 8 + 8) * 2 ^ (e - 1)
