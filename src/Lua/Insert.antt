-- ===== src/Lua/Insert.antt =====
-- lua515/ltablib.c: `table.insert` and `table.remove` on the integer keys of a table. A table is
-- the function that `lua_rawgeti` reads, and `getn` is `luaL_getn` on the table as it is when it is called,
-- by `aux_getn`; `luaL_setn` does nothing. Positions fit an `int`.
pub mod RoundTrip
use lua_engine.Base.{
  ℕ, zero, suc, ◌+◌, ◌-◌, Bool, true, false, ◌&&◌, Option, none, some, ltb, leb, if◌then◌else◌,
}
use lua_engine.Base.Int.{ℤ, pos, pos_part}
use lua_engine.Lua.Strings.{optinteger}
use lua_engine.Lua.Sort.{Table, raw_set}

module _ {V : Type 0} where
  -- The `for` of `tinsert`, with as many rounds as `i` is above the position.
  unfoldable pub move_up : ℕ → ℕ → Table V → Table V
  unfolding raw_set
  move_up zero at t = t
  move_up (suc k) at t = move_up k at (raw_set t (at + suc k) (t (at + k)))

  -- The `for` of `tremove`, with as many rounds as `pos` is below the size.
  unfoldable pub move_down : ℕ → ℕ → Table V → Table V
  unfolding raw_set
  move_down zero at t = t
  move_down (suc k) at t = move_down k (at + 1) (raw_set t at (t (at + 1)))

module _ {V : Type 0} (getn : Table V → ℕ) where
  -- `tinsert`, with a position that is not negative, or none.
  unfoldable pub tinsert : Table V → Option ℕ → V → Table V
  unfolding move_up
  tinsert t none v = raw_set t (getn t + 1) v
  tinsert t (some at) v =
      let e = if ltb (getn t + 1) at then at else getn t + 1 in raw_set (move_up (e - at) at t) at v

  -- `tremove`, with the value that it returns, if any.
  unfoldable pub tremove : V → Table V → Option ℤ → Option V × Table V
  unfolding move_down
  tremove nil t i =
      let e = getn t in
      let at = pos_part (optinteger i (pos e)) in
      if leb 1 at && leb at e
      then (some (t at), raw_set (move_down (e - at) at t) e nil)
      else (none, t)
