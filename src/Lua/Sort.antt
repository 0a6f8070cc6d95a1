-- ===== src/Lua/Sort.antt =====
-- lua515/ltablib.c: `table.sort` on the integer keys of a table. The order of `sort_comp`, which is the
-- `<` of Lua or a function, is a parameter that answers and changes nothing. A size is below 2^30, so
-- that no sum of two indices overflows an `int`.
pub mod Moves
pub mod Order
pub mod Partition
pub mod Whole
use lua_engine.Base.{ℕ, zero, suc, ◌+◌, ◌-◌, ◌/◌, Bool, true, false, ltb, ◌==◌, if◌then◌else◌}

-- The calls of `luaL_error`, and the end of the fuel.
pub data SortError : Type 0 where
  invalid_order out_of_fuel : SortError

pub data Res (A : Type 0) : Type 0 where
  ok : A → Res A
  raised : SortError → Res A

infixl 5 ◌>>=◌
abbrev pub ◌>>=◌ : {A B : Type 0} → Res A → (A → Res B) → Res B
ok a >>= f = f a
raised e >>= f = raised e

-- What `lua_rawgeti` reads at each index.
abbrev pub Table : Type 0 → Type 0
Table V = ℕ → V

module _ {V : Type 0} where
  -- `lua_rawseti`
  unfoldable pub raw_set : Table V → ℕ → V → Table V
  raw_set t i v k = if k == i then v else t k

  -- `set2`, with the values at `i` and `j` on the stack.
  unfoldable pub swap : ℕ → ℕ → Table V → Table V
  unfolding raw_set
  swap i j t = raw_set (raw_set t i (t j)) j (t i)

  module _ (comp : V → V → Bool) where
    -- The first inner `while` of `auxsort`.
    unfoldable pub scan_up : ℕ → V → ℕ → Table V → ℕ → Res ℕ
    scan_up zero p u t i = raised out_of_fuel
    scan_up (suc n) p u t i =
        let further = scan_up n p u t (i + 1) in
        if comp (t (i + 1)) p
        then (if ltb u (i + 1) then raised invalid_order else further)
        else ok (i + 1)

    -- The second inner `while` of `auxsort`.
    unfoldable pub scan_down : ℕ → V → ℕ → Table V → ℕ → Res ℕ
    scan_down zero p l t j = raised out_of_fuel
    scan_down (suc n) p l t j =
        let further = scan_down n p l t (j - 1) in
        if comp p (t (j - 1))
        then (if ltb (j - 1) l then raised invalid_order else further)
        else ok (j - 1)

    -- The `for` of `auxsort`: where `i` stops, and the table.
    unfoldable pub partition : ℕ → V → ℕ → ℕ → ℕ → ℕ → Table V → Res (ℕ × Table V)
    unfolding scan_up scan_down
    partition zero p l u i j t = raised out_of_fuel
    partition (suc n) p l u i j t = do
      i' ← scan_up (suc u) p u t i
      j' ← scan_down (suc u) p l t j
      let further = partition n p l u i' j' (swap i' j' t)
      if ltb j' i' then ok (i', t) else further

    -- The order of the first and the last element.
    unfoldable pub order_ends : ℕ → ℕ → Table V → Table V
    order_ends l u t = if comp (t u) (t l) then swap l u t else t

    -- The order of the element in the middle and the two ends.
    unfoldable pub order_middle : ℕ → ℕ → ℕ → Table V → Table V
    order_middle l i u t =
        if comp (t i) (t l) then swap i l t else if comp (t u) (t i) then swap i u t else t

    -- `auxsort`, with its loop as the second call.
    unfoldable pub auxsort : ℕ → ℕ → ℕ → Table V → Res (Table V)
    unfolding swap partition order_ends order_middle
    auxsort zero l u t = raised out_of_fuel
    auxsort (suc n) l u t =
        let t1 = order_ends l u t in
        let i = (l + u) / 2 in
        let t2 = order_middle l i u t1 in
        let split = (do
          (m, t3) ← partition (suc u) (t2 i) l u l (u - 1) (swap i (u - 1) t2)
          let t4 = swap (u - 1) m t3
          let left_first = auxsort n l (m - 1) t4 >>= auxsort n (m + 1) u
          let right_first = auxsort n (m + 1) u t4 >>= auxsort n l (m - 1)
          if ltb (m - l) (u - m) then left_first else right_first) in
        if ltb l u
        then (if u - l == 1 then ok t1 else if u - l == 2 then ok t2 else split)
        else ok t

    -- `sort`, on a table with `n` elements.
    unfoldable pub sort : ℕ → Table V → Res (Table V)
    unfolding auxsort
    sort n t = auxsort (suc n) 1 n t
