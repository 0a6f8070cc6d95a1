-- ===== src/Lua/Rehash.antt =====
-- lua515/ltable.c: how a table that is full grows. `nums` is a function; `prefix` of Lua.Rehash.Counts adds
-- its entries up.
pub mod Counts
pub mod Entries
pub mod Sizes
pub mod Room
pub mod Whole
use lua_engine.Base.{
  ℕ, zero, suc, ◌+◌, ◌-◌, ◌*◌, ◌/◌, ◌^◌, Bool, true, false, ◌&&◌, Option, none, some, ltb, leb,
  ◌==◌, if◌then◌else◌,
}
use lua_engine.Lua.Nodes.{Node, Vector, is_some}
use lua_engine.Lua.Logs.{ceillog2}
use lua_engine.Lua.Tables.{LuaTable, maxbits, set, resize}

-- What the counts are kept in.
abbrev pub Nums : Type 0
Nums = ℕ → ℕ

abbrev pub add_at : Nums → ℕ → ℕ → Nums
add_at nums g c j = if j == g then nums j + c else nums j

abbrev pub no_nums : Nums
no_nums j = 0

-- `countint` on the index of a key: the counts, and 1 for a key that is counted.
unfoldable pub countint : ℕ → Nums → Nums × ℕ
countint k nums =
    if ltb 0 k && leb k (2 ^ maxbits) then (add_at nums (ceillog2 k) 1, 1) else (nums, 0)

abbrev pub bit : Bool → ℕ
bit b = if b then 1 else 0

-- The inner loop of `numusearray`, for `n` rounds from `i`.
unfoldable pub count_slice : {V : Type 0} → (ℕ → Option V) → ℕ → ℕ → ℕ
count_slice a i zero = 0
count_slice a i (suc n) = bit (is_some (a (i - 1))) + count_slice a (suc i) n

-- Its outer loop, with the rounds that are left.
unfoldable pub slices : {V : Type 0} → (ℕ → Option V) → ℕ → ℕ → ℕ → ℕ → ℕ → Nums → ℕ → Nums × ℕ
unfolding count_slice
slices a size zero lg ttlg i nums ause = (nums, ause)
slices a size (suc f) lg ttlg i nums ause =
    let lim = if ltb size ttlg then size else ttlg in
    let lc = count_slice a i (suc lim - i) in
    let rest =
      slices a size f (suc lg) (ttlg * 2) (if leb i lim then suc lim else i) (add_at nums lg lc)
        (ause + lc) in
    if ltb size ttlg && ltb lim i then (nums, ause) else rest

-- The loop of `computesizes`; none where it would read behind the end of `nums`.
unfoldable pub size_loop : ℕ → Nums → ℕ → ℕ → ℕ → ℕ → ℕ → ℕ → Option (ℕ × ℕ)
size_loop zero nums narray i twotoi a na n = if ltb (twotoi / 2) narray then none else some (n, na)
size_loop (suc f) nums narray i twotoi a na n =
    let a' = a + nums i in
    let better = ltb 0 (nums i) && ltb (twotoi / 2) a' in
    let na' = if better then a' else na in
    let n' = if better then twotoi else n in
    let rest = size_loop f nums narray (suc i) (twotoi * 2) a' na' n' in
    if ltb (twotoi / 2) narray
    then (if a' == narray then some (n', na') else rest)
    else some (n, na)

-- `computesizes`: the size of the array part, and how many keys go to it. `nums` has 27 entries.
unfoldable pub computesizes : Nums → ℕ → Option (ℕ × ℕ)
unfolding size_loop
computesizes nums narray = size_loop 27 nums narray 0 1 0 0 0

-- The index of the key of a node, which is nil where the node is free.
abbrev pub key_index : {K : Type 0} → (K → ℕ) → Option K → ℕ
key_index index none = 0
key_index index (some k) = index k

module _ {K V : Type 0} (index : K → ℕ) where
  -- `numusearray`
  unfoldable pub numusearray : LuaTable K V → Nums → Nums × ℕ
  unfolding slices
  numusearray t nums = slices t.array t.sizearray 27 0 1 1 nums 0

  -- The loop of `numusehash` on the first `n` nodes: `nums`, `ause` and `totaluse`.
  unfoldable pub count_nodes : Vector K V → ℕ → Nums → ℕ → ℕ → Nums × ℕ × ℕ
  unfolding countint
  count_nodes h zero nums ause total = (nums, ause, total)
  count_nodes h (suc n) nums ause total =
      let counted = countint (key_index index (h.node n).key) nums in
      let skip = count_nodes h n nums ause total in
      let rest = count_nodes h n counted.0 (ause + counted.1) (total + 1) in
      if is_some (h.node n).value then rest else skip

  module _ (equal : K → K → Bool) (home : ℕ → K → ℕ) (number : ℕ → K) where
    abbrev pub resize_to : LuaTable K V → ℕ → Option (ℕ × ℕ) → Option (LuaTable K V)
    resize_to t total none = none
    resize_to t total (some (nasize, na)) = resize index equal home number t nasize (total - na)

    -- `rehash`
    unfoldable pub rehash : LuaTable K V → K → Option (LuaTable K V)
    unfolding numusearray count_nodes countint computesizes
    rehash t k =
        let (nums1, nasize1) = numusearray t no_nums in
        let (nums2, ause2, total) = count_nodes t.hash t.hash.size nums1 0 nasize1 in
        let (nums3, one) = countint (index k) nums2 in
        resize_to t (total + 1) (computesizes nums3 (nasize1 + ause2 + one))

    abbrev pub set_grown : Option (LuaTable K V) → K → Option V → Option (LuaTable K V)
    set_grown none k v = none
    set_grown (some t) k v = set index equal home t k v

    -- `luaH_set` and the assignment that follows, with the call of `rehash`. None where the table would have
    -- to grow a second time, or has too many keys.
    unfoldable pub luah_set : LuaTable K V → K → Option V → Option (LuaTable K V)
    unfolding set rehash
    luah_set t k v =
        let grown = set_grown (rehash t k) k v in
        elim (set index equal home t k v) [ some t' ↦ some t' | none ↦ grown ]
