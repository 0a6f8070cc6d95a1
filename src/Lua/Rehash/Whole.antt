-- ===== src/Lua/Rehash/Whole.antt =====
-- lua515/ltable.c: `luaH_set` on a table of any state.
use lua_engine.Base.{
  ℕ, zero, suc, ◌+◌, ◌-◌, ◌^◌, ◌≤◌, ◌<◌, ◌≡◌, refl, ap, ◌∙◌, subst, Bool, true, false, Option, none,
  some, if◌then◌else◌, arith, Bool-cases, inl, inr,
}
use lua_engine.Lua.Nodes.{new_vector}
use lua_engine.Lua.Logs.{node_count}
use lua_engine.Lua.Tables.{LuaTable, maxbits, in_range, in_array, get, set, new_table}
use lua_engine.Lua.Tables.Sound.{IndexLaws, IsSound, Changing, changed, must_grow, set-Changing}
use lua_engine.Lua.Tables.Refill.{HasRoom, HasRoom-IsFull}
use lua_engine.Lua.Tables.Resized.{moves, Resized, resized}
use lua_engine.Lua.Rehash.{computesizes, rehash, resize_to, set_grown, luah_set}
use lua_engine.Lua.Rehash.Counts.{prefix}
use lua_engine.Lua.Rehash.Sizes.{computesizes-IsSize}
use lua_engine.Lua.Rehash.Room.{
  entries, counted3, narray_lem, total_lem, room_lem, resize-Resized, node_count_le,
  node_count_size,
}
use lua_engine.Lua.Nodes.Setting.{new_vector-IsTable}
use lua_engine.Lua.Tables.Resize.{new_vector-empty}

own_new_vector : (K V : Type 0) (m : ℕ) → 0 < m → (new_vector {K = K} {V = V} m).is_dummy ≡ false
own_new_vector K V zero pos = absurd (omega arith)
own_new_vector K V (suc m) pos = refl

new_vector_le : (K V : Type 0) (m : ℕ) → m ≤ (new_vector {K = K} {V = V} m).size
new_vector_le K V zero = omega arith
new_vector_le K V (suc m) = omega arith

module _ {K V : Type 0} (index : K → ℕ) (equal : K → K → Bool) (home : ℕ → K → ℕ) (number : ℕ → K)
    (laws : IndexLaws index equal home number) (t : LuaTable K V)
    (sound : IsSound index equal home t) (limit : t.sizearray ≤ 2 ^ maxbits) (k : K)
    (few : entries index equal home number laws t sound limit + 1 ≤ 2 ^ maxbits) where
  -- The new sizes have room for the entries, and for the key.
  pub data Grown : Option (LuaTable K V) → Type 0 where
    grown :
        {n nh : ℕ} {r : Option (LuaTable K V)}
        → Resized index equal home number t n (node_count nh) r
        → moves index equal home number t n + (if in_range index k n then 0 else 1) ≤ nh
        → nh ≤ 2 ^ maxbits
        → Grown r

  sizes_Grown :
      (narray total : ℕ)
      → narray ≡ prefix (counted3 index equal home number laws t sound limit k).0 maxbits
      → total ≡ entries index equal home number laws t sound limit + 1
      → Grown (
          resize_to index equal home number t total
            (computesizes (counted3 index equal home number laws t sound limit k).0 narray))
  sizes_Grown narray total e f =
      let (n, na, found, size, largest) =
        computesizes-IsSize (counted3 index equal home number laws t sound limit k).0 in
      let room = room_lem index equal home number laws t sound limit k n na size in
      let all = total_lem index equal home number laws t sound limit k in
      let fits : moves index equal home number t n + (if in_range index k n then 0 else 1)
          ≤ total - na =
        omega (arith, room, all, f) in
      let small : total - na ≤ 2 ^ maxbits = omega (arith, few, f) in
      rw (e, found)
        (grown {n = n} {nh = total - na}
          (resize-Resized index equal home number laws t sound limit n (total - na)
            (omega (arith, fits)) small)
          fits small)

  rehash-Grown : Grown (rehash index equal home number t k)
  unfolding rehash
  rehash-Grown =
      sizes_Grown _ _ (narray_lem index equal home number laws t sound limit k)
        (ap (λ m. m + 1) (total_lem index equal home number laws t sound limit k))

  -- `t'` is `t` with the value of the key.
  abbrev pub IsUpdate : Option V → LuaTable K V → Type 0
  IsUpdate v t' =
      (x : K) → get index equal home t' x ≡ (if equal k x then v else get index equal home t x)

  module _ (v : Option V) (same : equal k k ≡ true) where
    set-Changed :
        (t1 : LuaTable K V) (r : Option (LuaTable K V))
        → ((x : K) → get index equal home t1 x ≡ get index equal home t x)
        → (in_array index t1 k ≡ false → HasRoom t1 1)
        → Changing index equal home t1 k v r
        → (t' : LuaTable K V) × (r ≡ some t') × IsSound index equal home t' × IsUpdate v t'
    set-Changed t1 (some t') kept room (changed sound' array size dummy few' values) =
        (t', refl, sound', λ x. values x ∙ rw (kept x) refl)
    set-Changed t1 none kept room (must_grow out new no_place) =
        absurd (HasRoom-IsFull t1 0 equal (home t1.hash.size) (room out) no_place)

    Grown-set :
        (r : Option (LuaTable K V))
        → Grown r
        → (t' : LuaTable K V) × (set_grown index equal home number r k v ≡ some t')
          × IsSound index equal home t'
          × IsUpdate v t'
    Grown-set (some t1)
          (grown {n = n} {nh} (resized sound' array size dummy few' values) fits small) =
        set-Changed t1 (set index equal home t1 k v) values
          (λ out.
            let outside : in_range index k n ≡ false =
              subst (λ m. in_range index k m ≡ false) array out in
            let one : moves index equal home number t n + 1 ≤ nh =
              subst (λ b. moves index equal home number t n + (if b then 0 else 1) ≤ nh) outside
                fits in
            let wide = node_count_le nh small in
            record {
              enough = omega (arith, few', one, wide, size, new_vector_le K V (node_count nh));
              own_nodes =
                  λ pos. dummy ∙ own_new_vector K V (node_count nh) (omega (arith, one, wide));
            })
          (set-Changing index equal home number laws t1 k v same sound')
    Grown-set none (grown none_resized fits small) = elim none_resized [ ]

    first_set :
        (r : Option (LuaTable K V))
        → Changing index equal home t k v r
        → (t' : LuaTable K V) × (elim r [
          | some t' ↦ some t'
          | none ↦ set_grown index equal home number (rehash index equal home number t k) k v
        ]
            ≡ some t')
          × IsSound index equal home t'
          × IsUpdate v t'
    first_set (some t') (changed sound' array size dummy few' values) = (t', refl, sound', values)
    first_set none (must_grow out new no_place) =
        Grown-set (rehash index equal home number t k) rehash-Grown

    -- On a sound table whose array part has at most 2 ^ 26 slots and whose entries are fewer than 2 ^ 26, setting a
    -- key that equals itself succeeds, with one rehash at most: the new table is sound, the key has the
    -- value (none for nil), and every other key has the value that it had.
    pub luah_set-IsUpdate :
        (t' : LuaTable K V) × (luah_set index equal home number t k v ≡ some t')
        × IsSound index equal home t'
        × IsUpdate v t'
    unfolding luah_set
    luah_set-IsUpdate =
        first_set (set index equal home t k v)
          (set-Changing index equal home number laws t k v same sound)

    pub luah_set-IsSound :
        (t' : LuaTable K V)
        → luah_set index equal home number t k v ≡ some t'
        → IsSound index equal home t'
    luah_set-IsSound t' e =
        let (t'', e', sound', update) = luah_set-IsUpdate in
        subst (IsSound index equal home) (grind arith) sound'

-- A new table is sound, and no key has a value in it.
pub new_table-IsSound :
    {K V : Type 0} (index : K → ℕ) (equal : K → K → Bool) (home : ℕ → K → ℕ) (narray nhash : ℕ)
    → IsSound {V = V} index equal home (new_table narray nhash)
      × ((x : K) → get {V = V} index equal home (new_table narray nhash) x ≡ none)
unfolding get
new_table-IsSound {K} {V} index equal home narray nhash =
    let (e, power) = node_count_size K V nhash in
    let free =
      new_vector-empty {V = V} index equal
        (home (new_vector {K = K} {V = V} (node_count nhash)).size) (node_count nhash) in
    (
      record {
        exponent = e;
        size_power = power;
        hash_table = new_vector-IsTable equal _ (node_count nhash);
        outside = λ x inside. free x;
      },
      λ x. elim (Bool-cases (in_range index x narray)) [
        | inl q ↦ rw q refl
        | inr q ↦ rw q (free x)
      ],
    )
