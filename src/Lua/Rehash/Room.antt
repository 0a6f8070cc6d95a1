-- ===== src/Lua/Rehash/Room.antt =====
-- lua515/ltable.c: the sizes that `rehash` computes, and the room in them.
use lua_engine.Base.{
  ℕ, zero, suc, ◌+◌, ◌-◌, ◌^◌, ◌≤◌, ◌<◌, ◌≡◌, refl, ap, ◌∙◌, Bool, true, false, Option, none, some,
  ltb, leb, if◌then◌else◌, arith, Bool-cases, inl, inr, min, le→leb,
}
use lua_engine.Lua.Nodes.{new_vector}
use lua_engine.Lua.Nodes.Entries.{key_of_value}
use lua_engine.Lua.Logs.{ceillog2, node_count, log2_loop}
use lua_engine.Lua.Logs.Ceiling.{ceillog2_le_iff}
use lua_engine.Lua.Tables.{LuaTable, maxbits, in_range, node_item, resize, sized_table}
use lua_engine.Lua.Tables.Sound.{IndexLaws, IsSound}
use lua_engine.Lua.Tables.Refill.{outsiders}
use lua_engine.Lua.Tables.Resized.{moves, Resized, refill-Resized}
use lua_engine.Lua.Rehash.{Nums, no_nums, countint, numusearray, count_nodes}
use lua_engine.Lua.Rehash.Counts.{prefix, prefix-countint, filled, slices-prefix, slices-ause}
use lua_engine.Lua.Rehash.Entries.{
  countint-all, count_nodes-prefix, count_nodes-ause, count_nodes-total, slots-filled,
}
use lua_engine.Lua.Rehash.Sizes.{IsSize, no_array, array_of}
use native.Mathlib.Nat.{pow-le-pow_right}

prefix-no_nums : (l : ℕ) → prefix no_nums l ≡ 0
unfolding prefix
prefix-no_nums zero = refl
prefix-no_nums (suc l) = omega (arith, prefix-no_nums l)

filled_zero : {V : Type 0} (a : ℕ → Option V) → filled a 0 ≡ 0
unfolding filled
filled_zero a = refl

abbrev bit_of : Bool → ℕ → ℕ → ℕ
bit_of b x y = if b then x else y

either_or : (b : Bool) → bit_of b 0 1 + bit_of b 1 0 ≡ 1
either_or true = refl
either_or false = refl

-- A new vector has the size asked for, and at least one node.
pub new_vector_size :
    (K V : Type 0) (m e : ℕ) → m ≡ 2 ^ e → (new_vector {K = K} {V = V} m).size ≡ 2 ^ e
new_vector_size K V zero e q =
    absurd (omega (arith, pow-le-pow_right {n = 2} (omega arith) {i = 0} {j = e} (omega arith)))
new_vector_size K V (suc m) e q = q

log_zero : ceillog2 0 ≡ 0
unfolding ceillog2 log2_loop
log_zero = refl

small_log : (n : ℕ) → n ≤ 2 ^ maxbits → leb (ceillog2 n) maxbits ≡ true
small_log zero small = rw log_zero refl
small_log (suc n) small =
    le→leb _ maxbits ((ceillog2_le_iff (suc n) maxbits (omega arith) (omega arith)).1 small)

pub node_count_le : (n : ℕ) → n ≤ 2 ^ maxbits → n ≤ node_count n
unfolding node_count
node_count_le zero small = omega arith
node_count_le (suc n) small =
    (ceillog2_le_iff (suc n) (ceillog2 (suc n)) (omega arith) (omega arith)).0 (omega arith)

pub node_count_size :
    (K V : Type 0) (n : ℕ) → (e : ℕ) × ((new_vector {K = K} {V = V} (node_count n)).size ≡ 2 ^ e)
unfolding node_count
node_count_size K V zero = (0, refl)
node_count_size K V (suc n) =
    (ceillog2 (suc n), new_vector_size K V (2 ^ ceillog2 (suc n)) (ceillog2 (suc n)) refl)

module _ {K V : Type 0} (index : K → ℕ) (equal : K → K → Bool) (home : ℕ → K → ℕ) (number : ℕ → K)
    (laws : IndexLaws index equal home number) (t : LuaTable K V)
    (sound : IsSound index equal home t) (limit : t.sizearray ≤ 2 ^ maxbits) where
  -- How many entries there are.
  abbrev pub entries : ℕ
  entries = filled t.array t.sizearray + outsiders index (node_item t.hash) 0 t.hash.size

  array_counts :
      (l : ℕ)
      → l ≤ maxbits
      → prefix (numusearray index t no_nums).0 l ≡ filled t.array (min (2 ^ l) t.sizearray)
  unfolding numusearray filled
  array_counts l le = omega (
    arith,
    prefix-no_nums l,
    slices-prefix t.array t.sizearray 27 0 1 0 l no_nums 0 refl (omega arith) (omega arith)
        (omega arith) (omega arith),
  )

  array_count : (numusearray index t no_nums).1 ≡ filled t.array t.sizearray
  unfolding numusearray
  array_count = omega (
    arith,
    prefix-no_nums maxbits,
    array_counts maxbits (omega arith),
    slices-ause t.array t.sizearray 27 0 1 1 maxbits no_nums 0 (omega arith),
    ap (filled t.array) {x = min (2 ^ maxbits) t.sizearray} {y = t.sizearray} (omega arith),
  )

  module _ (k : K) where
    abbrev pub nums1 : Nums
    nums1 = (numusearray index t no_nums).0

    abbrev pub nodes2 : Nums × ℕ × ℕ
    nodes2 = count_nodes index t.hash t.hash.size nums1 0 (numusearray index t no_nums).1

    abbrev pub counted3 : Nums × ℕ
    counted3 = countint (index k) nodes2.0

    keyed :
        (j : ℕ) (v : V) → (t.hash.node j).value ≡ some v → (a : K) × ((t.hash.node j).key ≡ some a)
    keyed = key_of_value equal (home t.hash.size) t.hash sound.hash_table

    -- `rehash` gives `computesizes` the number of all the keys counted.
    pub narray_lem :
        (numusearray index t no_nums).1 + nodes2.1 + counted3.1 ≡ prefix counted3.0 maxbits
    narray_lem = omega (
      arith,
      array_count,
      array_counts maxbits (omega arith),
      countint-all (index k) nodes2.0,
      count_nodes-ause index t.hash keyed t.hash.size nums1 0 (numusearray index t no_nums).1,
      ap (filled t.array) {x = min (2 ^ maxbits) t.sizearray} {y = t.sizearray} (omega arith),
    )

    pub total_lem : nodes2.2 ≡ entries
    total_lem = omega (
      arith,
      array_count,
      count_nodes-total index t.hash keyed t.hash.size nums1 0 (numusearray index t no_nums).1,
    )

    no_slot : (a : K) → in_range index a 0 ≡ false
    no_slot a = ground arith

    -- The entries that will need a node, the new key, and those that go to the array part are all there are.
    pub room_lem :
        (n na : ℕ)
        → IsSize counted3.0 n na
        → moves index equal home number t n + (if in_range index k n then 0 else 1) + na
          ≡ nodes2.2 + 1
    room_lem n na no_array =
        let slots =
          slots-filled index equal home number laws t (omega (arith, limit)) (t.sizearray - 0) 0
            (omega arith) in
        let rest : filled t.array (t.sizearray - (t.sizearray - 0)) ≡ 0 =
          ap (filled t.array) {x = t.sizearray - (t.sizearray - 0)} {y = 0} (omega arith)
          ∙ filled_zero t.array in
        rw (no_slot k) (omega (arith, slots, rest, total_lem))
    room_lem n na (array_of l le power count more) =
        let slots =
          slots-filled index equal home number laws t (omega (arith, limit)) (t.sizearray - n) n
            (omega arith) in
        let stay =
          ap (filled t.array) {x = t.sizearray - (t.sizearray - n)} {y = min (2 ^ l) t.sizearray}
            (omega (arith, power)) in
        let nodes =
          count_nodes-prefix index t.hash keyed t.hash.size l nums1 0
            (numusearray index t no_nums).1 le in
        let outside = ap (λ m. outsiders index (node_item t.hash) m t.hash.size) power in
        let test = ap (λ m. bit_of (in_range index k m) 0 1) power in
        let one = either_or (in_range index k (2 ^ l)) in
        omega (
          arith,
          slots,
          stay,
          nodes,
          outside,
          test,
          one,
          count,
          array_count,
          array_counts l le,
          prefix-countint (index k) nodes2.0 l le,
        )

  sized_array :
      (n nh i : ℕ)
      → i < n
      → (sized_table index equal home number t n nh).array i
        ≡ (if ltb i t.sizearray then t.array i else none)
  sized_array n nh i lt = elim (Bool-cases (ltb t.sizearray n)) [
    | inl q ↦ rw q refl
    | inr q ↦ let inside : ltb i t.sizearray ≡ true = ground arith in rw (q, inside) refl
  ]

  -- `resize` to such sizes succeeds, where the node vector need not be larger than the limit.
  pub resize-Resized :
      (n nh : ℕ)
      → moves index equal home number t n ≤ nh
      → nh ≤ 2 ^ maxbits
      → Resized index equal home number t n (node_count nh) (resize index equal home number t n nh)
  unfolding resize
  resize-Resized n nh room small =
      let (e, power) = node_count_size K V nh in
      rw (small_log nh small) (
        refill-Resized index equal home number laws t sound (omega (arith, limit)) n (node_count nh)
          (sized_table index equal home number t n nh).array (sized_array n nh) e power
          (omega (arith, room, node_count_le nh small)))
