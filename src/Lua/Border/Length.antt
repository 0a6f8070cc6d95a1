-- ===== src/Lua/Border/Length.antt =====
-- lua515/ltable.c: `luaH_getn`, the length of a table.
use lua_engine.Base.{
  ℕ, suc, ◌-◌, ◌^◌, ◌≤◌, ◌<◌, ◌≡◌, ◌≢◌, refl, sym, ap, ◌∙◌, subst, Bool, true, false, not, ◌&&◌,
  Option, none, some, ltb, if◌then◌else◌, arith, Option-cases, inl, inr, ltb→lt,
}
use lua_engine.Lua.Nodes.{Vector, is_some, value_of}
use lua_engine.Lua.Nodes.Links.{KeyLaws}
use lua_engine.Lua.Nodes.Entries.{IsTable, empty_table, chained, value_of_iff}
use lua_engine.Lua.Tables.{LuaTable, in_range, get}
use lua_engine.Lua.Tables.Sound.{IndexLaws, IsSound}
use lua_engine.Lua.Border.{max_int, binary_search, has_number, has_slot, luah_getn}
use lua_engine.Lua.Border.Search.{
  IsBorder, binary_search-lt, binary_search-IsBorder, unbound_search-IsBorder,
}

both : (a b : Bool) → a && b ≡ true → (a ≡ true) × (b ≡ true)
both true true e = (refl, refl)
both true false e = absurd (cc)
both false b e = absurd (cc)

not-false : (b : Bool) → not b ≡ true → b ≡ false
not-false true e = absurd (cc)
not-false false e = refl

-- A test between two searches.
choose_search :
    (present : ℕ → Bool) (b : Bool) (x y : Option ℕ)
    → (b ≡ true → (r : ℕ) × (x ≡ some r) × IsBorder present r)
    → (b ≡ false → (r : ℕ) × (y ≡ some r) × IsBorder present r)
    → (r : ℕ) × ((if b then x else y) ≡ some r) × IsBorder present r
choose_search present true x y f g = f refl
choose_search present false x y f g = g refl

-- The common empty node has no value.
dummy-value_of :
    {K V : Type 0} (equal : K → K → Bool) (home : K → ℕ) (h : Vector K V) (x : K)
    → IsTable equal home h
    → KeyLaws equal home h.size
    → h.is_dummy ≡ true
    → value_of equal home h x ≡ none
dummy-value_of equal home h x table laws dummy = elim (Option-cases (value_of equal home h x)) [
  | inl e ↦ e
  | inr (v, e) ↦
      let (i, a, key, same, value) = (value_of_iff equal home h x v table laws).0 e in
      absurd (no_entry table key)
]
  where
    no_entry : IsTable equal home h → {i : ℕ} {a : _} → (h.node i).key ≡ some a → ⊥
    no_entry (empty_table d l e) key = grind (arith, e)
    no_entry (chained d rank c) key = grind arith

module _ {K V : Type 0} (index : K → ℕ) (equal : K → K → Bool) (home : ℕ → K → ℕ) (number : ℕ → K)
    (laws : IndexLaws index equal home number) (t : LuaTable K V)
    (sound : IsSound index equal home t) (limit : t.sizearray < max_int) where
  -- A number of the array part is looked up there.
  has_number-slot :
      (j : ℕ)
      → 0 < j
      → j ≤ t.sizearray
      → has_number index equal home number t j ≡ has_slot index equal home number t j
  unfolding get
  has_number-slot j pos le =
      let place : index (number j) ≡ j = laws.index_of_number j (omega arith) in
      let inside : in_range index (number j) t.sizearray ≡ true = ground arith in
      rw inside (ap (λ i. is_some (t.array (i - 1))) place)

  has_number-beyond :
      t.hash.is_dummy ≡ true → has_number index equal home number t (suc t.sizearray) ≡ false
  unfolding get
  has_number-beyond dummy =
      let place : index (number (suc t.sizearray)) ≡ suc t.sizearray =
        laws.index_of_number (suc t.sizearray) (omega arith) in
      let out : in_range index (number (suc t.sizearray)) t.sizearray ≡ false = ground arith in
      let hash_laws =
        subst (λ n. KeyLaws equal (home n) n) (sym sound.size_power)
          (laws.key_laws sound.exponent) in
      rw out (
        ap is_some (
          dummy-value_of equal (home t.hash.size) t.hash (number (suc t.sizearray)) sound.hash_table
            hash_laws dummy))

  IsBorder-slots :
      (r : ℕ)
      → r < t.sizearray
      → IsBorder (has_slot index equal home number t) r
      → IsBorder (has_number index equal home number t) r
  IsBorder-slots r lt border = record {
    present_here = λ ne. has_number-slot r (omega arith) (omega arith) ∙ border.present_here ne;
    none_behind = has_number-slot (suc r) (omega arith) (omega arith) ∙ border.none_behind;
  }

  last_slot :
      ltb 0 t.sizearray && not (has_slot index equal home number t t.sizearray) ≡ false
      → t.sizearray ≢ 0
      → has_number index equal home number t t.sizearray ≡ true
  last_slot q ne =
      has_number-slot t.sizearray (omega arith) (omega arith)
      ∙ slot_full (has_slot index equal home number t t.sizearray) q
    where
      slot_full : (b : Bool) → ltb 0 t.sizearray && not b ≡ false → b ≡ true
      slot_full b q = ground arith

  array-IsBorder :
      ltb 0 t.sizearray && not (has_slot index equal home number t t.sizearray) ≡ true
      → IsBorder
          (has_number index equal home number t)
          (binary_search t.sizearray (has_slot index equal home number t) 0 t.sizearray)
  array-IsBorder q =
      let slot = has_slot index equal home number t in
      let some_slots : 0 < t.sizearray =
        ltb→lt 0 t.sizearray (both (ltb 0 t.sizearray) (not (slot t.sizearray)) q).0 in
      let last : slot t.sizearray ≡ false =
        not-false (slot t.sizearray) (both (ltb 0 t.sizearray) (not (slot t.sizearray)) q).1 in
      IsBorder-slots _ (binary_search-lt slot t.sizearray 0 t.sizearray some_slots (omega arith)) (
        binary_search-IsBorder slot t.sizearray 0 t.sizearray some_slots (omega arith) (omega arith)
          (λ ne. absurd (ne refl)) last)

  -- On a sound table with fewer than 2 ^ 31 - 3 slots, in which some positive number below 2 ^ 31 has no value,
  -- `luaH_getn` ends with a number that has a value or is 0, and the next number has none.
  pub luah_getn-IsBorder :
      (b : ℕ)
      → 0 < b
      → b < 2 ^ 31
      → has_number index equal home number t b ≡ false
      → (r : ℕ) × (luah_getn index equal home number t ≡ some r)
        × IsBorder (has_number index equal home number t) r
  unfolding luah_getn
  luah_getn-IsBorder b pos small gap =
      choose_search _ _ _ _ (λ q. (_, refl, array-IsBorder q))
        (λ q.
          choose_search _ t.hash.is_dummy _ _
            (λ s. (
              t.sizearray,
              refl,
              record { present_here = last_slot q; none_behind = has_number-beyond s },
            ))
            (λ s.
              unbound_search-IsBorder (has_number index equal home number t) b pos small gap
                t.sizearray limit (last_slot q)))
