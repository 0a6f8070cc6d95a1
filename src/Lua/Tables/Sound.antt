-- ===== src/Lua/Tables/Sound.antt =====
-- lua515/ltable.c: what is kept of a table, and what `luaH_set` does to it when it need not grow.
use lua_engine.Base.{
  ℕ, ◌+◌, ◌-◌, ◌^◌, ◌≤◌, ◌<◌, ◌≡◌, ◌≢◌, refl, sym, ◌∙◌, subst, Bool, true, false, Option, none,
  some, if◌then◌else◌, arith, Bool-cases, inl, inr,
}
use lua_engine.Lua.Nodes.{Vector, value_of, set_key}
use lua_engine.Lua.Nodes.Links.{KeyLaws, Absent, used}
use lua_engine.Lua.Nodes.Entries.{IsTable}
use lua_engine.Lua.Nodes.Insert.{IsFull}
use lua_engine.Lua.Nodes.Setting.{Setting, done, no_room_for, set_key-Setting}
use lua_engine.Lua.Tables.{LuaTable, set_slot, in_array, get, with_hash, set}

module _ {K : Type 0} (index : K → ℕ) (equal : K → K → Bool) (home : ℕ → K → ℕ)
    (number : ℕ → K) where
  -- What is known of the keys: on vectors of 2 ^ l nodes, and on the numbers of an `int`.
  pub record IndexLaws : Type 0 where
    pub key_laws : (l : ℕ) → KeyLaws equal (home (2 ^ l)) (2 ^ l)
    pub same_index : (a b : K) → equal a b ≡ true → index a ≡ index b
    pub index_of_number : (i : ℕ) → i < 2 ^ 31 → index (number i) ≡ i
    pub number_of_index : (a : K) → 0 < index a → equal (number (index a)) a ≡ true
    pub number_itself : (i : ℕ) → equal (number i) (number i) ≡ true

module _ {K V : Type 0} (index : K → ℕ) (equal : K → K → Bool) (home : ℕ → K → ℕ) where
  -- The node vector has a power of two of nodes and is well-formed, and has no value that belongs to the array part.
  pub record IsSound (t : LuaTable K V) : Type 0 where
    pub exponent : ℕ
    pub size_power : t.hash.size ≡ 2 ^ exponent
    pub hash_table : IsTable equal (home t.hash.size) t.hash
    pub outside :
        (x : K) → in_array index t x ≡ true → value_of equal (home t.hash.size) t.hash x ≡ none

  -- What setting a key gives.
  pub data Changing (t : LuaTable K V) (k : K) (v : Option V) : Option (LuaTable K V) → Type 0 where
    changed :
        {t' : LuaTable K V}
        → IsSound t'
        → t'.sizearray ≡ t.sizearray
        → t'.hash.size ≡ t.hash.size
        → t'.hash.is_dummy ≡ t.hash.is_dummy
        → used t'.hash.node t.hash.size
          ≤ (if in_array index t k then 0 else 1) + used t.hash.node t.hash.size
        → ((x : K)
            → get index equal home t' x ≡ (if equal k x then v else get index equal home t x))
        → Changing t k v (some t')
    must_grow :
        in_array index t k ≡ false
        → Absent equal t.hash.node k
        → IsFull equal (home t.hash.size) t.hash
        → Changing t k v none

  module _ (number : ℕ → K) (laws : IndexLaws index equal home number) (t : LuaTable K V) (k : K)
      (v : Option V) (same : equal k k ≡ true) (sound : IsSound t) where
    hash_laws : KeyLaws equal (home t.hash.size) t.hash.size
    hash_laws =
        subst (λ n. KeyLaws equal (home n) n) (sym sound.size_power) (laws.key_laws sound.exponent)

    -- Two keys of the array part are equal when their numbers are.
    one_index : (x : K) → 0 < index k → index x ≡ index k → equal k x ≡ true
    one_index x pos e =
        let left = laws.number_of_index k pos in
        let right = laws.number_of_index x (omega arith) in
        hash_laws.transitive k (number (index k)) x (hash_laws.symmetric (number (index k)) k left)
          (subst (λ i. equal (number i) x ≡ true) e right)

    array-Changing :
        in_array index t k ≡ true
        → Changing t k v (some (record t { array = set_slot t.array (index k - 1) v }))
    unfolding get
    array-Changing inside =
        changed
          (record {
            exponent = sound.exponent;
            size_power = sound.size_power;
            hash_table = sound.hash_table;
            outside = sound.outside;
          })
          refl refl refl (omega arith) values
      where
        values :
            (x : K)
            → get index equal home (record t { array = set_slot t.array (index k - 1) v }) x
              ≡ (if equal k x then v else get index equal home t x)
        values x = elim (Bool-cases (equal k x)) [
          | inl q ↦ let one = laws.same_index k x q in grind arith
          | inr q ↦
              let apart : index x ≢ index k = λ e. absurd (grind (arith, one_index)) in grind arith
        ]

    hash-Changing :
        (r : Option (Vector K V))
        → in_array index t k ≡ false
        → Setting equal (home t.hash.size) t.hash k v r
        → Changing t k v (with_hash index equal home t r)
    unfolding get
    hash-Changing none out (no_room_for new no_place) = must_grow out new no_place
    hash-Changing (some h) out (done table size dummy few values) =
        changed
          (record {
            exponent = sound.exponent;
            size_power = size ∙ sound.size_power;
            hash_table = subst (λ n. IsTable equal (home n) h) (sym size) table;
            outside = λ x inside.
                subst (λ n. value_of equal (home n) h x ≡ none) (sym size)
                  (rw (values x, not_equal x inside) (sound.outside x inside));
          })
          refl size dummy (rw out (omega (arith, few))) got
      where
        not_equal : (x : K) → in_array index t x ≡ true → equal k x ≡ false
        not_equal x inside = elim (Bool-cases (equal k x)) [
          | inl q ↦ let one = laws.same_index k x q in absurd (grind arith)
          | inr q ↦ q
        ]

        got :
            (x : K)
            → get index equal home (record t { hash = h }) x
              ≡ (if equal k x then v else get index equal home t x)
        got x = elim (Bool-cases (in_array index t x)) [
          | inl q ↦ rw (q, not_equal x q) refl
          | inr q ↦ rw q (
              subst
                (λ n.
                  value_of equal (home n) h x
                  ≡ (if equal k x then v else value_of equal (home t.hash.size) t.hash x))
                (sym size) (values x))
        ]

    pub set-Changing : Changing t k v (set index equal home t k v)
    unfolding set
    set-Changing = elim (Bool-cases (in_array index t k)) [
      | inl q ↦ rw q (array-Changing q)
      | inr q ↦ rw q (
          hash-Changing (set_key equal (home t.hash.size) t.hash k v) q
            (set_key-Setting equal (home t.hash.size) t.hash k v sound.hash_table hash_laws same))
    ]
