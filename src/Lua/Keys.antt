-- ===== src/Lua/Keys.antt =====
-- lua515/ltable.c and lobject.c: the keys of tables, their equality, main position and array index. A size of a
-- vector is a power of two, so that `lmod` is a remainder. Pointers are addresses, and
-- `lua_Number` is a parameter.
pub mod Laws
use lua_engine.Base.{
  ℕ, zero, suc, ◌+◌, ◌-◌, ◌%◌, ◌^◌, ◌≡◌, ◌<◌, Bool, true, false, List, [], ◌∷◌, ◌==◌, if◌then◌else◌,
}
use lua_engine.Base.Int.{ℤ, pos, negsuc}

-- `lua_Number`, with `luai_numeq`, `lua_number2int`, `cast_num`, 0, and the `unsigned int`s of its bytes,
-- and the `hash` that the string at an address keeps.
pub record Machine (N : Type 0) : Type 0 where
  pub numeq : N → N → Bool
  pub number2int : N → ℤ
  pub cast_num : ℤ → N
  pub zero_number : N
  pub words : N → List ℕ
  pub string_hash : ℕ → ℕ

-- IEEE 754 on numbers and the conversions of an `int`.
pub record NumberLaws {N : Type 0} (num : Machine N) : Type 0 where
  pub symmetric : (a b : N) → num.numeq a b ≡ true → num.numeq b a ≡ true
  pub transitive : (a b c : N) → num.numeq a b ≡ true → num.numeq b c ≡ true → num.numeq a c ≡ true
  pub same_words :
      (a b : N)
      → num.numeq a b ≡ true
      → num.numeq a num.zero_number ≡ false
      → num.words a ≡ num.words b
  pub same_int : (a b : N) → num.numeq a b ≡ true → num.number2int a ≡ num.number2int b
  pub int_back : (i : ℕ) → i < 2 ^ 31 → num.number2int (num.cast_num (pos i)) ≡ pos i
  pub int_equal : (i : ℤ) → num.numeq (num.cast_num i) (num.cast_num i) ≡ true

-- A key that is not nil.
pub data Key (N : Type 0) : Type 0 where
  number_key : N → Key N
  string_key : ℕ → Key N
  boolean_key light_key object_key : ℕ → Key N

-- `hashmod`: `(sizenode-1)|1` for a power of two.
abbrev pub odd_size : ℕ → ℕ
odd_size size = if size == 1 then 1 else size - 1

abbrev pub sum : List ℕ → ℕ
sum [] = 0
sum (w ∷ ws) = w + sum ws

module _ {N : Type 0} (num : Machine N) where
  -- `luaO_rawequalObj`
  unfoldable pub raw_equal : Key N → Key N → Bool
  raw_equal (number_key a) (number_key b) = num.numeq a b
  raw_equal (string_key p) (string_key p') = p == p'
  raw_equal (boolean_key a) (boolean_key b) = a == b
  raw_equal (light_key a) (light_key b) = a == b
  raw_equal (object_key a) (object_key b) = a == b
  raw_equal a b = false

  -- `hashnum`
  unfoldable pub hash_number : ℕ → N → ℕ
  hash_number size n =
      if num.numeq n num.zero_number then 0 else sum (num.words n) % 2 ^ 32 % odd_size size

  -- `mainposition`
  unfoldable pub main_position : ℕ → Key N → ℕ
  main_position size (number_key n) = hash_number size n
  main_position size (string_key p) = num.string_hash p % size
  main_position size (boolean_key b) = b % size
  main_position size (light_key p) = p % 2 ^ 32 % odd_size size
  main_position size (object_key p) = p % 2 ^ 32 % odd_size size

  -- `arrayindex`
  unfoldable pub array_index : Key N → ℤ
  array_index (number_key n) =
      let k = num.number2int n in if num.numeq (num.cast_num k) n then k else negsuc 0
  array_index k = negsuc 0

  abbrev pub positive : ℤ → ℕ
  positive (pos n) = n
  positive (negsuc n) = 0

  abbrev pub key_number : Key N → ℕ
  key_number k = positive (array_index k)

  abbrev pub int_key : ℕ → Key N
  int_key i = number_key (num.cast_num (pos i))
