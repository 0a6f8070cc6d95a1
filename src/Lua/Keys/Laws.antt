-- ===== src/Lua/Keys/Laws.antt =====
-- lua515/ltable.c and lobject.c: what the theorems on tables rely on, for the keys of Lua.
use lua_engine.Base.{
  ℕ, ◌%◌, ◌^◌, ◌≤◌, ◌<◌, ◌≡◌, refl, sym, ap, ap₂, subst, ◌∙◌, Bool, true, false, if◌then◌else◌,
  arith, Bool-cases, inl, inr, eqb→eq, ==_refl,
}
use lua_engine.Base.Int.{ℤ, pos, negsuc}
use lua_engine.Lua.Tables.Sound.{IndexLaws}
use native.Mathlib.Nat.{mod-lt, one-le-pow}
use lua_engine.Lua.Keys.{
  Machine, NumberLaws, Key, number_key, string_key, boolean_key, light_key, object_key, odd_size,
  sum, raw_equal, hash_number, main_position, array_index, positive, key_number, int_key,
}

module _ {N : Type 0} (num : Machine N) (laws : NumberLaws num) where
  -- Two ways to be equal.
  data Same : Key N → Key N → Type 0 where
    equal_numbers : {a b : N} → num.numeq a b ≡ true → Same (number_key a) (number_key b)
    identical : {a b : Key N} → (raw_equal num) a a ≡ true → a ≡ b → Same a b

  raw_equal-Same : (a b : Key N) → (raw_equal num) a b ≡ true → Same a b
  unfolding raw_equal
  raw_equal-Same (number_key a) (number_key b) e = equal_numbers e
  raw_equal-Same (string_key p) (string_key p') e =
      identical (==_refl p) (ap string_key (eqb→eq p p' e))
  raw_equal-Same (boolean_key a) (boolean_key b) e =
      identical (==_refl a) (ap boolean_key (eqb→eq a b e))
  raw_equal-Same (light_key a) (light_key b) e = identical (==_refl a) (ap light_key (eqb→eq a b e))
  raw_equal-Same (object_key a) (object_key b) e =
      identical (==_refl a) (ap object_key (eqb→eq a b e))
  raw_equal-Same a b e = absurd (cc)

  Same-symmetric : {a b : Key N} → Same a b → (raw_equal num) b a ≡ true
  unfolding raw_equal
  Same-symmetric (equal_numbers {a} {b} e) = laws.symmetric a b e
  Same-symmetric (identical {a} r e) = subst (λ x. (raw_equal num) x a ≡ true) e r

  number_transitive :
      (a b : N) (c : Key N)
      → num.numeq a b ≡ true
      → (raw_equal num) (number_key b) c ≡ true
      → (raw_equal num) (number_key a) c ≡ true
  unfolding raw_equal
  number_transitive a b (number_key c) e f = laws.transitive a b c e f
  number_transitive a b c e f = absurd (cc)

  Same-transitive :
      {a b : Key N} (c : Key N) → Same a b → (raw_equal num) b c ≡ true → (raw_equal num) a c ≡ true
  Same-transitive c (equal_numbers {a} {b} e) f = number_transitive a b c e f
  Same-transitive c (identical r e) f = subst (λ x. (raw_equal num) x c ≡ true) (sym e) f

  zero_alike :
      (a b : N) → num.numeq a b ≡ true → num.numeq a num.zero_number ≡ num.numeq b num.zero_number
  zero_alike a b e = elim (Bool-cases (num.numeq a num.zero_number)) [
    | inl q ↦ q ∙ sym (laws.transitive b a num.zero_number (laws.symmetric a b e) q)
    | inr q ↦ elim (Bool-cases (num.numeq b num.zero_number)) [
      | inl s ↦ absurd (grind (arith, laws.transitive))
      | inr s ↦ q ∙ sym s
    ]
  ]

  Same-main_position :
      {a b : Key N} (size : ℕ) → Same a b → (main_position num) size a ≡ (main_position num) size b
  unfolding main_position hash_number
  Same-main_position size (identical r e) = ap ((main_position num) size) e
  Same-main_position size (equal_numbers {a} {b} e) =
      elim (Bool-cases (num.numeq a num.zero_number)) [
        | inl q ↦ let q' = sym (zero_alike a b e) ∙ q in rw (q, q') refl
        | inr q ↦
            let q' = sym (zero_alike a b e) ∙ q in
            rw (q, q') (ap (λ ws. sum ws % 2 ^ 32 % odd_size size) (laws.same_words a b e q))
      ]

  odd_size-inside : (size x : ℕ) → 0 < size → x % odd_size size < size
  odd_size-inside size x some_nodes =
      let odd : 0 < odd_size size = ground arith in
      let less : odd_size size ≤ size = ground arith in omega (arith, less, mod-lt x odd)

  main_position-inside : (size : ℕ) (k : Key N) → 0 < size → (main_position num) size k < size
  unfolding main_position hash_number
  main_position-inside size (number_key n) some_nodes =
      elim (Bool-cases (num.numeq n num.zero_number)) [
        | inl q ↦ rw q some_nodes
        | inr q ↦ rw q (odd_size-inside size (sum (num.words n) % 2 ^ 32) some_nodes)
      ]
  main_position-inside size (string_key p) some_nodes = mod-lt (num.string_hash p) some_nodes
  main_position-inside size (boolean_key b) some_nodes = mod-lt b some_nodes
  main_position-inside size (light_key p) some_nodes = odd_size-inside size (p % 2 ^ 32) some_nodes
  main_position-inside size (object_key p) some_nodes = odd_size-inside size (p % 2 ^ 32) some_nodes

  -- Equal numbers pass the test of `arrayindex` both or neither.
  test_alike : (x a b : N) → num.numeq a b ≡ true → num.numeq x a ≡ num.numeq x b
  test_alike x a b e = elim (Bool-cases (num.numeq x a)) [
    | inl q ↦ q ∙ sym (laws.transitive x a b q e)
    | inr q ↦ elim (Bool-cases (num.numeq x b)) [
      | inl s ↦ absurd (grind (arith, laws.transitive, laws.symmetric))
      | inr s ↦ q ∙ sym s
    ]
  ]

  Same-array_index : {a b : Key N} → Same a b → (array_index num) a ≡ (array_index num) b
  unfolding array_index
  Same-array_index (identical r e) = ap (array_index num) e
  Same-array_index (equal_numbers {a} {b} e) =
      ap₂ (λ k c. if c then k else negsuc 0) (laws.same_int a b e)
        (test_alike (num.cast_num (num.number2int a)) a b e
          ∙ ap (λ k. num.numeq (num.cast_num k) b) (laws.same_int a b e))

  indexed :
      (n : N) (k : ℤ) (c : Bool)
      → num.numeq (num.cast_num k) n ≡ c
      → 0 < positive num (if c then k else negsuc 0)
      → num.numeq (num.cast_num (pos (positive num (if c then k else negsuc 0)))) n ≡ true
  indexed n (pos i) true e some_index = e
  indexed n (negsuc i) true e some_index = absurd (omega arith)
  indexed n k false e some_index = absurd (omega arith)

  int_key-key_number :
      (k : Key N)
      → 0 < (key_number num) k
      → (raw_equal num) ((int_key num) ((key_number num) k)) k ≡ true
  unfolding array_index raw_equal
  int_key-key_number (number_key n) some_index =
      indexed n (num.number2int n) (num.numeq (num.cast_num (num.number2int n)) n) refl some_index
  int_key-key_number k some_index = absurd (omega arith)

  key_number-int_key : (i : ℕ) → i < 2 ^ 31 → (key_number num) ((int_key num) i) ≡ i
  unfolding array_index
  key_number-int_key i lt = rw (laws.int_back i lt, laws.int_equal (pos i)) refl

  -- Where numbers are as IEEE 754 has them and conversions of an `int` are exact, `luaO_rawequalObj`, `mainposition` and
  -- `arrayindex` have the laws that the theorems on tables rely on: equal keys have one main
  -- position, inside the vector, and one index.
  pub keys-IndexLaws : IndexLaws (key_number num) (raw_equal num) (main_position num) (int_key num)
  unfolding raw_equal
  keys-IndexLaws = record {
    key_laws = λ l. record {
      symmetric = λ a b e. Same-symmetric (raw_equal-Same a b e);
      transitive = λ a b c e f. Same-transitive c (raw_equal-Same a b e) f;
      same_home = λ a b e. Same-main_position (2 ^ l) (raw_equal-Same a b e);
      home_inside = λ a. main_position-inside (2 ^ l) a (one-le-pow l 2 (omega arith));
    };
    same_index = λ a b e. ap (positive num) (Same-array_index (raw_equal-Same a b e));
    index_of_number = key_number-int_key;
    number_of_index = int_key-key_number;
    number_itself = λ i. laws.int_equal (pos i);
  }
