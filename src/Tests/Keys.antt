-- ===== src/Tests/Keys.antt =====
-- lua515/ltable.c: keys whose numbers are not negative.
use lua_engine.Base.{ℕ, ◌+◌, ◌%◌, ◌^◌, ◌≡◌, refl, ap, [], ◌∷◌, ◌==◌, arith, eqb→eq, ==_refl}
use lua_engine.Base.Int.{ℤ, pos, negsuc}
use lua_engine.Lua.Tables.Sound.{IndexLaws}
use lua_engine.Lua.Keys.{
  Machine, NumberLaws, number_key, string_key, light_key, raw_equal, main_position, key_number,
  int_key, hash_number,
}
use lua_engine.Lua.Keys.Laws.{keys-IndexLaws}

abbrev to_natural : ℤ → ℕ
to_natural (pos n) = n
to_natural (negsuc n) = 0

abbrev natural : Machine ℕ
natural = record {
  numeq = ◌==◌;
  number2int = pos;
  cast_num = to_natural;
  zero_number = 0;
  words = λ n. n % 2 ^ 32 ∷ n % 7 ∷ [];
  string_hash = λ p. p + 7;
}

natural_laws : NumberLaws natural
natural_laws = record {
  symmetric = λ a b e. grind arith;
  transitive = λ a b c e f. grind arith;
  same_words = λ a b e z. ap (λ n. n % 2 ^ 32 ∷ n % 7 ∷ []) (eqb→eq a b e);
  same_int = λ a b e. ap pos (eqb→eq a b e);
  int_back = λ i lt. refl;
  int_equal = λ i. ==_refl (to_natural i);
}

some_positions :
    main_position natural 8 (number_key 10)
      ∷ main_position natural 8 (string_key 70)
      ∷ main_position natural 8 (light_key 20)
      ∷ []
    ≡ 6 ∷ 5 ∷ 6 ∷ []
unfolding main_position hash_number
some_positions = refl

keys-IndexLaws_example :
    IndexLaws (key_number natural) (raw_equal natural) (main_position natural) (int_key natural)
keys-IndexLaws_example = keys-IndexLaws natural natural_laws
