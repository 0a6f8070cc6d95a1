-- ===== src/Tests/Strings.antt =====
-- Slices of "hello".
use lua_engine.Base.{
  ℕ, ◌≡◌, some, none, List, [], ◌∷◌, map, arith, refl, length, ◌+◌, leb, if◌then◌else◌, leb→le,
}
use lua_engine.Base.Int.{pos, negsuc}
use lua_engine.Lua.Strings.{str_byte, str_char}
use lua_engine.Lua.Strings.Chars.{str_char-str_byte}

abbrev hello : List ℕ
hello = b'h' ∷ b'e' ∷ b'l' ∷ b'l' ∷ b'o' ∷ []

str_char-str_byte_example :
    elim (str_byte 3 hello (some (pos 1)) (some (negsuc 0))) [
      | none ↦ none
      | some bs ↦ str_char (map pos bs)
    ]
    ≡ (if leb (3 + length hello) 8000 then some hello else none)
str_char-str_byte_example =
    str_char-str_byte 3 hello
      (omega arith, (omega arith, (omega arith, (omega arith, (omega arith, tt)))))
      (leb→le _ _ refl)
