-- ===== src/Lua/Strings/Chars.antt =====
-- lua515/lstrlib.c: `string.char` undoes `string.byte`.
use lua_engine.Base.{
  ℕ, ◌%◌, ◌^◌, ◌+◌, ◌≤◌, ◌<◌, ◌≡◌, refl, sym, ap, ◌∙◌, none, some, List, [], ◌∷◌, ◌++◌, map, length,
  All, append_assoc, append-nil, arith, false, ltb, leb, if◌then◌else◌, Bool-cases, inl, inr,
  leb→le, leb-false, lt→ltb,
}
use lua_engine.Base.Int.{pos, negsuc}
use lua_engine.Lua.Strings.{str_sub, str_byte, char_loop, str_char}
use lua_engine.Lua.Strings.Slices.{str_byte-str_sub, str_byte-full, str_sub_split}

char_loop-map : (s b : List ℕ) → All (λ c. c < 256) s → char_loop (map pos s) b ≡ some (b ++ s)
unfolding char_loop
char_loop-map [] b h = ap some (sym (append-nil b))
char_loop-map (c ∷ s) b h =
    let same : c % 2 ^ 32 ≡ c = omega (arith, h.0) in
    rw (same, lt→ltb c (2 ^ 31) (omega (arith, h.0)), lt→ltb c 256 h.0, char_loop)
      (char_loop-map s (b ++ (c ∷ [])) h.1 ∙ ap some (append_assoc b (c ∷ []) s))

not_below : (n : ℕ) → ltb n 0 ≡ false
not_below n = ground arith

empty_part : (s : List ℕ) → str_sub s (pos 1) (some (pos 0)) ≡ []
unfolding str_sub
empty_part s = rw (not_below (length s)) refl

whole_part : (s : List ℕ) → str_sub s (pos 1) (some (negsuc 0)) ≡ s
unfolding str_sub
whole_part s = ap (λ xs. xs ++ str_sub s (pos 1) none) (sym (empty_part s)) ∙ str_sub_split s 0

-- For a string of bytes, `string.byte` from the first to the last position, called with at most 8000 arguments, is an
-- error if the arguments and the bytes together are more than the 8000 slots that the stack of a C function
-- has; if not, `string.char` of the values that it returns gives the string again.
pub str_char-str_byte :
    (top : ℕ) (s : List ℕ)
    → All (λ c. c < 256) s
    → top ≤ 8000
    → elim (str_byte top s (some (pos 1)) (some (negsuc 0))) [
      | none ↦ none
      | some bs ↦ str_char (map pos bs)
    ]
      ≡ (if leb (top + length s) 8000 then some s else none)
unfolding str_char
str_char-str_byte top s h few = elim (Bool-cases (leb (top + length s) 8000)) [
  | inl e ↦
      rw (e, str_byte-str_sub top s (pos 1) (negsuc 0) (leb→le _ _ e), whole_part s)
        (char_loop-map s [] h)
  | inr e ↦ rw (e, str_byte-full top s (omega (arith, leb-false _ _ e)) (leb-false _ _ e)) refl
]
