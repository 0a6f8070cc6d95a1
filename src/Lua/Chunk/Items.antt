-- ===== src/Lua/Chunk/Items.antt =====
-- lua515/lundump.c: the items of a chunk: strings, vectors, constants, local variables.
use lua_engine.Base.{
  ℕ, ◌+◌, ◌*◌, ◌-◌, ◌^◌, ◌<◌, ◌≡◌, refl, ap₂, sym, subst, ◌==◌, if◌then◌else◌, true, false, Option,
  none, some, List, [], ◌∷◌, ◌++◌, length, take, arith, take-append, length-append, All,
}
use lua_engine.Base.Bytes.{le_bytes, le_value-le_bytes}
use lua_engine.Lua.Chunk.{Constant, nil, boolean, number, string, LocVar}
use lua_engine.Lua.Chunk.Dump.{code_bytes}
use lua_engine.Lua.Chunk.Undump.{
  Load, pure, ◌>>=◌, load_block, load_string, load_vector, load_constant, load_locvar, words,
}
use lua_engine.Lua.Chunk.Layout.{string_blocks, constant_blocks, locvar_blocks, vector_blocks}
use lua_engine.Lua.Chunk.Reader.{
  Gives, Gives-bind, Gives-last, Gives-pure, Gives-block, Gives-char, Gives-int, Gives-number,
}

-- What fits the fields of a chunk.
abbrev pub IsInt : ℕ → Type 0
IsInt n = n < 2 ^ 31

abbrev pub IsWord : ℕ → Type 0
IsWord w = w < 2 ^ 32

abbrev pub IsStored : Option (List ℕ) → Type 0
IsStored none = Unit
IsStored (some s) = length s + 1 < 2 ^ 64

abbrev pub IsConstant : Constant → Type 0
IsConstant nil = Unit
IsConstant (boolean b) = Unit
IsConstant (number n) = n < 2 ^ 64
IsConstant (string s) = IsStored s

abbrev pub IsLocVar : LocVar → Type 0
IsLocVar v = IsStored v.varname × IsInt v.startpc × IsInt v.endpc

abbrev pub IsVector : List ℕ → Type 0
IsVector ws = IsInt (length ws) × All IsWord ws

length-code_bytes : (ws : List ℕ) → length (code_bytes ws) ≡ length ws * 4
length-code_bytes [] = refl
length-code_bytes (w ∷ ws) =
    omega (arith, length-append (le_bytes 4 w) (code_bytes ws), length-code_bytes ws)

words-code_bytes : (ws : List ℕ) → All IsWord ws → words (length ws) (code_bytes ws) ≡ ws
words-code_bytes [] h = refl
words-code_bytes (w ∷ ws) h =
    ap₂ (λ (v : ℕ) vs. v ∷ vs) (le_value-le_bytes 4 w (omega arith)) (words-code_bytes ws h.1)

pub Gives-vector : (ws : List ℕ) → IsVector ws → Gives load_vector (vector_blocks ws) ws
unfolding load_vector
Gives-vector ws h = Gives-bind _ (Gives-int (length ws) h.0) (
    Gives-last _ (Gives-block (length ws * 4) (code_bytes ws) (length-code_bytes ws)) (
      subst (λ vs. Gives (pure (words (length ws) (code_bytes ws))) [] vs) (words-code_bytes ws h.1)
        (Gives-pure _)))

-- What `LoadString` does behind the size.
abbrev string_body : ℕ → Load (Option (List ℕ))
string_body size =
    if size == 0 then pure none else (load_block size >>= λ s. pure (some (take (size - 1) s)))

Gives-string_body :
    (s : List ℕ) → Gives (string_body (length s + 1)) ((s ++ (0 ∷ [])) ∷ []) (some s)
Gives-string_body s =
    let pos : (length s + 1 == 0) ≡ false = ground arith in
    let size : length (s ++ (0 ∷ [])) ≡ length s + 1 = omega (arith, length-append s (0 ∷ [])) in
    let cut : take (length s + 1 - 1) (s ++ (0 ∷ [])) ≡ s =
      take-append (length s + 1 - 1) s (0 ∷ []) (omega arith) in
    rw pos (
      Gives-last _ (Gives-block (length s + 1) (s ++ (0 ∷ [])) size) (
        subst (λ t. Gives (pure (some (take (length s + 1 - 1) (s ++ (0 ∷ []))))) [] (some t)) cut
          (Gives-pure (some (take (length s + 1 - 1) (s ++ (0 ∷ [])))))))

pub Gives-string : (s : Option (List ℕ)) → IsStored s → Gives load_string (string_blocks s) s
unfolding load_string
Gives-string none h = Gives-last _ (Gives-block 8 (le_bytes 8 0) refl) (Gives-pure none)
Gives-string (some s) h = Gives-bind _ (Gives-block 8 (le_bytes 8 (length s + 1)) refl) (
    subst (λ v. Gives (string_body v) ((s ++ (0 ∷ [])) ∷ []) (some s))
      (sym (le_value-le_bytes 8 (length s + 1) (omega (arith, h)))) (Gives-string_body s))

pub Gives-constant : (k : Constant) → IsConstant k → Gives load_constant (constant_blocks k) k
unfolding load_constant
Gives-constant nil h = Gives-last _ (Gives-char 0 (omega arith)) (Gives-pure nil)
Gives-constant (boolean true) h =
    Gives-bind _ (Gives-char 1 (omega arith))
      (Gives-last _ (Gives-char 1 (omega arith)) (Gives-pure (boolean true)))
Gives-constant (boolean false) h =
    Gives-bind _ (Gives-char 1 (omega arith))
      (Gives-last _ (Gives-char 0 (omega arith)) (Gives-pure (boolean false)))
Gives-constant (number n) h =
    Gives-bind _ (Gives-char 3 (omega arith))
      (Gives-last _ (Gives-number n h) (Gives-pure (number n)))
Gives-constant (string s) h =
    Gives-bind _ (Gives-char 4 (omega arith))
      (Gives-last _ (Gives-string s h) (Gives-pure (string s)))

pub Gives-locvar : (v : LocVar) → IsLocVar v → Gives load_locvar (locvar_blocks v) v
unfolding load_locvar
Gives-locvar v h =
    Gives-bind _ (Gives-string v.varname h.0)
      (Gives-bind _ (Gives-int v.startpc h.1) (Gives-last _ (Gives-int v.endpc h.2) (Gives-pure v)))
