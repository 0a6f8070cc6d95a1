-- ===== src/Lua/Chunk/Layout.antt =====
-- lua515/ldump.c: the layout of a chunk: the blocks that the writer is to be given, in order.
use lua_engine.Base.{
  ℕ, ◌+◌, ◌||◌, if◌then◌else◌, Bool, Option, none, some, List, [], ◌∷◌, ◌++◌, length, concat, ◌≡◌,
  refl, ap, sym, ◌∙◌, append_assoc,
}
use lua_engine.Base.Bytes.{le_bytes}
use lua_engine.Lua.Chunk.{
  Constant, nil, boolean, number, string, LocVar, Info, Proto, proto, Protos, more, header,
}
use lua_engine.Lua.Chunk.Dump.{same_string, code_bytes, count}

abbrev pub Blocks : Type 0
Blocks = List (List ℕ)

abbrev pub string_blocks : Option (List ℕ) → Blocks
string_blocks none = le_bytes 8 0 ∷ []
string_blocks (some s) = le_bytes 8 (length s + 1) ∷ (s ++ (0 ∷ [])) ∷ []

abbrev pub constant_blocks : Constant → Blocks
constant_blocks nil = le_bytes 1 0 ∷ []
constant_blocks (boolean b) = le_bytes 1 1 ∷ le_bytes 1 (if b then 1 else 0) ∷ []
constant_blocks (number n) = le_bytes 1 3 ∷ le_bytes 8 n ∷ []
constant_blocks (string s) = le_bytes 1 4 ∷ string_blocks s

abbrev pub locvar_blocks : LocVar → Blocks
locvar_blocks v = string_blocks v.varname ++ (le_bytes 4 v.startpc ∷ le_bytes 4 v.endpc ∷ [])

abbrev pub all_blocks : {A : Type 0} → (A → Blocks) → List A → Blocks
all_blocks blocks [] = []
all_blocks blocks (x ∷ xs) = blocks x ++ all_blocks blocks xs

abbrev pub counted_blocks : {A : Type 0} → (A → Blocks) → List A → Blocks
counted_blocks blocks xs = le_bytes 4 (length xs) ∷ all_blocks blocks xs

abbrev pub vector_blocks : List ℕ → Blocks
vector_blocks ws = le_bytes 4 (length ws) ∷ code_bytes ws ∷ []

-- The debug information that is kept.
abbrev pub kept : {A : Type 0} → Bool → List A → List A
kept strip xs = if strip then [] else xs

abbrev pub debug_blocks : Bool → Info → Blocks
debug_blocks strip f =
    vector_blocks (kept strip f.lineinfo)
    ++ (counted_blocks locvar_blocks (kept strip f.locvars)
        ++ counted_blocks string_blocks (kept strip f.upvalues))

-- The source that is written, behind a parent with source `p`.
abbrev pub written_source : Bool → Option (List ℕ) → Info → Option (List ℕ)
written_source strip p f = if same_string f.source p || strip then none else f.source

abbrev pub head_blocks : Bool → Option (List ℕ) → Info → Blocks
head_blocks strip p f =
    string_blocks (written_source strip p f)
    ++ (le_bytes 4 f.linedefined
        ∷ le_bytes 4 f.lastlinedefined
        ∷ le_bytes 1 f.nups
        ∷ le_bytes 1 f.numparams
        ∷ le_bytes 1 f.is_vararg
        ∷ le_bytes 1 f.maxstacksize
        ∷ (vector_blocks f.code ++ counted_blocks constant_blocks f.constants))

unfoldable mutual
  pub function_blocks : Bool → Option (List ℕ) → Proto → Blocks
  function_blocks strip p (proto f fs) =
      head_blocks strip p f
      ++ (le_bytes 4 (count fs) ∷ (functions_blocks strip f.source fs ++ debug_blocks strip f))

  pub functions_blocks : Bool → Option (List ℕ) → Protos → Blocks
  functions_blocks strip p Protos.none = []
  functions_blocks strip p (more f fs) = function_blocks strip p f ++ functions_blocks strip p fs

abbrev pub chunk_blocks : Bool → Proto → Blocks
chunk_blocks strip f = header ∷ function_blocks strip none f

pub concat-append : (xs ys : Blocks) → concat (xs ++ ys) ≡ concat xs ++ concat ys
concat-append [] ys = refl
concat-append (x ∷ xs) ys =
    ap (λ bs. x ++ bs) (concat-append xs ys) ∙ sym (append_assoc x (concat xs) (concat ys))
