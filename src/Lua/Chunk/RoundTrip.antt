-- ===== src/Lua/Chunk/RoundTrip.antt =====
-- lua515/ldump.c and lundump.c: functions with the functions inside them, written and read.
use lua_engine.Base.{
  ℕ, zero, suc, ◌≤◌, ◌<◌, ◌≡◌, refl, ap, sym, ◌∙◌, subst, ◌||◌, if◌then◌else◌, Bool, true, false,
  Option, none, some, List, [], ◌∷◌, ◌++◌, length, append_assoc, arith, All, ◌⊎◌, inl, inr,
  Bool-cases,
}
use lua_engine.Base.Bytes.{le_bytes}
use Prim.Native.Nat.{max}
use lua_engine.Lua.Chunk.{Info, Proto, proto, Protos, more}
use lua_engine.Lua.Chunk.Dump.{same_string, same_bytes, count}
use lua_engine.Lua.Chunk.Undump.{
  bad_code, load_debug, load_body, load_function, load_protos, load_constant, load_locvar,
  load_string, source_or, Load,
}
use lua_engine.Lua.Chunk.Layout.{
  Blocks, function_blocks, functions_blocks, kept, written_source, string_blocks, constant_blocks,
  locvar_blocks, all_blocks, vector_blocks, debug_blocks, counted_blocks,
}
use lua_engine.Lua.Chunk.Reader.{
  Gives, Gives-bind, Gives-last, Gives-pure, Gives-char, Gives-int, Gives-load_n, Gives-guard,
  Gives-blocks,
}
use lua_engine.Lua.Chunk.Items.{
  IsInt, IsStored, IsConstant, IsLocVar, IsVector, Gives-vector, Gives-string, Gives-constant,
  Gives-locvar,
}

abbrev pub loaded_source : Bool → Option (List ℕ) → Info → Option (List ℕ)
loaded_source strip p f = if strip then p else source_or f.source p

abbrev pub loaded_info : Bool → Option (List ℕ) → Info → Info
loaded_info strip p f = record f {
  source = loaded_source strip p f;
  lineinfo = kept strip f.lineinfo;
  locvars = kept strip f.locvars;
  upvalues = kept strip f.upvalues;
}

-- The function that is read back, where the loader has the source `p` at hand: a function keeps its
-- source or takes over that of its parent, and a stripped one loses its debug information.
unfoldable mutual
  pub loaded : Bool → Option (List ℕ) → Proto → Proto
  loaded strip p (proto f fs) =
      proto (loaded_info strip p f) (loaded_all strip (loaded_source strip p f) fs)

  pub loaded_all : Bool → Option (List ℕ) → Protos → Protos
  loaded_all strip p Protos.none = Protos.none
  loaded_all strip p (more f fs) = more (loaded strip p f) (loaded_all strip p fs)

-- How deep functions are nested.
unfoldable mutual
  pub height : Proto → ℕ
  height (proto f fs) = suc (height_all fs)

  pub height_all : Protos → ℕ
  height_all Protos.none = 0
  height_all (more f fs) = max (height f) (height_all fs)

-- What is written of a function fits its fields on disk.
pub record IsInfo (strip : Bool) (f : Info) : Type 0 where
  pub source : IsStored f.source
  pub linedefined : IsInt f.linedefined
  pub lastlinedefined : IsInt f.lastlinedefined
  pub nups : f.nups < 256
  pub numparams : f.numparams < 256
  pub is_vararg : f.is_vararg < 256
  pub maxstacksize : f.maxstacksize < 256
  pub code : IsVector f.code
  pub constants : IsInt (length f.constants) × All IsConstant f.constants
  pub lineinfo : IsVector (kept strip f.lineinfo)
  pub locvars : IsInt (length (kept strip f.locvars)) × All IsLocVar (kept strip f.locvars)
  pub upvalues : IsInt (length (kept strip f.upvalues)) × All IsStored (kept strip f.upvalues)

module _ (check_code : Proto → Bool) (strip : Bool) where
  -- Every function fits the format, and passes `luaG_checkcode` as it is read back.
  unfoldable mutual
    pub Loadable : Option (List ℕ) → Proto → Type 0
    Loadable p (proto f fs) =
        IsInfo strip f
        × IsInt (count fs)
        × (check_code (loaded strip p (proto f fs)) ≡ true)
        × LoadableAll (loaded_source strip p f) fs

    pub LoadableAll : Option (List ℕ) → Protos → Type 0
    LoadableAll p Protos.none = Unit
    LoadableAll p (more f fs) = Loadable p f × LoadableAll p fs

same_bytes-eq : (xs ys : List ℕ) → same_bytes xs ys ≡ true → xs ≡ ys
same_bytes-eq [] [] h = refl
same_bytes-eq [] (y ∷ ys) h = cc
same_bytes-eq (x ∷ xs) [] h = cc
same_bytes-eq (x ∷ xs) (y ∷ ys) h = ground (arith, same_bytes-eq xs ys)

-- The writer's parent source `q`, and the loader's `p`.
abbrev Link : Option (List ℕ) → Option (List ℕ) → Type 0
Link q p = (q ≡ none) ⊎ (q ≡ p)

same_source : (s q p : Option (List ℕ)) → Link q p → same_string s q ≡ true → source_or s p ≡ p
same_source none q p l h = refl
same_source (some s) none p l h = cc
same_source (some s) (some t) p (inl e) h = cc
same_source (some s) (some t) p (inr e) h = ap some (same_bytes-eq s t h) ∙ e

-- The loader finds the source that the writer meant.
source-written :
    (strip : Bool) (q p : Option (List ℕ)) (f : Info)
    → (strip ≡ false → Link q p)
    → source_or (written_source strip q f) p ≡ loaded_source strip p f
source-written true q p f l = ground arith
source-written false q p f l = elim (Bool-cases (same_string f.source q)) [
  | inl same ↦ rw same (sym (same_source f.source q p (l refl) same))
  | inr other ↦ rw other
]

Link-or : (s p : Option (List ℕ)) → Link s (source_or s p)
Link-or none p = inl refl
Link-or (some s) p = inr refl

Link-child :
    (strip : Bool) (p : Option (List ℕ)) (f : Info)
    → strip ≡ false
    → Link f.source (loaded_source strip p f)
Link-child true p f e = cc
Link-child false p f e = Link-or f.source p

written-IsStored :
    (strip : Bool) (q : Option (List ℕ)) (f : Info)
    → IsStored f.source
    → IsStored (written_source strip q f)
written-IsStored strip q f h =
    elim (same_string f.source q || strip) as (λ b. IsStored (if b then none else f.source)) [
      | true ↦ tt
      | false ↦ h
    ]

count-loaded_all :
    (strip : Bool) (p : Option (List ℕ)) (fs : Protos) → count (loaded_all strip p fs) ≡ count fs
unfolding loaded_all
count-loaded_all strip p Protos.none = refl
count-loaded_all strip p (more f fs) = ap suc (count-loaded_all strip p fs)

-- The blocks of a function behind its source.
abbrev body_blocks : Bool → Info → Protos → Blocks
body_blocks strip f fs =
    le_bytes 4 f.linedefined
    ∷ le_bytes 4 f.lastlinedefined
    ∷ le_bytes 1 f.nups
    ∷ le_bytes 1 f.numparams
    ∷ le_bytes 1 f.is_vararg
    ∷ le_bytes 1 f.maxstacksize
    ∷ (vector_blocks f.code
        ++ (le_bytes 4 (length f.constants)
            ∷ (all_blocks constant_blocks f.constants
                ++ (le_bytes 4 (count fs)
                    ∷ (functions_blocks strip f.source fs ++ debug_blocks strip f)))))

function_blocks_lem :
    (strip : Bool) (q : Option (List ℕ)) (f : Info) (fs : Protos)
    → function_blocks strip q (proto f fs)
      ≡ string_blocks (written_source strip q f) ++ body_blocks strip f fs
unfolding function_blocks
function_blocks_lem strip q f fs =
    append_assoc (string_blocks (written_source strip q f))
      (le_bytes 4 f.linedefined
        ∷ le_bytes 4 f.lastlinedefined
        ∷ le_bytes 1 f.nups
        ∷ le_bytes 1 f.numparams
        ∷ le_bytes 1 f.is_vararg
        ∷ le_bytes 1 f.maxstacksize
        ∷ (vector_blocks f.code ++ counted_blocks constant_blocks f.constants))
      (le_bytes 4 (count fs) ∷ (functions_blocks strip f.source fs ++ debug_blocks strip f))

debug-Gives :
    (strip : Bool) (f : Info)
    → IsInfo strip f
    → Gives load_debug (debug_blocks strip f) (record {
      lineinfo = kept strip f.lineinfo;
      locvars = kept strip f.locvars;
      upvalues = kept strip f.upvalues;
    })
unfolding load_debug
debug-Gives strip f h = Gives-bind _ (Gives-vector (kept strip f.lineinfo) h.lineinfo) (
    Gives-bind _ (Gives-int (length (kept strip f.locvars)) h.locvars.0) (
      Gives-bind _
        (Gives-load_n load_locvar locvar_blocks Gives-locvar (kept strip f.locvars) h.locvars.1)
        (Gives-bind _ (Gives-int (length (kept strip f.upvalues)) h.upvalues.0) (
          Gives-last _
            (Gives-load_n load_string string_blocks Gives-string (kept strip f.upvalues)
              h.upvalues.1)
            (Gives-pure _)))))

module _ (check_code : Proto → Bool) (strip : Bool) where
  -- The body of a function, when the functions inside are read back.
  body-Gives :
      (f : Info) (fs : Protos) (p : Option (List ℕ)) (inner : Option (List ℕ) → Load Proto)
      → IsInfo strip f
      → IsInt (count fs)
      → check_code (loaded strip p (proto f fs)) ≡ true
      → Gives
          (load_protos (inner (loaded_source strip p f)) (count fs))
          (functions_blocks strip f.source fs)
          (loaded_all strip (loaded_source strip p f) fs)
      → Gives
          (load_body check_code inner (loaded_source strip p f))
          (body_blocks strip f fs)
          (loaded strip p (proto f fs))
  unfolding load_body loaded
  body-Gives f fs p inner h n c g = Gives-bind _ (Gives-int f.linedefined h.linedefined) (
      Gives-bind _ (Gives-int f.lastlinedefined h.lastlinedefined) (
        Gives-bind _ (Gives-char f.nups h.nups) (
          Gives-bind _ (Gives-char f.numparams h.numparams) (
            Gives-bind _ (Gives-char f.is_vararg h.is_vararg) (
              Gives-bind _ (Gives-char f.maxstacksize h.maxstacksize) (
                Gives-bind _ (Gives-vector f.code h.code) (
                  Gives-bind _ (Gives-int (length f.constants) h.constants.0) (
                    Gives-bind _
                      (Gives-load_n load_constant constant_blocks Gives-constant f.constants
                        h.constants.1)
                      (Gives-bind _ (Gives-int (count fs) n) (
                        Gives-bind _ g (
                          Gives-last _ (debug-Gives strip f h)
                            (Gives-last _ (Gives-guard _ bad_code c) (Gives-pure _)))))))))))))

module _ (check_code : Proto → Bool) (strip : Bool) where
  mutual
    unfolding loaded loaded_all height height_all Loadable LoadableAll load_function load_protos
        function_blocks functions_blocks

    pub function-Gives :
        (f : Proto) (depth : ℕ) (q p : Option (List ℕ))
        → (strip ≡ false → Link q p)
        → Loadable check_code strip p f
        → height f ≤ depth
        → Gives (load_function check_code depth p) (function_blocks strip q f) (loaded strip p f)
    function-Gives (proto f fs) zero q p l h k = absurd (omega arith)
    function-Gives (proto f fs) (suc depth) q p l h k =
        let inside : Gives
            (load_protos (load_function check_code depth (loaded_source strip p f)) (count fs))
            (functions_blocks strip f.source fs) (loaded_all strip (loaded_source strip p f) fs) =
          protos-Gives fs depth f.source (loaded_source strip p f) (Link-child strip p f) h.3
            (omega arith) in
        Gives-blocks (function_blocks_lem strip q f fs) (
          Gives-bind _
            (Gives-string (written_source strip q f) (written-IsStored strip q f h.0.source))
            (subst
              (λ s.
                Gives (load_body check_code (load_function check_code depth) s)
                  (body_blocks strip f fs) (loaded strip p (proto f fs)))
              (sym (source-written strip q p f l))
              (body-Gives check_code strip f fs p (load_function check_code depth) h.0 h.1 h.2
                inside)))

    protos-Gives :
        (fs : Protos) (depth : ℕ) (q p : Option (List ℕ))
        → (strip ≡ false → Link q p)
        → LoadableAll check_code strip p fs
        → height_all fs ≤ depth
        → Gives
            (load_protos (load_function check_code depth p) (count fs))
            (functions_blocks strip q fs)
            (loaded_all strip p fs)
    protos-Gives Protos.none depth q p l h k = Gives-pure Protos.none
    protos-Gives (more f fs) depth q p l h k =
        Gives-bind _ (function-Gives f depth q p l h.0 (omega arith)) (
          Gives-last _ (protos-Gives fs depth q p l h.1 (omega arith))
            (Gives-pure (more (loaded strip p f) (loaded_all strip p fs))))
