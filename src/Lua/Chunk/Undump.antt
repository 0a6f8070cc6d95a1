-- ===== src/Lua/Chunk/Undump.antt =====
-- lua515/lundump.c, over the input stream of lzio.c. A `char` is its byte pattern: the loader only
-- compares it with small tags and with 0, and casts it to `lu_byte`. Memory is taken to suffice.
-- `check_code` is `luaG_checkcode` of ldebug.c.
use lua_engine.Base.{
  ℕ, zero, suc, ◌*◌, ◌-◌, ◌^◌, ◌==◌, ltb, if◌then◌else◌, Bool, true, false, Option, none, some,
  List, [], ◌∷◌, take, drop,
}
use lua_engine.Base.Bytes.{le_value}
use lua_engine.Lua.Zio.{Zio, read}
use lua_engine.Lua.Chunk.{
  Constant, nil, boolean, number, string, LocVar, Info, Proto, proto, Protos, more, header,
}
use lua_engine.Lua.Chunk.Dump.{same_bytes}

pub data LoadError : Type 0 where
  unexpected_end bad_integer bad_constant bad_header code_too_deep bad_code : LoadError

pub data Result (A : Type 0) : Type 0 where
  ok : A → Zio → Result A
  err : LoadError → Result A

-- A step of the loader; an error is thrown by `luaD_throw` and ends it.
abbrev pub Load : Type 0 → Type 0
Load A = Zio → Result A

abbrev pub pure : {A : Type 0} → A → Load A
pure a z = ok a z

abbrev pub fail : {A : Type 0} → LoadError → Load A
fail e z = err e

infixl 5 ◌>>=◌
abbrev pub ◌>>=◌ : {A B : Type 0} → Load A → (A → Load B) → Load B
◌>>=◌ m f z = elim (m z) [ ok a z' ↦ f a z' | err e ↦ err e ]

-- `LoadBlock`
unfoldable pub load_block : ℕ → Load (List ℕ)
load_block n z =
    let got = read n z in if got.missing == 0 then ok got.bytes got.stream else err unexpected_end

-- `LoadChar` and `LoadByte`
unfoldable pub load_char : Load ℕ
load_char = do bs ← load_block 1; pure (le_value bs)

-- `LoadInt`
unfoldable pub load_int : Load ℕ
load_int = do
  bs ← load_block 4
  if ltb (le_value bs) (2 ^ 31) then pure (le_value bs) else fail bad_integer

-- `LoadNumber`
unfoldable pub load_number : Load ℕ
load_number = do bs ← load_block 8; pure (le_value bs)

-- `LoadString`: a size of 0 is NULL; else the last byte is dropped, whatever it is.
unfoldable pub load_string : Load (Option (List ℕ))
load_string = do
  bs ← load_block 8
  let size = le_value bs
  let body = do s ← load_block size; pure (some (take (size - 1) s))
  if size == 0 then pure none else body

-- `n` elements of four bytes each.
abbrev pub words : ℕ → List ℕ → List ℕ
words zero bs = []
words (suc n) bs = le_value (take 4 bs) ∷ words n (drop 4 bs)

-- `LoadInt` and `LoadVector`, of elements of four bytes: `LoadCode`, and the lines of `LoadDebug`.
unfoldable pub load_vector : Load (List ℕ)
load_vector = do n ← load_int; bs ← load_block (n * 4); pure (words n bs)

-- A `for` that loads `n` elements.
unfoldable pub load_n : {A : Type 0} → Load A → ℕ → Load (List A)
load_n load zero = pure []
load_n load (suc n) = do x ← load; xs ← load_n load n; pure (x ∷ xs)

unfoldable pub load_protos : Load Proto → ℕ → Load Protos
load_protos load zero = pure Protos.none
load_protos load (suc n) = do f ← load; fs ← load_protos load n; pure (more f fs)

-- One round of the loop of `LoadConstants` that reads the constants.
unfoldable pub load_constant : Load Constant
load_constant = do
  t ← load_char
  let flag = do b ← load_char; pure (boolean (if b == 0 then false else true))
  let num = do n ← load_number; pure (number n)
  let str = do s ← load_string; pure (string s)
  if t == 0
      then pure nil
      else (if t == 1
          then flag
          else (if t == 3 then num else (if t == 4 then str else fail bad_constant)))

unfoldable pub load_locvar : Load LocVar
load_locvar = do
  name ← load_string
  from ← load_int
  to ← load_int
  pure (record { varname = name; startpc = from; endpc = to })

-- `if (f->source==NULL) f->source=p`
abbrev pub source_or : Option (List ℕ) → Option (List ℕ) → Option (List ℕ)
source_or none p = p
source_or (some s) p = some s

abbrev pub guard : Bool → LoadError → Load (Unit {0})
guard true e = pure tt
guard false e = fail e

-- The fields that `LoadDebug` fills.
pub record Debug : Type 0 where
  pub lineinfo : List ℕ
  pub locvars : List LocVar
  pub upvalues : List (Option (List ℕ))

-- `LoadDebug`
unfoldable pub load_debug : Load Debug
load_debug = do
  lineinfo ← load_vector
  nv ← load_int
  locvars ← load_n load_locvar nv
  nu ← load_int
  upvalues ← load_n load_string nu
  pure (record { lineinfo = lineinfo; locvars = locvars; upvalues = upvalues })

-- `LoadHeader`
unfoldable pub load_header : Load (Unit {0})
load_header = do bs ← load_block 12; guard (same_bytes bs header) bad_header

module _ (check_code : Proto → Bool) where
  -- `LoadFunction` behind its source; `inner` loads a function inside, whose parent has that source.
  unfoldable pub load_body : (Option (List ℕ) → Load Proto) → Option (List ℕ) → Load Proto
  load_body inner source = do
    linedefined ← load_int
    lastlinedefined ← load_int
    nups ← load_char
    numparams ← load_char
    is_vararg ← load_char
    maxstacksize ← load_char
    code ← load_vector
    n ← load_int
    constants ← load_n load_constant n
    np ← load_int
    fs ← load_protos (inner source) np
    debug ← load_debug
    let info : Info = record {
      source = source;
      linedefined = linedefined;
      lastlinedefined = lastlinedefined;
      nups = nups;
      numparams = numparams;
      is_vararg = is_vararg;
      maxstacksize = maxstacksize;
      code = code;
      constants = constants;
      lineinfo = debug.lineinfo;
      locvars = debug.locvars;
      upvalues = debug.upvalues;
    }
    _ ← guard (check_code (proto info fs)) bad_code
    pure (proto info fs)

  -- `LoadFunction`. The first argument is what is left of `LUAI_MAXCCALLS` nested calls.
  unfoldable pub load_function : ℕ → Option (List ℕ) → Load Proto
  unfolding load_body
  load_function zero p = fail code_too_deep
  load_function (suc depth) p = do
    name ← load_string
    load_body (load_function depth) (source_or name p)

  -- `luaU_undump`, with `depth` nested calls left.
  unfoldable pub undump : ℕ → Load Proto
  undump depth = do _ ← load_header; load_function depth (some (b'=' ∷ b'?' ∷ []))
