-- ===== src/Lua/Chunk/Dump.antt =====
-- lua515/ldump.c. The writer is a callback with a state of its own; it returns a status, and after one
-- that is not 0 it is not called again.
use lua_engine.Base.{
  ℕ, suc, ◌+◌, ◌==◌, ◌||◌, if◌then◌else◌, Bool, true, false, Option, none, some, List, [], ◌∷◌,
  ◌++◌, length, concat, map,
}
use lua_engine.Base.Bytes.{le_bytes}
use lua_engine.Lua.Chunk.{
  Constant, nil, boolean, number, string, LocVar, Info, Proto, proto, Protos, more, header,
}

-- `DumpState`: the state of the writer, and the status.
pub record DumpState (S : Type 0) : Type 0 where
  pub state : S
  pub status : ℕ

-- `s == t` on two strings or NULL: strings are interned, so one pointer is one content.
abbrev pub same_bytes : List ℕ → List ℕ → Bool
same_bytes [] [] = true
same_bytes (a ∷ xs) (b ∷ ys) = if a == b then same_bytes xs ys else false
same_bytes _ _ = false

abbrev pub same_string : Option (List ℕ) → Option (List ℕ) → Bool
same_string none none = true
same_string (some xs) (some ys) = same_bytes xs ys
same_string _ _ = false

abbrev pub code_bytes : List ℕ → List ℕ
code_bytes ws = concat (map (le_bytes 4) ws)

-- `sizep`
abbrev pub count : Protos → ℕ
count Protos.none = 0
count (more f fs) = suc (count fs)

module _ {S : Type 0} (writer : S → List ℕ → ℕ × S) where
  -- `DumpBlock`
  unfoldable pub dump_block : List ℕ → DumpState S → DumpState S
  dump_block block d =
      if d.status == 0
      then (let (status, state) = writer d.state block in record { state = state; status = status })
      else d

  -- `DumpChar`, `DumpInt` and `DumpNumber`
  abbrev pub dump_char : ℕ → DumpState S → DumpState S
  dump_char c = dump_block (le_bytes 1 c)

  abbrev pub dump_int : ℕ → DumpState S → DumpState S
  dump_int x = dump_block (le_bytes 4 x)

  abbrev pub dump_number : ℕ → DumpState S → DumpState S
  dump_number x = dump_block (le_bytes 8 x)

  -- `DumpVector`, of elements of four bytes
  abbrev pub dump_vector : List ℕ → DumpState S → DumpState S
  dump_vector ws d = dump_block (code_bytes ws) (dump_int (length ws) d)

  -- `DumpString`
  unfoldable pub dump_string : Option (List ℕ) → DumpState S → DumpState S
  dump_string none d = dump_block (le_bytes 8 0) d
  dump_string (some s) d = dump_block (s ++ (0 ∷ [])) (dump_block (le_bytes 8 (length s + 1)) d)

  -- One round of the first `for` of `DumpConstants`.
  unfoldable pub dump_constant : Constant → DumpState S → DumpState S
  unfolding dump_string
  dump_constant nil d = dump_char 0 d
  dump_constant (boolean b) d = dump_char (if b then 1 else 0) (dump_char 1 d)
  dump_constant (number n) d = dump_number n (dump_char 3 d)
  dump_constant (string s) d = dump_string s (dump_char 4 d)

  unfoldable pub dump_locvar : LocVar → DumpState S → DumpState S
  unfolding dump_string
  dump_locvar v d = dump_int v.endpc (dump_int v.startpc (dump_string v.varname d))

  -- A `for` over the elements of an array.
  unfoldable pub dump_all :
      {A : Type 0} → (A → DumpState S → DumpState S) → List A → DumpState S → DumpState S
  dump_all dump [] d = d
  dump_all dump (x ∷ xs) d = dump_all dump xs (dump x d)

  -- The first half of `DumpConstants`, the constants themselves.
  unfoldable pub dump_constants : List Constant → DumpState S → DumpState S
  unfolding dump_all dump_constant
  dump_constants ks d = dump_all dump_constant ks (dump_int (length ks) d)

  -- `DumpDebug`
  unfoldable pub dump_debug : Bool → Info → DumpState S → DumpState S
  unfolding dump_all dump_locvar dump_string
  dump_debug strip f d =
      let lineinfo = if strip then [] else f.lineinfo in
      let locvars = if strip then [] else f.locvars in
      let upvalues = if strip then [] else f.upvalues in
      let d1 = dump_vector lineinfo d in
      let d2 = dump_all dump_locvar locvars (dump_int (length locvars) d1) in
      dump_all dump_string upvalues (dump_int (length upvalues) d2)

  -- `DumpFunction` up to the functions inside.
  unfoldable pub dump_head : Bool → Option (List ℕ) → Info → DumpState S → DumpState S
  unfolding dump_constants dump_string
  dump_head strip p f d =
      let source = if same_string f.source p || strip then none else f.source in
      let d1 = dump_int f.lastlinedefined (dump_int f.linedefined (dump_string source d)) in
      let d2 = dump_char f.numparams (dump_char f.nups d1) in
      let d3 = dump_vector f.code (dump_char f.maxstacksize (dump_char f.is_vararg d2)) in
      dump_constants f.constants d3

  -- `DumpFunction`, with the loop of `DumpConstants` over the functions inside.
  unfoldable mutual
    unfolding dump_head dump_debug

    pub dump_function : Bool → Option (List ℕ) → Proto → DumpState S → DumpState S
    dump_function strip p (proto f fs) d =
        dump_debug strip f
          (dump_functions strip f.source fs (dump_int (count fs) (dump_head strip p f d)))

    pub dump_functions : Bool → Option (List ℕ) → Protos → DumpState S → DumpState S
    dump_functions strip p Protos.none d = d
    dump_functions strip p (more f fs) d = dump_functions strip p fs (dump_function strip p f d)

  -- `luaU_dump`: the state of the writer at the end, and the status that is returned.
  unfoldable pub dump : Bool → Proto → S → DumpState S
  unfolding dump_block dump_function
  dump strip f s = dump_function strip none f (dump_block header (record { state = s; status = 0 }))
