-- ===== src/Lua/Chunk/Writer.antt =====
-- lua515/ldump.c: the calls of the writer that `luaU_dump` makes, against the layout of a chunk.
use lua_engine.Base.{
  ℕ, Bool, Option, none, some, List, [], ◌∷◌, ◌++◌, length, ◌≡◌, ◌≢◌, refl, ap, sym, ◌∙◌, arith,
}
use lua_engine.Base.Bytes.{le_bytes}
use lua_engine.Lua.Chunk.{
  Constant, nil, boolean, number, string, LocVar, Info, Proto, proto, Protos, more,
}
use lua_engine.Lua.Chunk.Dump.{
  DumpState, dump_block, dump_string, dump_constant, dump_locvar, dump_all, dump_constants,
  dump_debug, dump_head, dump_function, dump_functions, dump, count, dump_int, dump_vector,
}
use lua_engine.Lua.Chunk.Layout.{
  Blocks, string_blocks, constant_blocks, locvar_blocks, all_blocks, counted_blocks, vector_blocks,
  debug_blocks, head_blocks, function_blocks, functions_blocks, chunk_blocks, kept, written_source,
}

module _ {S : Type 0} (writer : S → List ℕ → ℕ × S) where
  abbrev pub write_all : Blocks → DumpState S → DumpState S
  write_all [] d = d
  write_all (b ∷ bs) d = write_all bs (dump_block writer b d)

  write_all-append :
      (xs ys : Blocks) (d : DumpState S) → write_all (xs ++ ys) d ≡ write_all ys (write_all xs d)
  write_all-append [] ys d = refl
  write_all-append (x ∷ xs) ys d = write_all-append xs ys (dump_block writer x d)

  dump_string-blocks :
      (s : Option (List ℕ)) (d : DumpState S)
      → dump_string writer s d ≡ write_all (string_blocks s) d
  unfolding dump_string
  dump_string-blocks none d = refl
  dump_string-blocks (some s) d = refl

  dump_constant-blocks :
      (k : Constant) (d : DumpState S) → dump_constant writer k d ≡ write_all (constant_blocks k) d
  dump_constant-blocks nil d = unfold dump_constant in refl
  dump_constant-blocks (boolean b) d = unfold dump_constant in refl
  dump_constant-blocks (number n) d = unfold dump_constant in refl
  dump_constant-blocks (string s) d = unfold dump_constant in dump_string-blocks s _

  -- One dump after another writes the blocks of the one and then those of the other.
  seq_blocks :
      (f g : DumpState S → DumpState S) (xs ys : Blocks)
      → ((d : DumpState S) → f d ≡ write_all xs d)
      → ((d : DumpState S) → g d ≡ write_all ys d)
      → (d : DumpState S) → g (f d) ≡ write_all (xs ++ ys) d
  seq_blocks f g xs ys hf hg d =
      hg (f d) ∙ ap (write_all ys) (hf d) ∙ sym (write_all-append xs ys d)

  dump_locvar-blocks :
      (v : LocVar) (d : DumpState S) → dump_locvar writer v d ≡ write_all (locvar_blocks v) d
  unfolding dump_locvar
  dump_locvar-blocks v =
      seq_blocks (dump_string writer v.varname)
        (λ d. dump_int writer v.endpc (dump_int writer v.startpc d)) (string_blocks v.varname)
        (le_bytes 4 v.startpc ∷ le_bytes 4 v.endpc ∷ []) (dump_string-blocks v.varname) (λ d. refl)

  module _ {A : Type 0} (one : A → DumpState S → DumpState S) (blocks : A → Blocks)
      (h : (x : A) (d : DumpState S) → one x d ≡ write_all (blocks x) d) where
    dump_all-blocks :
        (xs : List A) (d : DumpState S)
        → dump_all writer one xs d ≡ write_all (all_blocks blocks xs) d
    unfolding dump_all
    dump_all-blocks [] d = refl
    dump_all-blocks (x ∷ xs) d =
        seq_blocks (one x) (dump_all writer one xs) (blocks x) (all_blocks blocks xs) (h x)
          (dump_all-blocks xs) d

    dump_counted-blocks :
        (xs : List A) (d : DumpState S)
        → dump_all writer one xs (dump_int writer (length xs) d)
          ≡ write_all (counted_blocks blocks xs) d
    dump_counted-blocks xs d = dump_all-blocks xs (dump_int writer (length xs) d)

  dump_debug-blocks :
      (strip : Bool) (f : Info) (d : DumpState S)
      → dump_debug writer strip f d ≡ write_all (debug_blocks strip f) d
  unfolding dump_debug
  dump_debug-blocks strip f =
      seq_blocks (dump_vector writer (kept strip f.lineinfo)) _
        (vector_blocks (kept strip f.lineinfo))
        (counted_blocks locvar_blocks (kept strip f.locvars)
          ++ counted_blocks string_blocks (kept strip f.upvalues))
        (λ d. refl)
        (seq_blocks _ _ (counted_blocks locvar_blocks (kept strip f.locvars))
          (counted_blocks string_blocks (kept strip f.upvalues))
          (dump_counted-blocks (dump_locvar writer) locvar_blocks dump_locvar-blocks
            (kept strip f.locvars))
          (dump_counted-blocks (dump_string writer) string_blocks dump_string-blocks
            (kept strip f.upvalues)))

  dump_head-blocks :
      (strip : Bool) (p : Option (List ℕ)) (f : Info) (d : DumpState S)
      → dump_head writer strip p f d ≡ write_all (head_blocks strip p f) d
  unfolding dump_head dump_constants
  dump_head-blocks strip p f =
      seq_blocks (dump_string writer (written_source strip p f)) _
        (string_blocks (written_source strip p f))
        (le_bytes 4 f.linedefined
          ∷ le_bytes 4 f.lastlinedefined
          ∷ le_bytes 1 f.nups
          ∷ le_bytes 1 f.numparams
          ∷ le_bytes 1 f.is_vararg
          ∷ le_bytes 1 f.maxstacksize
          ∷ (vector_blocks f.code ++ counted_blocks constant_blocks f.constants))
        (dump_string-blocks (written_source strip p f))
        (λ d.
          dump_counted-blocks (dump_constant writer) constant_blocks dump_constant-blocks
            f.constants _)

  mutual
    unfolding dump_function dump_functions function_blocks functions_blocks

    dump_function-blocks :
        (strip : Bool) (p : Option (List ℕ)) (f : Proto) (d : DumpState S)
        → dump_function writer strip p f d ≡ write_all (function_blocks strip p f) d
    dump_function-blocks strip p (proto f fs) d =
        seq_blocks (dump_head writer strip p f) _ (head_blocks strip p f)
          (le_bytes 4 (count fs) ∷ (functions_blocks strip f.source fs ++ debug_blocks strip f))
          (dump_head-blocks strip p f)
          (λ e.
            seq_blocks (dump_functions writer strip f.source fs) (dump_debug writer strip f)
              (functions_blocks strip f.source fs) (debug_blocks strip f)
              (dump_functions-blocks strip f.source fs) (dump_debug-blocks strip f)
              (dump_int writer (count fs) e))
          d

    dump_functions-blocks :
        (strip : Bool) (p : Option (List ℕ)) (fs : Protos) (d : DumpState S)
        → dump_functions writer strip p fs d ≡ write_all (functions_blocks strip p fs) d
    dump_functions-blocks strip p Protos.none d = refl
    dump_functions-blocks strip p (more f fs) d =
        seq_blocks (dump_function writer strip p f) (dump_functions writer strip p fs)
          (function_blocks strip p f) (functions_blocks strip p fs) (dump_function-blocks strip p f)
          (dump_functions-blocks strip p fs) d

  -- `luaU_dump` hands the blocks of the chunk to the writer, one after the other.
  pub dump-blocks :
      (strip : Bool) (f : Proto) (s : S)
      → dump writer strip f s ≡ write_all (chunk_blocks strip f) (record { state = s; status = 0 })
  unfolding dump
  dump-blocks strip f s = dump_function-blocks strip none f _

  -- A writer that accepts the blocks `bs` from `s` on, and ends in `t`.
  abbrev pub Accepts : Blocks → S → S → Type 0
  Accepts [] s t = s ≡ t
  Accepts (b ∷ bs) s t = ((writer s b).0 ≡ 0) × Accepts bs (writer s b).1 t

  write_all-Accepts :
      (bs : Blocks) (s t : S)
      → Accepts bs s t
      → write_all bs (record { state = s; status = 0 }) ≡ record { state = t; status = 0 }
  unfolding dump_block
  write_all-Accepts [] s t h = ap (λ u. record { state = u; status = 0 }) h
  write_all-Accepts (b ∷ bs) s t h =
      ap (λ st. write_all bs (record { state = (writer s b).1; status = st })) h.0
      ∙ write_all-Accepts bs (writer s b).1 t h.1

  write_all-stopped : (bs : Blocks) (d : DumpState S) → d.status ≢ 0 → write_all bs d ≡ d
  unfolding dump_block
  write_all-stopped [] d h = refl
  write_all-stopped (b ∷ bs) d h =
      let e : dump_block writer b d ≡ d = ground arith in
      ap (write_all bs) e ∙ write_all-stopped bs d h

  -- When the writer accepts all blocks, it has been given the whole chunk and the status is 0.
  pub dump-accepted :
      (strip : Bool) (f : Proto) (s t : S)
      → Accepts (chunk_blocks strip f) s t
      → dump writer strip f s ≡ record { state = t; status = 0 }
  dump-accepted strip f s t h =
      dump-blocks strip f s ∙ write_all-Accepts (chunk_blocks strip f) s t h

  -- When it accepts the blocks `front` and then fails on `b`, its status is returned and it is not
  -- called again.
  pub dump-failed :
      (strip : Bool) (f : Proto) (s t : S) (front back : Blocks) (b : List ℕ)
      → chunk_blocks strip f ≡ front ++ (b ∷ back)
      → Accepts front s t
      → (writer t b).0 ≢ 0
      → dump writer strip f s ≡ record { state = (writer t b).1; status = (writer t b).0 }
  dump-failed strip f s t front back b e h bad =
      dump-blocks strip f s
      ∙ ap (λ bs. write_all bs (record { state = s; status = 0 })) e
      ∙ write_all-append front (b ∷ back) _
      ∙ ap (write_all (b ∷ back)) (write_all-Accepts front s t h)
      ∙ (unfold dump_block in write_all-stopped back _ bad)
