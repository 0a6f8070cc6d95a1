-- ===== src/Lua/Chunk/Whole.antt =====
-- lua515/ldump.c and lundump.c: a whole chunk: `luaU_dump` to a writer that keeps the bytes, then `luaU_undump`.
use lua_engine.Base.{
  ℕ, ◌≤◌, ◌≡◌, refl, ap, sym, ◌∙◌, subst, Bool, Option, none, some, List, [], ◌∷◌, ◌++◌, concat,
  append-nil, append_assoc, inl,
}
use lua_engine.Lua.Zio.{Zio}
use lua_engine.Lua.Zio.Read.{remaining}
use lua_engine.Lua.Chunk.{Proto, header}
use lua_engine.Lua.Chunk.Dump.{DumpState, dump}
use lua_engine.Lua.Chunk.Undump.{ok, load_header, undump, bad_header}
use lua_engine.Lua.Chunk.Layout.{Blocks, chunk_blocks}
use lua_engine.Lua.Chunk.Writer.{Accepts, dump-accepted}
use lua_engine.Lua.Chunk.Reader.{Gives, Gives-bind, Gives-last, Gives-block, Gives-guard}
use lua_engine.Lua.Chunk.RoundTrip.{Loadable, loaded, height, function-Gives}

-- The writer that appends each block to what it has, as `luac` and `string.dump` do.
abbrev pub append_writer : List ℕ → List ℕ → ℕ × List ℕ
append_writer out block = (0, out ++ block)

append_writer-Accepts :
    (bs : Blocks) (out : List ℕ) → Accepts append_writer bs out (out ++ concat bs)
append_writer-Accepts [] out = sym (append-nil out)
append_writer-Accepts (b ∷ bs) out = (
  refl,
  subst (Accepts append_writer bs (out ++ b)) (append_assoc out b (concat bs))
      (append_writer-Accepts bs (out ++ b)),
)

-- The source that a chunk with none of its own gets, "=?".
abbrev pub no_source : Option (List ℕ)
no_source = some (b'=' ∷ b'?' ∷ [])

header-Gives : Gives load_header (header ∷ []) tt
unfolding load_header
header-Gives = Gives-last _ (Gives-block 12 header refl) (Gives-guard _ bad_header refl)

module _ (check_code : Proto → Bool) (strip : Bool) where
  undump-Gives :
      (f : Proto) (depth : ℕ)
      → Loadable check_code strip no_source f
      → height f ≤ depth
      → Gives (undump check_code depth) (chunk_blocks strip f) (loaded strip no_source f)
  unfolding undump
  undump-Gives f depth h k =
      Gives-bind _ header-Gives
        (function-Gives check_code strip f depth none no_source (λ _. inl refl) h k)

  -- A function that fits the format, nested no deeper than the loader allows and accepted by the code
  -- checker, is read back from what was dumped of it, whatever the reader cuts the bytes into and
  -- whatever follows them: with `strip` off it is the function itself but for a source taken over from
  -- the parent, with `strip` on it is the function without its debug information.
  pub undump-dump :
      (f : Proto) (depth : ℕ) (z : Zio) (rest : List ℕ)
      → Loadable check_code strip no_source f
      → height f ≤ depth
      → remaining z ≡ (dump append_writer strip f []).state ++ rest
      → (z' : Zio) × (undump check_code depth z ≡ ok (loaded strip no_source f) z')
        × (remaining z' ≡ rest)
  undump-dump f depth z rest h k e = Gives.run (undump-Gives f depth h k) z rest (
      e
      ∙ ap (λ (d : DumpState (List ℕ)). d.state ++ rest)
          (dump-accepted append_writer strip f [] (concat (chunk_blocks strip f))
            (append_writer-Accepts (chunk_blocks strip f) [])))
