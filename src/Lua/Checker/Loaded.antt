-- ===== src/Lua/Checker/Loaded.antt =====
-- lua515/lundump.c with ldebug.c: every function that the loader returns has passed the checker.
use lua_engine.Base.{◌≡◌, Bool, true}
use lua_engine.Lua.Zio.{Zio}
use lua_engine.Lua.Chunk.{Info, Proto, proto, Protos, more}
use lua_engine.Lua.Chunk.Undump.{Result, ok, err, Load}
use lua_engine.Lua.Checks.Reach.{Reach}

-- A loader whose every result satisfies `P`.
abbrev Yields : {A : Type 0} → (A → Type 0) → Load A → Type 0
Yields P m = (z z' : Zio) (a : _) → m z ≡ ok a z' → P a

result_or : {A : Type 0} → A → Result A → A
result_or d (ok a z) = a
result_or d (err x) = d

-- `Part g p`: the function `g` is `p`, or stands somewhere inside of it.
mutual
  pub data Part (g : Proto) : Proto → Type 0 where
    whole : Part g g
    inside : {f : Info} {fs : Protos} → Among g fs → Part g (proto f fs)

  pub data Among (g : Proto) : Protos → Type 0 where
    first : {p : Proto} {fs : Protos} → Part g p → Among g (more p fs)
    later : {p : Proto} {fs : Protos} → Among g fs → Among g (more p fs)

module _ (check : Proto → Bool) where
  -- Every function in it is accepted.
  abbrev mutual
    Accepted : Proto → Type 0
    Accepted (proto f fs) = (check (proto f fs) ≡ true) × AllAccepted fs

    AllAccepted : Protos → Type 0
    AllAccepted Protos.none = Unit
    AllAccepted (more p fs) = Accepted p × AllAccepted fs

  mutual
    Accepted-Part : {g p : Proto} → Part g p → Accepted p → check g ≡ true
    Accepted-Part {g = proto f fs} whole h = h.0
    Accepted-Part (inside a) h = Accepted-Among a h.1

    Accepted-Among : {g : Proto} {fs : Protos} → Among g fs → AllAccepted fs → check g ≡ true
    Accepted-Among (first p) h = Accepted-Part p h.0
    Accepted-Among (later a) h = Accepted-Among a h.1
