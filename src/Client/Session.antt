-- ===== src/Client/Session.antt =====
-- luaEngine/Client.cc: a session of the client, from its connection to the callbacks of the server.
use lua_engine.Base.{
  ℕ, ◌≡◌, refl, ap, sym, ◌∙◌, none, some, true, false, List, [], ◌∷◌, ◌++◌, map, All, append-nil,
  append_assoc,
}
use lua_engine.Codec.{Effect, send}
use lua_engine.Codec.Buffer.{Muduo}
use lua_engine.Codec.Frame.{IsByte, IsMessage}
use lua_engine.Codec.Feed.{texts, refused, bytes_read, feed}
use lua_engine.Codec.RoundTrip.{sent, feed-sent}
use lua_engine.Client.{Event, report, line, run}

module _ (m : Muduo) {Conn : Type 0} where
  open m use {Buffer, contents}

  -- The bytes that go out, in order.
  abbrev pub wire : List (Conn × Buffer) → List ℕ
  wire [] = []
  wire ((c, b) ∷ rest) = contents b ++ wire rest

  -- Lines before the connection is up are dropped, and so are those behind its end.
  abbrev pub session : Conn → List (List ℕ) → List (List ℕ) → List (List ℕ) → List (Event Conn)
  session c early lines late =
      map line early ++ (report true c ∷ (map line lines ++ (report false c ∷ map line late)))

  run-lines_none :
      (early : List (List ℕ)) (es : List (Event Conn))
      → run m (map line early ++ es) none ≡ run m es none
  unfolding run
  run-lines_none [] es = refl
  run-lines_none (x ∷ xs) es = run-lines_none xs es

  run-late : (late : List (List ℕ)) → run m {Conn = Conn} (map line late) none ≡ []
  unfolding run
  run-late [] = refl
  run-late (x ∷ xs) = run-late xs

  wire-lines :
      (c : Conn) (lines : List (List ℕ)) (es : List (Event Conn))
      → wire (run m (map line lines ++ es) (some c)) ≡ sent m lines ++ wire (run m es (some c))
  unfolding run
  wire-lines c [] es = refl
  wire-lines c (x ∷ xs) es =
      ap (λ bs. contents (send m x) ++ bs) (wire-lines c xs es)
      ∙ sym (append_assoc (contents (send m x)) (sent m xs) (wire (run m es (some c))))

  wire-session :
      (c : Conn) (early lines late : List (List ℕ))
      → wire (run m (session c early lines late) none) ≡ sent m lines
  unfolding run
  wire-session c early lines late =
      ap wire (
        run-lines_none early (report true c ∷ (map line lines ++ (report false c ∷ map line late))))
      ∙ wire-lines c lines (report false c ∷ map line late)
      ∙ ap (λ bs. sent m lines ++ wire bs) (run-late late)
      ∙ append-nil (sent m lines)

  -- End to end: the lines that the client is given while it is connected, and only those, reach the
  -- callbacks of the server, in order, however the network cuts the bytes into reads.
  pub session-feed :
      {Peer Time : Type 0} (peer : Peer) (c : Conn) (early lines late : List (List ℕ))
      (reads : List (List ℕ × Time))
      → All IsMessage lines
      → All (All IsByte) lines
      → bytes_read reads ≡ wire (run m (session c early lines late) none)
      → (buf : Buffer) × (effects : List (Effect Peer Time)) × (feed m peer m.fresh reads
          ≡ some (buf, effects))
        × (texts effects ≡ lines)
        × (refused effects ≡ false)
  session-feed peer c early lines late reads fits bytes e =
      let (buf, effects, runs, same, empty, quiet) =
        feed-sent m peer lines reads fits bytes (e ∙ wire-session c early lines late) in
      (buf, effects, runs, same, quiet)
