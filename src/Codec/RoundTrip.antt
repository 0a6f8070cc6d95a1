-- ===== src/Codec/RoundTrip.antt =====
-- luaEngine/Codec.h: `send` on one side of a connection and `onMessage` on the other.
use lua_engine.Base.{
  ℕ, ◌%◌, ◌^◌, ◌<◌, ◌≡◌, refl, ap, true, false, List, [], ◌∷◌, ◌++◌, length, All, arith, some,
  All-append, sym, ◌∙◌, append-nil, subst, ap₂,
}
use lua_engine.Codec.Buffer.{be_bytes, Muduo}
use lua_engine.Codec.Frame.{IsByte, IsMessage, frame, frames, be32-be_bytes, be_bytes-IsByte}
use lua_engine.Codec.{Effect, send}
use lua_engine.Codec.Scan.{Decodes, NoFrame-bad, bad_header}
use lua_engine.Codec.Streams.{Decodes-unique, frames-IsByte}
use lua_engine.Codec.Feed.{texts, refused, bytes_read, feed, feed-Fed, NoFrame-nil}

module _ (m : Muduo) where
  open m use {contents, fresh, append, fresh_law, append_law, prepend_law, network_law}

  pub contents-send : (msg : List ℕ) → length msg < 2 ^ 32 → contents (send m msg) ≡ frame msg
  unfolding send
  contents-send msg h =
      let small : length msg % 2 ^ 32 ≡ length msg = omega arith in
      let buf = append fresh msg in
      ap (λ n. contents (m.prepend buf (m.host_to_network32 n))) small
      ∙ ap (λ xs. contents (m.prepend buf xs)) (network_law (length msg) h)
      ∙ prepend_law buf (be_bytes (length msg))
          (omega (arith, m.append_room fresh msg m.fresh_room))
      ∙ ap (λ s. be_bytes (length msg) ++ s) (append_law fresh msg ∙ ap (λ s. s ++ msg) fresh_law)

  -- The bytes that a peer sends for a list of messages, one `send` after the other.
  abbrev pub sent : List (List ℕ) → List ℕ
  sent [] = []
  sent (msg ∷ msgs) = contents (send m msg) ++ sent msgs

  pub sent-frames : (msgs : List (List ℕ)) → All IsMessage msgs → sent msgs ≡ frames msgs
  sent-frames [] h = refl
  sent-frames (x ∷ xs) h =
      ap₂ (λ (s : List ℕ) t. s ++ t) (contents-send x (omega arith)) (sent-frames xs h.1)

module _ (m : Muduo) {Conn Time : Type 0} (conn : Conn) where
  open m use {Buffer, contents, fresh, fresh_law}

  -- Reads into the buffer of a new connection.
  feed_fresh :
      (reads : List (List ℕ × Time))
      → All IsByte (bytes_read reads)
      → (buf' : Buffer) × (effects : List (Effect Conn Time)) × (feed m conn fresh reads
          ≡ some (buf', effects))
        × Decodes (bytes_read reads) (texts effects) (contents buf')
        × (refused effects ≡ bad_header (contents buf'))
  feed_fresh reads h =
      let (buf', effects, runs, w) =
        feed-Fed m conn reads fresh (rw fresh_law tt) (rw fresh_law NoFrame-nil) h in
      (buf', effects, runs, rw fresh_law at (w.decodes), w.refusal (rw fresh_law refl))

  -- The bytes of a list of messages, each sent by `send`, may arrive cut into reads at any places:
  -- the callbacks get exactly those messages, in order, the buffer is left empty, and the connection
  -- is not shut down.
  pub feed-sent :
      (msgs : List (List ℕ)) (reads : List (List ℕ × Time))
      → All IsMessage msgs
      → All (All IsByte) msgs
      → bytes_read reads ≡ sent m msgs
      → (buf' : Buffer) × (effects : List (Effect Conn Time)) × (feed m conn fresh reads
          ≡ some (buf', effects))
        × (texts effects ≡ msgs)
        × (contents buf' ≡ [])
        × (refused effects ≡ false)
  feed-sent msgs reads fits bytes e =
      let whole : bytes_read reads ≡ frames msgs = e ∙ sent-frames m msgs fits in
      let (buf', effects, runs, d, r) =
        feed_fresh reads (subst (All IsByte) (sym whole) (frames-IsByte msgs bytes)) in
      let all : Decodes (bytes_read reads) msgs [] = record {
        split = whole ∙ sym (append-nil (frames msgs));
        fits = fits;
        ends = NoFrame-nil;
      } in
      let (same, none_left) = Decodes-unique (texts effects) msgs (contents buf') [] d all in
      (buf', effects, runs, same, none_left, r ∙ ap bad_header none_left)

  -- Two ways to cut one byte stream into reads are both processed to the end, and give the same
  -- messages, the same rest in the buffer and the same decision to shut down.
  pub feed_cuts :
      (reads reads' : List (List ℕ × Time))
      → All IsByte (bytes_read reads)
      → bytes_read reads ≡ bytes_read reads'
      → (b : Buffer) × (es : List (Effect Conn Time)) × (b' : Buffer) × (es' : List
          (Effect Conn Time))
        × (feed m conn fresh reads ≡ some (b, es))
        × (feed m conn fresh reads' ≡ some (b', es'))
        × (texts es ≡ texts es')
        × (contents b ≡ contents b')
        × (refused es ≡ refused es')
  feed_cuts reads reads' h e =
      let (b, es, runs, d, r) = feed_fresh reads h in
      let (b', es', runs', d', r') = feed_fresh reads' (subst (All IsByte) e h) in
      let (same, left) =
        Decodes-unique (texts es) (texts es') (contents b) (contents b')
          (subst (λ s. Decodes s (texts es) (contents b)) e d) d' in
      (b, es, b', es', runs, runs', same, left, r ∙ ap bad_header left ∙ sym r')

  -- `send` accepts a message over the limit of the receiver, and the receiver refuses it: no callback
  -- is made, the connection is shut down, and the bytes stay in the buffer.
  pub feed-send_too_long :
      (msg : List ℕ) (reads : List (List ℕ × Time))
      → 65536 < length msg
      → length msg < 2 ^ 32
      → All IsByte msg
      → bytes_read reads ≡ contents (send m msg)
      → (buf' : Buffer) × (effects : List (Effect Conn Time)) × (feed m conn fresh reads
          ≡ some (buf', effects))
        × (texts effects ≡ [])
        × (contents buf' ≡ contents (send m msg))
        × (refused effects ≡ true)
  feed-send_too_long msg reads long fits bytes e =
      let whole : bytes_read reads ≡ frame msg = e ∙ contents-send m msg fits in
      let bad : bad_header (bytes_read reads) ≡ true =
        rw whole (ground (arith, be32-be_bytes (length msg) msg fits)) in
      let (buf', effects, runs, d, r) = feed_fresh reads (
        subst (All IsByte) (sym whole)
          (All-append IsByte (be_bytes (length msg)) msg (be_bytes-IsByte (length msg)) bytes)) in
      let all : Decodes (bytes_read reads) [] (bytes_read reads) = record {
        split = refl;
        fits = tt;
        ends = NoFrame-bad (bytes_read reads) bad;
      } in
      let (same, left) =
        Decodes-unique (texts effects) [] (contents buf') (bytes_read reads) d all in
      (buf', effects, runs, same, left ∙ e, r ∙ ap bad_header left ∙ bad)
