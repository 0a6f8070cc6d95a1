-- ===== src/Server/Broadcast.antt =====
-- luaEngine/LuaServer.h: what `onStringMessage` sends.
use lua_engine.Base.{
  ℕ, zero, suc, sym, Option, none, get_elem?, ◌≡◌, refl, ap, ◌∙◌, some, false, List, [], ◌∷◌,
  length, All, append-nil,
}
use lua_engine.Codec.{Effect, send}
use lua_engine.Codec.Buffer.{Muduo}
use lua_engine.Codec.Frame.{IsByte, IsMessage}
use lua_engine.Codec.Feed.{texts, refused, bytes_read, feed}
use lua_engine.Codec.RoundTrip.{feed-sent}
use lua_engine.Server.{on_string_message}

module _ (m : Muduo) {Conn : Type 0} where
  open m use {Buffer, contents}

  sent_to :
      (msg : List ℕ) (cs : List Conn) (i : ℕ) (c : Conn) (buf : Buffer)
      → get_elem? (on_string_message m msg cs) i ≡ some (c, buf)
      → (get_elem? cs i ≡ some c) × (buf ≡ send m msg)
  unfolding on_string_message
  sent_to msg [] i c buf e = cc
  sent_to msg (d ∷ cs) zero c buf e = (
    ap (λ (o : Option (Conn × Buffer)). elim o [ none ↦ none | some p ↦ some p.0 ]) e,
    sym (ap (λ (o : Option (Conn × Buffer)). elim o [ none ↦ send m msg | some p ↦ p.1 ]) e),
  )
  sent_to msg (d ∷ cs) (suc i) c buf e = sent_to msg cs i c buf e

  length-on_string_message :
      (msg : List ℕ) (cs : List Conn) → length (on_string_message m msg cs) ≡ length cs
  unfolding on_string_message
  length-on_string_message msg [] = refl
  length-on_string_message msg (c ∷ cs) = ap suc (length-on_string_message msg cs)

  -- A message within the limit is sent once for each connection: there are as many buffers as
  -- connections, the i-th goes to the i-th connection, and however the network cuts its bytes into
  -- reads, `onMessage` at the other end hands on that one message and keeps the connection.
  pub on_string_message-feed :
      {Peer Time : Type 0} (peer : Peer) (msg : List ℕ) (cs : List Conn) (i : ℕ) (c : Conn)
      (sent : Buffer) (reads : List (List ℕ × Time))
      → IsMessage msg
      → All IsByte msg
      → get_elem? (on_string_message m msg cs) i ≡ some (c, sent)
      → bytes_read reads ≡ contents sent
      → (length (on_string_message m msg cs) ≡ length cs)
        × (get_elem? cs i ≡ some c)
        × ((buf : Buffer) × (effects : List (Effect Peer Time)) × (feed m peer m.fresh reads
              ≡ some (buf, effects))
            × (texts effects ≡ msg ∷ [])
            × (refused effects ≡ false))
  on_string_message-feed peer msg cs i c sent reads h k e r =
      let (to, same) = sent_to msg cs i c sent e in
      let (buf, effects, runs, all, left, kept) =
        feed-sent m peer (msg ∷ []) reads (h, tt) (k, tt)
          (r ∙ ap contents same ∙ sym (append-nil (contents (send m msg)))) in
      (length-on_string_message msg cs, to, (buf, effects, runs, all, kept))
