-- ===== src/Codec/Scan.antt =====
-- luaEngine/Codec.h: the loop of `onMessage` against the wire format.
use lua_engine.Base.{
  ℕ, zero, suc, ◌+◌, ◌≤◌, ◌<◌, ◌≡◌, ◌≢◌, refl, ap, Bool, true, false, List, [], ◌∷◌, ◌++◌, length,
  take, drop, All, arith, append_assoc, some, length-append, sym, ◌∙◌, ltb, leb, if◌then◌else◌, inl,
  inr, ◌&&◌, Bool-cases, leb→le, leb-false, take-append-drop, ap₂, min, subst, length-take,
  length-drop, All-drop,
}
use lua_engine.Base.Int.{signed32}
use lua_engine.Codec.Buffer.{be32, be_bytes, Muduo}
use lua_engine.Codec.Frame.{IsByte, IsMessage, frame, frames, be32-be_bytes, header_lem}
use lua_engine.Codec.{MessageQueue, Effect, log_error, shutdown, callback, on_message_loop}

-- No complete message stands at the front.
abbrev pub NoFrame : List ℕ → Type 0
NoFrame s = (msg rest : List ℕ) → IsMessage msg → s ≢ frame msg ++ rest

-- `s` is the messages `msgs`, and a rest with no complete message at its front.
pub record Decodes (s : List ℕ) (msgs : List (List ℕ)) (rest : List ℕ) : Type 0 where
  pub split : s ≡ frames msgs ++ rest
  pub fits : All IsMessage msgs
  pub ends : NoFrame rest

-- The header, as an unsigned number, is over the limit.
abbrev pub bad_header : List ℕ → Bool
bad_header s = leb 4 (length s) && ltb 65536 (be32 s)

module _ {Conn Time : Type 0} where
  abbrev pub delivered : List (Effect Conn Time) → List (MessageQueue Conn Time)
  delivered [] = []
  delivered (log_error n ∷ es) = delivered es
  delivered (shutdown c ∷ es) = delivered es
  delivered (callback msg ∷ es) = msg ∷ delivered es

module _ {Conn Time : Type 0} (conn : Conn) (t : Time) where
  abbrev pub tagged : List ℕ → MessageQueue Conn Time
  tagged msg = record { conn = conn; message = msg; timestamp = t }

  -- The effects that a call is to have: a callback for each message, then the refusal of a bad header.
  abbrev pub effects_of : List (List ℕ) → List ℕ → List (Effect Conn Time)
  effects_of [] rest =
      if bad_header rest then log_error (signed32 (be32 rest)) ∷ shutdown conn ∷ [] else []
  effects_of (msg ∷ msgs) rest = callback (tagged msg) ∷ effects_of msgs rest

length-frame : (msg rest : List ℕ) → length (frame msg ++ rest) ≡ 4 + (length msg + length rest)
length-frame msg rest = omega (arith, length-append msg rest)

-- A list that starts with a message shows its length in the header.
frame-header : (msg rest : List ℕ) → IsMessage msg → be32 (frame msg ++ rest) ≡ length msg
frame-header msg rest h = be32-be_bytes (length msg) (msg ++ rest) (omega arith)

pub NoFrame-bad : (s : List ℕ) → bad_header s ≡ true → NoFrame s
NoFrame-bad s h msg rest k e =
    absurd (ground (arith, frame-header msg rest k, ap be32 e, ap length e))

pub NoFrame-short : (s : List ℕ) → length s < 4 + be32 s → NoFrame s
NoFrame-short s h msg rest k e =
    absurd (omega (arith, frame-header msg rest k, ap be32 e, ap length e, length-frame msg rest))

pub NoFrame-header : (s : List ℕ) → length s < 4 → NoFrame s
NoFrame-header s h msg rest k e = absurd (omega (arith, ap length e, length-frame msg rest))

-- With enough bytes behind a good header the list is a message and what follows it.
pub take-frame :
    (s : List ℕ)
    → All IsByte s
    → 4 + be32 s ≤ length s
    → s ≡ frame (take (be32 s) (drop 4 s)) ++ drop (be32 s) (drop 4 s)
take-frame s h k =
    rw (length-take, take-append-drop)
      (subst (λ n. s ≡ be_bytes n ++ drop 4 s) (sym eq) (header_lem s h (omega arith)))
  where
    eq : min (be32 s) (length (drop 4 s)) ≡ be32 s
    eq = omega (arith, length-drop 4 s)

module _ (m : Muduo) {Conn Time : Type 0} (conn : Conn) (t : Time) where
  open m use {Buffer, contents, readable_law, peek_int32_law, peek_law, retrieve_law}

  -- What a call of `onMessage` does to a buffer.
  pub record Handled (buf buf' : Buffer) (effects : List (Effect Conn Time)) : Type 0 where
    pub msgs : List (List ℕ)
    pub decodes : Decodes (contents buf) msgs (contents buf')
    pub acts : effects ≡ effects_of conn t msgs (contents buf')

  abbrev next_buffer : Buffer → Buffer
  next_buffer buf = m.retrieve (m.retrieve buf 4) (be32 (contents buf))

  -- One round, by what the buffer holds.
  module _ (fuel : ℕ) (buf : Buffer) where
    round_bad :
        bad_header (contents buf) ≡ true
        → on_message_loop m (suc fuel) conn buf t ≡ some (buf, effects_of conn t [] (contents buf))
    unfolding on_message_loop
    round_bad h = ground (arith, readable_law buf, peek_int32_law buf)

    round_stop :
        bad_header (contents buf) ≡ false
        → length (contents buf) < 4 + be32 (contents buf)
        → on_message_loop m (suc fuel) conn buf t ≡ some (buf, [])
    unfolding on_message_loop
    round_stop g h = ground (arith, readable_law buf, peek_int32_law buf)

    round_take :
        bad_header (contents buf) ≡ false
        → 4 + be32 (contents buf) ≤ length (contents buf)
        → (buf' : Buffer) (effects : List (Effect Conn Time))
        → on_message_loop m fuel conn (next_buffer buf) t ≡ some (buf', effects)
        → on_message_loop m (suc fuel) conn buf t
          ≡ some (
            buf',
            callback (tagged conn t (m.peek (m.retrieve buf 4) (be32 (contents buf)))) ∷ effects,
          )
    unfolding on_message_loop
    round_take g h buf' effects e = ground (arith, readable_law buf, peek_int32_law buf)

  split_body :
      (buf : Buffer)
      → 4 + be32 (contents buf) ≤ length (contents buf)
      → (m.peek (m.retrieve buf 4) (be32 (contents buf))
          ≡ take (be32 (contents buf)) (drop 4 (contents buf)))
        × (contents (next_buffer buf) ≡ drop (be32 (contents buf)) (drop 4 (contents buf)))
  split_body buf h =
      let e : contents (m.retrieve buf 4) ≡ drop 4 (contents buf) =
        retrieve_law buf 4 (omega arith) in
      let fits : be32 (contents buf) ≤ length (contents (m.retrieve buf 4)) =
        omega (arith, ap length e, length-drop 4 (contents buf)) in
      (
        peek_law (m.retrieve buf 4) _ fits ∙ ap (take (be32 (contents buf))) e,
        retrieve_law (m.retrieve buf 4) _ fits ∙ ap (drop (be32 (contents buf))) e,
      )

  -- A buffer that is left alone.
  stays :
      (buf : Buffer)
      → NoFrame (contents buf)
      → Handled buf buf (effects_of conn t [] (contents buf))
  stays buf h = record {
    msgs = [];
    decodes = record { split = refl; fits = tt; ends = h };
    acts = refl;
  }

  quiet :
      (buf : Buffer) → bad_header (contents buf) ≡ false → effects_of conn t [] (contents buf) ≡ []
  quiet buf h = rw h

  prepend_message :
      (buf : Buffer) (buf' : Buffer) (effects : List (Effect Conn Time))
      → All IsByte (contents buf)
      → bad_header (contents buf) ≡ false
      → 4 + be32 (contents buf) ≤ length (contents buf)
      → Handled (next_buffer buf) buf' effects
      → Handled buf buf'
          (callback (tagged conn t (m.peek (m.retrieve buf 4) (be32 (contents buf)))) ∷ effects)
  prepend_message buf buf' effects h g k w = record {
    msgs = msg ∷ w.msgs;
    decodes = record {
      split =
          take-frame (contents buf) h k
          ∙ ap (λ r. frame msg ++ r) (sym (split_body buf k).1 ∙ w.decodes.split)
          ∙ sym (append_assoc (frame msg) (frames w.msgs) (contents buf'));
      fits = (
        ground (arith, length-take (be32 (contents buf)) (drop 4 (contents buf))),
        w.decodes.fits,
      );
      ends = w.decodes.ends;
    };
    acts = ap₂ (λ (x : List ℕ) es. callback (tagged conn t x) ∷ es) (split_body buf k).0 w.acts;
  }
    where
      msg : List ℕ
      msg = take (be32 (contents buf)) (drop 4 (contents buf))

  pub loop-Handled :
      (fuel : ℕ) (buf : Buffer)
      → All IsByte (contents buf)
      → length (contents buf) < fuel
      → (buf' : Buffer) × (effects : List (Effect Conn Time)) × (on_message_loop m fuel conn buf t
          ≡ some (buf', effects))
        × Handled buf buf' effects
  loop-Handled zero buf h k = absurd (omega arith)
  loop-Handled (suc fuel) buf h k = elim (Bool-cases (bad_header (contents buf))) [
    | inl bad ↦ (buf, _, round_bad fuel buf bad, stays buf (NoFrame-bad _ bad))
    | inr good ↦ elim (Bool-cases (leb (4 + be32 (contents buf)) (length (contents buf)))) [
      | inr short ↦ (
        buf,
        [],
        round_stop fuel buf good (leb-false _ _ short),
        rw (quiet buf good) at (stays buf (NoFrame-short _ (leb-false _ _ short))),
      )
      | inl enough ↦
          let room : 4 + be32 (contents buf) ≤ length (contents buf) = leb→le _ _ enough in
          let body = split_body buf room in
          let (buf', effects, runs, w) =
            loop-Handled fuel (next_buffer buf)
              (subst (All IsByte) (sym body.1) (All-drop IsByte _ _ (All-drop IsByte 4 _ h)))
              (omega (
                arith,
                ap length body.1,
                length-drop (be32 (contents buf)) (drop 4 (contents buf)),
                length-drop 4 (contents buf),
              )) in
          (
            buf',
            _,
            round_take fuel buf good room buf' effects runs,
            prepend_message buf buf' effects h good room w,
          )
    ]
  ]
