-- ===== src/Codec/Feed.antt =====
-- luaEngine/Codec.h: sequences of reads, where the stream of a connection reaches `onMessage` in arbitrary pieces.
use lua_engine.Base.{
  ℕ, suc, ◌≡◌, refl, ap, Bool, true, false, Option, List, [], ◌∷◌, ◌++◌, All, arith, append_assoc,
  some, none, length-append, Bool-cases, ◌||◌, inl, inr, All-append, All-append_iff, sym, ◌∙◌,
  append-nil, subst,
}
use lua_engine.Codec.Buffer.{Muduo}
use lua_engine.Codec.Frame.{IsByte, frames}
use lua_engine.Codec.{Effect, log_error, shutdown, callback, on_message}
use lua_engine.Codec.Scan.{
  NoFrame, Decodes, effects_of, Handled, loop-Handled, NoFrame-bad, NoFrame-header, bad_header,
}
use lua_engine.Codec.Streams.{Decodes-unique, Decodes-append}

-- A header over the limit stays where it is, and refuses all that follows it.
bad_header-append : (s t : List ℕ) → bad_header s ≡ true → bad_header (s ++ t) ≡ true
bad_header-append [] t h = absurd (ground arith)
bad_header-append (a ∷ []) t h = absurd (ground arith)
bad_header-append (a ∷ b ∷ []) t h = absurd (ground arith)
bad_header-append (a ∷ b ∷ c ∷ []) t h = absurd (ground arith)
bad_header-append (a ∷ b ∷ c ∷ d ∷ s) t h = ground (arith, length-append s t)

abbrev pub bytes_read : {Time : Type 0} → List (List ℕ × Time) → List ℕ
bytes_read [] = []
bytes_read ((xs, t) ∷ reads) = xs ++ bytes_read reads

module _ {Conn Time : Type 0} where
  abbrev pub texts : List (Effect Conn Time) → List (List ℕ)
  texts [] = []
  texts (log_error n ∷ es) = texts es
  texts (shutdown c ∷ es) = texts es
  texts (callback msg ∷ es) = msg.message ∷ texts es

  texts-append : (es fs : List (Effect Conn Time)) → texts (es ++ fs) ≡ texts es ++ texts fs
  texts-append [] fs = refl
  texts-append (log_error n ∷ es) fs = texts-append es fs
  texts-append (shutdown c ∷ es) fs = texts-append es fs
  texts-append (callback msg ∷ es) fs = ap (λ ts. msg.message ∷ ts) (texts-append es fs)

  texts-effects_of :
      (conn : Conn) (t : Time) (msgs : List (List ℕ)) (rest : List ℕ)
      → texts (effects_of conn t msgs rest) ≡ msgs
  texts-effects_of conn t [] rest = ground arith
  texts-effects_of conn t (msg ∷ msgs) rest =
      ap (λ ts. msg ∷ ts) (texts-effects_of conn t msgs rest)

  abbrev pub refused : List (Effect Conn Time) → Bool
  refused [] = false
  refused (log_error n ∷ es) = refused es
  refused (shutdown c ∷ es) = true
  refused (callback msg ∷ es) = refused es

  refused-append :
      (es fs : List (Effect Conn Time)) → refused (es ++ fs) ≡ (refused es || refused fs)
  refused-append [] fs = refl
  refused-append (log_error n ∷ es) fs = refused-append es fs
  refused-append (shutdown c ∷ es) fs = refl
  refused-append (callback msg ∷ es) fs = refused-append es fs

  refused-effects_of :
      (conn : Conn) (t : Time) (msgs : List (List ℕ)) (rest : List ℕ)
      → refused (effects_of conn t msgs rest) ≡ bad_header rest
  refused-effects_of conn t [] rest = ground arith
  refused-effects_of conn t (msg ∷ msgs) rest = refused-effects_of conn t msgs rest

module _ (m : Muduo) {Conn Time : Type 0} (conn : Conn) where
  open m use {Buffer, contents, fresh, append, append_law, readable_law}

  pub on_message-Handled :
      (t : Time) (buf : Buffer)
      → All IsByte (contents buf)
      → (buf' : Buffer) × (effects : List (Effect Conn Time)) × (on_message m conn buf t
          ≡ some (buf', effects))
        × Handled m conn t buf buf' effects
  unfolding on_message
  on_message-Handled t buf h =
      loop-Handled m conn t (suc (m.readable_bytes buf)) buf h (omega (arith, readable_law buf))

  -- The reads of one connection: each is appended to its buffer and then handed to `onMessage`.
  unfoldable pub feed : Buffer → List (List ℕ × Time) → Option (Buffer × List (Effect Conn Time))
  feed buf [] = some (buf, [])
  feed buf ((xs, t) ∷ reads) = elim (on_message m conn (append buf xs) t) [
    | none ↦ none
    | some (buf', effects) ↦ elim (feed buf' reads) [
      | none ↦ none
      | some (buf'', more) ↦ some (buf'', effects ++ more)
    ]
  ]

  pub feed_step :
      (reads : List (List ℕ × Time)) (buf : Buffer) (xs : List ℕ) (t : Time) {buf' buf'' : Buffer}
      {effects more : List (Effect Conn Time)}
      → on_message m conn (append buf xs) t ≡ some (buf', effects)
      → feed buf' reads ≡ some (buf'', more)
      → feed buf ((xs, t) ∷ reads) ≡ some (buf'', effects ++ more)
  unfolding feed
  feed_step reads buf xs t runs go = ground arith

  -- What a sequence of reads does: it decodes the bytes read, and it shuts the connection down exactly
  -- when a header over the limit is left at the front of the buffer.
  pub record Fed (buf : Buffer) (xs : List ℕ) (effects : List (Effect Conn Time)) (buf' : Buffer)
      : Type 0 where
    pub decodes : Decodes (contents buf ++ xs) (texts effects) (contents buf')
    pub refusal : bad_header (contents buf) ≡ false → refused effects ≡ bad_header (contents buf')

  read_once :
      {buf' : Buffer} {effects : List (Effect Conn Time)} (buf : Buffer) (xs : List ℕ) (t : Time)
      → Handled m conn t (append buf xs) buf' effects
      → Decodes (contents buf ++ xs) (texts effects) (contents buf')
        × (refused effects ≡ bad_header (contents buf'))
  read_once {buf'} {effects} buf xs t w = (
    rw (w.acts, texts-effects_of conn t w.msgs (contents buf'), ← append_law buf xs) w.decodes,
    rw (w.acts) (refused-effects_of conn t w.msgs (contents buf')),
  )

  Fed-nil : (buf : Buffer) → NoFrame (contents buf) → Fed buf [] [] buf
  Fed-nil buf n = record {
    decodes = record { split = append-nil (contents buf); fits = tt; ends = n };
    refusal = λ h. sym h;
  }

  -- A header over the limit is still there after more reads.
  stays_bad :
      {buf buf' : Buffer} {effects : List (Effect Conn Time)} (xs : List ℕ)
      → bad_header (contents buf) ≡ true
      → Fed buf xs effects buf'
      → bad_header (contents buf') ≡ true
  stays_bad {buf} {buf'} {effects} xs h w =
      let bad = bad_header-append (contents buf) xs h in
      let whole : Decodes (contents buf ++ xs) [] (contents buf ++ xs) = record {
        split = refl;
        fits = tt;
        ends = NoFrame-bad _ bad;
      } in
      rw (← (Decodes-unique [] (texts effects) _ _ whole w.decodes).1) bad

  Fed-cons :
      {buf buf' buf'' : Buffer} {more : List (Effect Conn Time)} (first : List (Effect Conn Time))
      (xs ys : List ℕ)
      → Decodes (contents buf ++ xs) (texts first) (contents buf')
      → refused first ≡ bad_header (contents buf')
      → Fed buf' ys more buf''
      → Fed buf (xs ++ ys) (first ++ more) buf''
  Fed-cons {buf} {buf'} {buf''} {more} first xs ys d r w = record {
    decodes =
        rw (← append_assoc (contents buf) xs ys, texts-append first more)
          (Decodes-append (texts first) (texts more) (contents buf') ys (contents buf'') d
            w.decodes);
    refusal = λ _.
        refused-append first more
        ∙ ap (λ b. b || refused more) r
        ∙ (elim (Bool-cases (bad_header (contents buf'))) [
          | inl bad ↦ rw (bad, stays_bad ys bad w)
          | inr good ↦ rw good (w.refusal good)
        ]);
  }

  -- Every sequence of reads of a connection is processed to its end, from any buffer of bytes that has
  -- no complete message at its front: what was in the buffer and what was read is the frames of the
  -- messages handed to the callbacks, in order, and the rest in the buffer, which has no complete
  -- message at its front; and where the buffer had no bad header before, the connection is shut down
  -- exactly when the rest begins with a bad header.
  pub feed-Fed :
      (reads : List (List ℕ × Time)) (buf : Buffer)
      → All IsByte (contents buf)
      → NoFrame (contents buf)
      → All IsByte (bytes_read reads)
      → (buf' : Buffer) × (effects : List (Effect Conn Time)) × (feed buf reads
          ≡ some (buf', effects))
        × Fed buf (bytes_read reads) effects buf'
  feed-Fed [] buf h n k = (buf, [], unfold feed in refl, Fed-nil buf n)
  feed-Fed ((xs, t) ∷ reads) buf h n k =
      let (now, later) = All-append_iff IsByte xs (bytes_read reads) k in
      let both : All IsByte (contents buf ++ xs) = All-append IsByte (contents buf) xs h now in
      let (buf', effects, runs, w) =
        on_message-Handled t (append buf xs) (subst (All IsByte) (sym (append_law buf xs)) both) in
      let (d, r) = read_once buf xs t w in
      let (buf'', more, go, v) =
        feed-Fed reads buf'
          (All-append_iff IsByte (frames (texts effects)) (contents buf')
            (subst (All IsByte) d.split both)).1
          d.ends later in
      (
        buf'',
        effects ++ more,
        feed_step reads buf xs t runs go,
        Fed-cons effects xs (bytes_read reads) d r v,
      )

-- A fresh buffer has no message.
pub NoFrame-nil : NoFrame []
NoFrame-nil = NoFrame-header [] (omega arith)
