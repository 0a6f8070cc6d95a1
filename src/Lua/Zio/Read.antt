-- ===== src/Lua/Zio/Read.antt =====
-- lua515/lzio.c: `luaZ_read` against the bytes that the reader is still to give.
use lua_engine.Base.{
  ℕ, zero, suc, ◌-◌, ◌≤◌, ◌<◌, ◌≡◌, refl, ap, ◌∙◌, Option, none, some, List, [], ◌∷◌, ◌++◌, leb,
  if◌then◌else◌, length, take, drop, arith, length-append, ◌⊎◌, inl, inr, length-drop,
}
use lua_engine.Lua.Zio.{Zio, lookahead, lookahead_in, Got, read_loop, read}

-- What the reader gives before it signals the end.
abbrev pub pending : List (List ℕ) → List ℕ
pending [] = []
pending ([] ∷ pieces) = []
pending ((b ∷ bs) ∷ pieces) = (b ∷ bs) ++ pending pieces

abbrev pub remaining : Zio → List ℕ
remaining z = z.buffer ++ pending z.reader

-- What a lookahead finds: the end, or a buffer with a byte in it over the same bytes.
lookahead_in-cases :
    (bs : List ℕ) (pieces : List (List ℕ))
    → ((z : Zio) × (lookahead_in bs pieces ≡ (none, z)) × (bs ++ pending pieces ≡ []))
      ⊎ ((b : ℕ) × (cs : List ℕ) × (more : List (List ℕ)) × (lookahead_in bs pieces
            ≡ (some b, record { buffer = b ∷ cs; reader = more }))
          × ((b ∷ cs) ++ pending more ≡ bs ++ pending pieces))
unfolding lookahead_in
lookahead_in-cases [] [] = inl (_, refl, refl)
lookahead_in-cases [] ([] ∷ pieces) = inl (_, refl, refl)
lookahead_in-cases [] ((b ∷ bs) ∷ pieces) = inr (b, bs, pieces, refl, refl)
lookahead_in-cases (b ∷ bs) pieces = inr (b, bs, pieces, refl, refl)

lookahead-cases :
    (z : Zio)
    → ((z' : Zio) × (lookahead z ≡ (none, z')) × (remaining z ≡ []))
      ⊎ ((b : ℕ) × (cs : List ℕ) × (more : List (List ℕ)) × (lookahead z
            ≡ (some b, record { buffer = b ∷ cs; reader = more }))
          × ((b ∷ cs) ++ pending more ≡ remaining z))
unfolding lookahead
lookahead-cases z = lookahead_in-cases z.buffer z.reader

take_split :
    (m n : ℕ) (xs ys : List ℕ)
    → m ≤ n
    → m ≤ length xs
    → take m xs ++ take (n - m) (drop m xs ++ ys) ≡ take n (xs ++ ys)
take_split zero n xs ys h k = ap (λ j. take j (xs ++ ys)) (omega arith)
take_split (suc m) n [] ys h k = absurd (omega arith)
take_split (suc m) zero (x ∷ xs) ys h k = absurd (omega arith)
take_split (suc m) (suc n) (x ∷ xs) ys h k =
    let e : suc n - suc m ≡ n - m = omega arith in
    rw e (ap (λ zs. x ∷ zs) (take_split m n xs ys (omega arith) (omega arith)))

drop_split :
    (m n : ℕ) (xs ys : List ℕ)
    → m ≤ n
    → m ≤ length xs
    → drop (n - m) (drop m xs ++ ys) ≡ drop n (xs ++ ys)
drop_split zero n xs ys h k = ap (λ j. drop j (xs ++ ys)) (omega arith)
drop_split (suc m) n [] ys h k = absurd (omega arith)
drop_split (suc m) zero (x ∷ xs) ys h k = absurd (omega arith)
drop_split (suc m) (suc n) (x ∷ xs) ys h k =
    let e : suc n - suc m ≡ n - m = omega arith in
    rw e (drop_split m n xs ys (omega arith) (omega arith))

-- What a read of `n` bytes comes to over the bytes `s`.
pub record Reads (n : ℕ) (s : List ℕ) (got : Got) : Type 0 where
  pub copied : got.bytes ≡ take n s
  pub short : got.missing ≡ n - length s
  pub left : n ≤ length s → remaining got.stream ≡ drop n s

Reads-step :
    (m n : ℕ) (xs ys : List ℕ) (got : Got)
    → m ≤ n
    → m ≤ length xs
    → Reads (n - m) (drop m xs ++ ys) got
    → Reads n (xs ++ ys) (record got { bytes = take m xs ++ got.bytes })
Reads-step m n xs ys got h k r = record {
  copied = ap (λ bs. take m xs ++ bs) r.copied ∙ take_split m n xs ys h k;
  short =
      omega (arith, r.short, length-append xs ys, length-append (drop m xs) ys, length-drop m xs);
  left = λ room.
      r.left (omega (arith, length-append xs ys, length-append (drop m xs) ys, length-drop m xs))
      ∙ drop_split m n xs ys h k;
}

-- The number of bytes that a round copies.
abbrev share : ℕ → List ℕ → ℕ
share n xs = if leb n (length xs) then n else length xs

share-le : (n : ℕ) (xs : List ℕ) → (share n xs ≤ n) × (share n xs ≤ length xs)
share-le n xs = ground arith

share-pos : (n b : ℕ) (xs : List ℕ) → 0 < share (suc n) (b ∷ xs)
share-pos n b xs = ground arith

round_lem :
    (fuel n b : ℕ) (z z' : Zio)
    → lookahead z ≡ (some b, z')
    → read_loop (suc fuel) (suc n) z ≡ (
        let got =
          read_loop fuel
            (suc n - share (suc n) z'.buffer)
            (record z' { buffer = drop (share (suc n) z'.buffer) z'.buffer }) in
        record got { bytes = take (share (suc n) z'.buffer) z'.buffer ++ got.bytes })
unfolding read_loop
round_lem fuel n b z z' e =
    ground (arith, ap (λ (p : Option ℕ × Zio). p.0) e, ap (λ (p : Option ℕ × Zio). p.1) e)

end_lem :
    (fuel n : ℕ) (z z' : Zio)
    → lookahead z ≡ (none, z')
    → read_loop (suc fuel) (suc n) z ≡ record { bytes = []; missing = suc n; stream = z' }
unfolding read_loop
end_lem fuel n z z' e =
    ground (arith, ap (λ (p : Option ℕ × Zio). p.0) e, ap (λ (p : Option ℕ × Zio). p.1) e)

read_loop-Reads : (fuel n : ℕ) (z : Zio) → n ≤ fuel → Reads n (remaining z) (read_loop fuel n z)
read_loop-Reads zero zero z h =
    unfold read_loop in record { copied = refl; short = omega arith; left = λ _. refl }
read_loop-Reads zero (suc n) z h = absurd (omega arith)
read_loop-Reads (suc fuel) zero z h =
    unfold read_loop in record { copied = refl; short = omega arith; left = λ _. refl }
read_loop-Reads (suc fuel) (suc n) z h = elim (lookahead-cases z) [
  | inl (z', e, nothing) ↦
      rw (end_lem fuel n z z' e, nothing)
        (record { copied = refl; short = omega arith; left = λ room. absurd (omega arith) })
  | inr (b, cs, more, e, same) ↦
      let m : ℕ = share (suc n) (b ∷ cs) in
      rw (round_lem fuel n b z _ e, ← same)
        (Reads-step m (suc n) (b ∷ cs) (pending more) _ (share-le (suc n) (b ∷ cs)).0
          (share-le (suc n) (b ∷ cs)).1
          (read_loop-Reads fuel (suc n - m) (record { buffer = drop m (b ∷ cs); reader = more })
            (omega (arith, share-pos n b cs))))
]

-- `luaZ_read` copies the next bytes of the stream, however the reader cuts it into pieces, and returns
-- how many are missing; where none is, the stream goes on behind them.
pub read-Reads : (n : ℕ) (z : Zio) → Reads n (remaining z) (read n z)
unfolding read
read-Reads n z = read_loop-Reads n n z (omega arith)
