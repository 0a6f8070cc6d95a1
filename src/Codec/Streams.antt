-- ===== src/Codec/Streams.antt =====
-- luaEngine/Codec.h: the decoding of a byte stream into messages, as a relation.
use lua_engine.Base.{
  ℕ, ◌≡◌, refl, ap, List, [], ◌∷◌, ◌++◌, length, take, drop, All, arith, append_assoc, take-append,
  drop-append, All-append, sym, ◌∙◌, ap₂,
}
use lua_engine.Codec.Buffer.{be32, be_bytes}
use lua_engine.Codec.Frame.{
  IsByte, IsMessage, frame, frames, be32-be_bytes, frames-append, be_bytes-IsByte,
}
use lua_engine.Codec.Scan.{Decodes}

-- Two messages at the front of one list are the same.
frame-cancel :
    (x y s t : List ℕ) → IsMessage x → IsMessage y → frame x ++ s ≡ frame y ++ t → (x ≡ y) × (s ≡ t)
frame-cancel x y s t hx hy e = (
  sym (take-append (length x) x s refl)
      ∙ ap (take (length x)) bodies
      ∙ take-append (length x) y t (sym same),
  sym (drop-append (length x) x s refl)
      ∙ ap (drop (length x)) bodies
      ∙ drop-append (length x) y t (sym same),
)
  where
    same : length x ≡ length y
    same =
        sym (be32-be_bytes (length x) (x ++ s) (omega arith))
        ∙ ap be32 e
        ∙ be32-be_bytes (length y) (y ++ t) (omega arith)

    bodies : x ++ s ≡ y ++ t
    bodies = ap (drop 4) e

-- A list decodes in one way only.
pub Decodes-unique :
    {s : List ℕ} (xs ys : List (List ℕ)) (r q : List ℕ)
    → Decodes s xs r
    → Decodes s ys q
    → (xs ≡ ys) × (r ≡ q)
Decodes-unique [] [] r q c d = (refl, sym c.split ∙ d.split)
Decodes-unique [] (y ∷ ys) r q c d = absurd (
    c.ends y (frames ys ++ q) d.fits.0
      (sym c.split ∙ d.split ∙ append_assoc (frame y) (frames ys) q))
Decodes-unique (x ∷ xs) [] r q c d = absurd (
    d.ends x (frames xs ++ r) c.fits.0
      (sym d.split ∙ c.split ∙ append_assoc (frame x) (frames xs) r))
Decodes-unique (x ∷ xs) (y ∷ ys) r q c d =
    let (heads, tails) = frame-cancel x y (frames xs ++ r) (frames ys ++ q) c.fits.0 d.fits.0 (
      sym (append_assoc (frame x) (frames xs) r)
      ∙ sym c.split
      ∙ d.split
      ∙ append_assoc (frame y) (frames ys) q) in
    let (rest, ends) =
      Decodes-unique {s = frames xs ++ r} xs ys r q
        (record { split = refl; fits = c.fits.1; ends = c.ends })
        (record { split = tails; fits = d.fits.1; ends = d.ends }) in
    (ap₂ (λ (z : List ℕ) zs. z ∷ zs) heads rest, ends)

-- What is left of one read is taken up by the next.
pub Decodes-append :
    {s : List ℕ} (xs ys : List (List ℕ)) (r t q : List ℕ)
    → Decodes s xs r
    → Decodes (r ++ t) ys q
    → Decodes (s ++ t) (xs ++ ys) q
Decodes-append xs ys r t q c d = record {
  split =
      ap (λ u. u ++ t) c.split
      ∙ append_assoc (frames xs) r t
      ∙ ap (λ u. frames xs ++ u) d.split
      ∙ sym (append_assoc (frames xs) (frames ys) q)
      ∙ ap (λ u. u ++ q) (sym (frames-append xs ys));
  fits = All-append IsMessage xs ys c.fits d.fits;
  ends = d.ends;
}

pub frames-IsByte : (msgs : List (List ℕ)) → All (All IsByte) msgs → All IsByte (frames msgs)
frames-IsByte [] h = tt
frames-IsByte (x ∷ xs) h =
    All-append IsByte (frame x) (frames xs)
      (All-append IsByte (be_bytes (length x)) x (be_bytes-IsByte (length x)) h.0)
      (frames-IsByte xs h.1)
