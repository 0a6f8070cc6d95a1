-- ===== src/Lua/Chunk/Reader.antt =====
-- lua515/lundump.c: loaders, as a predicate: a loader that gives a value for a list of blocks, whatever follows them in the stream.
use lua_engine.Base.{
  ℕ, ◌^◌, ◌≤◌, ◌<◌, ◌≡◌, refl, ap, sym, ◌∙◌, subst, ltb, if◌then◌else◌, Bool, true, List, [], ◌∷◌,
  ◌++◌, length, take, drop, concat, append-nil, append_assoc, arith, take-append, drop-append,
  length-append, All, lt→ltb,
}
use lua_engine.Base.Bytes.{le_value, le_bytes, le_value-le_bytes}
use lua_engine.Lua.Zio.{Zio, read}
use lua_engine.Lua.Zio.Read.{remaining, read-Reads}
use lua_engine.Lua.Chunk.Undump.{
  ok, Load, pure, ◌>>=◌, load_block, load_char, load_int, load_number, guard, LoadError, load_n,
  fail, bad_integer,
}
use lua_engine.Lua.Chunk.Layout.{Blocks, concat-append, all_blocks}

pub record Gives {A : Type 0} (load : Load A) (bs : Blocks) (a : A) : Type 0 where
  pub run :
      (z : Zio) (rest : List ℕ)
      → remaining z ≡ concat bs ++ rest
      → (z' : Zio) × (load z ≡ ok a z') × (remaining z' ≡ rest)

module _ {A B : Type 0} where
  bind_lem :
      (m : Load A) (k : A → Load B) (z : Zio) {z' : Zio} {a : A}
      → m z ≡ ok a z'
      → (m >>= k) z ≡ k a z'
  bind_lem m k z e = rw (e, ◌>>=◌)

  pub Gives-bind :
      {m : Load A} (k : A → Load B) {xs ys : Blocks} {a : A} {b : B}
      → Gives m xs a
      → Gives (k a) ys b
      → Gives (m >>= k) (xs ++ ys) b
  Gives-bind {m} k {xs} {ys} {a} {b} g h = record {
    run = λ z rest e.
        let (z1, e1, r1) = g.run z (concat ys ++ rest) (
          e
          ∙ ap (λ s. s ++ rest) (concat-append xs ys)
          ∙ append_assoc (concat xs) (concat ys) rest) in
        let (z2, e2, r2) = h.run z1 rest r1 in (z2, bind_lem m k z e1 ∙ e2, r2);
  }

  pub Gives-last :
      {m : Load A} (k : A → Load B) {xs : Blocks} {a : A} {b : B}
      → Gives m xs a
      → Gives (k a) [] b
      → Gives (m >>= k) xs b
  Gives-last {m} k {xs} {b = b} g h =
      subst (λ bs. Gives (m >>= k) bs b) (append-nil xs) (Gives-bind k g h)

module _ {A : Type 0} where
  pub Gives-pure : (a : A) → Gives (pure a) [] a
  Gives-pure a = record { run = λ z rest e. (z, refl, e) }

  pub Gives-blocks :
      {load : Load A} {xs ys : Blocks} {a : A} → xs ≡ ys → Gives load ys a → Gives load xs a
  Gives-blocks {load} {a = a} e g = subst (λ bs. Gives load bs a) (sym e) g

pub Gives-guard : (b : Bool) (e : LoadError) → b ≡ true → Gives (guard b e) [] tt
Gives-guard b e h = rw h (Gives-pure tt)

load_block_lem :
    (n : ℕ) (z : Zio)
    → (read n z).missing ≡ 0
    → load_block n z ≡ ok (read n z).bytes (read n z).stream
unfolding load_block
load_block_lem n z e = rw e

pub Gives-block : (n : ℕ) (s : List ℕ) → length s ≡ n → Gives (load_block n) (s ∷ []) s
Gives-block n s h = record {
  run = λ z rest e.
      let e' : remaining z ≡ s ++ rest = e ∙ ap (λ t. t ++ rest) (append-nil s) in
      let r = read-Reads n z in
      let room : n ≤ length (remaining z) = omega (arith, ap length e', length-append s rest) in
      (
        (read n z).stream,
        load_block_lem n z (omega (arith, r.short))
            ∙ ap (λ t. ok t (read n z).stream) (r.copied ∙ ap (take n) e' ∙ take-append n s rest h),
        r.left room ∙ ap (drop n) e' ∙ drop-append n s rest h,
      );
}

pub Gives-char : (c : ℕ) → c < 256 → Gives load_char (le_bytes 1 c ∷ []) c
unfolding load_char
Gives-char c h = Gives-last _ (Gives-block 1 (le_bytes 1 c) refl) (
    subst (λ v. Gives (pure (le_value (le_bytes 1 c))) [] v) (le_value-le_bytes 1 c (omega arith))
      (Gives-pure (le_value (le_bytes 1 c))))

pub Gives-number : (n : ℕ) → n < 2 ^ 64 → Gives load_number (le_bytes 8 n ∷ []) n
unfolding load_number
Gives-number n h = Gives-last _ (Gives-block 8 (le_bytes 8 n) refl) (
    subst (λ v. Gives (pure (le_value (le_bytes 8 n))) [] v) (le_value-le_bytes 8 n (omega arith))
      (Gives-pure (le_value (le_bytes 8 n))))

pub Gives-int : (n : ℕ) → n < 2 ^ 31 → Gives load_int (le_bytes 4 n ∷ []) n
unfolding load_int
Gives-int n h = Gives-last _ (Gives-block 4 (le_bytes 4 n) refl) (
    subst (λ v. Gives (if ltb v (2 ^ 31) then pure v else fail bad_integer) [] n)
      (sym (le_value-le_bytes 4 n (omega arith))) (rw (lt→ltb n (2 ^ 31) h) (Gives-pure n)))

-- A `for` that loads the elements of a list, each from its blocks.
module _ {A : Type 0} (load : Load A) (blocks : A → Blocks) {P : A → Type 0}
    (one : (x : A) → P x → Gives load (blocks x) x) where
  pub Gives-load_n :
      (xs : List A) → All P xs → Gives (load_n load (length xs)) (all_blocks blocks xs) xs
  unfolding load_n
  Gives-load_n [] h = Gives-pure []
  Gives-load_n (x ∷ xs) h =
      Gives-bind _ (one x h.0) (Gives-last _ (Gives-load_n xs h.1) (Gives-pure (x ∷ xs)))
