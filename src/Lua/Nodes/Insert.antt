-- ===== src/Lua/Nodes/Insert.antt =====
-- lua515/ltable.c: what `newkey` and `luaH_set` do to the entries of a node vector.
use lua_engine.Base.{
  ℕ, suc, ◌≤◌, ◌<◌, ◌≡◌, ◌≢◌, ◌⊎◌, refl, sym, subst, Bool, true, false, Option, none, some, ◌==◌,
  if◌then◌else◌, arith, eqb→eq, eqb→ne, Option-cases, inl, inr, Bool-cases, ◌||◌, leb,
}
use lua_engine.Lua.Nodes.{
  Vector, Placement, placed, full, is_some, put, previous, free_loop, displace, collide_with,
  collide, newkey,
}
use lua_engine.Lua.Nodes.Links.{used, used-le, IsChained, KeyLaws, Absent, Kept}
use lua_engine.Lua.Nodes.Walks.{previous-at, Frees, all_used, freed, free_loop-Frees}
use lua_engine.Lua.Nodes.Over.{over-IsChained, over-Kept, over-used}
use lua_engine.Lua.Nodes.Behind.{behind-IsChained, behind-Kept, behind-slot, behind-used}
use lua_engine.Lua.Nodes.Moved.{moved-IsChained, moved-Kept, moved-slot, moved-used}
use lua_engine.Lua.Nodes.Entries.{IsTable, empty_table, chained}

module _ {K V : Type 0} (equal : K → K → Bool) (home : K → ℕ) where
  -- There is no room for a new key.
  abbrev pub IsFull : Vector K V → Type 0
  IsFull h = (h.is_dummy ≡ true) ⊎ ((i : ℕ) → i < h.size → (h.node i).key ≢ none)

  -- What `newkey` may give for a new key.
  pub data Placing (h : Vector K V) (k : K) : Placement K V → Type 0 where
    put_in :
        {h' : Vector K V} {i : ℕ}
        → IsTable equal home h'
        → h'.size ≡ h.size
        → h'.is_dummy ≡ h.is_dummy
        → (h'.node i).key ≡ some k
        → (h'.node i).value ≡ none
        → used h'.node h'.size ≤ suc (used h.node h'.size)
        → Kept h.node h'.node × Kept h'.node h.node
        → Placing h k (placed h' i)
    no_room : IsFull h → Placing h k full

  Placing-if :
      (h : Vector K V) (k : K) (b : Bool) (x y : Placement K V)
      → (b ≡ true → Placing h k x)
      → (b ≡ false → Placing h k y)
      → Placing h k (if b then x else y)
  Placing-if h k true x y f g = f refl
  Placing-if h k false x y f g = g refl

  dummy-Placing :
      (h : Vector K V) (k : K)
      → h.is_dummy ≡ true
      → h.lastfree ≡ 0
      → Placing h k (newkey equal home h k)
  unfolding newkey collide free_loop put
  dummy-Placing h k d l =
      Placing-if h k (is_some (h.node (home k)).value || h.is_dummy) _ _
        (λ q.
          subst (λ m. Placing h k (collide equal home h k (free_loop h.node m))) (sym l)
            (no_room (inl d)))
        (λ q. absurd (grind arith))

  module _ (h : Vector K V) (k : K) (rank : ℕ → ℕ) (own_nodes : h.is_dummy ≡ false)
      (c : IsChained equal home h.node h.size h.lastfree rank) (laws : KeyLaws equal home h.size)
      (new : Absent equal h.node k) (self : equal k k ≡ true) where
    module _ (n : ℕ) (free : (h.node n).key ≡ none) (inside : n < h.size)
        (filled : (i : ℕ) → n < i → i < h.size → (h.node i).key ≢ none) (c0 : K)
        (found : (h.node (home k)).key ≡ some c0) where
      displace-Placing :
          home c0 ≢ home k
          → Placing h k
              (displace equal home h k n n (previous (suc h.size) h.node (home k) (home c0)))
      unfolding displace
      displace-Placing foreign =
          let on_chain = c.reached (home k) c0 found in
          let short = c.bounded (home c0) in
          let (prev, walk, tied) =
            previous-at equal home h.node h.size h.lastfree rank c (suc h.size) (home c0) (home k)
              on_chain foreign (omega (arith, used-le h.node h.size)) in
          let chains =
            moved-IsChained equal home h.node h.size h.lastfree rank k c laws new self n free inside
              filled c0 found foreign prev tied in
          let (e, w) =
            moved-slot equal home h.node h.size h.lastfree rank k c laws new self n free inside
              filled c0 found foreign prev tied in
          rw walk (
            put_in (chained own_nodes _ chains) refl refl e w
              (omega (
                arith,
                moved-used equal home h.node h.size h.lastfree rank k c laws new self n free inside
                    filled c0 found foreign prev tied,
              ))
              (moved-Kept equal home h.node h.size h.lastfree rank k c laws new self n free inside
                filled c0 found foreign prev tied))

      collide_with-Placing : Placing h k (collide_with equal home h k n n (h.node (home k)).key)
      unfolding collide_with
      collide_with-Placing = rw found (
          Placing-if h k (home c0 == home k) _ _
            (λ q.
              let own = eqb→eq (home c0) (home k) q in
              let chains =
                behind-IsChained equal home h.node h.size h.lastfree rank k c laws new self n free
                  inside filled c0 found own in
              let (e, w) =
                behind-slot equal home h.node h.size h.lastfree rank k c laws new self n free inside
                  filled c0 found own in
              put_in (chained own_nodes _ chains) refl refl e w
                (omega (
                  arith,
                  behind-used equal home h.node h.size h.lastfree rank k c laws new self n free
                      inside filled c0 found own,
                ))
                (behind-Kept equal home h.node h.size h.lastfree rank k c laws new self n free
                  inside filled c0 found own))
            (λ q. displace-Placing (eqb→ne (home c0) (home k) q)))

    -- A node in `newkey`'s way has a key.
    collide-Placing :
        (f : Option ℕ × ℕ)
        → Frees h.node h.lastfree f
        → (h.node (home k)).value ≢ none
        → Placing h k (collide equal home h k f)
    unfolding collide
    collide-Placing (none, m) (all_used u) taken = no_room (
        inr (λ i lt. elim (Bool-cases (leb h.lastfree i)) [
          | inl q ↦ c.above i (grind arith) lt
          | inr q ↦ u i (grind arith)
        ]))
    collide-Placing (some n, m) (freed lt free u) taken =
        elim (Option-cases (h.node (home k)).key) [
          | inl e ↦ absurd (taken (c.free_value (home k) e))
          | inr (c0, found) ↦
              collide_with-Placing n free (omega (arith, c.last_inside))
                (λ i lt' lt''. elim (Bool-cases (leb h.lastfree i)) [
                  | inl q ↦ c.above i (grind arith) lt''
                  | inr q ↦ u i lt' (grind arith)
                ])
                c0 found
        ]

    chained-Placing : Placing h k (newkey equal home h k)
    unfolding newkey put
    chained-Placing =
        Placing-if h k (is_some (h.node (home k)).value || h.is_dummy) _ _
          (λ q.
            collide-Placing (free_loop h.node h.lastfree) (free_loop-Frees h.node h.lastfree)
              (λ w. grind arith))
          (λ q.
            let unset : (h.node (home k)).value ≡ none =
              elim (Option-cases (h.node (home k)).value) [
                | inl e ↦ e
                | inr (v, e) ↦ absurd (grind arith)
              ] in
            put_in
              (chained own_nodes rank
                (over-IsChained equal home h.node h.size h.lastfree rank k c laws new self unset))
              refl refl (grind arith) (grind arith)
              (over-used equal home h.node h.size h.lastfree rank k c laws new self unset)
              (over-Kept equal home h.node h.size h.lastfree rank k c laws new self unset))

  -- `newkey` finds a place for a new key and keeps the entries, unless there is no room.
  pub newkey-Placing :
      (h : Vector K V) (k : K)
      → IsTable equal home h
      → KeyLaws equal home h.size
      → Absent equal h.node k
      → equal k k ≡ true
      → Placing h k (newkey equal home h k)
  newkey-Placing h k (chained own_nodes rank c) laws new self =
      chained-Placing h k rank own_nodes c laws new self
  newkey-Placing h k (empty_table d l e) laws new self = dummy-Placing h k d l
