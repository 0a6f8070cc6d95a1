-- ===== src/Tests/Insert.antt =====
-- `table.insert` and `table.remove`, run on a small table of numbers.
use lua_engine.Base.{
  ℕ, zero, suc, ◌+◌, ◌≤◌, ◌<◌, ◌==◌, if◌then◌else◌, ◌≢◌, inr, ◌≡◌, refl, none, some, List, [], ◌∷◌,
  arith,
}
use lua_engine.Base.Int.{pos}
use lua_engine.Lua.Sort.{Table}
use lua_engine.Lua.Insert.{tinsert, tremove}
use lua_engine.Lua.Insert.RoundTrip.{IsLength, tremove-tinsert}
use lua_engine.Tests.Sort.{table_of}

abbrev three : Table ℕ
three = table_of (7 ∷ 8 ∷ 9 ∷ [])

abbrev first_five : Table ℕ → List ℕ
first_five t = t 1 ∷ t 2 ∷ t 3 ∷ t 4 ∷ t 5 ∷ []

-- The length of a table of at most `fuel` numbers, of which `i` are known.
count_from : ℕ → ℕ → Table ℕ → ℕ
count_from zero i t = i
count_from (suc fuel) i t =
    let rest = count_from fuel (i + 1) t in if t (i + 1) == 0 then i else rest

abbrev getn : Table ℕ → ℕ
getn = count_from 10 0

insert_second : first_five (tinsert getn three (some 2) 4) ≡ 7 ∷ 4 ∷ 8 ∷ 9 ∷ 0 ∷ []
unfolding tinsert count_from
insert_second = refl

remove_last : first_five (tremove getn 0 three none).1 ≡ 7 ∷ 8 ∷ 0 ∷ 0 ∷ 0 ∷ []
unfolding tremove count_from
remove_last = refl

three_full : (k : ℕ) → 1 ≤ k → k ≤ 3 → three k ≢ 0
three_full zero h h' = absurd (omega arith)
three_full (suc zero) h h' = omega arith
three_full (suc (suc zero)) h h' = omega arith
three_full (suc (suc (suc zero))) h h' = omega arith
three_full (suc (suc (suc (suc k)))) h h' = absurd (omega arith)

three_empty : (k : ℕ) → 3 < k → three k ≡ 0
three_empty zero h = refl
three_empty (suc zero) h = absurd (omega arith)
three_empty (suc (suc zero)) h = absurd (omega arith)
three_empty (suc (suc (suc zero))) h = absurd (omega arith)
three_empty (suc (suc (suc (suc k)))) h = refl

four_long : IsLength 0 (tinsert getn three (some 2) 4) (getn (tinsert getn three (some 2) 4))
unfolding tinsert count_from
four_long = record { value_here = inr (omega arith); nil_behind = refl }

tremove-tinsert_example :
    ((tremove getn 0 (tinsert getn three (some 2) 4) (some (pos 2))).0 ≡ some 4)
    × ((k : ℕ) → (tremove getn 0 (tinsert getn three (some 2) 4) (some (pos 2))).1 k ≡ three k)
unfolding count_from
tremove-tinsert_example =
    tremove-tinsert getn 0 4 three 2 (omega arith) (omega arith) (omega arith) three_full
      three_empty four_long
