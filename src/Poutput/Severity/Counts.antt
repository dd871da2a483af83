-- ===== src/Poutput/Severity/Counts.antt =====
-- `get_severity_freq` of owtf/managers/poutput.py against a plain count of the outputs.

use owtf.Base.{
  ℕ, zero, suc, ◌+◌, ◌≤◌, ◌<◌, ◌≡◌, refl, ap, ◌∙◌, inl, inr, true, false, ◌&&◌, List, [], ◌∷◌,
  arith, ◌==◌, if◌then◌else◌, Bool-cases, length, keep, All,
}
use owtf.Base.Int.{ℤ, pos, eqb_ℤ}
use owtf.Db.Models.{PluginOutput}
use owtf.Exceptions.{ok}
use owtf.Poutput.Severity.{
  rank_of, is_counted, bump, bump_at, tally, get_severity_freq, zero_frequency,
}

-- How many outputs of the targets have the rank `k`.
abbrev pub count : List ℕ → ℕ → List PluginOutput → ℕ
count targets k rs = length (keep (λ r. is_counted targets r && eqb_ℤ (rank_of r) (pos k)) rs)

-- A rank that has a row.
abbrev pub HasRow : ℤ → Type 0
HasRow rank = (k : ℕ) × (rank ≡ pos k) × (k < 6)

abbrev pub IsRanked : List ℕ → PluginOutput → Type 0
IsRanked targets r = is_counted targets r ≡ true → HasRow (rank_of r)

-- The values of the rows from `i` on, with the counts `c` added.
abbrev add_from : ℕ → List ℕ → (ℕ → ℕ) → List ℕ
add_from i [] c = []
add_from i (n ∷ ns) c = (n + c i) ∷ add_from (i + 1) ns c

abbrev increase : ℕ → List ℕ → List ℕ
increase k [] = []
increase zero (n ∷ ns) = (n + 1) ∷ ns
increase (suc k) (n ∷ ns) = n ∷ increase k ns

bump_at-increase : (k : ℕ) (ns : List ℕ) → k < length ns → bump_at k ns ≡ ok (increase k ns)
unfolding bump_at
bump_at-increase k [] h = absurd (ground arith)
bump_at-increase zero (n ∷ ns) h = refl
bump_at-increase (suc k) (n ∷ ns) h = rw (bump_at-increase k ns (ground arith)) refl

add_from-zero : (i : ℕ) (ns : List ℕ) → ns ≡ add_from i ns (λ _. 0)
add_from-zero i [] = refl
add_from-zero i (n ∷ ns) = ground (arith, add_from-zero (i + 1) ns)

add_from-same :
    (i : ℕ) (ns : List ℕ) (c c' : ℕ → ℕ)
    → ((j : ℕ) → i ≤ j → c' j ≡ c j)
    → add_from i ns c ≡ add_from i ns c'
add_from-same i [] c c' h = refl
add_from-same i (n ∷ ns) c c' h =
    ground (arith, h i (ground arith), add_from-same (i + 1) ns c c' (λ j le. h j (ground arith)))

-- To raise a row is to raise its count.
add_from-increase :
    (i k m : ℕ) (ns : List ℕ) (c c' : ℕ → ℕ)
    → i + k ≡ m
    → ((j : ℕ) → c' j ≡ (if m == j then c j + 1 else c j))
    → add_from i (increase k ns) c ≡ add_from i ns c'
add_from-increase i k m [] c c' e h = refl
add_from-increase i zero m (n ∷ ns) c c' e h =
    ground (arith, h i, add_from-same (i + 1) ns c c' (λ j le. ground (arith, h j)))
add_from-increase i (suc k) m (n ∷ ns) c c' e h =
    ground (arith, h i, add_from-increase (i + 1) k m ns c c' (ground arith) h)

count-counted :
    (targets : List ℕ) (j k : ℕ) (r : PluginOutput) (rs : List PluginOutput)
    → is_counted targets r ≡ true
    → rank_of r ≡ pos k
    → count targets j (r ∷ rs) ≡ (if k == j then count targets j rs + 1 else count targets j rs)
count-counted targets j k r rs counted rank = rw (counted, rank) (ground arith)

count-skipped :
    (targets : List ℕ) (j : ℕ) (r : PluginOutput) (rs : List PluginOutput)
    → is_counted targets r ≡ false
    → count targets j (r ∷ rs) ≡ count targets j rs
count-skipped targets j r rs skipped = rw skipped refl

length-increase : (k : ℕ) (ns : List ℕ) → length (increase k ns) ≡ length ns
length-increase k [] = refl
length-increase zero (n ∷ ns) = refl
length-increase (suc k) (n ∷ ns) = ground (arith, length-increase k ns)

tally-counted :
    (targets : List ℕ) (k : ℕ) (r : PluginOutput) (rs : List PluginOutput) (ns : List ℕ)
    → is_counted targets r ≡ true
    → rank_of r ≡ pos k
    → k < length ns
    → tally targets (r ∷ rs) ns ≡ tally targets rs (increase k ns)
unfolding tally bump
tally-counted targets k r rs ns counted rank small =
    rw (tally, counted, rank, bump, bump_at-increase k ns small) refl

tally-count :
    (targets : List ℕ) (rs : List PluginOutput) (ns : List ℕ)
    → length ns ≡ 6
    → All (IsRanked targets) rs
    → tally targets rs ns ≡ ok (add_from 0 ns (λ j. count targets j rs))
unfolding tally
tally-count targets [] ns six h = ap ok (add_from-zero 0 ns)
tally-count targets (r ∷ rs) ns six h = elim (Bool-cases (is_counted targets r)) [
  | inl counted ↦
      let (k, rank, small) = h.0 counted in
      let rest = tally-count targets rs (increase k ns) (length-increase k ns ∙ six) h.1 in
      let raised =
        add_from-increase 0 k k ns (λ j. count targets j rs) (λ j. count targets j (r ∷ rs))
          (ground arith) (λ j. count-counted targets j k r rs counted rank) in
      tally-counted targets k r rs ns counted rank (ground arith) ∙ (rest ∙ ap ok raised)
  | inr skipped ↦
      let same =
        add_from-same 0 ns (λ j. count targets j rs) (λ j. count targets j (r ∷ rs))
          (λ j le. count-skipped targets j r rs skipped) in
      rw (tally, skipped) (tally-count targets rs ns six h.1) ∙ ap ok same
]

-- If the rank of each output that counts, its target being one of the given ones, has a row, the
-- analytics are the six rows from the gravest down, each with the number of outputs of its rank.
pub get_severity_freq-count :
    (targets : List ℕ) (rows : List PluginOutput)
    → All (IsRanked targets) rows
    → get_severity_freq targets rows
      ≡ ok (
          record { id = 5; label = "Critical"; value = count targets 5 rows }
          ∷ record { id = 4; label = "High"; value = count targets 4 rows }
          ∷ record { id = 3; label = "Medium"; value = count targets 3 rows }
          ∷ record { id = 2; label = "Low"; value = count targets 2 rows }
          ∷ record { id = 1; label = "Info"; value = count targets 1 rows }
          ∷ record { id = 0; label = "Passing"; value = count targets 0 rows }
          ∷ [])
unfolding get_severity_freq
get_severity_freq-count targets rows h =
    rw (tally-count targets rows zero_frequency refl h) (ground arith)
