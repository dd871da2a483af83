-- ===== src/Poutput/Severity.antt =====
-- `get_severity_freq` of owtf/managers/poutput.py: how many outputs have each rank.

use owtf.Base.{
  ℕ, zero, suc, ◌+◌, ◌-◌, String, Bool, true, false, not, ◌&&◌, none, some, List, [], ◌∷◌, reverse,
  ltb, if◌then◌else◌, length, mem_nat,
}
use owtf.Base.Int.{ℤ, pos, negsuc, eqb_ℤ}
use owtf.Db.Models.{PluginOutput}
use owtf.Exceptions.{Result, ok, err, index_error, ◌>>=◌}
pub mod Counts

-- A row of `severity_frequency`; the values of the six rows are the state of the loop.
pub record Severity : Type 0 where
  pub id : ℕ
  pub label : String
  pub value : ℕ

abbrev pub zero_frequency : List ℕ
zero_frequency = 0 ∷ 0 ∷ 0 ∷ 0 ∷ 0 ∷ 0 ∷ []

-- `severity_frequency[rank]["value"] += 1`: a negative index counts from the end.
unfoldable pub bump_at : ℕ → List ℕ → Result (List ℕ)
bump_at i [] = err index_error
bump_at zero (n ∷ ns) = ok ((n + 1) ∷ ns)
bump_at (suc i) (n ∷ ns) = do rest ← bump_at i ns; ok (n ∷ rest)

unfoldable pub bump : ℤ → List ℕ → Result (List ℕ)
unfolding bump_at
bump (pos n) ns = bump_at n ns
bump (negsuc n) ns = if ltb n (length ns) then bump_at (length ns - n - 1) ns else err index_error

-- The user's rank counts before the framework's; -1 is "not ranked".
abbrev pub rank_of : PluginOutput → ℤ
rank_of r = if eqb_ℤ r.user_rank (negsuc 0) then r.owtf_rank else r.user_rank

abbrev pub is_counted : List ℕ → PluginOutput → Bool
is_counted targets r =
    elim r.target_id [ none ↦ false | some t ↦ mem_nat t targets ]
    && not (eqb_ℤ (rank_of r) (negsuc 0))

unfoldable pub tally : List ℕ → List PluginOutput → List ℕ → Result (List ℕ)
unfolding bump
tally targets [] ns = ok ns
tally targets (r ∷ rs) ns = elim (is_counted targets r) [
  | true ↦ do next ← bump (rank_of r) ns; tally targets rs next
  | false ↦ tally targets rs ns
]

abbrev pub labels : List String
labels = "Passing" ∷ "Info" ∷ "Low" ∷ "Medium" ∷ "High" ∷ "Critical" ∷ []

unfoldable pub number_rows : ℕ → List String → List ℕ → List Severity
number_rows i (l ∷ ls) (n ∷ ns) =
    record { id = i; label = l; value = n } ∷ number_rows (i + 1) ls ns
number_rows i _ _ = []

-- `targets` are the ids of the session's targets, `rows` all outputs.
unfoldable pub get_severity_freq : List ℕ → List PluginOutput → Result (List Severity)
unfolding tally number_rows
get_severity_freq targets rows = do
  ns ← tally targets rows zero_frequency
  ok (reverse (number_rows 0 labels ns))
