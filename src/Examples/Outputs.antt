-- ===== src/Examples/Outputs.antt =====
-- Examples of owtf.Poutput.

use owtf.Base.{◌≡◌, refl, some, [], ◌∷◌, keep, List, arith}
use owtf.Db.Memory.{memory, memory_files}
use owtf.Exceptions.{ok}
use owtf.Poutput.{Outputs, delete_all_poutput}
use owtf.Poutput.Criteria.{no_filter}
use owtf.Poutput.Removal.{
  other_target, IsRemoved, only_key, delete_all_poutput-other_target, delete_all_poutput-only_key,
}
use owtf.Poutput.Severity.{get_severity_freq}
use owtf.Poutput.Severity.Counts.{count, get_severity_freq-count}
use owtf.Base.Int.{pos, negsuc}
use owtf.Db.Models.{PluginOutput}
use owtf.Examples.Data.{output_row, two_outputs, no_int, same_path}

abbrev produced : Outputs memory memory_files
produced = record { rows = two_outputs; folders = "out" ∷ [] }

other_target_example :
    keep (other_target (some 7)) (
      memory.rows
        (delete_all_poutput memory memory_files same_path no_int no_filter
          (some 7)
          produced).1.rows)
    ≡ keep (other_target (some 7)) (memory.rows produced.rows)
other_target_example =
    delete_all_poutput-other_target memory memory_files same_path no_int no_filter (some 7) produced

only_key_example :
    ((delete_all_poutput memory memory_files same_path no_int
        (only_key memory memory_files same_path no_int "active")
        (some 7)
        produced).0
      ≡ ok tt)
    × IsRemoved memory memory_files same_path no_int "active" 7 produced
        (delete_all_poutput memory memory_files same_path no_int
          (only_key memory memory_files same_path no_int "active")
          (some 7)
          produced).1
only_key_example =
    delete_all_poutput-only_key memory memory_files same_path no_int "active" 7 produced refl

-- One output that the user ranked, one that has no rank, and one of another target.
abbrev ranked_outputs : List PluginOutput
ranked_outputs =
    record (output_row 1 (some 7) "active") { user_rank = pos 3; owtf_rank = pos 1 }
    ∷ record (output_row 2 (some 7) "passive") { user_rank = negsuc 0; owtf_rank = negsuc 0 }
    ∷ record (output_row 3 (some 8) "grep") { user_rank = pos 9; owtf_rank = negsuc 0 }
    ∷ []

get_severity_freq_example :
    get_severity_freq (7 ∷ []) ranked_outputs
    ≡ ok (
        record { id = 5; label = "Critical"; value = count (7 ∷ []) 5 ranked_outputs }
        ∷ record { id = 4; label = "High"; value = count (7 ∷ []) 4 ranked_outputs }
        ∷ record { id = 3; label = "Medium"; value = count (7 ∷ []) 3 ranked_outputs }
        ∷ record { id = 2; label = "Low"; value = count (7 ∷ []) 2 ranked_outputs }
        ∷ record { id = 1; label = "Info"; value = count (7 ∷ []) 1 ranked_outputs }
        ∷ record { id = 0; label = "Passing"; value = count (7 ∷ []) 0 ranked_outputs }
        ∷ [])
get_severity_freq_example =
    get_severity_freq-count (7 ∷ []) ranked_outputs
      ((λ c. (3, refl, ground arith)), ((λ c. absurd (cc)), ((λ c. absurd (cc)), tt)))
