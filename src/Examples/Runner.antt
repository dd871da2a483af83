-- ===== src/Examples/Runner.antt =====
-- Examples of owtf.Runner.

use owtf.Base.{
  ℕ, zero, suc, ◌<◌, String, ◌≡◌, refl, true, false, not, ◌&&◌, Option, none, some, List, [], ◌∷◌,
  arith, mem_str, ◌≢◌, ◌⊎◌, All, any,
}
use owtf.Base.Int.{ℤ, pos, negsuc, ◌≤ℤ◌, eqb_ℤ}
use owtf.Db.Memory.{memory, memory_files}
use owtf.Db.Models.{Plugin}
use owtf.Exceptions.{ok}
use owtf.Poutput.{Outputs}
use owtf.Runner.Choice.{
  Options, Runner, new_runner, validate_format_plugin_list, on_start, chosen_plugin, can_plugin_run,
  chosen_plugin-on_start, can_plugin_run-eq-chosen_plugin,
}
use owtf.Runner.Registry.{Dictionary, Misses}
use owtf.Runner.Rank.{
  Item, Module, extract_metasploit_modules, split_spaces, base_name, has_slash, rank_plugin,
  reported, rank_plugin-reported,
}
use owtf.Runner.Run.{Surroundings, Status}
use owtf.Examples.Data.{plugin_of_type, two_outputs}

abbrev probe : Plugin
probe = plugin_of_type "active"

abbrev probes : Option String → List Plugin
probes g = probe ∷ []

abbrev asked : Options
asked = record {
  force_overwrite = false;
  plugin_group = some "web";
  only_plugins = some ("Probe" ∷ []);
  except_plugins = none;
  simulation = false;
}

abbrev started_runner : Runner
started_runner = record new_runner {
  plugin_group = some "web";
  only_plugins = some ("Probe" ∷ []);
  except_plugins_list = some ("OWTF-X" ∷ []);
}

valid_codes :
    validate_format_plugin_list (probes (some "web")) (some ("Probe" ∷ [])) ≡ ok ("OWTF-X" ∷ [])
unfolding validate_format_plugin_list
valid_codes = refl

starts : on_start probes asked new_runner ≡ ok started_runner
unfolding on_start validate_format_plugin_list
starts = refl

chosen_plugin_example :
    chosen_plugin started_runner ("active" ∷ []) probe
    ≡ (not (mem_str "OWTF-X" ("OWTF-X" ∷ [])) && mem_str "active" ("active" ∷ []))
chosen_plugin_example =
    chosen_plugin-on_start probes asked started_runner ("OWTF-X" ∷ []) ("active" ∷ []) probe refl
      valid_codes starts

abbrev stored : Outputs memory memory_files
stored = record { rows = two_outputs; folders = [] }

can_plugin_run_example :
    can_plugin_run memory memory_files new_runner ("active" ∷ []) probe stored
    ≡ chosen_plugin new_runner ("active" ∷ []) probe
can_plugin_run_example =
    can_plugin_run-eq-chosen_plugin memory memory_files new_runner ("active" ∷ []) probe stored
      (refl, (refl, tt))

abbrev entry : Dictionary
entry = ("code", "OWTF-X") ∷ []

misses : (j : ℕ) → j < 2 → Misses (("code", "OWTF-Y") ∷ []) (entry ∷ entry ∷ []) j
misses zero lt e there = ground arith
misses (suc zero) lt e there = ground arith
misses (suc (suc j)) lt e there = absurd (omega arith)

abbrev surroundings : Surroundings String
surroundings = record {
  start = 5;
  end = 9;
  output_path = "out";
  output_dir_exists = true;
  num_transactions = 0;
  target_id = 9;
  rank = λ o. ok (pos 2);
  dumps = λ o. some o;
  nothing = "[]";
  extended = λ o. o;
}

abbrev fresh_status : Status
fresh_status = record {
  all_skipped = true;
  some_successful = false;
  some_aborted = false;
  some_aborted_by_keyboard = false;
}

-- The parser fails at the second module; the third, which is not reached, would rank higher.
abbrev highest_ranking : List Module → Option ℤ
highest_ranking [] = none
highest_ranking (m ∷ []) = some (pos 3)
highest_ranking (m ∷ n ∷ []) = none
highest_ranking (m ∷ n ∷ o ∷ ms) = some (pos 5)

abbrev msf_item : String → Item
msf_item command = record {
  has_output = true;
  modified_command = command;
  relative_file_path = "out/report.txt";
}

abbrev msf_output : List Item
msf_output =
    msf_item "run metasploit with scanner/a"
    ∷ msf_item "nikto -h a"
    ∷ msf_item "run metasploit with scanner/b"
    ∷ []

abbrev msf_modules : List Module
msf_modules = ("scanner/a", "report.txt") ∷ ("scanner/b", "report.txt") ∷ []

extracted : extract_metasploit_modules msf_output ≡ ok msf_modules
unfolding extract_metasploit_modules split_spaces base_name has_slash
extracted = refl

rank_plugin_example :
    (rank : ℤ) × (rank_plugin highest_ranking msf_output ≡ ok rank)
    × (rank ≢ pos 0)
    × All (λ r. (r ≡ pos 0) ⊎ (r ≤ℤ rank)) (reported highest_ranking msf_modules)
    × ((rank ≡ negsuc 0) ⊎ (any (eqb_ℤ rank) (reported highest_ranking msf_modules) ≡ true))
rank_plugin_example = rank_plugin-reported highest_ranking msf_output msf_modules extracted
