-- ===== src/Runner/Run.antt =====
-- `process_plugin` of owtf/plugin/runner.py: one run of a plugin, from the check
-- that it may run to its saved output.

use owtf.Base.{
  ℕ, ◌+◌, String, ◌≡◌, refl, Bool, true, false, not, ◌&&◌, ◌||◌, Option, none, some, List, [], ◌∷◌,
  ◌++◌, str_eq, ◌==◌, if◌then◌else◌,
}
use owtf.Base.Int.{ℤ}
use owtf.Db.Table.{Table}
use owtf.Db.Files.{Files}
use owtf.Db.Models.{Plugin, PluginOutput}
use owtf.Exceptions.{Result, ok, err}
use owtf.Poutput.{Outputs, Run, saved_row, save_plugin_output, save_partial_output}
use owtf.Runner.Choice.{Runner, can_plugin_run}

-- How `run_plugin` ends; the aborts carry the partial output of their exception.
pub data Ending (Out : Type 0) : Type 0 where
  success : Out → Ending Out
  keyboard_interrupt : Ending Out
  system_exit : Ending Out
  plugin_abort : Out → Ending Out
  unreachable_target : Out → Ending Out
  framework_abort : Out → Ending Out
  -- any other exception
  crash : Ending Out

-- The keys of the dictionary `status`.
pub record Status : Type 0 where
  pub all_skipped : Bool
  pub some_successful : Bool
  pub some_aborted : Bool
  pub some_aborted_by_keyboard : Bool

pub data Raised : Type 0 where
  exit_raised : Raised
  crash_raised : Raised
  -- an exception of the ranking
  ranking_raised : Raised
  -- `output += str(e)` with no output, or an output that json cannot write
  type_error : Raised

-- `output` as the caller gets it, or the exception that leaves the method.
pub data Outcome (Out : Type 0) : Type 0 where
  returned : Option Out → Outcome Out
  raised : Raised → Outcome Out

-- What the run takes from outside.
pub record Surroundings (Out : Type 0) : Type 0 where
  pub start : ℕ
  pub end : ℕ
  pub output_path : String
  pub output_dir_exists : Bool
  pub num_transactions : ℕ
  pub target_id : ℕ
  -- `rank_plugin(output, ...)`, which may raise
  pub rank : Option Out → Result ℤ
  -- json.dumps, `none` for a TypeError
  pub dumps : Out → Option String
  -- `[]`
  pub nothing : Out
  -- `output += str(e)`
  pub extended : Out → Out

module _ {Out : Type 0} where
  abbrev pub status_msg : Ending Out → String
  status_msg (success o) = "Successful"
  status_msg keyboard_interrupt = "Aborted"
  status_msg system_exit = ""
  status_msg (plugin_abort o) = "Aborted (by user)"
  status_msg (unreachable_target o) = "Unreachable Target"
  status_msg (framework_abort o) = "Aborted (Framework Exit)"
  status_msg crash = ""

  abbrev pub abort_reason : Ending Out → String
  abort_reason keyboard_interrupt = "Aborted by User"
  abort_reason (plugin_abort o) = "Aborted by User"
  abort_reason (unreachable_target o) = "Unreachable Target"
  abort_reason (framework_abort o) = "Framework Aborted"
  abort_reason _ = ""

  abbrev pub output_of : Ending Out → Option Out
  output_of (success o) = some o
  output_of _ = none

  abbrev pub partial_output : Surroundings Out → Ending Out → Out
  partial_output env (plugin_abort o) = o
  partial_output env (unreachable_target o) = o
  partial_output env (framework_abort o) = o
  partial_output env _ = env.nothing

  abbrev pub mark : Ending Out → Status → Status
  mark (success o) st = record st { some_successful = true }
  mark keyboard_interrupt st = record st { some_aborted_by_keyboard = true }
  mark (plugin_abort o) st = record st { some_aborted = true }
  mark (unreachable_target o) st = record st { some_aborted = true }
  mark _ st = st

  -- What leaves the method once the output is saved: the exception of the run, or that of
  -- `abort_framework`; `user_abort` with the level "Plugin" only logs.
  unfoldable pub leave : Ending Out → Option Out → Outcome Out
  leave system_exit output = raised exit_raised
  leave crash output = raised crash_raised
  leave (framework_abort o) output = raised exit_raised
  leave _ output = returned output

  -- The handler of SQLAlchemyError in the `finally` block.
  unfoldable pub after_save : Surroundings Out → Ending Out → Result (Unit {0}) → Outcome Out
  unfolding leave
  after_save env ending (ok _) = leave ending (output_of ending)
  after_save env ending (err e) = elim (output_of ending) [
    | none ↦ raised type_error
    | some o ↦ leave ending (some (env.extended o))
  ]

  -- What is written: the output, or the partial output.
  abbrev pub written : Surroundings Out → Ending Out → Out
  written env ending = elim (output_of ending) [ none ↦ partial_output env ending | some o ↦ o ]

  abbrev pub run_of : Surroundings Out → Ending Out → ℤ → Run
  run_of env ending rank = record {
    start = env.start;
    end = env.end;
    status = status_msg ending;
    output_path = env.output_path;
    owtf_rank = rank;
  }

-- What `process_plugin` leaves behind.
pub record Processed (Out : Type 0) (table : Table PluginOutput) (files : Files) : Type 0 where
  pub outcome : Outcome Out
  pub runner : Runner
  pub status : Status
  pub outputs : Outputs table files

module _ {Out : Type 0} (table : Table PluginOutput) (files : Files) where
  -- The branch on `status_msg == "Successful"`, for the rank and what json.dumps gives.
  unfoldable pub save_ending :
      Surroundings Out
      → Plugin
      → Ending Out
      → ℤ
      → String
      → Outputs table files
      → Result (Unit {0}) × Outputs table files
  save_ending env p (success o) rank text s =
      save_plugin_output table files env.output_dir_exists p (run_of env (success o) rank) text
        env.target_id s
  save_ending env p ending rank text s =
      save_partial_output table files env.output_dir_exists p (run_of env ending rank) text
        (abort_reason ending) env.target_id s

  -- The `finally` block: an exception of the ranking, or of json.dumps, leaves the method with nothing
  -- saved.
  unfoldable pub finish :
      Surroundings Out
      → Plugin
      → Ending Out
      → Outputs table files
      → Outcome Out × Outputs table files
  unfolding save_ending after_save
  finish env p ending s = elim (env.rank (output_of ending)) [
    | err e ↦ (raised ranking_raised, s)
    | ok rank ↦ elim (env.dumps (written env ending)) [
      | none ↦ (raised type_error, s)
      | some text ↦
          let (result, s') = save_ending env p ending rank text s in
          (after_save env ending result, s')
    ]
  ]

  unfoldable pub process_plugin :
      Surroundings Out
      → List String
      → Plugin
      → Ending Out
      → Runner
      → Status
      → Outputs table files
      → Processed Out table files
  unfolding finish
  process_plugin env types p ending r st s =
      if not (can_plugin_run table files r types p s)
      then record { outcome = returned none; runner = r; status = st; outputs = s }
      else (let r' = record r { plugin_count = r.plugin_count + 1 } in
          let st' = record st { all_skipped = false } in
          if r.simulation || (str_eq "grep" p.type && env.num_transactions == 0)
          then record { outcome = returned none; runner = r'; status = st'; outputs = s }
          else (let (outcome, s') = finish env p ending s in
              record { outcome = outcome; runner = r'; status = mark ending st'; outputs = s' }))

  -- The row that a run leaves.
  abbrev pub ending_row : Surroundings Out → Plugin → Ending Out → ℤ → String → ℕ → PluginOutput
  ending_row env p ending rank text =
      saved_row table files env.output_dir_exists p (run_of env ending rank) text
        (elim (output_of ending) [ none ↦ some (abort_reason ending) | some _ ↦ none ])
        env.target_id

  -- What the `finally` block leaves in the table and to the caller.
  abbrev pub IsSaved :
      Surroundings Out
      → Plugin
      → Ending Out
      → Outputs table files
      → Processed Out table files
      → Type 0
  IsSaved env p ending s after = elim (env.rank (output_of ending)) [
    | err e ↦ (after.outcome ≡ raised ranking_raised) × (after.outputs ≡ s)
    | ok rank ↦ elim (env.dumps (written env ending)) [
      | none ↦ (after.outcome ≡ raised type_error) × (after.outputs ≡ s)
      | some text ↦
          (after.outcome ≡ leave ending (output_of ending))
          × (table.rows after.outputs.rows
              ≡ table.rows s.rows ++ ending_row env p ending rank text (table.next_id s.rows) ∷ [])
    ]
  ]

  -- What a run leaves behind in the table, to its caller and in its counters.
  pub record IsRecorded (env : Surroundings Out) (p : Plugin) (ending : Ending Out) (r : Runner)
      (st : Status) (s : Outputs table files) (after : Processed Out table files) : Type 0 where
    pub saved : IsSaved env p ending s after
    pub counted : after.runner.plugin_count ≡ r.plugin_count + 1
    pub not_skipped : after.status.all_skipped ≡ false

  not_skipped :
      (ending : Ending Out) (st : Status)
      → (mark ending (record st { all_skipped = false })).all_skipped ≡ false
  not_skipped (success o) st = refl
  not_skipped _ st = refl
