-- ===== src/Worker/Pool.antt =====
-- The state of `WorkerManager` (owtf/managers/worker.py), and how workers come into the pool.
pub mod Filling
use owtf.Base.{
  ℕ, zero, suc, ◌+◌, ◌*◌, String, Bool, false, Option, none, some, List, [], ◌∷◌, ◌++◌, ltb, ◌==◌,
  if◌then◌else◌, length, set, any,
}
use owtf.Db.Table.{Table}
use owtf.Db.Models.{Work, Plugin, Target}
use owtf.Exceptions.{Result, ok, err, framework_abort, invalid_worker_reference}
use owtf.Process.{Sent}

-- A started `LocalWorker`.
pub record Process : Type 0 where
  pub pid : ℕ
  pub name : String

abbrev pub Job : Type 0
Job = Target × Plugin

-- `worker_dict`; the empty tuple as work is `none`, a missing "start_time" too.
pub record Slot : Type 0 where
  pub worker : Process
  pub work : Option Job
  pub busy : Bool
  pub paused : Bool
  pub start_time : Option String

-- What the manager does to the outside: processes, their queues, signals.
pub data Event : Type 0 where
  started : Process → Event
  put_input : ℕ → Job → Event
  took_output : ℕ → Event
  put_poison : ℕ → Event
  joined : ℕ → Event
  sent : List Sent → Event
  finished : Event

pub record Manager (works : Table Work) : Type 0 where
  pub workers : List Slot
  pub queue : works.State
  pub keep_working : Bool
  pub log : List Event

abbrev pub fresh_slot : Process → Slot
fresh_slot w = record { worker = w; work = none; busy = false; paused = false; start_time = none }

abbrev pub process_per_core : ℕ
process_per_core = 1

unfoldable pub get_allowed_process_count : ℕ → ℕ
get_allowed_process_count cpu_count = process_per_core * cpu_count

-- The ids of the targets that are worked on; an empty tuple raises the IndexError that is skipped.
unfoldable pub targets_in_use : List Slot → List ℕ
targets_in_use [] = []
targets_in_use (s ∷ ss) =
    let rest = targets_in_use ss in elim s.work [ none ↦ rest | some j ↦ j.0.id ∷ rest ]

unfoldable pub is_any_worker_busy : List Slot → Bool
is_any_worker_busy ss = any (λ s. s.busy) ss

-- `self.workers[pseudo_index - 1]`: the place in the list, where pseudo index 0 is Python's -1,
-- the last worker.
unfoldable pub place : ℕ → ℕ → Option ℕ
place zero zero = none
place zero (suc n) = some n
place (suc i) n = if ltb i n then some i else none

module _ {works : Table Work} where
  -- `spawn_worker` with the process that the system starts.
  unfoldable pub spawn_worker : Option ℕ → Process → Manager works → Manager works
  spawn_worker (some index) w m = record m {
    workers = set m.workers index (fresh_slot w);
    log = m.log ++ started w ∷ [];
  }
  spawn_worker none w m = record m {
    workers = m.workers ++ fresh_slot w ∷ [];
    log = m.log ++ started w ∷ [];
  }

  -- The loop of `spawn_workers`; `supply n` is the process that is started with n in the pool.
  unfoldable pub spawn_loop : (fuel allowed : ℕ) → (ℕ → Process) → Manager works → Manager works
  unfolding spawn_worker
  spawn_loop zero allowed supply m = m
  spawn_loop (suc f) allowed supply m =
      let n = length m.workers in
      let next = spawn_loop f allowed supply (spawn_worker none (supply n) m) in
      if ltb n allowed then next else m

  unfoldable pub spawn_workers :
      (cpu_count : ℕ) → (ℕ → Process) → Manager works → Result (Manager works)
  spawn_workers cpu_count supply m =
      let allowed = get_allowed_process_count cpu_count in
      let m' = spawn_loop allowed allowed supply m in
      if length m'.workers == 0 then err framework_abort else ok m'
