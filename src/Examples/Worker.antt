-- ===== src/Examples/Worker.antt =====
-- Examples of owtf.Worker and owtf.Process.

use owtf.Base.{ℕ, max, ◌≡◌, refl, true, false, some, [], ◌∷◌, arith, ◌==◌, length}
use owtf.Db.Memory.{memory}
use owtf.Exceptions.{ok}
use owtf.Process.{Host, sigint, signal_children, signal_process, signal_process_lem}
use owtf.Worker.Pool.{Slot, Manager, fresh_slot, spawn_workers, targets_in_use}
use owtf.Worker.Pool.Filling.{length-spawn_workers}
use owtf.Worker.Dispatch.{Observation, manage_workers}
use owtf.Worker.Exclusive.{IsValid, manage_workers-IsValid}
use owtf.Worker.Conserve.{manage_workers-Conserves}
use owtf.Worker.Taking.{Conserves}
use owtf.Worker.Control.{set_paused, pause_all_workers, create_worker}
use owtf.Worker.Control.Steps.{Reach-IsValid, here, next, create, manage}
use owtf.Examples.Data.{
  target_at, plugin_of_type, target_of_work, plugin_of_work, three_jobs, process_at, host,
}

signal_process_example :
    signal_process host 5 sigint
    ≡ (true, record { pid = 105; signal = sigint } ∷ record { pid = 5; signal = sigint } ∷ [])
signal_process_example = signal_process_lem host 5 sigint

-- A worker that has exited while its child still runs: the child gets the signal, and the call raises.
signal_process_gone_test :
    signal_process (record host { is_gone = λ p. p == 5 }) 5 sigint
    ≡ (false, record { pid = 105; signal = sigint } ∷ [])
unfolding signal_process
signal_process_gone_test = refl

-- The worker with pid 11 works on target 7; that with pid 12 is idle.
abbrev busy_slot : Slot
busy_slot = record (fresh_slot (process_at 11)) {
  work = some (target_at 7, plugin_of_type "passive");
  busy = true;
}

abbrev pool : Manager memory
pool = record {
  workers = busy_slot ∷ fresh_slot (process_at 12) ∷ [];
  queue = three_jobs;
  keep_working = true;
  log = [];
}

pool-IsValid : IsValid pool.workers
unfolding targets_in_use
pool-IsValid = record { different = (tt, tt); honest = (refl, (refl, tt)) }

-- The second worker has put something into its output queue.
abbrev seen : ℕ → Observation
seen k = record {
  has_output = k == 1;
  alive_at_test = true;
  alive_at_branch = true;
  available = 104857600;
  spawned = process_at 20;
  now = "2020/01/01 00:00:00";
}

spawn_workers_example :
    (m' : Manager memory) × (spawn_workers 3 process_at pool ≡ ok m')
    × (length m'.workers ≡ max 3 (length pool.workers))
    × (m'.queue ≡ pool.queue)
spawn_workers_example = length-spawn_workers process_at 3 pool (omega arith)

manage_workers-IsValid_example :
    IsValid (manage_workers memory target_of_work plugin_of_work seen pool).workers
manage_workers-IsValid_example =
    manage_workers-IsValid memory target_of_work plugin_of_work (λ w. refl) seen pool pool-IsValid

manage_workers-Conserves_example :
    Conserves memory target_of_work plugin_of_work pool
      (manage_workers memory target_of_work plugin_of_work seen pool)
manage_workers-Conserves_example =
    manage_workers-Conserves memory target_of_work plugin_of_work seen pool (omega arith)

abbrev polled : Manager memory
polled =
    manage_workers memory target_of_work plugin_of_work seen (create_worker (process_at 13) pool)

reach_example : IsValid polled.workers
reach_example =
    Reach-IsValid memory target_of_work plugin_of_work (λ w. refl) pool polled
      (next (next here (create (process_at 13) refl)) (manage seen refl)) pool-IsValid

-- The process of the second worker has gone: the first worker is paused, and the request fails.
abbrev half_gone : Host
half_gone = record host { is_gone = λ p. p == 12 }

half_gone_test :
    (pause_all_workers half_gone pool).1.workers
    ≡ set_paused true busy_slot ∷ fresh_slot (process_at 12) ∷ []
unfolding pause_all_workers signal_children signal_process
half_gone_test = refl
