-- ===== src/Worker/Control.antt =====
-- What the API and the shutdown ask of `WorkerManager` (owtf/managers/worker.py): details, delete,
-- pause, resume, abort, poison pills, exit.
pub mod Loops
pub mod Steps
pub mod Effects
use owtf.Base.{
  ℕ, zero, suc, ◌+◌, String, Bool, true, false, Option, none, some, List, [], ◌∷◌, ◌++◌,
  if◌then◌else◌, length, get_elem?, set, erase_idx,
}
use owtf.Db.Table.{Table}
use owtf.Exceptions.{Result, ok, err, invalid_worker_reference, no_such_process, ◌>>=◌}
use owtf.Db.Models.{Work}
use owtf.Process.{Host, Signal, sigint, sigstop, sigcont, signal_process, signal_children}
use owtf.Worker.Pool.{
  Process, Job, Slot, Event, put_poison, took_output, joined, sent, Manager, place, spawn_worker,
}

-- The dictionary of `get_worker_details` for one worker.
pub record Details : Type 0 where
  pub id : ℕ
  pub name : String
  pub worker : ℕ
  pub work : Option Job
  pub busy : Bool
  pub paused : Bool
  pub start_time : Option String

abbrev pub details_of : ℕ → Slot → Details
details_of id s = record {
  id = id;
  name = s.worker.name;
  worker = s.worker.pid;
  work = s.work;
  busy = s.busy;
  paused = s.paused;
  start_time = s.start_time;
}

-- All workers, numbered from `id` on; the API numbers them from 1.
unfoldable pub all_details : ℕ → List Slot → List Details
all_details id [] = []
all_details id (s ∷ ss) = details_of id s ∷ all_details (id + 1) ss

unfoldable pub count_busy : List Details → ℕ
count_busy [] = 0
count_busy (d ∷ ds) = let rest = count_busy ds in if d.busy then rest + 1 else rest

abbrev pub set_paused : Bool → Slot → Slot
set_paused b s = record s { paused = b }

-- A slot that `poison_pill_to_workers` has emptied; `paused` stays as it was.
abbrev pub emptied : Slot → Slot
emptied s = if s.busy then record s { busy = false; work = none } else s

-- A loop over the workers: does it return, the workers after it, and the events.
abbrev Loop : Type 0
Loop = Bool × List Slot × List Event

module _ (host : Host) where
  -- The children of a worker, and then the worker and its children.
  unfoldable pub signal_both : Signal → Slot → Bool × List Event
  signal_both sig s =
      let (first, to_children) = signal_children host s.worker.pid sig in
      let (second, to_all) = signal_process host s.worker.pid sig in
      if first
      then (second, sent to_children ∷ sent to_all ∷ [])
      else (false, sent to_children ∷ [])

  -- The loop of `pause_all_workers`: those that are not paused are signalled and marked.
  unfoldable pub pause_slots : List Slot → Loop
  unfolding signal_both
  pause_slots [] = (true, [], [])
  pause_slots (s ∷ ss) =
      let (returned, later, events) = pause_slots ss in
      let (goes, first) = signal_both sigstop s in
      if s.paused
      then (returned, s ∷ later, events)
      else if goes
      then (returned, set_paused true s ∷ later, first ++ events)
      else (false, s ∷ ss, first)

  unfoldable pub resume_slots : List Slot → Loop
  unfolding signal_both
  resume_slots [] = (true, [], [])
  resume_slots (s ∷ ss) =
      let (returned, later, events) = resume_slots ss in
      let (goes, first) = signal_both sigcont s in
      if s.paused
      then (if goes
          then (returned, set_paused false s ∷ later, first ++ events)
          else (false, s ∷ ss, first))
      else (returned, s ∷ later, events)

  -- The loop of `poison_pill_to_workers`: a busy worker is woken if it is paused, and its output awaited;
  -- each gets the pill.
  unfoldable pub poison_slots : List Slot → Loop
  poison_slots [] = (true, [], [])
  poison_slots (s ∷ ss) =
      let (returned, later, events) = poison_slots ss in
      let pill = put_poison s.worker.pid ∷ events in
      let (goes, woken) = signal_process host s.worker.pid sigcont in
      if s.busy
      then (if s.paused
          then (if goes
              then (returned, emptied s ∷ later, sent woken ∷ took_output s.worker.pid ∷ pill)
              else (false, s ∷ ss, sent woken ∷ []))
          else (returned, emptied s ∷ later, took_output s.worker.pid ∷ pill))
      else (returned, s ∷ later, pill)

  unfoldable pub exit_events : List Slot → Bool × List Event
  exit_events [] = (true, [])
  exit_events (s ∷ ss) =
      let (returned, events) = exit_events ss in
      let (goes, ended) = signal_process host s.worker.pid sigint in
      if goes
      then (returned, put_poison s.worker.pid ∷ sent ended ∷ events)
      else (false, put_poison s.worker.pid ∷ sent ended ∷ [])

unfoldable pub join_events : List Slot → List Event
join_events [] = []
join_events (s ∷ ss) = joined s.worker.pid ∷ join_events ss

-- What a method returns or raises, and the manager after it: a signal to a process that is gone is an
-- exception, and what was done before it stays.
abbrev pub Called : Table Work → Type 0
Called works = Result (Unit {0}) × Manager works

abbrev pub ended : Bool → Result (Unit {0})
ended returned = if returned then ok tt else err no_such_process

abbrev interrupt : Host → Slot → Bool × List Event
interrupt host s =
    let (returned, all) = signal_process host s.worker.pid sigint in (returned, sent all ∷ [])

module _ {works : Table Work} where
  -- `self.workers[pseudo_index - 1]`, with its place in the list
  unfoldable pub get_worker_dict : ℕ → Manager works → Result (ℕ × Slot)
  get_worker_dict pseudo_index m = elim (place pseudo_index (length m.workers)) [
    | none ↦ err invalid_worker_reference
    | some k ↦ elim (get_elem? m.workers k) [
      | none ↦ err invalid_worker_reference
      | some s ↦ ok (k, s)
    ]
  ]

  -- With a pseudo index other than 0. With None or 0 it is `all_details 1`.
  unfoldable pub get_worker_details : ℕ → Manager works → Result (List Details)
  unfolding all_details
  get_worker_details zero m = ok (all_details 1 m.workers)
  get_worker_details (suc i) m = do t ← get_worker_dict (suc i) m; ok (details_of (suc i) t.1 ∷ [])

  unfoldable pub get_busy_workers : Manager works → ℕ
  unfolding all_details count_busy
  get_busy_workers m = count_busy (all_details 1 m.workers)

  unfoldable pub create_worker : Process → Manager works → Manager works
  create_worker w m = spawn_worker none w m

  unfoldable pub join_workers : Manager works → Manager works
  join_workers m = record m { log = m.log ++ join_events m.workers }

  -- With the worker at an index; none is an InvalidWorkerReference.
  abbrev pub at_worker : ℕ → Manager works → (ℕ × Slot → Called works) → Called works
  at_worker pseudo_index m f = elim (get_worker_dict pseudo_index m) [
    | err e ↦ (err e, m)
    | ok t ↦ f t
  ]

  -- After signals: the change, if they return.
  abbrev pub signalled : Bool × List Event → Manager works → Manager works → Called works
  signalled (true, events) m changed = (ok tt, record changed { log = m.log ++ events })
  signalled (false, events) m changed = (err no_such_process, record m { log = m.log ++ events })

  abbrev pub looped : Loop → Manager works → Called works
  looped (returned, slots, events) m =
      (ended returned, record m { workers = slots; log = m.log ++ events })

  module _ (host : Host) where
    unfoldable pub delete_worker : ℕ → Manager works → Called works
    delete_worker pseudo_index m = at_worker pseudo_index m (λ t.
        if t.1.busy
        then (err invalid_worker_reference, m)
        else signalled (interrupt host t.1) m (record m { workers = erase_idx m.workers t.0 }))

    unfoldable pub pause_worker : ℕ → Manager works → Called works
    unfolding signal_both
    pause_worker pseudo_index m = at_worker pseudo_index m (λ t.
        if t.1.paused
        then (ok tt, m)
        else signalled (signal_both host sigstop t.1) m
            (record m { workers = set m.workers t.0 (set_paused true t.1) }))

    unfoldable pub resume_worker : ℕ → Manager works → Called works
    unfolding signal_both
    resume_worker pseudo_index m = at_worker pseudo_index m (λ t.
        if t.1.paused
        then signalled (signal_both host sigcont t.1) m
            (record m { workers = set m.workers t.0 (set_paused false t.1) })
        else (ok tt, m))

    unfoldable pub pause_all_workers : Manager works → Called works
    unfolding pause_slots
    pause_all_workers m = looped (pause_slots host m.workers) m

    unfoldable pub resume_all_workers : Manager works → Called works
    unfolding resume_slots
    resume_all_workers m = looped (resume_slots host m.workers) m

    -- The process ends and the slot stays: the next polling replaces it.
    unfoldable pub abort_worker : ℕ → Manager works → Called works
    abort_worker pseudo_index m = at_worker pseudo_index m (λ t. signalled (interrupt host t.1) m m)

    unfoldable pub poison_pill_to_workers : Manager works → Called works
    unfolding poison_slots
    poison_pill_to_workers m = looped (poison_slots host m.workers) m

    unfoldable pub clean_up : Manager works → Called works
    clean_up m =
        let (ends, m') = poison_pill_to_workers m in
        elim ends [ err e ↦ (err e, m') | ok _ ↦ (ok tt, join_workers m') ]

    unfoldable pub exit : Manager works → Called works
    unfolding exit_events
    exit m =
        let (returned, events) = exit_events host m.workers in
        (ended returned, record m { log = m.log ++ events })
