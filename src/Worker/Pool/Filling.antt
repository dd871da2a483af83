-- ===== src/Worker/Pool/Filling.antt =====
-- `spawn_workers` of owtf/managers/worker.py fills the pool to the allowed number of processes.

use owtf.Base.{
  ℕ, zero, suc, ◌+◌, ◌≤◌, ◌<◌, max, ◌≡◌, refl, inl, inr, none, [], ◌∷◌, arith, ltb, ltb→lt,
  Bool-cases, length, length-append,
}
use owtf.Db.Table.{Table}
use owtf.Db.Models.{Work}
use owtf.Exceptions.{ok}
use owtf.Worker.Pool.{
  Process, Manager, fresh_slot, spawn_worker, spawn_loop, spawn_workers, get_allowed_process_count,
}

module _ {works : Table Work} (supply : ℕ → Process) where
  length-spawn_loop :
      (fuel allowed : ℕ) (m : Manager works)
      → allowed ≤ fuel + length m.workers
      → length (spawn_loop fuel allowed supply m).workers ≡ max allowed (length m.workers)
  unfolding spawn_loop
  length-spawn_loop zero allowed m h = omega arith
  length-spawn_loop (suc f) allowed m h = elim (Bool-cases (ltb (length m.workers) allowed)) [
    | inl room ↦
        let next = spawn_worker none (supply (length m.workers)) m in
        let longer = length-append m.workers (fresh_slot (supply (length m.workers)) ∷ []) in
        rw room (
          omega (
            arith,
            longer,
            ltb→lt _ _ room,
            length-spawn_loop f allowed next (omega (arith, longer)),
          ))
    | inr full ↦ rw full (ground arith)
  ]

  queue-spawn_loop :
      (fuel allowed : ℕ) (m : Manager works) → (spawn_loop fuel allowed supply m).queue ≡ m.queue
  unfolding spawn_loop
  queue-spawn_loop zero allowed m = refl
  queue-spawn_loop (suc f) allowed m = elim (Bool-cases (ltb (length m.workers) allowed)) [
    | inl room ↦
        rw room (queue-spawn_loop f allowed (spawn_worker none (supply (length m.workers)) m))
    | inr full ↦ rw full
  ]

  -- With a processor or a worker at hand the pool is filled exactly to the allowed number of
  -- processes, and a pool that has more is left alone; the loop ends by its test.
  pub length-spawn_workers :
      (cpu_count : ℕ) (m : Manager works)
      → 0 < max cpu_count (length m.workers)
      → (m' : Manager works) × (spawn_workers cpu_count supply m ≡ ok m')
        × (length m'.workers ≡ max cpu_count (length m.workers))
        × (m'.queue ≡ m.queue)
  unfolding spawn_workers get_allowed_process_count
  length-spawn_workers cpu_count m h =
      let allowed = get_allowed_process_count cpu_count in
      let full = length-spawn_loop allowed allowed m (omega arith) in
      (
        spawn_loop allowed allowed supply m,
        ground (arith, full),
        omega (arith, full),
        queue-spawn_loop allowed allowed m,
      )
