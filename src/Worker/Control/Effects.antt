-- ===== src/Worker/Control/Effects.antt =====
-- The count of busy workers of `WorkerManager` (owtf/managers/worker.py), and how far
-- `pause_all_workers` gets.

use owtf.Base.{
  ℕ, ◌+◌, ◌≡◌, refl, ap, inl, inr, Bool, true, ◌&&◌, ◌||◌, List, [], ◌∷◌, ◌++◌, map, if◌then◌else◌,
  Bool-cases, arith, ltb, length, All,
}
use owtf.Process.{Host, sigstop}
use owtf.Db.Table.{Table}
use owtf.Db.Models.{Work}
use owtf.Worker.Pool.{Slot, Manager, targets_in_use, is_any_worker_busy}
use owtf.Worker.Exclusive.{IsHonest, IsValid}
use owtf.Worker.Control.{
  set_paused, signal_both, pause_slots, all_details, count_busy, get_busy_workers,
}

count_busy-targets :
    (id : ℕ) (ss : List Slot)
    → All IsHonest ss
    → count_busy (all_details id ss) ≡ length (targets_in_use ss)
unfolding all_details count_busy targets_in_use
count_busy-targets id [] h = refl
count_busy-targets id (s ∷ ss) h = ground (arith, count_busy-targets (id + 1) ss h.1, h.0)

any_busy-count :
    (id : ℕ) (ss : List Slot) → is_any_worker_busy ss ≡ ltb 0 (count_busy (all_details id ss))
unfolding all_details count_busy is_any_worker_busy
any_busy-count id [] = refl
any_busy-count id (s ∷ ss) = ground (arith, any_busy-count (id + 1) ss)

module _ {works : Table Work} (m : Manager works) where
  -- In a valid state the number of busy workers is that of the targets in use, and some worker is
  -- busy just when that number is not zero.
  pub get_busy_workers_lem :
      IsValid m.workers
      → (get_busy_workers m ≡ length (targets_in_use m.workers))
        × (is_any_worker_busy m.workers ≡ ltb 0 (get_busy_workers m))
  unfolding get_busy_workers
  get_busy_workers_lem v = (count_busy-targets 1 m.workers v.honest, any_busy-count 1 m.workers)

-- The workers up to the first that fails a test, and the others.
abbrev pub take_while : (Slot → Bool) → List Slot → List Slot
take_while test [] = []
take_while test (s ∷ ss) = let rest = take_while test ss in if test s then s ∷ rest else []

abbrev pub drop_while : (Slot → Bool) → List Slot → List Slot
drop_while test [] = []
drop_while test (s ∷ ss) = let rest = drop_while test ss in if test s then rest else s ∷ ss

abbrev pub every : (Slot → Bool) → List Slot → Bool
every test [] = true
every test (s ∷ ss) = let rest = every test ss in test s && rest

module _ (host : Host) where
  -- A worker that is paused, or that the signals reach.
  abbrev pub stops : Slot → Bool
  stops s = s.paused || (signal_both host sigstop s).0

  pub pause_slots_lem :
      (ss : List Slot)
      → ((pause_slots host ss).0 ≡ every stops ss)
        × ((pause_slots host ss).1
            ≡ map (set_paused true) (take_while stops ss) ++ drop_while stops ss)
  unfolding pause_slots
  pause_slots_lem [] = (refl, refl)
  pause_slots_lem (s ∷ ss) = elim (Bool-cases s.paused) [
    | inl h ↦
        (rw h (pause_slots_lem ss).0, rw h (ap (λ l. set_paused true s ∷ l) (pause_slots_lem ss).1))
    | inr h ↦ elim (Bool-cases (signal_both host sigstop s).0) [
      | inl goes ↦ (
        rw (h, goes) (pause_slots_lem ss).0,
        rw (h, goes) (ap (λ l. set_paused true s ∷ l) (pause_slots_lem ss).1),
      )
      | inr gone ↦ (rw (h, gone) refl, rw (h, gone) refl)
    ]
  ]

-- Where every worker passes, all are taken.
pub take_while-every :
    (test : Slot → Bool) (ss : List Slot)
    → every test ss ≡ true
    → (take_while test ss ≡ ss) × (drop_while test ss ≡ [])
take_while-every test [] e = (refl, refl)
take_while-every test (s ∷ ss) e =
    let here : test s ≡ true = ground arith in
    let rest : every test ss ≡ true = ground arith in
    let (taken, left) = take_while-every test ss rest in
    (rw (here, taken) refl, rw (here, left) refl)
