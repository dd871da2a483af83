-- ===== src/Worker/Exclusive.antt =====
-- Two workers of `WorkerManager` never work on one target, and a worker is busy just when it has
-- work (owtf/managers/worker.py, `manage_workers`).

use owtf.Base.{
  ℕ, zero, suc, ◌≡◌, refl, inl, inr, not, ◌||◌, Option, none, some, List, [], ◌∷◌, arith,
  Bool-cases, Option-cases, is_some, length, get_elem?, set, find_first, All, find_first-Hit,
}
use owtf.Db.Table.{Table}
use owtf.Db.Models.{Work, Plugin, Target}
use owtf.Worklist.{get_work_for_target, is_eligible}
use owtf.Worker.Pool.{Job, Slot, Manager, targets_in_use, spawn_worker}
use owtf.Worker.Dispatch.{
  Observation, get_task, retire, assign, announce, serve, manage_one, manage_from, manage_workers,
}
use owtf.Worker.Slots.{
  NotIn, mem_nat-NotIn, AllDifferent, AllDifferent-set_idle, AllDifferent-set_job,
}

-- The flag of a slot tells whether it has work.
abbrev pub IsHonest : Slot → Type 0
IsHonest s = s.busy ≡ is_some s.work

pub record IsValid (workers : List Slot) : Type 0 where
  pub different : AllDifferent (targets_in_use workers)
  pub honest : All IsHonest workers

pub All-set {ℓ} :
    {A : Type ℓ} (P : A → Type 0) (xs : List A) (k : ℕ) (x : A)
    → P x
    → All P xs
    → All P (set xs k x)
All-set P [] k x p h = h
All-set P (y ∷ xs) zero x p h = (p, h.1)
All-set P (y ∷ xs) (suc k) x p h = (h.0, All-set P xs k x p h.1)

module _ (works : Table Work) (target_of : Work → Target) (plugin_of : Work → Plugin)
    (target_id : (w : Work) → (target_of w).id ≡ w.target_id) where
  abbrev M : Type 0
  M = Manager works

  retire-IsValid :
      (k : ℕ) (slot : Slot) (obs : Observation) (m : M)
      → IsValid m.workers
      → IsValid (retire works target_of plugin_of k slot obs m).workers
  unfolding retire spawn_worker
  retire-IsValid k slot obs m v = elim (Bool-cases obs.alive_at_branch) [
    | inl alive ↦ rw alive (record {
      different = AllDifferent-set_idle m.workers k _ refl v.different;
      honest = All-set IsHonest m.workers k _ refl v.honest;
    })
    | inr dead ↦ rw dead (record {
      different = AllDifferent-set_idle m.workers k _ refl v.different;
      honest = All-set IsHonest m.workers k _ refl v.honest;
    })
  ]

  -- The target of a job that is handed out is not in use.
  get_task-NotIn :
      (available : ℕ) (m : M) (j : Job)
      → (get_task works target_of plugin_of available m).0 ≡ some j
      → NotIn j.0.id (targets_in_use m.workers)
  unfolding get_task get_work_for_target
  get_task-NotIn available m j e =
      let in_use = targets_in_use m.workers in
      mem_nat-NotIn j.0.id in_use
        (elim (Option-cases (find_first (is_eligible in_use) (works.rows m.queue))) [
          | inl none_left ↦ absurd (ground arith)
          | inr (w, found) ↦
              let hit = find_first-Hit (is_eligible in_use) w (works.rows m.queue) found in
              ground (arith, hit.holds, target_id w)
        ])

  workers-get_task :
      (available : ℕ) (m : M)
      → (get_task works target_of plugin_of available m).1.workers ≡ m.workers
  unfolding get_task
  workers-get_task available m = ground arith

  assign-IsValid :
      (k : ℕ) (job : Option Job) (obs : Observation) (m : M)
      → ((j : Job) → job ≡ some j → NotIn j.0.id (targets_in_use m.workers))
      → IsValid m.workers
      → IsValid (assign works target_of plugin_of k job obs m).workers
  unfolding assign
  assign-IsValid k none obs m free v = elim (Option-cases (get_elem? m.workers k)) [
    | inl missing ↦ rw (missing, assign) v
    | inr (slot, found) ↦ rw (found, assign) v
  ]
  assign-IsValid k (some j) obs m free v = elim (Option-cases (get_elem? m.workers k)) [
    | inl missing ↦ rw (missing, assign) v
    | inr (slot, found) ↦
        rw (found, assign)
          (record {
            different = AllDifferent-set_job m.workers k _ j refl (free j refl) v.different;
            honest = All-set IsHonest m.workers k _ refl v.honest;
          })
  ]

  workers-announce : (m : M) → (announce works target_of plugin_of m).workers ≡ m.workers
  unfolding announce
  workers-announce m = ground arith

  serve-IsValid :
      (k : ℕ) (slot : Slot) (obs : Observation) (m : M)
      → IsValid m.workers
      → IsValid (serve works target_of plugin_of k slot obs m).workers
  unfolding serve
  serve-IsValid k slot obs m v =
      let idle = retire works target_of plugin_of k slot obs m in
      let idle_valid : IsValid idle.workers = retire-IsValid k slot obs m v in
      let same = workers-get_task obs.available idle in
      rw workers-announce (
        assign-IsValid k _ obs _ (λ j e. rw same (get_task-NotIn obs.available idle j e))
          (rw same idle_valid))

  manage_one-IsValid :
      (k : ℕ) (obs : Observation) (m : M)
      → IsValid m.workers
      → IsValid (manage_one works target_of plugin_of k obs m).workers
  unfolding manage_one
  manage_one-IsValid k obs m v = elim (Option-cases (get_elem? m.workers k)) [
    | inl missing ↦ rw (missing, manage_one) v
    | inr (slot, found) ↦ elim (Bool-cases (obs.has_output || not obs.alive_at_test)) [
      | inl polled ↦ rw (found, manage_one, polled) (serve-IsValid k slot obs m v)
      | inr waits ↦ rw (found, manage_one, waits) v
    ]
  ]

  manage_from-IsValid :
      (k count : ℕ) (obs : ℕ → Observation) (m : M)
      → IsValid m.workers
      → IsValid (manage_from works target_of plugin_of k count obs m).workers
  unfolding manage_from
  manage_from-IsValid k zero obs m v = v
  manage_from-IsValid k (suc count) obs m v =
      manage_from-IsValid (suc k) count obs _ (manage_one-IsValid k (obs k) m v)

  -- Whatever the polling sees, after it no two workers work on one target, and a worker is
  -- marked busy just when it has work, if that was so before.
  pub manage_workers-IsValid :
      (obs : ℕ → Observation) (m : M)
      → IsValid m.workers
      → IsValid (manage_workers works target_of plugin_of obs m).workers
  unfolding manage_workers
  manage_workers-IsValid obs m v = manage_from-IsValid 0 (length m.workers) obs m v
