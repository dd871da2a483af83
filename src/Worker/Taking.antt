-- ===== src/Worker/Taking.antt =====
-- What the parts of one round of `manage_workers` (owtf/managers/worker.py) do to the queue and to
-- the input queues of the workers.
use mathlib.Core.List.{map-append}
use mathlib.Core.List.{Perm}
use mathlib.Core.List.Perm
use owtf.Base.{
  ℕ, zero, suc, ◌/◌, ◌≡◌, refl, sym, ap, ◌∙◌, ◌≢◌, ◌⊎◌, inl, inr, false, ◌||◌, Option, none, some,
  List, [], ◌∷◌, ◌++◌, map, append-nil, append_assoc, arith, ltb, ◌==◌, Bool-cases, Option-cases,
  get_elem?, set, find_first, All-append, All-append_left, All-append_right, Distinct,
}
use owtf.Db.Table.{Table}
use owtf.Db.Models.{Work, Plugin, Target}
use owtf.Worklist.{get_work_for_target, is_eligible}
use owtf.Worker.Pool.{
  Job, Slot, Event, put_input, Manager, targets_in_use, spawn_worker, is_any_worker_busy,
}
use owtf.Worker.Dispatch.{Observation, get_task, retire, assign, announce, min_ram_needed}

-- The jobs put into the input queues of workers.
pub dispatched : List Event → List Job
dispatched [] = []
dispatched (put_input p j ∷ es) = j ∷ dispatched es
dispatched (_ ∷ es) = dispatched es

pub dispatched-append :
    (xs ys : List Event) → dispatched (xs ++ ys) ≡ dispatched xs ++ dispatched ys
unfolding dispatched
dispatched-append [] ys = refl
dispatched-append (put_input p j ∷ xs) ys = ap (λ l. j ∷ l) (dispatched-append xs ys)
dispatched-append (_ ∷ xs) ys = dispatched-append xs ys

abbrev pub DistinctIds : List Work → Type 0
DistinctIds = Distinct (λ w. w.id)

pub Pairs-remove :
    (before : List Work) (w : Work) (after : List Work)
    → DistinctIds (before ++ w ∷ after)
    → DistinctIds (before ++ after)
Pairs-remove [] w after d = d.1
Pairs-remove (v ∷ before) w after d = (
  All-append _ before after (All-append_left _ before (w ∷ after) d.0)
      (All-append_right (λ u. v.id ≢ u.id) before (w ∷ after) d.0).1,
  Pairs-remove before w after d.1,
)

module _ (works : Table Work) (target_of : Work → Target) (plugin_of : Work → Plugin) where
  abbrev M : Type 0
  M = Manager works

  abbrev pub job_of : Work → Job
  job_of w = (target_of w, plugin_of w)

  -- The rows that left the queue between two states are those whose jobs were handed out, in the
  -- order in which they were.
  pub record Conserves (m m' : M) : Type 0 where
    pub taken : List Work
    pub rows : Perm (works.rows m.queue) (taken ++ works.rows m'.queue)
    pub jobs : dispatched m'.log ≡ dispatched m.log ++ map job_of taken
    pub distinct : DistinctIds (works.rows m'.queue)

  pub Conserves-trans : (a b c : M) → Conserves a b → Conserves b c → Conserves a c
  Conserves-trans a b c f g = record {
    taken = f.taken ++ g.taken;
    rows = rw append_assoc (Perm.trans f.rows (Perm.append (Perm.refl f.taken) g.rows));
    jobs = g.jobs ∙ rw (f.jobs, map-append, append_assoc);
    distinct = g.distinct;
  }

  -- A state with the queue and the jobs of another.
  pub Conserves-same :
      (m m' : M)
      → m'.queue ≡ m.queue
      → dispatched m'.log ≡ dispatched m.log
      → DistinctIds (works.rows m.queue)
      → Conserves m m'
  Conserves-same m m' q l d = record {
    taken = [];
    rows = rw q (Perm.refl (works.rows m.queue));
    jobs = l ∙ sym (append-nil _);
    distinct = rw q d;
  }

  -- `get_task` finds nothing and changes nothing, or takes one job from the queue.
  pub get_task-cases :
      (available : ℕ) (m : M)
      → (get_task works target_of plugin_of available m ≡ (none, m))
        ⊎ ((j : Job) × (q : works.State) × (get_work_for_target works target_of plugin_of
                (targets_in_use m.workers)
                m.queue
              ≡ (some j, q))
            × (get_task works target_of plugin_of available m ≡ (some j, record m { queue = q })))
  unfolding get_task get_work_for_target
  get_task-cases available m = elim (Bool-cases (ltb min_ram_needed (available / 1048576))) [
    | inr short ↦ inl (rw (short, get_task))
    | inl room ↦
        elim (Option-cases
          (find_first (is_eligible (targets_in_use m.workers)) (works.rows m.queue))) [
            | inl nothing ↦ inl (ground arith)
            | inr (w, found) ↦
                inr (job_of w, works.delete (λ v. v.id == w.id) m.queue, ground arith, ground arith)
          ]
  ]

  pub get_elem?-set :
      (ss : List Slot) (k : ℕ) (s s' : Slot)
      → get_elem? ss k ≡ some s
      → get_elem? (set ss k s') k ≡ some s'
  get_elem?-set [] k s s' e = absurd (cc)
  get_elem?-set (t ∷ ss) zero s s' e = refl
  get_elem?-set (t ∷ ss) (suc k) s s' e = get_elem?-set ss k s s' e

  pub record Retired (k : ℕ) (m m' : M) : Type 0 where
    pub queue : m'.queue ≡ m.queue
    pub jobs : dispatched m'.log ≡ dispatched m.log
    pub slot : Slot
    pub there : get_elem? m'.workers k ≡ some slot

  pub retire-Retired :
      (k : ℕ) (s : Slot) (obs : Observation) (m : M)
      → get_elem? m.workers k ≡ some s
      → Retired k m (retire works target_of plugin_of k s obs m)
  unfolding retire spawn_worker dispatched
  retire-Retired k s obs m e = elim (Bool-cases obs.alive_at_branch) [
    | inl alive ↦ rw alive (record {
      queue = refl;
      jobs = refl;
      slot = record s { work = none; busy = false; start_time = some "NA" };
      there = get_elem?-set m.workers k s _ e;
    })
    | inr dead ↦ rw dead (record {
      queue = refl;
      jobs = dispatched-append m.log _ ∙ append-nil _;
      slot = _;
      there = get_elem?-set m.workers k s _ e;
    })
  ]

  pub announce-Conserves :
      (a m : M) → Conserves a m → Conserves a (announce works target_of plugin_of m)
  unfolding announce dispatched
  announce-Conserves a m c = Conserves-trans a m (announce works target_of plugin_of m) c (
      Conserves-same m (announce works target_of plugin_of m) (ground arith)
        (elim (Bool-cases (m.keep_working || is_any_worker_busy m.workers)) [
          | inl goes_on ↦ rw goes_on
          | inr ends ↦ rw ends (dispatched-append m.log _ ∙ append-nil _)
        ])
        c.distinct)

  pub assign_to-jobs :
      (k : ℕ) (j : Job) (obs : Observation) (m : M) (slot : Slot)
      → get_elem? m.workers k ≡ some slot
      → dispatched (assign works target_of plugin_of k (some j) obs m).log
        ≡ dispatched m.log ++ j ∷ []
  unfolding assign dispatched
  assign_to-jobs k j obs m slot e = rw (e, assign) (dispatched-append m.log _)

  pub assign-none :
      (k : ℕ) (obs : Observation) (m : M) → assign works target_of plugin_of k none obs m ≡ m
  unfolding assign
  assign-none k obs m = elim (Option-cases (get_elem? m.workers k)) [
    | inl missing ↦ rw (missing, assign)
    | inr (slot, found) ↦ rw (found, assign)
  ]

  pub queue-assign :
      (k : ℕ) (j : Option Job) (obs : Observation) (m : M)
      → (assign works target_of plugin_of k j obs m).queue ≡ m.queue
  unfolding assign
  queue-assign k none obs m = ap (λ t. t.queue) (assign-none k obs m)
  queue-assign k (some j) obs m = elim (Option-cases (get_elem? m.workers k)) [
    | inl missing ↦ rw (missing, assign)
    | inr (slot, found) ↦ rw (found, assign)
  ]
