-- ===== src/Worker/Conserve.antt =====
-- No job is lost or handed out twice: what `manage_workers` (owtf/managers/worker.py) hands to the
-- workers is what it takes from the queue.
use mathlib.Core.List.{perm_middle}
use owtf.Base.{
  ℕ, zero, suc, ◌≡◌, refl, ap, ◌∙◌, inl, inr, not, ◌||◌, some, [], ◌∷◌, ◌++◌, Bool-cases,
  Option-cases, length, get_elem?,
}
use owtf.Db.Table.{Table}
use owtf.Db.Models.{Work, Plugin, Target}
use owtf.Worklist.{get_work_for_target}
use owtf.Worklist.Take.{get_work_for_target-IsTaken}
use owtf.Worker.Pool.{Job, Slot, Manager, targets_in_use}
use owtf.Worker.Dispatch.{
  Observation, retire, assign, serve, manage_one, manage_from, manage_workers,
}
use owtf.Worker.Taking.{
  dispatched, DistinctIds, Pairs-remove, Conserves-trans, Conserves-same, get_task-cases,
  retire-Retired, announce-Conserves, assign_to-jobs, assign-none, queue-assign, Conserves,
}

module _ (works : Table Work) (target_of : Work → Target) (plugin_of : Work → Plugin) where
  abbrev M : Type 0
  M = Manager works

  -- A job that was taken from the queue, and given to the worker at `k`.
  taken-Conserves :
      (k : ℕ) (j : Job) (obs : Observation) (m : M) (slot : Slot) (q : works.State)
      → get_elem? m.workers k ≡ some slot
      → DistinctIds (works.rows m.queue)
      → get_work_for_target works target_of plugin_of (targets_in_use m.workers) m.queue
        ≡ (some j, q)
      → Conserves works target_of plugin_of m
          (assign works target_of plugin_of k (some j) obs (record m { queue = q }))
  taken-Conserves k j obs m slot q e d took =
      let t =
        get_work_for_target-IsTaken works target_of plugin_of (targets_in_use m.workers) m.queue q j
          d took in
      let left = queue-assign works target_of plugin_of k (some j) obs (record m { queue = q }) in
      record {
        taken = t.work ∷ [];
        rows = rw (left, t.now, t.was) (perm_middle t.before t.after);
        jobs =
            assign_to-jobs works target_of plugin_of k j obs (record m { queue = q }) slot e
            ∙ ap (λ i. dispatched m.log ++ i ∷ []) t.job_of;
        distinct = rw (left, t.now) (Pairs-remove t.before t.work t.after (rw t.was at d));
      }

  serve-Conserves :
      (k : ℕ) (s : Slot) (obs : Observation) (m : M)
      → get_elem? m.workers k ≡ some s
      → DistinctIds (works.rows m.queue)
      → Conserves works target_of plugin_of m (serve works target_of plugin_of k s obs m)
  unfolding serve
  serve-Conserves k s obs m e d =
      let idle = retire works target_of plugin_of k s obs m in
      let r = retire-Retired works target_of plugin_of k s obs m e in
      let base = Conserves-same works target_of plugin_of m idle r.queue r.jobs d in
      elim (get_task-cases works target_of plugin_of obs.available idle) [
        | inl nothing ↦
            rw (nothing, serve, assign-none works target_of plugin_of k obs idle)
              (announce-Conserves works target_of plugin_of m idle base)
        | inr (j, q, took, got) ↦
            rw (got, serve)
              (announce-Conserves works target_of plugin_of m _ (
                Conserves-trans works target_of plugin_of m idle _ base
                  (taken-Conserves k j obs idle r.slot q r.there base.distinct took)))
      ]

  manage_one-Conserves :
      (k : ℕ) (obs : Observation) (m : M)
      → DistinctIds (works.rows m.queue)
      → Conserves works target_of plugin_of m (manage_one works target_of plugin_of k obs m)
  unfolding manage_one
  manage_one-Conserves k obs m d = elim (Option-cases (get_elem? m.workers k)) [
    | inl missing ↦
        rw (missing, manage_one) (Conserves-same works target_of plugin_of m m refl refl d)
    | inr (slot, found) ↦ elim (Bool-cases (obs.has_output || not obs.alive_at_test)) [
      | inl polled ↦ rw (found, manage_one, polled) (serve-Conserves k slot obs m found d)
      | inr waits ↦
          rw (found, manage_one, waits) (Conserves-same works target_of plugin_of m m refl refl d)
    ]
  ]

  manage_from-Conserves :
      (k count : ℕ) (obs : ℕ → Observation) (m : M)
      → DistinctIds (works.rows m.queue)
      → Conserves works target_of plugin_of m (manage_from works target_of plugin_of k count obs m)
  unfolding manage_from
  manage_from-Conserves k zero obs m d = Conserves-same works target_of plugin_of m m refl refl d
  manage_from-Conserves k (suc count) obs m d =
      let one = manage_one-Conserves k (obs k) m d in
      Conserves-trans works target_of plugin_of m _ _ one
        (manage_from-Conserves (suc k) count obs _ one.distinct)

  -- One polling of the workers: the queue before it holds exactly the jobs that were put into
  -- workers' input queues and those that are still queued, and the former were put in once each.
  pub manage_workers-Conserves :
      (obs : ℕ → Observation) (m : M)
      → DistinctIds (works.rows m.queue)
      → Conserves works target_of plugin_of m (manage_workers works target_of plugin_of obs m)
  unfolding manage_workers
  manage_workers-Conserves obs m d = manage_from-Conserves 0 (length m.workers) obs m d
