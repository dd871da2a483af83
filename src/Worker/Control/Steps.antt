-- ===== src/Worker/Control/Steps.antt =====
-- Every state that the manager can reach: whatever the polls see and the API asks for, in any
-- order, no two workers share a target.

use owtf.Base.{
  ℕ, zero, suc, ◌≡◌, refl, ◌∙◌, inl, inr, Bool, true, false, none, some, List, [], ◌∷◌, append-nil,
  arith, Bool-cases, get_elem?, set, erase_idx, All, All-append,
}
use mathlib.Core.Path.{subst}
use owtf.Db.Table.{Table}
use owtf.Db.Models.{Work, Plugin, Target}
use owtf.Exceptions.{ok, Result-cases}
use owtf.Process.{Host}
use owtf.Worker.Pool.{Process, Slot, Event, Manager, fresh_slot, spawn_worker, targets_in_use}
use owtf.Worker.Dispatch.{Observation, manage_workers}
use owtf.Worker.Slots.{targets_in_use-set, targets_in_use-erase_idle, targets_in_use-append}
use owtf.Worker.Exclusive.{IsHonest, IsValid, All-set, manage_workers-IsValid}
use owtf.Worker.Control.Loops.{Kept-IsValid, pause_slots-Kept, resume_slots-Kept, poison_slots-Kept}
use owtf.Worker.Control.{
  Called, at_worker, signalled, poison_slots, set_paused, get_worker_dict, create_worker,
  delete_worker, pause_worker, resume_worker, pause_all_workers, resume_all_workers, abort_worker,
  clean_up, exit, join_workers, poison_pill_to_workers,
}

All-get_elem? :
    (P : Slot → Type 0) (ss : List Slot) (k : ℕ) (s : Slot)
    → get_elem? ss k ≡ some s
    → All P ss
    → P s
All-get_elem? P [] k s e h = absurd (cc)
All-get_elem? P (t ∷ ss) zero s e h = subst P (let same : t ≡ s = ground arith in same) h.0
All-get_elem? P (t ∷ ss) (suc k) s e h = All-get_elem? P ss k s e h.1

All-erase_idx : (P : Slot → Type 0) (ss : List Slot) (k : ℕ) → All P ss → All P (erase_idx ss k)
All-erase_idx P [] k h = h
All-erase_idx P (t ∷ ss) zero h = h.1
All-erase_idx P (t ∷ ss) (suc k) h = (h.0, All-erase_idx P ss k h.1)

-- The worker that `get_worker_dict` finds stands in the list at its place.
get_worker_dict-found :
    {works : Table Work} (i : ℕ) (m : Manager works) (t : ℕ × Slot)
    → get_worker_dict i m ≡ ok t
    → get_elem? m.workers t.0 ≡ some t.1
unfolding get_worker_dict
get_worker_dict-found i m t e = ground arith

module _ {works : Table Work} where
  same_targets :
      (m m' : Manager works)
      → targets_in_use m'.workers ≡ targets_in_use m.workers
      → All IsHonest m'.workers
      → IsValid m.workers
      → IsValid m'.workers
  same_targets m m' e h v = record { different = rw e v.different; honest = h }

  create_worker-IsValid :
      (w : Process) (m : Manager works) → IsValid m.workers → IsValid (create_worker w m).workers
  unfolding create_worker spawn_worker targets_in_use
  create_worker-IsValid w m v =
      same_targets m (create_worker w m)
        (targets_in_use-append m.workers (fresh_slot w ∷ []) ∙ append-nil _)
        (All-append IsHonest m.workers (fresh_slot w ∷ []) v.honest (refl, tt)) v

  -- A change that is made when the signals return.
  signalled-IsValid :
      (out : Bool × List Event) (m changed : Manager works)
      → IsValid changed.workers
      → IsValid m.workers
      → IsValid (signalled out m changed).1.workers
  signalled-IsValid (true, events) m changed c v = c
  signalled-IsValid (false, events) m changed c v = v

  at_worker-IsValid :
      (i : ℕ) (m : Manager works) (f : ℕ × Slot → Called works)
      → ((t : ℕ × Slot) → get_elem? m.workers t.0 ≡ some t.1 → IsValid (f t).1.workers)
      → IsValid m.workers
      → IsValid (at_worker i m f).1.workers
  at_worker-IsValid i m f k v = elim (Result-cases (get_worker_dict i m)) [
    | inl (t, found) ↦ rw (at_worker, found) (k t (get_worker_dict-found i m t found))
    | inr (raised, e) ↦ rw (at_worker, e) v
  ]

  set_paused-IsValid :
      (b : Bool) (k : ℕ) (s : Slot) (m : Manager works)
      → get_elem? m.workers k ≡ some s
      → IsValid m.workers
      → IsValid (set m.workers k (set_paused b s))
  set_paused-IsValid b k s m here v = record {
    different = rw (targets_in_use-set m.workers k s (set_paused b s) here refl) v.different;
    honest =
        All-set IsHonest m.workers k _ (All-get_elem? IsHonest m.workers k s here v.honest)
          v.honest;
  }

  erased-IsValid :
      (k : ℕ) (s : Slot) (m : Manager works)
      → get_elem? m.workers k ≡ some s
      → s.busy ≡ false
      → IsValid m.workers
      → IsValid (erase_idx m.workers k)
  erased-IsValid k s m here idle v =
      let honest = All-get_elem? IsHonest m.workers k s here v.honest in
      let no_work : s.work ≡ none = ground (arith, honest) in
      record {
        different = rw (targets_in_use-erase_idle m.workers k s here no_work) v.different;
        honest = All-erase_idx IsHonest m.workers k v.honest;
      }

  module _ (host : Host) (m : Manager works) (v : IsValid m.workers) where
    delete_worker-IsValid : (i : ℕ) → IsValid (delete_worker host i m).1.workers
    unfolding delete_worker
    delete_worker-IsValid i =
        at_worker-IsValid i m _
          (λ t here. elim (Bool-cases t.1.busy) [
            | inl busy ↦ rw busy v
            | inr idle ↦ rw idle (signalled-IsValid _ m _ (erased-IsValid t.0 t.1 m here idle v) v)
          ])
          v

    pause_worker-IsValid : (i : ℕ) → IsValid (pause_worker host i m).1.workers
    unfolding pause_worker
    pause_worker-IsValid i =
        at_worker-IsValid i m _
          (λ t here. elim (Bool-cases t.1.paused) [
            | inl already ↦ rw already v
            | inr running ↦
                rw running (signalled-IsValid _ m _ (set_paused-IsValid true t.0 t.1 m here v) v)
          ])
          v

    resume_worker-IsValid : (i : ℕ) → IsValid (resume_worker host i m).1.workers
    unfolding resume_worker
    resume_worker-IsValid i =
        at_worker-IsValid i m _
          (λ t here. elim (Bool-cases t.1.paused) [
            | inl stopped ↦
                rw stopped (signalled-IsValid _ m _ (set_paused-IsValid false t.0 t.1 m here v) v)
            | inr running ↦ rw running v
          ])
          v

    abort_worker-IsValid : (i : ℕ) → IsValid (abort_worker host i m).1.workers
    unfolding abort_worker
    abort_worker-IsValid i = at_worker-IsValid i m _ (λ t here. signalled-IsValid _ m m v v) v

clean_up-IsValid :
    {works : Table Work} (host : Host) (m : Manager works)
    → IsValid m.workers
    → IsValid (clean_up host m).1.workers
unfolding clean_up join_workers poison_pill_to_workers
clean_up-IsValid host m v =
    let poisoned = Kept-IsValid _ _ (poison_slots-Kept host m.workers) v in
    elim (Bool-cases (poison_slots host m.workers).0) [
      | inl goes ↦ rw (clean_up, goes) poisoned
      | inr gone ↦ rw (clean_up, gone) poisoned
    ]

module _ (works : Table Work) (target_of : Work → Target) (plugin_of : Work → Plugin) where
  -- One call of a method of the manager, whether it returns or raises, with the processes as they are
  -- at the call.
  pub data Step (m : Manager works) (m' : Manager works) : Type 0 where
    manage :
        (obs : ℕ → Observation) → m' ≡ manage_workers works target_of plugin_of obs m → Step m m'
    create : (w : Process) → m' ≡ create_worker w m → Step m m'
    delete : (host : Host) (i : ℕ) → m' ≡ (delete_worker host i m).1 → Step m m'
    pause : (host : Host) (i : ℕ) → m' ≡ (pause_worker host i m).1 → Step m m'
    resume : (host : Host) (i : ℕ) → m' ≡ (resume_worker host i m).1 → Step m m'
    abort : (host : Host) (i : ℕ) → m' ≡ (abort_worker host i m).1 → Step m m'
    pause_all : (host : Host) → m' ≡ (pause_all_workers host m).1 → Step m m'
    resume_all : (host : Host) → m' ≡ (resume_all_workers host m).1 → Step m m'
    clean : (host : Host) → m' ≡ (clean_up host m).1 → Step m m'
    leave : (host : Host) → m' ≡ (exit host m).1 → Step m m'
    -- jobs come and go in the queue behind the manager's back, by `owtf.Worklist`
    enqueue : (q : works.State) → m' ≡ record m { queue = q } → Step m m'

  pub data Reach (m : Manager works) : Manager works → Type 0 where
    here : Reach m m
    next : {a b : Manager works} → Reach m a → Step a b → Reach m b

  module _ (target_id : (w : Work) → (target_of w).id ≡ w.target_id) where
    Step-IsValid : (a b : Manager works) → Step a b → IsValid a.workers → IsValid b.workers
    unfolding pause_all_workers resume_all_workers exit
    Step-IsValid a b (manage obs e) v =
        rw e (manage_workers-IsValid works target_of plugin_of target_id obs a v)
    Step-IsValid a b (create w e) v = rw e (create_worker-IsValid w a v)
    Step-IsValid a b (delete host i e) v = rw e (delete_worker-IsValid host a v i)
    Step-IsValid a b (pause host i e) v = rw e (pause_worker-IsValid host a v i)
    Step-IsValid a b (resume host i e) v = rw e (resume_worker-IsValid host a v i)
    Step-IsValid a b (abort host i e) v = rw e (abort_worker-IsValid host a v i)
    Step-IsValid a b (pause_all host e) v =
        rw e (Kept-IsValid _ _ (pause_slots-Kept host a.workers) v)
    Step-IsValid a b (resume_all host e) v =
        rw e (Kept-IsValid _ _ (resume_slots-Kept host a.workers) v)
    Step-IsValid a b (clean host e) v = rw e (clean_up-IsValid host a v)
    Step-IsValid a b (leave host e) v = rw e v
    Step-IsValid a b (enqueue q e) v = rw e v

    -- In every state that calls of the manager's methods reach from a valid one, in any order, whether
    -- they return or raise, and whatever the processes and the queue do in between, no two workers work
    -- on one target, and a worker is marked busy just when it has work.
    pub Reach-IsValid : (a b : Manager works) → Reach a b → IsValid a.workers → IsValid b.workers
    Reach-IsValid a b here v = v
    Reach-IsValid a b (next {a = mid} r st) v = Step-IsValid mid b st (Reach-IsValid a mid r v)
