-- ===== src/Worker/Control/Loops.antt =====
-- What the loops of `WorkerManager` (owtf/managers/worker.py) over all workers leave, also where an
-- exception ends them.

use owtf.Base.{
  ℕ, ◌≡◌, refl, ◌≢◌, ◌∙◌, inl, inr, none, ◌⊎◌, List, [], ◌∷◌, Bool-cases, Option-cases, All,
}
use owtf.Process.{Host, sigstop, sigcont, signal_process}
use owtf.Worker.Pool.{Slot, targets_in_use}
use owtf.Worker.Slots.{NotIn, AllDifferent}
use owtf.Worker.Exclusive.{IsHonest, IsValid}
use owtf.Worker.Control.{signal_both, pause_slots, resume_slots, poison_slots}

-- The slots after a loop over them: each has the job that it had, or has lost it, and its flag tells
-- whether it has one.
abbrev pub Keeps : Slot → Slot → Type 0
Keeps s t = IsHonest s → IsHonest t × ((t.work ≡ none) ⊎ (t.work ≡ s.work))

abbrev pub Kept : List Slot → List Slot → Type 0
Kept [] [] = Unit
Kept (s ∷ ss) (t ∷ ts) = Keeps s t × Kept ss ts
Kept _ _ = ⊥

Keeps-refl : (s : Slot) → Keeps s s
Keeps-refl s h = (h, inr refl)

Kept-refl : (ss : List Slot) → Kept ss ss
Kept-refl [] = tt
Kept-refl (s ∷ ss) = (Keeps-refl s, Kept-refl ss)

NotIn-rest :
    (n : ℕ) (s : Slot) (ss : List Slot)
    → NotIn n (targets_in_use (s ∷ ss))
    → NotIn n (targets_in_use ss)
unfolding targets_in_use
NotIn-rest n s ss free = elim (Option-cases s.work) [
  | inl idle ↦ rw idle at free
  | inr (j, works) ↦ (rw works at free).1
]

Kept-NotIn :
    (n : ℕ) (ss ts : List Slot)
    → Kept ss ts
    → All IsHonest ss
    → NotIn n (targets_in_use ss)
    → NotIn n (targets_in_use ts)
unfolding targets_in_use
Kept-NotIn n [] [] k h free = tt
Kept-NotIn n [] (t ∷ ts) k h free = absurd k
Kept-NotIn n (s ∷ ss) [] k h free = absurd k
Kept-NotIn n (s ∷ ss) (t ∷ ts) k h free = elim (k.0 h.0).1 [
  | inl lost ↦ rw lost (Kept-NotIn n ss ts k.1 h.1 (NotIn-rest n s ss free))
  | inr same ↦ elim (Option-cases s.work) [
    | inl none_here ↦ rw (same, none_here) (Kept-NotIn n ss ts k.1 h.1 (NotIn-rest n s ss free))
    | inr (j, works) ↦
        let other : n ≢ j.0.id = (rw works at free).0 in
        rw (same, works) (other, Kept-NotIn n ss ts k.1 h.1 (NotIn-rest n s ss free))
  ]
]

pub Kept-IsValid : (ss ts : List Slot) → Kept ss ts → IsValid ss → IsValid ts
unfolding targets_in_use
Kept-IsValid [] [] k v = v
Kept-IsValid [] (t ∷ ts) k v = absurd k
Kept-IsValid (s ∷ ss) [] k v = absurd k
Kept-IsValid (s ∷ ss) (t ∷ ts) k v =
    let honest : IsHonest t × ((t.work ≡ none) ⊎ (t.work ≡ s.work)) = k.0 v.honest.0 in
    elim (Option-cases s.work) [
      | inl idle ↦
          let rest : IsValid ts =
            Kept-IsValid ss ts k.1
              (record { different = rw idle at v.different; honest = v.honest.1 }) in
          let gone : t.work ≡ none = elim honest.1 [ inl lost ↦ lost | inr same ↦ same ∙ idle ] in
          record { different = rw gone rest.different; honest = (honest.0, rest.honest) }
      | inr (j, works) ↦
          let was : NotIn j.0.id (targets_in_use ss) × AllDifferent (targets_in_use ss) =
            rw works at v.different in
          let rest : IsValid ts =
            Kept-IsValid ss ts k.1 (record { different = was.1; honest = v.honest.1 }) in
          elim honest.1 [
            | inl lost ↦ record {
              different = rw lost rest.different;
              honest = (honest.0, rest.honest);
            }
            | inr same ↦ record {
              different =
                  rw (same, works) (Kept-NotIn j.0.id ss ts k.1 v.honest.1 was.0, rest.different);
              honest = (honest.0, rest.honest);
            }
          ]
    ]

module _ (host : Host) where
  pub pause_slots-Kept : (ss : List Slot) → Kept ss (pause_slots host ss).1
  unfolding pause_slots
  pause_slots-Kept [] = tt
  pause_slots-Kept (s ∷ ss) = elim (Bool-cases s.paused) [
    | inl h ↦ rw h (Keeps-refl s, pause_slots-Kept ss)
    | inr h ↦ elim (Bool-cases (signal_both host sigstop s).0) [
      | inl goes ↦ rw (h, goes) (Keeps-refl s, pause_slots-Kept ss)
      | inr gone ↦ rw (h, gone) (Keeps-refl s, Kept-refl ss)
    ]
  ]

  pub resume_slots-Kept : (ss : List Slot) → Kept ss (resume_slots host ss).1
  unfolding resume_slots
  resume_slots-Kept [] = tt
  resume_slots-Kept (s ∷ ss) = elim (Bool-cases s.paused) [
    | inl h ↦ elim (Bool-cases (signal_both host sigcont s).0) [
      | inl goes ↦ rw (h, goes) (Keeps-refl s, resume_slots-Kept ss)
      | inr gone ↦ rw (h, gone) (Keeps-refl s, Kept-refl ss)
    ]
    | inr h ↦ rw h (Keeps-refl s, resume_slots-Kept ss)
  ]

  pub poison_slots-Kept : (ss : List Slot) → Kept ss (poison_slots host ss).1
  unfolding poison_slots
  poison_slots-Kept [] = tt
  poison_slots-Kept (s ∷ ss) = elim (Bool-cases s.busy) [
    | inl busy ↦ elim (Bool-cases s.paused) [
      | inl stopped ↦ elim (Bool-cases (signal_process host s.worker.pid sigcont).0) [
        | inl goes ↦ rw (busy, stopped, goes) ((λ h. (refl, inl refl)), poison_slots-Kept ss)
        | inr gone ↦ rw (busy, stopped, gone) ((λ h. (h, inr refl)), Kept-refl ss)
      ]
      | inr running ↦ rw (busy, running) ((λ h. (refl, inl refl)), poison_slots-Kept ss)
    ]
    | inr idle ↦ rw idle ((λ h. (h, inr refl)), poison_slots-Kept ss)
  ]
