-- ===== src/Worker/Slots.antt =====
-- The targets in use (owtf/managers/worker.py, `targets_in_use`) when one worker changes.

use owtf.Base.{
  ℕ, zero, suc, ◌≡◌, refl, sym, ◌≢◌, inl, inr, false, none, some, List, [], ◌∷◌, ◌++◌, map, arith,
  Option-cases, get_elem?, set, erase_idx, All, mem_nat, Distinct,
}
use owtf.Worker.Pool.{Slot, Job, targets_in_use}

abbrev pub NotIn : ℕ → List ℕ → Type 0
NotIn n = All (λ m. n ≢ m)

pub mem_nat-NotIn : (n : ℕ) (ns : List ℕ) → mem_nat n ns ≡ false → NotIn n ns
mem_nat-NotIn n [] e = tt
mem_nat-NotIn n (m ∷ ns) e = (ground arith, mem_nat-NotIn n ns (ground arith))

abbrev pub AllDifferent : List ℕ → Type 0
AllDifferent = Distinct (λ n. n)

-- A slot with no work uses no target.
pub NotIn-set_idle :
    (n : ℕ) (ss : List Slot) (k : ℕ) (s : Slot)
    → s.work ≡ none
    → NotIn n (targets_in_use ss)
    → NotIn n (targets_in_use (set ss k s))
unfolding targets_in_use
NotIn-set_idle n [] k s e h = h
NotIn-set_idle n (t ∷ ss) zero s e h = elim (Option-cases t.work) [
  | inl idle ↦ rw e (rw idle at h)
  | inr (j, works) ↦ rw e ((rw works at h).1)
]
NotIn-set_idle n (t ∷ ss) (suc k) s e h = elim (Option-cases t.work) [
  | inl idle ↦ rw idle (NotIn-set_idle n ss k s e (rw idle at h))
  | inr (j, works) ↦
      let h' : (n ≢ j.0.id) × NotIn n (targets_in_use ss) = rw works at h in
      rw works (h'.0, NotIn-set_idle n ss k s e h'.1)
]

pub AllDifferent-set_idle :
    (ss : List Slot) (k : ℕ) (s : Slot)
    → s.work ≡ none
    → AllDifferent (targets_in_use ss)
    → AllDifferent (targets_in_use (set ss k s))
unfolding targets_in_use
AllDifferent-set_idle [] k s e h = h
AllDifferent-set_idle (t ∷ ss) zero s e h = elim (Option-cases t.work) [
  | inl idle ↦ rw e (rw idle at h)
  | inr (j, works) ↦ rw e ((rw works at h).1)
]
AllDifferent-set_idle (t ∷ ss) (suc k) s e h = elim (Option-cases t.work) [
  | inl idle ↦ rw idle (AllDifferent-set_idle ss k s e (rw idle at h))
  | inr (j, works) ↦
      let h' : NotIn j.0.id (targets_in_use ss) × AllDifferent (targets_in_use ss) =
        rw works at h in
      rw works (NotIn-set_idle j.0.id ss k s e h'.0, AllDifferent-set_idle ss k s e h'.1)
]

-- An idle slot that takes a job on a new target.
NotIn-set_job :
    (n : ℕ) (ss : List Slot) (k : ℕ) (s : Slot) (j : Job)
    → s.work ≡ some j
    → n ≢ j.0.id
    → NotIn n (targets_in_use ss)
    → NotIn n (targets_in_use (set ss k s))
unfolding targets_in_use
NotIn-set_job n [] k s j e d h = h
NotIn-set_job n (t ∷ ss) zero s j e d h = elim (Option-cases t.work) [
  | inl idle ↦ rw e (d, rw idle at h)
  | inr (i, works) ↦ rw e (d, (rw works at h).1)
]
NotIn-set_job n (t ∷ ss) (suc k) s j e d h = elim (Option-cases t.work) [
  | inl idle ↦ rw idle (NotIn-set_job n ss k s j e d (rw idle at h))
  | inr (i, works) ↦
      let h' : (n ≢ i.0.id) × NotIn n (targets_in_use ss) = rw works at h in
      rw works (h'.0, NotIn-set_job n ss k s j e d h'.1)
]

pub AllDifferent-set_job :
    (ss : List Slot) (k : ℕ) (s : Slot) (j : Job)
    → s.work ≡ some j
    → NotIn j.0.id (targets_in_use ss)
    → AllDifferent (targets_in_use ss)
    → AllDifferent (targets_in_use (set ss k s))
unfolding targets_in_use
AllDifferent-set_job [] k s j e d h = h
AllDifferent-set_job (t ∷ ss) zero s j e d h = elim (Option-cases t.work) [
  | inl idle ↦ rw e (rw idle at d, rw idle at h)
  | inr (i, works) ↦ rw e ((rw works at d).1, (rw works at h).1)
]
AllDifferent-set_job (t ∷ ss) (suc k) s j e d h = elim (Option-cases t.work) [
  | inl idle ↦ rw idle (AllDifferent-set_job ss k s j e (rw idle at d) (rw idle at h))
  | inr (i, works) ↦
      let h' : NotIn i.0.id (targets_in_use ss) × AllDifferent (targets_in_use ss) =
        rw works at h in
      let d' : (j.0.id ≢ i.0.id) × NotIn j.0.id (targets_in_use ss) = rw works at d in
      rw works (
        NotIn-set_job i.0.id ss k s j e (λ p. d'.0 (sym p)) h'.0,
        AllDifferent-set_job ss k s j e d'.1 h'.1,
      )
]

-- Changes of a slot that leave its work alone leave the targets in use alone.
pub targets_in_use-set :
    (ss : List Slot) (k : ℕ) (s s' : Slot)
    → get_elem? ss k ≡ some s
    → s'.work ≡ s.work
    → targets_in_use (set ss k s') ≡ targets_in_use ss
unfolding targets_in_use
targets_in_use-set [] k s s' e w = refl
targets_in_use-set (t ∷ ss) zero s s' e w = ground arith
targets_in_use-set (t ∷ ss) (suc k) s s' e w = ground (arith, targets_in_use-set ss k s s' e w)

pub targets_in_use-map :
    (f : Slot → Slot) (ss : List Slot)
    → ((s : Slot) → (f s).work ≡ s.work)
    → targets_in_use (map f ss) ≡ targets_in_use ss
unfolding targets_in_use
targets_in_use-map f [] h = refl
targets_in_use-map f (t ∷ ss) h = ground (arith, targets_in_use-map f ss h, h t)

pub targets_in_use-erase_idle :
    (ss : List Slot) (k : ℕ) (s : Slot)
    → get_elem? ss k ≡ some s
    → s.work ≡ none
    → targets_in_use (erase_idx ss k) ≡ targets_in_use ss
unfolding targets_in_use
targets_in_use-erase_idle [] k s e w = refl
targets_in_use-erase_idle (t ∷ ss) zero s e w = ground arith
targets_in_use-erase_idle (t ∷ ss) (suc k) s e w =
    ground (arith, targets_in_use-erase_idle ss k s e w)

pub targets_in_use-append :
    (ss ts : List Slot) → targets_in_use (ss ++ ts) ≡ targets_in_use ss ++ targets_in_use ts
unfolding targets_in_use
targets_in_use-append [] ts = refl
targets_in_use-append (s ∷ ss) ts = ground (arith, targets_in_use-append ss ts)
