-- ===== src/Worklist/Take.antt =====
-- `get_work_for_target` of owtf/managers/worklist.py: which job is handed out, and when none is.

use owtf.Base.{
  ℕ, ◌≡◌, ◌↔◌, inl, inr, true, false, none, some, List, ◌∷◌, ◌++◌, arith, Option-cases, find_first,
  All, mem_nat, find_first-Hit, find_first-none, Distinct, reject-one,
}
use mathlib.Core.Path.{subst}
use owtf.Db.Table.{Table}
use owtf.Db.Models.{Work, Plugin, Target}
use owtf.Worklist.{is_eligible, get_work_for_target, has_id}

module _ (works : Table Work) (target_of : Work → Target) (plugin_of : Work → Plugin) where
  -- `job` is that of the first eligible row, which is the only one that has left the table.
  pub record IsTaken (in_use : List ℕ) (s : works.State) (job : Target × Plugin) (s' : works.State)
      : Type 0 where
    pub work : Work
    pub before : List Work
    pub after : List Work
    pub was : works.rows s ≡ before ++ work ∷ after
    pub now : works.rows s' ≡ before ++ after
    pub earlier : All (λ w. is_eligible in_use w ≡ false) before
    pub active : work.active ≡ true
    pub free : mem_nat work.target_id in_use ≡ false
    pub job_of : job ≡ (target_of work, plugin_of work)

  rows_after_delete :
      (w : Work) (before after : List Work) (s : works.State)
      → works.rows s ≡ before ++ w ∷ after
      → Distinct (λ v. v.id) (works.rows s)
      → works.rows (works.delete (has_id w.id) s) ≡ before ++ after
  rows_after_delete w before after s was d =
      rw (works.rows-delete, was) (reject-one (λ v. v.id) before w after (rw was at d))

  -- Where ids are distinct, the job handed out is that of the first active row whose target is
  -- not in use, and exactly that row leaves the table.
  pub get_work_for_target-IsTaken :
      (in_use : List ℕ) (s s' : works.State) (job : Target × Plugin)
      → Distinct (λ w. w.id) (works.rows s)
      → get_work_for_target works target_of plugin_of in_use s ≡ (some job, s')
      → IsTaken in_use s job s'
  unfolding get_work_for_target
  get_work_for_target-IsTaken in_use s s' job d e =
      elim (Option-cases (find_first (is_eligible in_use) (works.rows s))) [
        | inl none_left ↦ absurd (ground arith)
        | inr (w, found) ↦
            let hit = find_first-Hit (is_eligible in_use) w (works.rows s) found in
            record {
              work = w;
              before = hit.before;
              after = hit.after;
              was = hit.split;
              now =
                  subst (λ t. works.rows t ≡ hit.before ++ hit.after)
                    (let gone : works.delete (has_id w.id) s ≡ s' = ground arith in gone)
                    (rows_after_delete w hit.before hit.after s hit.split d);
              earlier = hit.missed;
              active = ground (arith, hit.holds);
              free = ground (arith, hit.holds);
              job_of = ground arith;
            }
      ]

  -- No job is handed out exactly when no row is eligible, and then the table is as it was.
  pub get_work_for_target-none :
      (in_use : List ℕ) (s : works.State)
      → (get_work_for_target works target_of plugin_of in_use s ≡ (none, s))
        ↔ All (λ w. is_eligible in_use w ≡ false) (works.rows s)
  unfolding get_work_for_target
  get_work_for_target-none in_use s =
      let none_first = find_first-none (is_eligible in_use) (works.rows s) in
      (
        λ e. none_first.0 (elim (Option-cases (find_first (is_eligible in_use) (works.rows s))) [
          | inl missing ↦ missing
          | inr (w, found) ↦ absurd (ground arith)
        ]),
        λ h. rw (none_first.1 h, get_work_for_target),
      )
