-- ===== src/Worklist/Switches.antt =====
-- The switches of owtf/managers/worklist.py: jobs paused, resumed, stopped and removed, and what
-- the next fetch sees of it.

use owtf.Base.{
  ℕ, ◌≡◌, refl, sym, ap, ◌∙◌, ◌⊎◌, inl, inr, Bool, true, false, beq, ◌||◌, Option, none, some, List,
  [], ◌∷◌, map, arith, str_eq, ◌==◌, Bool-cases, Option-cases, reject, map_where, find_first, All,
  mem_nat, mem_str, find_first-Hit,
}
use mathlib.Core.Path.{subst}
use owtf.Db.Table.{Table}
use owtf.Db.Models.{Work, Plugin, Target}
use owtf.Exceptions.{ok, err, invalid_work_reference}
use owtf.Worklist.{
  has_id, is_eligible, set_active, get_work, get_work_for_target, remove_work, patch_work,
  pause_all_work, resume_all_work, stop_plugins, stop_targets, derive_work_dict,
}
use owtf.Worklist.Take.{get_work_for_target-none}

-- One pass over the rows that switches off what a test selects.
abbrev pub stopped : (Work → Bool) → List Work → List Work
stopped p = map_where p (set_active false)

stopped-stopped :
    (p q : Work → Bool) (ws : List Work)
    → ((w : Work) → q (set_active false w) ≡ q w)
    → stopped q (stopped p ws) ≡ stopped (λ w. p w || q w) ws
stopped-stopped p q [] h = refl
stopped-stopped p q (w ∷ ws) h = ground (arith, stopped-stopped p q ws h, h w)

All-inactive :
    (in_use : List ℕ) (ws : List Work)
    → All (λ w. is_eligible in_use w ≡ false) (stopped (λ _. true) ws)
All-inactive in_use [] = tt
All-inactive in_use (w ∷ ws) = (refl, All-inactive in_use ws)

resumed-stopped :
    (ws : List Work)
    → map_where (λ _. true) (set_active true) (stopped (λ _. true) ws) ≡ map (set_active true) ws
resumed-stopped [] = refl
resumed-stopped (w ∷ ws) = ap (λ l. set_active true w ∷ l) (resumed-stopped ws)

stopped_none : (p : Work → Bool) (ws : List Work) → ((w : Work) → p w ≡ false) → stopped p ws ≡ ws
stopped_none p [] h = refl
stopped_none p (w ∷ ws) h = ground (arith, stopped_none p ws h, h w)

module _ (works : Table Work) where
  -- `stop_plugins`, an update for each plugin, is one pass that switches off the jobs of the
  -- given plugins and leaves every other job as it is.
  pub stop_plugins_lem :
      (ps : List Plugin) (s : works.State)
      → works.rows (stop_plugins works ps s)
        ≡ stopped (λ w. mem_str w.plugin_key (map (λ p. p.key) ps)) (works.rows s)
  unfolding stop_plugins
  stop_plugins_lem [] s = sym (stopped_none (λ _. false) (works.rows s) (λ _. refl))
  stop_plugins_lem (p ∷ ps) s =
      stop_plugins_lem ps _
      ∙ rw works.rows-update (
          stopped-stopped (λ w. str_eq w.plugin_key p.key)
            (λ w. mem_str w.plugin_key (map (λ q. q.key) ps)) (works.rows s) (λ _. refl))

  -- The same of `stop_targets`, by target.
  pub stop_targets_lem :
      (ts : List Target) (s : works.State)
      → works.rows (stop_targets works ts s)
        ≡ stopped (λ w. mem_nat w.target_id (map (λ t. t.id) ts)) (works.rows s)
  unfolding stop_targets
  stop_targets_lem [] s = sym (stopped_none (λ _. false) (works.rows s) (λ _. refl))
  stop_targets_lem (t ∷ ts) s =
      stop_targets_lem ts _
      ∙ rw works.rows-update (
          stopped-stopped (λ w. w.target_id == t.id) (λ w. mem_nat w.target_id (map (λ q. q.id) ts))
            (works.rows s) (λ _. refl))

  -- Resuming after a pause makes every job active, and changes nothing else of it.
  pub resume_all_work-pause_all_work :
      (s : works.State)
      → works.rows (resume_all_work works (pause_all_work works s))
        ≡ map (set_active true) (works.rows s)
  unfolding resume_all_work pause_all_work
  resume_all_work-pause_all_work s =
      rw (works.rows-update, works.rows-update) (resumed-stopped (works.rows s))

  module _ (target_of : Work → Target) (plugin_of : Work → Plugin) where
    -- While all work is paused no job is handed out, and the table stays.
    pub get_work_for_target-pause_all_work :
        (in_use : List ℕ) (s : works.State)
        → get_work_for_target works target_of plugin_of in_use (pause_all_work works s)
          ≡ (none, pause_all_work works s)
    get_work_for_target-pause_all_work in_use s =
        (get_work_for_target-none works target_of plugin_of in_use (pause_all_work works s)).1
          (unfold pause_all_work in rw works.rows-update (All-inactive in_use (works.rows s)))

-- The row that an id finds, after an update or a removal of that id.
find_after_update :
    (n : ℕ) (f : Work → Work) (ws : List Work) (w : Work)
    → ((v : Work) → has_id n (f v) ≡ has_id n v)
    → find_first (has_id n) ws ≡ some w
    → find_first (has_id n) (map_where (has_id n) f ws) ≡ some (f w)
find_after_update n f [] w h e = absurd (cc)
find_after_update n f (v ∷ ws) w h e = ground (arith, find_after_update n f ws w h, h v)

find_after_delete : (n : ℕ) (ws : List Work) → find_first (has_id n) (reject (has_id n) ws) ≡ none
find_after_delete n [] = refl
find_after_delete n (v ∷ ws) = ground (arith, find_after_delete n ws)

found-has_id : (n : ℕ) (ws : List Work) (w : Work) → find_first (has_id n) ws ≡ some w → w.id ≡ n
found-has_id n ws w e = let hit = find_first-Hit (has_id n) w ws e in ground (arith, hit.holds)

module _ (works : Table Work) (target_of : Work → Target) (plugin_of : Work → Plugin) where
  abbrev row_of : ℕ → works.State → Option Work
  row_of n s = find_first (has_id n) (works.rows s)

  -- A job that was removed is no longer found, and removing an unknown id is an error, which
  -- `get_work` reports too.
  pub get_work-remove_work :
      (n : ℕ) (s s' : works.State)
      → remove_work works n s ≡ ok s'
      → get_work works target_of plugin_of n s' ≡ err invalid_work_reference
  unfolding remove_work get_work
  get_work-remove_work n s s' e = elim (Option-cases (row_of n s)) [
    | inl missing ↦ absurd (ground arith)
    | inr (w, found) ↦
        let same = found-has_id n (works.rows s) w found in
        let gone : works.delete (has_id w.id) s ≡ s' = ground arith in
        let none_left : row_of n s' ≡ none =
          subst (λ t. row_of n t ≡ none) gone
            (rw (same, works.rows-delete) (find_after_delete n (works.rows s))) in
        rw (none_left, get_work)
  ]

  -- A patched job is found again with the activity that was asked for, and is otherwise as it was.
  pub get_work-patch_work :
      (n : ℕ) (active : Bool) (s s' : works.State)
      → patch_work works n active s ≡ ok s'
      → (w : Work) × (get_work works target_of plugin_of n s
          ≡ ok (derive_work_dict works target_of plugin_of w))
        × (get_work works target_of plugin_of n s'
            ≡ ok (derive_work_dict works target_of plugin_of (set_active active w)))
  unfolding patch_work get_work
  get_work-patch_work n active s s' e = elim (Option-cases (row_of n s)) [
    | inl missing ↦ absurd (ground arith)
    | inr (w, found) ↦
        let same = found-has_id n (works.rows s) w found in
        (w, rw (found, get_work), patched w found same (Bool-cases (beq active w.active)))
  ]
    where
      patched :
          (w : Work)
          → row_of n s ≡ some w
          → w.id ≡ n
          → (beq active w.active ≡ true) ⊎ (beq active w.active ≡ false)
          → get_work works target_of plugin_of n s'
            ≡ ok (derive_work_dict works target_of plugin_of (set_active active w))
      patched w found same (inl equal) =
          let stays : s ≡ s' = ground arith in
          let still : set_active active w ≡ w = ground arith in
          rw (← stays, found, get_work)
            (ap (λ v. ok (derive_work_dict works target_of plugin_of v)) (sym still))
      patched w found same (inr new) =
          let by_row : works.update (has_id w.id) (set_active active) s ≡ s' = ground arith in
          let moved : works.update (has_id n) (set_active active) s ≡ s' = rw same at by_row in
          let row : row_of n s' ≡ some (set_active active w) =
            subst (λ t. row_of n t ≡ some (set_active active w)) moved
              (rw works.rows-update
                (find_after_update n (set_active active) (works.rows s) w (λ v. refl) found)) in
          rw (row, get_work)
