-- ===== src/Worklist/Add.antt =====
-- `add_work` of owtf/managers/worklist.py: what one step of its loops does to the jobs.
pub mod Complete
pub mod Unique
use owtf.Base.{
  ℕ, String, ◌≡◌, refl, sym, ap, ◌∙◌, ◌⊎◌, inl, inr, Bool, true, false, ◌&&◌, ◌||◌, Option, none,
  some, List, [], ◌∷◌, ◌++◌, arith, str_eq, str_eq_comm, eq_iff, ◌==◌, if◌then◌else◌, Bool-cases,
  any, any-append, All, Pairs, All-append,
}
use owtf.Base.Int.{ℤ}
use owtf.Base.Sorting.{sorted_reverse, sorted_reverse-Pairs}
use owtf.Db.Table.{Table}
use owtf.Db.Files.{Files}
use owtf.Db.Models.{Work, Plugin, PluginOutput, Target}
use owtf.Exceptions.{Result, ok, err, key_error, ◌>>=◌, Result-cases}
use owtf.Poutput.{plugin_already_run, delete_all_poutput}
use owtf.Worklist.{
  Jobs, Adding, is_job, new_work, in_worklist, flush, key_filter, add_one, add_plugins, add_targets,
  add_work,
}
use owtf.Worklist.Priority.{group_sort_order, key_of, is_known}

-- No two rows are of the same target and plugin: the table's unique constraint.
abbrev pub IsUnique : List Work → Type 0
IsUnique = Pairs (λ a b. is_job b.target_id b.plugin_key a ≡ false)

any-false : (p : Work → Bool) (ws : List Work) → any p ws ≡ false → All (λ w. p w ≡ false) ws
any-false p [] e = tt
any-false p (w ∷ ws) e = (ground arith, any-false p ws (ground arith))

IsUnique-snoc :
    (ws : List Work) (w : Work)
    → IsUnique ws
    → All (λ a. is_job w.target_id w.plugin_key a ≡ false) ws
    → IsUnique (ws ++ w ∷ [])
IsUnique-snoc [] w u h = (tt, tt)
IsUnique-snoc (v ∷ ws) w u h = (All-append _ ws (w ∷ []) u.0 (h.0, tt), IsUnique-snoc ws w u.1 h.1)

-- No target, and no plugin, is given twice.
abbrev pub HasOwnIds : List Target → Type 0
HasOwnIds = Pairs (λ t u. (t.id == u.id) ≡ false)

abbrev pub HasOwnKeys : List Plugin → Type 0
HasOwnKeys = Pairs (λ p q. str_eq p.key q.key ≡ false)

module _ (works : Table Work) (outputs : Table PluginOutput) (files : Files)
    (path_of : String → String) (int : String → Option ℤ) where
  abbrev J : Type 0
  J = Jobs works outputs files

  abbrev A : Type 0
  A = Adding works outputs files path_of int

  abbrev queued : ℕ → String → J → Bool
  queued = in_worklist works outputs files path_of int

  abbrev pub is_pending : ℕ → String → A → Bool
  is_pending i k a = elim a.pending [ none ↦ false | some (j, l) ↦ j == i && str_eq l k ]

  -- Among the rows, or pending.
  abbrev pub holds : ℕ → String → A → Bool
  holds i k a = in_worklist works outputs files path_of int i k a.jobs || is_pending i k a

  -- A flush that returns makes the pending row one of the rows.
  pub flush-holds :
      (a : A) (s : J)
      → flush works outputs files path_of int a ≡ ok s
      → (i : ℕ) (k : String) → queued i k s ≡ holds i k a
  unfolding flush in_worklist
  flush-holds a s e i k = go a.pending refl
    where
      go : (o : Option (ℕ × String)) → a.pending ≡ o → queued i k s ≡ holds i k a
      go none p =
          let same : a.jobs ≡ s = let f = rw (flush, p) at e in ground arith in
          rw (p, ← same) (ground arith)
      go (some (j, l)) p = elim (Bool-cases (queued j l a.jobs)) [
        | inl there ↦ absurd (let f = rw (flush, p, there) at e in cc)
        | inr free ↦
            let f = rw (flush, p, free) at e in
            let rows : works.add (new_work j l) a.jobs.queue ≡ s.queue = ground arith in
            rw (p, ← rows, works.rows-add, any-append (is_job i k) (works.rows a.jobs.queue))
              (ground arith)
      ]

  flush-produced :
      (a : A) (s : J)
      → flush works outputs files path_of int a ≡ ok s
      → s.produced ≡ a.jobs.produced
  unfolding flush
  flush-produced a s e = go a.pending refl
    where
      go : (o : Option (ℕ × String)) → a.pending ≡ o → s.produced ≡ a.jobs.produced
      go none p = let f = rw (flush, p) at e in ground arith
      go (some (j, l)) p = elim (Bool-cases (queued j l a.jobs)) [
        | inl there ↦ absurd (let f = rw (flush, p, there) at e in cc)
        | inr free ↦ let f = rw (flush, p, free) at e in ground arith
      ]

  -- The outputs of one plugin can always be deleted.
  pub deletes :
      (t : Target) (p : Plugin) (s : J)
      → delete_all_poutput outputs files path_of int
          (key_filter works outputs files path_of int p.key)
          (some t.id)
          s.produced
        ≡ (
          ok tt,
          (delete_all_poutput outputs files path_of int
              (key_filter works outputs files path_of int p.key)
              (some t.id)
              s.produced).1,
        )
  unfolding delete_all_poutput owtf.Poutput.delete_query owtf.Poutput.Criteria.poutput_gen_query
      owtf.Poutput.Criteria.rank_filter owtf.Poutput.Criteria.bound
  deletes t p s = refl
