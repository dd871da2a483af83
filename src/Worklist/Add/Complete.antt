-- ===== src/Worklist/Add/Complete.antt =====
-- After `add_work` every job that was asked for is queued, unless it had already run.
use mathlib.Core.Bool.{Bool-set}
use mathlib.Core.Logic.Or
use mathlib.Core.List.{Mem, mem-cons, not-mem-nil}
use mathlib.Core.Path.{subst}
use mathlib.Core.List.{Perm}
use mathlib.Core.List.Perm
use owtf.Base.{
  String, ◌≡◌, refl, ap, ◌∙◌, if◌then◌else◌, none, inl, inr, Bool, true, false, not, ◌&&◌, ◌||◌,
  Option, some, List, [], ◌∷◌, arith, str_eq, Bool-cases, eq_self, any, All,
}
use owtf.Base.Int.{ℤ}
use owtf.Db.Table.{Table}
use owtf.Db.Files.{Files}
use owtf.Db.Models.{Work, Plugin, PluginOutput, Target}
use owtf.Exceptions.{Result, ok, parts_of_ok, ◌>>=◌}
use owtf.Poutput.{plugin_already_run}
use owtf.Worklist.{
  Jobs, Adding, in_worklist, flush, add_flushed, add_one, add_plugins, add_targets, add_work,
}
use owtf.Worklist.Priority.{group_sort_order, group_sort_order-IsSortedGroup}
use owtf.Worklist.Add.{holds, flush-holds, flush-produced, deletes}

holds_of_mem {ℓ} :
    {A : Type ℓ} (b : A → Bool) (x : A) (xs : List A)
    → All (λ y. b y ≡ true) xs
    → Mem x xs
    → b x ≡ true
holds_of_mem b x [] h m = absurd (not-mem-nil m)
holds_of_mem b x (y ∷ xs) h m =
    Or.elim (Bool-set (b x) true) (mem-cons.0 m) (λ e. rw e h.0) (holds_of_mem b x xs h.1)

module _ (works : Table Work) (outputs : Table PluginOutput) (files : Files)
    (path_of : String → String) (int : String → Option ℤ) (force : Bool) where
  abbrev J : Type 0
  J = Jobs works outputs files

  abbrev A : Type 0
  A = Adding works outputs files path_of int

  abbrev queued : J → Target → Plugin → Bool
  queued s t p = in_worklist works outputs files path_of int t.id p.key s

  abbrev ran : J → Target → Plugin → Bool
  ran s t p = plugin_already_run outputs files p (some t.id) s.produced

  -- Served by the time of `s'`, for a call that began in `s`.
  abbrev pub served : J → J → Target → Plugin → Bool
  served s s' t p = queued s' t p || (not force && ran s t p)

  abbrev held : A → Target → Plugin → Bool
  held a t p = holds works outputs files path_of int t.id p.key a

  -- The same inside the loops, where the last job may be pending.
  abbrev coming : J → A → Target → Plugin → Bool
  coming s a t p = held a t p || (not force && ran s t p)

  -- No job is lost from `a` to `b`, and the outputs are deleted only where that was asked for.
  record IsLater (a b : A) : Type 0 where
    keeps : (t : Target) (p : Plugin) → held a t p ≡ true → held b t p ≡ true
    produced : force ≡ false → b.jobs.produced ≡ a.jobs.produced

  IsLater-refl : (a : A) → IsLater a a
  IsLater-refl a = record { keeps = λ t p h. h; produced = λ h. refl }

  IsLater-trans : (a b c : A) → IsLater a b → IsLater b c → IsLater a c
  IsLater-trans a b c l m = record {
    keeps = λ t p h. m.keeps t p (l.keeps t p h);
    produced = λ asked. m.produced asked ∙ l.produced asked;
  }

  coming-later :
      (s : J) (a b : A) (t : Target) (p : Plugin)
      → IsLater a b
      → coming s a t p ≡ true
      → coming s b t p ≡ true
  coming-later s a b t p l h = elim (Bool-cases (held a t p)) [
    | inl yes_a ↦ rw (l.keeps t p yes_a)
    | inr no_a ↦ ground arith
  ]

  coming-earlier :
      (a b c : A) (t : Target) (p : Plugin)
      → IsLater a b
      → coming b.jobs c t p ≡ true
      → coming a.jobs c t p ≡ true
  coming-earlier a b c t p l h = elim (Bool-cases force) [
    | inl forced ↦ ground arith
    | inr asked ↦ rw (← l.produced asked) h
  ]

  -- After a flush nothing is lost, whatever is pending then.
  flushed-keeps :
      (a b : A) (s : J) (t : Target) (p : Plugin)
      → flush works outputs files path_of int a ≡ ok s
      → b.jobs.queue ≡ s.queue
      → held a t p ≡ true
      → held b t p ≡ true
  unfolding in_worklist
  flushed-keeps a b s t p e q h =
      let now : queued s t p ≡ true =
        flush-holds works outputs files path_of int a s e t.id p.key ∙ h in
      let there : queued b.jobs t p ≡ true = rw q now in rw there

  record IsDone (t : Target) (p : Plugin) (a b : A) : Type 0 where
    later : IsLater a b
    here : coming a.jobs b t p ≡ true

  add_flushed-IsDone :
      (t : Target) (p : Plugin) (a b : A) (s : J)
      → flush works outputs files path_of int a ≡ ok s
      → add_flushed works outputs files path_of int force t p s ≡ ok b
      → IsDone t p a b
  unfolding add_flushed
  add_flushed-IsDone t p a b s flushes e =
      let kept = flush-produced works outputs files path_of int a s flushes in
      elim (Bool-cases force) [
        | inl forced ↦
            let f = rw (add_flushed, forced, deletes works outputs files path_of int t p s) at e in
            let queue : b.jobs.queue ≡ s.queue = ground arith in
            let now : b.pending ≡ some (t.id, p.key) = ground arith in
            record {
              later = record {
                keeps = λ u q h. flushed-keeps a b s u q flushes queue h;
                produced = λ asked. absurd (cc);
              };
              here = rw (now, eq_self p.key) (ground arith);
            }
        | inr asked ↦ elim (Bool-cases (ran s t p)) [
          | inl already ↦
              let f = rw (add_flushed, asked, already) at e in
              let jobs : b.jobs ≡ s = ground arith in
              record {
                later = record {
                  keeps = λ u q h. flushed-keeps a b s u q flushes (ap (λ j. j.queue) jobs) h;
                  produced = λ _. ap (λ j. j.produced) jobs ∙ kept;
                };
                here =
                    let ran_then : ran a.jobs t p ≡ true = rw (← kept) already in
                    rw (asked, ran_then) (ground arith);
              }
          | inr fresh ↦
              let f = rw (add_flushed, asked, fresh) at e in
              let jobs : b.jobs ≡ s = ground arith in
              let now : b.pending ≡ some (t.id, p.key) = ground arith in
              record {
                later = record {
                  keeps = λ u q h. flushed-keeps a b s u q flushes (ap (λ j. j.queue) jobs) h;
                  produced = λ _. ap (λ j. j.produced) jobs ∙ kept;
                };
                here = rw (now, eq_self p.key) (ground arith);
              }
        ]
      ]

  add_one-IsDone :
      (t : Target) (p : Plugin) (a b : A)
      → add_one works outputs files path_of int force t p a ≡ ok b
      → IsDone t p a b
  unfolding add_one
  add_one-IsDone t p a b e = elim (Bool-cases (queued a.jobs t p)) [
    | inl there ↦
        let same : a ≡ b = let f = rw (add_one, there) at e in ground arith in
        rw (← same) (record { later = IsLater-refl a; here = rw there })
    | inr free ↦
        let f = rw (add_one, free) at e in
        let (s, flushes, rest) =
          parts_of_ok (flush works outputs files path_of int a)
            (add_flushed works outputs files path_of int force t p) f in
        add_flushed-IsDone t p a b s flushes rest
  ]

  All-map :
      (P Q : Plugin → Type 0) (ps : List Plugin) → ((p : Plugin) → P p → Q p) → All P ps → All Q ps
  All-map P Q [] f h = tt
  All-map P Q (p ∷ ps) f h = (f p h.0, All-map P Q ps f h.1)

  -- What a run of the loops from `a` to `b` has done for the plugins of one target.
  record Progress (a b : A) (t : Target) (ps : List Plugin) : Type 0 where
    later : IsLater a b
    done : All (λ p. coming a.jobs b t p ≡ true) ps

  add_plugins-Progress :
      (t : Target) (ps : List Plugin) (a b : A)
      → add_plugins works outputs files path_of int force t ps a ≡ ok b
      → Progress a b t ps
  unfolding add_plugins
  add_plugins-Progress t [] a b e =
      let same : a ≡ b = ground arith in record { later = rw (← same) (IsLater-refl a); done = tt }
  add_plugins-Progress t (p ∷ ps) a b e =
      let (mid, one, rest) =
        parts_of_ok (add_one works outputs files path_of int force t p a)
          (add_plugins works outputs files path_of int force t ps) e in
      let now = add_one-IsDone t p a mid one in
      let later = add_plugins-Progress t ps mid b rest in
      record {
        later = IsLater-trans a mid b now.later later.later;
        done = (
          coming-later a.jobs mid b t p later.later now.here,
          All-map _ _ ps (λ q h. coming-earlier a mid b t q now.later h) later.done,
        );
      }

  All-map_targets :
      (P Q : Target → Type 0) (ts : List Target) → ((t : Target) → P t → Q t) → All P ts → All Q ts
  All-map_targets P Q [] f h = tt
  All-map_targets P Q (t ∷ ts) f h = (f t h.0, All-map_targets P Q ts f h.1)

  -- The same for all targets.
  record AllProgress (a b : A) (ts : List Target) (ps : List Plugin) : Type 0 where
    later : IsLater a b
    done : All (λ t. All (λ p. coming a.jobs b t p ≡ true) ps) ts

  add_targets-AllProgress :
      (ts : List Target) (ps : List Plugin) (a b : A)
      → add_targets works outputs files path_of int force ts ps a ≡ ok b
      → AllProgress a b ts ps
  unfolding add_targets
  add_targets-AllProgress [] ps a b e =
      let same : a ≡ b = ground arith in record { later = rw (← same) (IsLater-refl a); done = tt }
  add_targets-AllProgress (t ∷ ts) ps a b e =
      let (mid, one, rest) =
        parts_of_ok (add_plugins works outputs files path_of int force t ps a)
          (add_targets works outputs files path_of int force ts ps) e in
      let now = add_plugins-Progress t ps a mid one in
      let later = add_targets-AllProgress ts ps mid b rest in
      record {
        later = IsLater-trans a mid b now.later later.later;
        done = (
          All-map _ _ ps (λ p h. coming-later a.jobs mid b t p later.later h) now.done,
          All-map_targets _ _ ts
              (λ u. All-map _ _ ps (λ p h. coming-earlier a mid b u p now.later h)) later.done,
        );
      }

  abbrev sort_result : List Plugin → Result (List Plugin)
  sort_result ps = if any (λ p. str_eq p.group "auxiliary") ps then ok ps else group_sort_order ps

  sort_result-perm : (ps sorted : List Plugin) → sort_result ps ≡ ok sorted → Perm sorted ps
  sort_result-perm ps sorted e = elim (Bool-cases (any (λ p. str_eq p.group "auxiliary") ps)) [
    | inl auxiliary ↦
        subst (λ l. Perm l ps) (let same : ps ≡ sorted = ground arith in same) (Perm.refl ps)
    | inr plain ↦ (group_sort_order-IsSortedGroup ps sorted (ground arith)).same
  ]

  -- After `add_work` each given target has each given plugin in the queue, except, where
  -- overwriting was not forced, a plugin that had already run on it.
  pub add_work-served :
      (ts : List Target) (ps : List Plugin) (s s' : J) (t : Target) (p : Plugin)
      → add_work works outputs files path_of int ts ps force s ≡ ok s'
      → Mem t ts
      → Mem p ps
      → served s s' t p ≡ true
  unfolding add_work
  add_work-served ts ps s s' t p e mt mp =
      let start : A = record { jobs = s; pending = none } in
      let (sorted, sorts, rest) =
        parts_of_ok (sort_result ps)
          (λ l. add_targets works outputs files path_of int force ts l start >>= λ a.
            flush works outputs files path_of int a)
          e in
      let (a, adds, ends) =
        parts_of_ok (add_targets works outputs files path_of int force ts sorted start)
          (λ a. flush works outputs files path_of int a) rest in
      let done = (add_targets-AllProgress ts sorted start a adds).done in
      let in_sorted = Perm.subset (Perm.symm (sort_result-perm ps sorted sorts)) p mp in
      let now : coming s a t p ≡ true =
        holds_of_mem (λ u. coming s a u p) t ts
          (All-map_targets _ _ ts (λ u h. holds_of_mem (coming s a u) p sorted h in_sorted) done)
          mt in
      rw (flush-holds works outputs files path_of int a s' ends t.id p.key) now
