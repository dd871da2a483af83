-- ===== src/Worklist/Add/Unique.antt =====
-- `add_work` of owtf/managers/worklist.py never meets the unique constraint of the table, where no
-- target and no plugin is given twice.
use owtf.Base.{
  ℕ, String, ◌≡◌, refl, ◌∙◌, ◌⊎◌, inl, inr, Bool, true, false, not, ◌&&◌, ◌||◌, Option, none, some,
  List, [], ◌∷◌, arith, str_eq, str_eq_comm, eq_iff, eq_self, ◌==◌, Bool-cases, any, All,
}
use owtf.Base.Int.{ℤ}
use owtf.Base.Sorting.{sorted_reverse, sorted_reverse-Pairs}
use owtf.Db.Table.{Table}
use owtf.Db.Files.{Files}
use owtf.Db.Models.{Work, Plugin, PluginOutput, Target}
use owtf.Exceptions.{ok, err, key_error}
use owtf.Poutput.{plugin_already_run, delete_all_poutput}
use owtf.Worklist.{
  Jobs, Adding, new_work, in_worklist, flush, key_filter, add_flushed, add_one, add_plugins,
  add_targets, add_work,
}
use owtf.Worklist.Priority.{group_sort_order, key_of, is_known}
use owtf.Worklist.Add.{
  IsUnique, IsUnique-snoc, any-false, HasOwnIds, HasOwnKeys, is_pending, flush-holds, deletes,
}

module _ (works : Table Work) (outputs : Table PluginOutput) (files : Files)
    (path_of : String → String) (int : String → Option ℤ) where
  abbrev J : Type 0
  J = Jobs works outputs files

  abbrev A : Type 0
  A = Adding works outputs files path_of int

  abbrev queued : ℕ → String → J → Bool
  queued = in_worklist works outputs files path_of int

  abbrev waits : ℕ → String → A → Bool
  waits = is_pending works outputs files path_of int

  -- The rows are unique, and the pending row is not one of them.
  record IsCalm (a : A) : Type 0 where
    unique : IsUnique (works.rows a.jobs.queue)
    apart : (i : ℕ) (k : String) → waits i k a ≡ true → queued i k a.jobs ≡ false

  flush-IsCalm :
      (a : A)
      → IsCalm a
      → (s : J) × (flush works outputs files path_of int a ≡ ok s) × IsUnique (works.rows s.queue)
  unfolding flush in_worklist
  flush-IsCalm a v = go a.pending refl
    where
      go :
          (o : Option (ℕ × String))
          → a.pending ≡ o
          → (s : J) × (flush works outputs files path_of int a ≡ ok s)
            × IsUnique (works.rows s.queue)
      go none p = (a.jobs, rw (flush, p) refl, v.unique)
      go (some (j, l)) p =
          let here : waits j l a ≡ true = rw (p, eq_self l) (ground arith) in
          let free = v.apart j l here in
          (
            record (a.jobs) { queue = works.add (new_work j l) a.jobs.queue },
            rw (flush, p, free) refl,
            rw works.rows-add (
                IsUnique-snoc (works.rows a.jobs.queue) _ v.unique
                  (any-false _ (works.rows a.jobs.queue) free)),
          )

  -- A row that waits after a step is the one before it, or the one of the step.
  abbrev From : (ℕ → String → Bool) → A → A → Type 0
  From here a b = (i : ℕ) (k : String) → waits i k b ≡ true → (waits i k a || here i k) ≡ true

  module _ (force : Bool) where
    add_one-IsCalm :
        (t : Target) (p : Plugin) (a : A)
        → IsCalm a
        → waits t.id p.key a ≡ false
        → (b : A) × (add_one works outputs files path_of int force t p a ≡ ok b)
          × IsCalm b
          × From (λ i k. t.id == i && str_eq p.key k) a b
    unfolding add_one add_flushed in_worklist
    add_one-IsCalm t p a v other = elim (Bool-cases (queued t.id p.key a.jobs)) [
      | inl there ↦ (a, rw (add_one, there) refl, v, λ i k h. rw h)
      | inr free ↦
          let (s, flushes, unique) = flush-IsCalm a v in
          let still : queued t.id p.key s ≡ false =
            flush-holds works outputs files path_of int a s flushes t.id p.key
            ∙ rw (free, other) refl in
          let at : (i : ℕ) (k : String)
              → (t.id == i && str_eq p.key k) ≡ true
              → queued i k s ≡ false =
            λ i k h.
              let same_id : t.id ≡ i = ground arith in
              let same_key : p.key ≡ k = (eq_iff p.key k).0 (ground arith) in
              rw (← same_id, ← same_key) still in
          elim (Bool-cases force) [
            | inl forced ↦
                let b : A = record {
                  jobs = record s {
                    produced =
                        (delete_all_poutput outputs files path_of int
                          (key_filter works outputs files path_of int p.key) (some t.id)
                          s.produced).1;
                  };
                  pending = some (t.id, p.key);
                } in
                (
                  b,
                  rw
                      (
                        add_one,
                        free,
                        flushes,
                        add_flushed,
                        forced,
                        deletes works outputs files path_of int t p s,
                      )
                      refl,
                  record { unique = unique; apart = at },
                  λ i k h. rw h (ground arith),
                )
            | inr asked ↦
                elim (Bool-cases (plugin_already_run outputs files p (some t.id) s.produced)) [
                  | inl already ↦ (
                    record { jobs = s; pending = none },
                    rw (add_one, free, flushes, add_flushed, asked, already) refl,
                    record { unique = unique; apart = λ i k h. absurd (cc) },
                    λ i k h. absurd (cc),
                  )
                  | inr fresh ↦ (
                    record { jobs = s; pending = some (t.id, p.key) },
                    rw (add_one, free, flushes, add_flushed, asked, fresh) refl,
                    record { unique = unique; apart = at },
                    λ i k h. rw h (ground arith),
                  )
                ]
          ]
    ]

    not_waiting :
        (a b : A) (here : ℕ → String → Bool) (i : ℕ) (k : String)
        → From here a b
        → waits i k a ≡ false
        → here i k ≡ false
        → waits i k b ≡ false
    not_waiting a b here i k from before off = elim (Bool-cases (waits i k b)) [
      | inr h ↦ h
      | inl h ↦ let some_way = from i k h in absurd (ground arith)
    ]

    add_plugins-IsCalm :
        (t : Target) (ps : List Plugin) (a : A)
        → HasOwnKeys ps
        → IsCalm a
        → All (λ p. waits t.id p.key a ≡ false) ps
        → (b : A) × (add_plugins works outputs files path_of int force t ps a ≡ ok b)
          × IsCalm b
          × From (λ i k. t.id == i) a b
    unfolding add_plugins
    add_plugins-IsCalm t [] a d v other = (a, refl, v, λ i k h. rw h)
    add_plugins-IsCalm t (p ∷ ps) a d v other =
        let (mid, one, calm, from) = add_one-IsCalm t p a v other.0 in
        let (b, rest, calm', from') =
          add_plugins-IsCalm t ps mid d.1 calm (still ps mid from d.0 other.1) in
        (
          b,
          rw (add_plugins, one) rest,
          calm',
          λ i k h. elim (Bool-cases (waits i k mid)) [
            | inl m ↦ let before = from i k m in ground arith
            | inr m ↦ let later = from' i k h in ground arith
          ],
        )
      where
        still :
            (qs : List Plugin) (mid : A)
            → From (λ i k. t.id == i && str_eq p.key k) a mid
            → All (λ q. str_eq p.key q.key ≡ false) qs
            → All (λ q. waits t.id q.key a ≡ false) qs
            → All (λ q. waits t.id q.key mid ≡ false) qs
        still [] mid from d h = tt
        still (q ∷ qs) mid from d h = (
          not_waiting a mid (λ i k. t.id == i && str_eq p.key k) t.id q.key from h.0
              (rw d.0 (ground arith)),
          still qs mid from d.1 h.1,
        )

    add_targets-IsCalm :
        (ts : List Target) (ps : List Plugin) (a : A)
        → HasOwnIds ts
        → HasOwnKeys ps
        → IsCalm a
        → All (λ t. (k : String) → waits t.id k a ≡ false) ts
        → (b : A) × (add_targets works outputs files path_of int force ts ps a ≡ ok b) × IsCalm b
    unfolding add_targets
    add_targets-IsCalm [] ps a d k v other = (a, refl, v)
    add_targets-IsCalm (t ∷ ts) ps a d k v other =
        let (mid, one, calm, from) = add_plugins-IsCalm t ps a k v (each ps other.0) in
        let (b, rest, calm') =
          add_targets-IsCalm ts ps mid d.1 k calm (still ts mid from d.0 other.1) in
        (b, rw (add_targets, one) rest, calm')
      where
        each :
            (qs : List Plugin)
            → ((k : String) → waits t.id k a ≡ false)
            → All (λ q. waits t.id q.key a ≡ false) qs
        each [] h = tt
        each (q ∷ qs) h = (h q.key, each qs h)

        still :
            (us : List Target) (mid : A)
            → From (λ i k. t.id == i) a mid
            → All (λ u. (t.id == u.id) ≡ false) us
            → All (λ u. (k : String) → waits u.id k a ≡ false) us
            → All (λ u. (k : String) → waits u.id k mid ≡ false) us
        still [] mid from d h = tt
        still (u ∷ us) mid from d h = (
          λ k. not_waiting a mid (λ i k. t.id == i) u.id k from (h.0 k) d.0,
          still us mid from d.1 h.1,
        )

  idle :
      (ts : List Target) (s : J)
      → All (λ t. (k : String) → waits t.id k (record { jobs = s; pending = none }) ≡ false) ts
  idle [] s = tt
  idle (t ∷ ts) s = (λ k. refl, idle ts s)

  sorted-HasOwnKeys : (ps : List Plugin) → HasOwnKeys ps → HasOwnKeys (sorted_reverse key_of ps)
  sorted-HasOwnKeys ps d =
      sorted_reverse-Pairs key_of (λ p q. str_eq p.key q.key ≡ false)
        (λ p q h. str_eq_comm q.key p.key ∙ h) ps d

  with_sorted :
      (ts : List Target) (ps : List Plugin) (force : Bool) (s : J)
      → HasOwnIds ts
      → HasOwnKeys ps
      → IsUnique (works.rows s.queue)
      → (a : A) × (add_targets works outputs files path_of int force ts ps
            (record { jobs = s; pending = none })
          ≡ ok a)
        × (s' : J) × (flush works outputs files path_of int a ≡ ok s')
        × IsUnique (works.rows s'.queue)
  with_sorted ts ps force s d k u =
      let start : A = record { jobs = s; pending = none } in
      let (a, adds, calm) =
        add_targets-IsCalm force ts ps start d k
          (record { unique = u; apart = λ i k h. absurd (cc) }) (idle ts s) in
      let (s', ends, unique) = flush-IsCalm a calm in (a, adds, s', ends, unique)

  -- Where no target and no plugin is given twice, and no two jobs were of one target and plugin: adding
  -- jobs returns, or is the KeyError of a plugin of an unknown type. If it returns, no two jobs are of one
  -- target and plugin; the unique constraint of the table is never met.
  pub add_work-IsUnique :
      (ts : List Target) (ps : List Plugin) (force : Bool) (s : J)
      → HasOwnIds ts
      → HasOwnKeys ps
      → IsUnique (works.rows s.queue)
      → (add_work works outputs files path_of int ts ps force s ≡ err key_error)
        ⊎ ((s' : J) × (add_work works outputs files path_of int ts ps force s ≡ ok s')
            × IsUnique (works.rows s'.queue))
  unfolding add_work group_sort_order
  add_work-IsUnique ts ps force s d k u =
      elim (Bool-cases (any (λ p. str_eq p.group "auxiliary") ps)) [
        | inl auxiliary ↦
            let (a, adds, s', ends, unique) = with_sorted ts ps force s d k u in
            inr (s', rw (add_work, auxiliary, adds) ends, unique)
        | inr plain ↦ elim (Bool-cases (any (λ p. not (is_known p)) ps)) [
          | inl unknown ↦ inl (rw (add_work, plain, unknown) refl)
          | inr known ↦
              let (a, adds, s', ends, unique) =
                with_sorted ts (sorted_reverse key_of ps) force s d (sorted-HasOwnKeys ps k) u in
              inr (s', rw (add_work, plain, known, adds) ends, unique)
        ]
      ]
