-- ===== src/Targets/Adding.antt =====
-- Adding targets (owtf/managers/target.py).

use owtf.Base.{
  ℕ, String, ◌≡◌, refl, sym, inl, inr, true, false, Option, none, some, List, [], ◌∷◌, ◌++◌, arith,
  ◌==◌, ==_iff, Bool-cases, Option-cases, find_first, any, any-append,
}
use owtf.Db.Table.{Table}
use owtf.Db.Files.{Files}
use owtf.Db.Models.{Session, Target, Work}
use owtf.Exceptions.{Result-cases}
use owtf.Sessions.{has_target_id, is_link, is_link_of, session_required, add_target_to_session}
use owtf.Sessions.Links.{any_append_link, AllDifferent-append}
use owtf.Sessions.Deletion.{IsConsistent}
use owtf.Sessions.Membership.{add_target_to_session-IsConsistent}
use owtf.Targets.{
  Managed, Paths, new_target, get_target_config_by_id, set_target, session_of, add_new, add_known,
  add_target, has_target_url,
}
use owtf.Targets.Derive.{Net, TargetConfig, derive_config_from_url}

any_linked : (t n : ℕ) (ls : List (ℕ × ℕ)) → any (is_link_of t) (ls ++ (t, n) ∷ []) ≡ true
any_linked t n [] = ground arith
any_linked t n (l ∷ ls) = ground (arith, any_linked t n ls)

no_link :
    (t n : ℕ) (ls : List (ℕ × ℕ)) → any (is_link_of t) ls ≡ false → any (is_link t n) ls ≡ false
no_link t n [] h = refl
no_link t n (l ∷ ls) h = ground (arith, no_link t n ls)

module _ (sessions : Table Session) (targets : Table Target) (works : Table Work) (files : Files)
    (net : Net) (paths : Paths) (show : List String → String)
    (create_missing_dirs : String → files.State → files.State) where
  abbrev M : Type 0
  M = Managed sessions targets works files net paths show create_missing_dirs

  abbrev Consistent : M → Type 0
  Consistent s = IsConsistent sessions targets works files paths.target_dir s.store

  store-set_target :
      (id : ℕ) (s : M)
      → (set_target sessions targets works files net paths show create_missing_dirs id s).1.store
        ≡ s.store
  unfolding set_target
  store-set_target id s =
      elim (Result-cases (
        get_target_config_by_id sessions targets works files net paths show create_missing_dirs id
          s.store)) [
            | inl (t, e) ↦ rw (set_target, e) refl
            | inr (raised, e) ↦ rw (set_target, e) refl
          ]

  add_known-Consistent :
      (t : Target) (r : Option Session) (s : M)
      → Consistent s
      → Consistent
          (add_known sessions targets works files net paths show create_missing_dirs t r s).1
  unfolding add_known
  add_known-Consistent t none s v = v
  add_known-Consistent t (some r) s v = elim (Bool-cases (any (is_link t.id r.id) s.store.links)) [
    | inl h ↦ rw (add_known, h) v
    | inr h ↦
        elim (Result-cases (
          add_target_to_session sessions targets works files paths.target_dir t.id (some r.id)
            s.store)) [
              | inl (store, e) ↦
                  rw (add_known, h, e)
                    ((add_target_to_session-IsConsistent sessions targets works files
                      paths.target_dir t.id (some r.id) s.store store v e).0)
              | inr (raised, e) ↦ rw (add_known, h, e) v
            ]
  ]

  add_new-Consistent :
      (c : TargetConfig) (r : Option Session) (s : M)
      → any (is_link_of (targets.next_id s.store.target_rows)) s.store.links ≡ false
      → Consistent s
      → Consistent (add_new sessions targets works files net paths show create_missing_dirs c r s).1
  unfolding add_new
  add_new-Consistent c none s fresh v = v
  add_new-Consistent c (some r) s fresh v =
      let id = targets.next_id s.store.target_rows in
      let made : M = record s {
        store = record (s.store) {
          target_rows = targets.add (new_target show c) s.store.target_rows;
          links = s.store.links ++ (id, r.id) ∷ [];
          folders = create_missing_dirs (paths.target_dir c.target_url) s.store.folders;
        };
      } in
      let consistent : Consistent made = record {
        linked = λ t there. elim (Bool-cases (id == t)) [
          | inl its ↦
              let same : id ≡ t = (==_iff id t).0 its in
              rw (sym same) (any_linked id r.id s.store.links)
          | inr other ↦
              let both =
                rw
                  (
                    targets.rows-add,
                    any-append (has_target_id t) (targets.rows s.store.target_rows)
                        (new_target show c id ∷ []),
                  )
                  at there in
              let old : any (has_target_id t) (targets.rows s.store.target_rows) ≡ true =
                ground (arith, both, other) in
              any_append_link t id r.id s.store.links (v.linked t old)
        ];
        different =
            AllDifferent-append s.store.links id r.id v.different
              (no_link id r.id s.store.links fresh);
      } in
      rw (store-set_target id made) consistent

  -- Adding a target by its URL, to a session or to the active one, keeps every target in a session and
  -- no link there twice, whether the URL is new, is known or cannot be resolved, also where it ends in
  -- an exception. No link may be of the id that the next target gets.
  pub add_target-IsConsistent :
      (target_url : String) (session_id : Option ℕ) (s : M)
      → any (is_link_of (targets.next_id s.store.target_rows)) s.store.links ≡ false
      → Consistent s
      → Consistent
          (add_target sessions targets works files net paths show create_missing_dirs target_url
            session_id s).1
  unfolding add_target
  add_target-IsConsistent target_url session_id s fresh v =
      let r =
        session_of sessions targets works files net paths show create_missing_dirs
          (session_required sessions targets works files paths.target_dir session_id s.store)
          s.store in
      elim (Option-cases
        (find_first (has_target_url target_url) (targets.rows s.store.target_rows))) [
          | inr (t, e) ↦ rw (add_target, e) (add_known-Consistent t r s v)
          | inl e ↦ elim (Result-cases (derive_config_from_url net target_url)) [
            | inl (c, d) ↦ rw (add_target, e, d) (add_new-Consistent c r s fresh v)
            | inr (raised, d) ↦ rw (add_target, e, d) v
          ]
        ]
