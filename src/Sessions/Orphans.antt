-- ===== src/Sessions/Orphans.antt =====
-- Every target is in a session: what the operations of owtf/managers/session.py keep of the table
-- `target_session_association`.

use owtf.Base.{
  ℕ, String, ◌≡◌, ◌↔◌, length, inl, inr, true, List, [], ◌∷◌, arith, ◌==◌, ==_iff, Bool-cases,
  Option-cases, keep, reject, find_first, any, find_first-Hit,
}
use owtf.Db.Table.{Table}
use owtf.Db.Files.{Files}
use owtf.Db.Models.{Session, Target, Work}
use owtf.Exceptions.{ok, parts_of_ok}
use owtf.Sessions.{
  Store, has_session_id, has_target_id, is_link, is_link_of, targets_of, delete_targets,
  delete_session, ensure_default_session, add_session, set_by_id, prefix, new_session,
}
use owtf.Sessions.Active.{rows-cases}
use owtf.Sessions.Links.{
  own, elsewhere, any-elsewhere, any-elsewhere-own, not_linked-elsewhere, linked_once-elsewhere,
  AllDifferent-reject,
}
use owtf.Sessions.Deletion.{
  is_there, IsConsistent, delete_targets-stays, delete_targets-Keeps, delete_targets-AllDifferent,
}

module _ (sessions : Table Session) (targets : Table Target) (works : Table Work) (files : Files)
    (target_dir : String → String) where
  abbrev T : Type 0
  T = Store sessions targets works files

  -- Adding a session changes neither targets nor links.
  record SameTargets (s s' : T) : Type 0 where
    same_rows : s'.target_rows ≡ s.target_rows
    same_links : s'.links ≡ s.links

  set_by_id-SameTargets :
      (n : ℕ) (s s' : T)
      → set_by_id sessions targets works files target_dir n s ≡ ok s'
      → SameTargets s s'
  unfolding set_by_id
  set_by_id-SameTargets n s s' e =
      elim (Option-cases (find_first (has_session_id n) (sessions.rows s.session_rows))) [
        | inl missing ↦ absurd (ground arith)
        | inr (r, found) ↦ record { same_rows = ground arith; same_links = ground arith }
      ]

  ensure_default_session-SameTargets :
      (s s' : T)
      → ensure_default_session sessions targets works files target_dir s ≡ ok s'
      → SameTargets s s'
  unfolding ensure_default_session add_session
  ensure_default_session-SameTargets s s' e = elim (rows-cases (sessions.rows s.session_rows)) [
    | inl empty ↦
        let added : add_session sessions targets works files target_dir "default session" s
            ≡ ok s' =
          rw (ensure_default_session, empty) at e in
        let made =
          set_by_id-SameTargets (sessions.next_id s.session_rows)
            (record s {
              session_rows =
                  sessions.add (new_session (prefix 50 "default session")) s.session_rows;
            })
            s' (rw (add_session, empty) at added) in
        record { same_rows = made.same_rows; same_links = made.same_links }
    | inr (r, rs, there) ↦
        let same : s ≡ s' = let goes = rw (ensure_default_session, there) at e in ground arith in
        record { same_rows = ground arith; same_links = ground arith }
  ]

  any-targets_of :
      (n t : ℕ) (s : T)
      → is_there sessions targets works files target_dir t s ≡ true
      → any (is_link t n) s.links ≡ true
      → any (has_target_id t) (targets_of sessions targets works files target_dir n s) ≡ true
  unfolding targets_of
  any-targets_of n t s there linked = any_keep (targets.rows s.target_rows) there
    where
      any_keep :
          (ts : List Target)
          → any (has_target_id t) ts ≡ true
          → any (has_target_id t) (keep (λ u. any (is_link u.id n) s.links) ts) ≡ true
      any_keep [] h = absurd (cc)
      any_keep (u ∷ ts) h = elim (Bool-cases (u.id == t)) [
        | inl its ↦
            let its' = (==_iff u.id t).0 its in
            let on : any (is_link u.id n) s.links ≡ true = rw its' linked in ground arith
        | inr other ↦ ground (arith, any_keep ts)
      ]

  linked-targets_of :
      (n t : ℕ) (s : T)
      → any (has_target_id t) (targets_of sessions targets works files target_dir n s) ≡ true
      → any (is_link t n) s.links ≡ true
  unfolding targets_of
  linked-targets_of n t s h = of_keep (targets.rows s.target_rows) h
    where
      of_keep :
          (ts : List Target)
          → any (has_target_id t) (keep (λ u. any (is_link u.id n) s.links) ts) ≡ true
          → any (is_link t n) s.links ≡ true
      of_keep [] h = absurd (cc)
      of_keep (u ∷ ts) h = elim (Bool-cases (any (is_link u.id n) s.links)) [
        | inr off ↦ of_keep ts (ground arith)
        | inl on ↦ elim (Bool-cases (u.id == t)) [
          | inl its ↦ let its' = (==_iff u.id t).0 its in rw its' at on
          | inr other ↦ of_keep ts (ground arith)
        ]
      ]

  survivor-linked :
      (n t : ℕ) (s left s' : T)
      → IsConsistent sessions targets works files target_dir s
      → delete_targets sessions targets works files target_dir
          (targets_of sessions targets works files target_dir n s)
          s
        ≡ ok left
      → s'.target_rows ≡ left.target_rows
      → s'.links ≡ reject (λ l. l.1 == n) left.links
      → is_there sessions targets works files target_dir t s' ≡ true
      → any (is_link_of t) s'.links ≡ true
  survivor-linked n t s left s' v first rows links there =
      let (kept, many) =
        delete_targets-Keeps sessions targets works files target_dir _ t s left first
          (rw rows at there) in
      let some_link = v.linked t kept.was_there in
      let before : any (elsewhere t n) s.links ≡ true =
        elim (Bool-cases (any (is_link t n) s.links)) [
          | inl here ↦
              linked_once-elsewhere t n s.links v.different some_link
                (many (any-targets_of n t s kept.was_there here))
          | inr not_here ↦ not_linked-elsewhere t n s.links some_link not_here
        ] in
      let after : any (elsewhere t n) left.links ≡ true =
        rw (← any-elsewhere-own t n left.links, kept.same_links, any-elsewhere-own t n s.links)
          before in
      rw links (any-elsewhere t n left.links after)

  -- Is the target in the session, and in no other?
  abbrev pub IsAlone : ℕ → ℕ → T → Type 0
  IsAlone t n s = (any (is_link t n) s.links ≡ true) × (length (own t s.links) ≡ 1)

  -- Deleting a session, which may bring back the default session, deletes exactly the targets that are in
  -- it alone: every other target stays. If every target was in a session and no link was
  -- there twice, this still holds.
  pub delete_session-IsConsistent :
      (n : ℕ) (s s' : T)
      → IsConsistent sessions targets works files target_dir s
      → delete_session sessions targets works files target_dir n s ≡ ok s'
      → IsConsistent sessions targets works files target_dir s'
        × ((t : ℕ)
            → (is_there sessions targets works files target_dir t s' ≡ true)
              ↔ ((is_there sessions targets works files target_dir t s ≡ true) × ¬ IsAlone t n s))
  unfolding delete_session
  delete_session-IsConsistent n s s' v e =
      elim (Option-cases (find_first (has_session_id n) (sessions.rows s.session_rows))) [
        | inl missing ↦ absurd (ground arith)
        | inr (r, found) ↦
            let same : r.id ≡ n =
              (==_iff r.id n).0
                (find_first-Hit (has_session_id n) r (sessions.rows s.session_rows) found).holds in
            let ts = targets_of sessions targets works files target_dir n s in
            let (left, first, rest) =
              parts_of_ok (delete_targets sessions targets works files target_dir ts s) _
                (let goes = e in rw (delete_session, found) at goes) in
            let kept = ensure_default_session-SameTargets _ s' rest in
            let consistent : IsConsistent sessions targets works files target_dir s' = record {
              linked = λ t there.
                  survivor-linked n t s left s' v first kept.same_rows (rw same at kept.same_links)
                    there;
              different = rw kept.same_links (
                  AllDifferent-reject _ left.links (
                    delete_targets-AllDifferent sessions targets works files target_dir ts s left
                      first v.different));
            } in
            (
              consistent,
              λ t. (
                λ there.
                    let (keeps, many) =
                      delete_targets-Keeps sessions targets works files target_dir ts t s left first
                        (rw kept.same_rows at there) in
                    (
                      keeps.was_there,
                      λ alone. many (any-targets_of n t s keeps.was_there alone.0) alone.1,
                    ),
                λ h. rw kept.same_rows (
                    delete_targets-stays sessions targets works files target_dir ts t s left first
                      h.0 (λ listed once. h.1 (linked-targets_of n t s listed, once))),
              ),
            )
      ]
