-- ===== src/Sessions/Membership.antt =====
-- `add_target_to_session` and `remove_target_from_session` of owtf/managers/session.py: every target
-- stays in a session.

use owtf.Base.{
  ℕ, zero, suc, String, ◌≡◌, sym, ap, inl, inr, true, false, Option, none, some, [], ◌∷◌, ◌++◌,
  arith, ◌==◌, if◌then◌else◌, ==_iff, Bool-cases, Option-cases, reject, find_first, any,
  find_first-Hit,
}
use owtf.Db.Table.{Table}
use owtf.Db.Files.{Files}
use owtf.Db.Models.{Session, Target, Work}
use owtf.Exceptions.{ok, parts_of_ok}
use owtf.Sessions.{
  Store, has_session_id, has_target_id, is_link, is_link_of, lookup_both, session_required,
  add_target_to_session, delete_target, remove_target_from_session,
}
use owtf.Sessions.Links.{
  any-own, any_unlink_other, any_append_link, any_new_link, AllDifferent-reject,
  AllDifferent-append,
}
use owtf.Sessions.Deletion.{IsConsistent, delete_target-Keeps, delete_target-AllDifferent}

module _ (sessions : Table Session) (targets : Table Target) (works : Table Work) (files : Files)
    (target_dir : String → String) where
  abbrev T : Type 0
  T = Store sessions targets works files

  unlinked-IsConsistent :
      (n : ℕ) (u : Target) (s s' : T)
      → IsConsistent sessions targets works files target_dir s
      → (let left = record s { links = reject (is_link u.id n) s.links } in
          if any (is_link_of u.id) left.links
          then ok left
          else delete_target sessions targets works files target_dir u.id left)
        ≡ ok s'
      → IsConsistent sessions targets works files target_dir s'
  unlinked-IsConsistent n u s s' v e =
      let left : T = record s { links = reject (is_link u.id n) s.links } in
      let different = AllDifferent-reject (is_link u.id n) s.links v.different in
      elim (Bool-cases (any (is_link_of u.id) left.links)) [
        | inl more ↦
            let same : left ≡ s' = ground arith in
            let consistent : IsConsistent sessions targets works files target_dir left = record {
              linked = λ t there. elim (Bool-cases (u.id == t)) [
                | inl its ↦ rw (← (==_iff u.id t).0 its) more
                | inr other ↦
                    rw (any_unlink_other t u.id n s.links (λ e'. absurd (ground arith)))
                      (v.linked t there)
              ];
              different = different;
            } in
            rw (← same) consistent
        | inr none_left ↦
            let gone : delete_target sessions targets works files target_dir u.id left ≡ ok s' =
              ground arith in
            record {
              linked = λ t there.
                  let (kept, other) =
                    delete_target-Keeps sessions targets works files target_dir u.id t left s' gone
                      there in
                  rw
                    (
                      ← any-own t s'.links,
                      kept.same_links,
                      any-own t left.links,
                      any_unlink_other t u.id n s.links other,
                    )
                    (v.linked t kept.was_there);
              different =
                  delete_target-AllDifferent sessions targets works files target_dir u.id left s'
                    gone different;
            }
      ]

  lookup_both-ids :
      (t : ℕ) (n : Option ℕ) (s : T) (r : Session) (u : Target)
      → lookup_both sessions targets works files target_dir t n s ≡ ok (r, u)
      → (n ≡ some r.id) × (u.id ≡ t)
  unfolding lookup_both
  lookup_both-ids t none s r u e = absurd (cc)
  lookup_both-ids t (some n) s r u e =
      elim (Option-cases (find_first (has_session_id n) (sessions.rows s.session_rows))) [
        | inl missing ↦ absurd (ground arith)
        | inr (q, found) ↦
            elim (Option-cases (find_first (has_target_id t) (targets.rows s.target_rows))) [
              | inl missing ↦ absurd (ground arith)
              | inr (w, found_target) ↦
                  let its =
                    (find_first-Hit (has_session_id n) q (sessions.rows s.session_rows)
                      found).holds in
                  let its_target =
                    (find_first-Hit (has_target_id t) w (targets.rows s.target_rows)
                      found_target).holds in
                  let same : q ≡ r = ground arith in
                  let same_target : w ≡ u = ground arith in
                  (
                    rw (← same) (ap some (sym ((==_iff q.id n).0 its))),
                    rw (← same_target) ((==_iff w.id t).0 its_target),
                  )
            ]
      ]

  -- What is left of a target that was taken out of a session: without another session it is deleted.
  abbrev pub IsUnlinked : ℕ → ℕ → T → T → Type 0
  IsUnlinked t n s s' =
      let left = reject (is_link t n) s.links in
      if any (is_link_of t) left
      then (s'.target_rows ≡ s.target_rows) × (s'.links ≡ left)
      else (s'.target_rows ≡ targets.delete (has_target_id t) s.target_rows)
        × (s'.links ≡ reject (is_link_of t) left)

  deleted-IsUnlinked :
      (t n : ℕ) (s s' : T)
      → any (is_link_of t) (reject (is_link t n) s.links) ≡ false
      → delete_target sessions targets works files target_dir t
          (record s { links = reject (is_link t n) s.links })
        ≡ ok s'
      → IsUnlinked t n s s'
  unfolding delete_target
  deleted-IsUnlinked zero n s s' h e = absurd (cc)
  deleted-IsUnlinked (suc t) n s s' h e =
      elim (Option-cases (find_first (has_target_id (suc t)) (targets.rows s.target_rows))) [
        | inl missing ↦ absurd (ground arith)
        | inr (u, found) ↦
            let same : u.id ≡ suc t =
              (==_iff u.id (suc t)).0
                (find_first-Hit (has_target_id (suc t)) u (targets.rows s.target_rows)
                  found).holds in
            let deletes = rw (delete_target, found, same) at e in
            rw h (ground (arith, deletes), ground (arith, deletes))
      ]

  -- A target that is taken out of a session, by default the active one, was in it. If it is in another
  -- session, it loses this link and nothing else; if it is in no other, it is deleted, with its links.
  -- If every target was in a session and no link was there twice, this still holds.
  pub remove_target_from_session-IsConsistent :
      (t : ℕ) (n : Option ℕ) (s s' : T)
      → IsConsistent sessions targets works files target_dir s
      → remove_target_from_session sessions targets works files target_dir t n s ≡ ok s'
      → IsConsistent sessions targets works files target_dir s'
        × (id : ℕ) × (session_required sessions targets works files target_dir n s ≡ some id)
        × (any (is_link t id) s.links ≡ true)
        × IsUnlinked t id s s'
  unfolding remove_target_from_session
  remove_target_from_session-IsConsistent t n s s' v e =
      let ((r, u), found, rest) =
        parts_of_ok
          (lookup_both sessions targets works files target_dir t
            (session_required sessions targets works files target_dir n s) s)
          _ e in
      let (of_session, of_target) = lookup_both-ids t _ s r u found in
      elim (Bool-cases (any (is_link u.id r.id) s.links)) [
        | inl linked ↦
            let goes = rw linked at rest in
            let exact : IsUnlinked u.id r.id s s' =
              elim (Bool-cases (any (is_link_of u.id) (reject (is_link u.id r.id) s.links))) [
                | inl more ↦
                    let stays = rw more at goes in
                    rw more (ground (arith, stays), ground (arith, stays))
                | inr none_left ↦ deleted-IsUnlinked u.id r.id s s' none_left (rw none_left at goes)
              ] in
            (
              unlinked-IsConsistent r.id u s s' v goes,
              r.id,
              of_session,
              rw of_target at linked,
              rw of_target at exact,
            )
        | inr not_linked ↦
            absurd (let goes = rest in let no = rw not_linked at goes in ground arith)
      ]

  linked-IsConsistent :
      (t n : ℕ) (s s' : T)
      → IsConsistent sessions targets works files target_dir s
      → (if any (is_link t n) s.links then s else record s { links = s.links ++ (t, n) ∷ [] }) ≡ s'
      → IsConsistent sessions targets works files target_dir s'
        × (any (is_link t n) s'.links ≡ true)
  linked-IsConsistent t n s s' v e = elim (Bool-cases (any (is_link t n) s.links)) [
    | inl before ↦ let same : s ≡ s' = ground arith in rw (← same) (v, before)
    | inr new ↦
        let added : T = record s { links = s.links ++ (t, n) ∷ [] } in
        let same : added ≡ s' = ground arith in
        let consistent : IsConsistent sessions targets works files target_dir added = record {
          linked = λ u there. any_append_link u t n s.links (v.linked u there);
          different = AllDifferent-append s.links t n v.different new;
        } in
        rw (← same) (consistent, any_new_link t n s.links)
  ]

  -- A target that is added to a session, by default the active one, is then in it; if every target
  -- was in a session and no link was there twice, this still holds.
  pub add_target_to_session-IsConsistent :
      (t : ℕ) (n : Option ℕ) (s s' : T)
      → IsConsistent sessions targets works files target_dir s
      → add_target_to_session sessions targets works files target_dir t n s ≡ ok s'
      → IsConsistent sessions targets works files target_dir s'
        × (id : ℕ) × (session_required sessions targets works files target_dir n s ≡ some id)
        × (any (is_link t id) s'.links ≡ true)
  unfolding add_target_to_session
  add_target_to_session-IsConsistent t n s s' v e =
      let (both, found, rest) =
        parts_of_ok
          (lookup_both sessions targets works files target_dir t
            (session_required sessions targets works files target_dir n s) s)
          _ e in
      let (of_session, of_target) = lookup_both-ids t _ s both.0 both.1 found in
      let (consistent, there) = linked-IsConsistent both.1.id both.0.id s s' v (ground arith) in
      (consistent, both.0.id, of_session, rw of_target at there)
