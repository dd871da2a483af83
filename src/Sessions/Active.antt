-- ===== src/Sessions/Active.antt =====
-- Which session is active after the operations of owtf/managers/session.py.

use owtf.Base.{
  ℕ, zero, suc, String, ◌≡◌, refl, sym, ap, ◌∙◌, ◌≢◌, ◌⊎◌, inl, inr, true, false, none, List, [],
  ◌∷◌, ◌++◌, map, arith, ◌==◌, ==_iff, Bool-cases, Option-cases, is_some, length, keep, reject,
  map_where, find_first, any, All, find_first-Hit,
}
use owtf.Db.Table.{Table, KeyFresh}
use owtf.Db.Files.{Files}
use owtf.Db.Models.{Session, Target, Work}
use owtf.Exceptions.{ok, err, parts_of_ok, invalid_session_reference}
use owtf.Sessions.{
  Store, prefix, has_session_id, has_name, activate, new_session, set_by_id, add_session,
  has_target_id, is_link_of, get_active, delete_targets, delete_target, targets_of,
  ensure_default_session, delete_session,
}

-- The rows when the session with the given id is the active one.
abbrev pub only_active : ℕ → List Session → List Session
only_active n = map (λ r. activate (r.id == n) r)

two_updates :
    (n : ℕ) (rs : List Session)
    → map_where (has_session_id n) (activate true) (map_where (λ _. true) (activate false) rs)
      ≡ only_active n rs
two_updates n [] = refl
two_updates n (r ∷ rs) = ground (arith, two_updates n rs)

only_active-append :
    (rs : List Session) (r : Session)
    → All (λ q. q.id ≢ r.id) rs
    → only_active r.id (rs ++ r ∷ []) ≡ map (activate false) rs ++ activate true r ∷ []
only_active-append [] r h = ground arith
only_active-append (q ∷ rs) r h = ground (arith, only_active-append rs r h.1, h.0)

pub rows-cases :
    (rs : List Session) → (rs ≡ []) ⊎ ((q : Session) × (qs : List Session) × (rs ≡ q ∷ qs))
rows-cases [] = inl refl
rows-cases (q ∷ qs) = inr (q, qs, refl)

find_last :
    (n : ℕ) (rs : List Session) (r : Session)
    → r.id ≡ n
    → is_some (find_first (has_session_id n) (rs ++ r ∷ [])) ≡ true
find_last n [] r e = ground arith
find_last n (q ∷ rs) r e = ground (arith, find_last n rs r e)

none_left_active :
    (n : ℕ) (rs : List Session)
    → All (λ r. r.active ≡ (r.id == n)) rs
    → find_first (λ r. r.active) (reject (has_session_id n) rs) ≡ none
none_left_active n [] h = refl
none_left_active n (r ∷ rs) h = ground (arith, none_left_active n rs h.1, h.0)

module _ (sessions : Table Session) (targets : Table Target) (works : Table Work) (files : Files)
    (target_dir : String → String) where
  abbrev T : Type 0
  T = Store sessions targets works files

  abbrev pub rows_of : T → List Session
  rows_of s = sessions.rows s.session_rows

  abbrev set_active : ℕ → T → T
  set_active n s = record s {
    session_rows =
        sessions.update (has_session_id n) (activate true)
          (sessions.update (λ _. true) (activate false) s.session_rows);
  }

  rows_of-set_active : (n : ℕ) (s : T) → rows_of (set_active n s) ≡ only_active n (rows_of s)
  rows_of-set_active n s =
      rw (sessions.rows-update, sessions.rows-update) (two_updates n (rows_of s))

  -- Setting a session active makes it the only active one, and changes nothing else of the sessions;
  -- for an unknown id it fails.
  pub set_by_id_lem :
      (n : ℕ) (s : T)
      → ((s' : T) × (set_by_id sessions targets works files target_dir n s ≡ ok s')
          × (rows_of s' ≡ only_active n (rows_of s))
          × (is_some (find_first (has_session_id n) (rows_of s)) ≡ true))
        ⊎ ((set_by_id sessions targets works files target_dir n s ≡ err invalid_session_reference)
            × (find_first (has_session_id n) (rows_of s) ≡ none))
  unfolding set_by_id
  set_by_id_lem n s = elim (Option-cases (find_first (has_session_id n) (rows_of s))) [
    | inl missing ↦ inr (ground arith, missing)
    | inr (r, found) ↦ inl (set_active n s, ground arith, rows_of-set_active n s, ground arith)
  ]

  -- A session whose name is new, in full and cut to 50 characters, is added at the end and is then
  -- the only active one; the others stay.
  pub add_session_lem :
      (name : String) (s : T)
      → KeyFresh sessions (λ r. r.id) s.session_rows
      → any (has_name name) (rows_of s) ≡ false
      → any (has_name (prefix 50 name)) (rows_of s) ≡ false
      → (s' : T) × (add_session sessions targets works files target_dir name s ≡ ok s')
        × (rows_of s'
            ≡ map (activate false) (rows_of s)
              ++ record {
                id = sessions.next_id s.session_rows;
                name = prefix 50 name;
                active = true;
              }
                ∷ [])
  unfolding add_session
  add_session_lem name s fresh full cut =
      let n = sessions.next_id s.session_rows in
      let made : T = record s {
        session_rows = sessions.add (new_session (prefix 50 name)) s.session_rows;
      } in
      let rows : rows_of made ≡ rows_of s ++ new_session (prefix 50 name) n ∷ [] =
        sessions.rows-add _ _ in
      elim (set_by_id_lem n made) [
        | inl (s', e, after, _) ↦ (
          s',
          rw (full, cut) e,
          after
              ∙ ap (only_active n) rows
              ∙ only_active-append (rows_of s) (new_session (prefix 50 name) n) fresh,
        )
        | inr (e, missing) ↦ absurd (
            let there = find_last n (rows_of s) (new_session (prefix 50 name) n) refl in
            let gone = rw rows at missing in ground arith)
      ]

  delete_target-session_rows :
      (n : ℕ) (s s' : T)
      → delete_target sessions targets works files target_dir n s ≡ ok s'
      → s'.session_rows ≡ s.session_rows
  unfolding delete_target
  delete_target-session_rows zero s s' e = absurd (cc)
  delete_target-session_rows (suc n) s s' e =
      elim (Option-cases (find_first (has_target_id (suc n)) (targets.rows s.target_rows))) [
        | inl missing ↦ absurd (ground arith)
        | inr (t, found) ↦ ground arith
      ]

  delete_targets-session_rows :
      (ts : List Target) (s s' : T)
      → delete_targets sessions targets works files target_dir ts s ≡ ok s'
      → s'.session_rows ≡ s.session_rows
  unfolding delete_targets
  delete_targets-session_rows [] s s' e = ground arith
  delete_targets-session_rows (t ∷ ts) s s' e =
      elim (Bool-cases (length (keep (is_link_of t.id) s.links) == 1)) [
        | inl one ↦
            let (next, first, rest) =
              parts_of_ok (delete_target sessions targets works files target_dir t.id s)
                (delete_targets sessions targets works files target_dir ts) (ground arith) in
            delete_targets-session_rows ts next s' rest
            ∙ delete_target-session_rows t.id s next first
        | inr many ↦ delete_targets-session_rows ts s s' (ground arith)
      ]

  -- The sessions after the one of the given id has gone.
  abbrev pub others : ℕ → T → List Session
  others n s = reject (has_session_id n) (rows_of s)

  ensure_default_session_lem :
      (s s' : T)
      → ensure_default_session sessions targets works files target_dir s ≡ ok s'
      → ((rows_of s ≢ []) × (rows_of s' ≡ rows_of s))
        ⊎ ((rows_of s ≡ [])
            × (id : ℕ) × (rows_of s'
                ≡ record { id = id; name = "default session"; active = true } ∷ []))
  unfolding ensure_default_session
  ensure_default_session_lem s s' e = elim (rows-cases (rows_of s)) [
    | inl empty ↦
        let (made, ok_made, rows) =
          add_session_lem "default session" s (rw empty tt) (rw empty refl) (rw empty refl) in
        let same : made ≡ s' =
          let goes = rw (ensure_default_session, empty, ok_made) at e in ground arith in
        inr (empty, sessions.next_id s.session_rows, rw (← same) (rw empty at rows))
    | inr (r, rs, there) ↦
        let same : s ≡ s' = let goes = rw (ensure_default_session, there) at e in ground arith in
        inl (λ empty. absurd (cc), ap rows_of (sym same))
  ]

  rows_of-left :
      (n : ℕ) (r : Session) (s left : T)
      → r.id ≡ n
      → left.session_rows ≡ s.session_rows
      → sessions.rows (sessions.delete (has_session_id r.id) left.session_rows) ≡ others n s
  rows_of-left n r s left e h = rw (sessions.rows-delete, h, e)

  -- After a session was deleted there is never none: the others stay as they were, and if there are
  -- none there is a default session, which is active.
  pub delete_session_lem :
      (n : ℕ) (s s' : T)
      → delete_session sessions targets works files target_dir n s ≡ ok s'
      → ((others n s ≢ []) × (rows_of s' ≡ others n s))
        ⊎ ((others n s ≡ [])
            × (id : ℕ) × (rows_of s'
                ≡ record { id = id; name = "default session"; active = true } ∷ []))
  unfolding delete_session
  delete_session_lem n s s' e = elim (Option-cases (find_first (has_session_id n) (rows_of s))) [
    | inl missing ↦ absurd (ground arith)
    | inr (r, found) ↦
        let same : r.id ≡ n =
          (==_iff r.id n).0 (find_first-Hit (has_session_id n) r (rows_of s) found).holds in
        let (left, first, rest) =
          parts_of_ok
            (delete_targets sessions targets works files target_dir
              (targets_of sessions targets works files target_dir n s) s)
            _ (let goes = e in rw (delete_session, found) at goes) in
        let gone : sessions.rows (sessions.delete (has_session_id r.id) left.session_rows)
            ≡ others n s =
          rows_of-left n r s left same (delete_targets-session_rows _ s left first) in
        rw gone at (ensure_default_session_lem _ s' rest)
  ]

  -- Deleting the only active session while there are others leaves no session active.
  pub get_active-delete_session :
      (n : ℕ) (s s' : T)
      → All (λ r. r.active ≡ (r.id == n)) (rows_of s)
      → others n s ≢ []
      → delete_session sessions targets works files target_dir n s ≡ ok s'
      → get_active sessions targets works files target_dir s' ≡ none
  unfolding get_active
  get_active-delete_session n s s' only more e = elim (delete_session_lem n s s' e) [
    | inl (_, rows) ↦ rw (get_active, rows, none_left_active n (rows_of s) only)
    | inr (none_left, _, _) ↦ absurd (more none_left)
  ]
