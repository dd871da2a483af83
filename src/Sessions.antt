-- ===== src/Sessions.antt =====
-- owtf/managers/session.py and owtf/models/session.py: the sessions that group targets, one of
-- which is active, and `delete_target` of owtf/managers/target.py, by id.

use owtf.Base.{
  ℕ, zero, suc, ◌+◌, String, Bool, true, false, ◌&&◌, Option, none, some, List, [], ◌∷◌, ◌++◌,
  str_eq, ◌==◌, if◌then◌else◌, length, keep, reject, find_first, any,
}
use Prim.Native.String
use owtf.Db.Table.{Table}
use owtf.Db.Files.{Files}
use owtf.Db.Models.{Session, Target, Work}
use owtf.Exceptions.{
  Result, ok, err, ◌>>=◌, Error, invalid_session_reference, invalid_target_reference, db_integrity,
  database_error, value_error,
}
pub mod Active
pub mod Links
pub mod Deletion
pub mod Orphans
pub mod Membership

-- The tables and folders that the functions change. `links` is `target_session_association`, with
-- the target of each pair first.
pub record Store (sessions : Table Session) (targets : Table Target) (works : Table Work)
    (files : Files) : Type 0 where
  pub session_rows : sessions.State
  pub target_rows : targets.State
  pub links : List (ℕ × ℕ)
  pub queue : works.State
  pub folders : files.State

-- `text[:n]`
abbrev pub prefix : ℕ → String → String
prefix zero text = ""
prefix (suc n) String.[] = ""
prefix (suc n) (String.◌∷◌ c text) = String.◌∷◌ c (prefix n text)

abbrev pub has_session_id : ℕ → Session → Bool
has_session_id n r = r.id == n

abbrev pub has_target_id : ℕ → Target → Bool
has_target_id n r = r.id == n

abbrev pub has_name : String → Session → Bool
has_name name r = str_eq r.name name

abbrev pub activate : Bool → Session → Session
activate b r = record r { active = b }

abbrev pub new_session : String → ℕ → Session
new_session name id = record { id = id; name = name; active = false }

abbrev pub is_link : ℕ → ℕ → ℕ × ℕ → Bool
is_link target_id session_id l = l.0 == target_id && l.1 == session_id

abbrev pub is_link_of : ℕ → ℕ × ℕ → Bool
is_link_of target_id l = l.0 == target_id

module _ (sessions : Table Session) (targets : Table Target) (works : Table Work) (files : Files)
    (target_dir : String → String) where
  abbrev T : Type 0
  T = Store sessions targets works files

  -- The id of the first session that is active.
  unfoldable pub get_active : T → Option ℕ
  get_active s = elim (find_first (λ r. r.active) (sessions.rows s.session_rows)) [
    | none ↦ none
    | some r ↦ some r.id
  ]

  -- The decorator `session_required`.
  unfoldable pub session_required : Option ℕ → T → Option ℕ
  unfolding get_active
  session_required none s = get_active s
  session_required (some session_id) s = some session_id

  unfoldable pub set_by_id : ℕ → T → Result T
  set_by_id session_id s =
      elim (find_first (has_session_id session_id) (sessions.rows s.session_rows)) [
        | none ↦ err invalid_session_reference
        | some _ ↦ ok (record s {
          session_rows =
              sessions.update (has_session_id session_id) (activate true)
                (sessions.update (λ _. true) (activate false) s.session_rows);
        })
      ]

  -- The name is looked for in full and stored cut; the table has a unique constraint on it.
  unfoldable pub add_session : String → T → Result T
  add_session session_name s =
      if any (has_name session_name) (sessions.rows s.session_rows)
      then err db_integrity
      else if any (has_name (prefix 50 session_name)) (sessions.rows s.session_rows)
      then err database_error
      else set_by_id (sessions.next_id s.session_rows) (record s {
        session_rows = sessions.add (new_session (prefix 50 session_name)) s.session_rows;
      })

  unfoldable pub ensure_default_session : T → Result T
  ensure_default_session s = elim (sessions.rows s.session_rows) [
    | [] ↦ add_session "default session" s
    | r ∷ rs ↦ ok s
  ]

  -- The two lookups with which the functions on a target and a session start.
  unfoldable pub lookup_both : ℕ → Option ℕ → T → Result (Session × Target)
  lookup_both target_id none s = err invalid_session_reference
  lookup_both target_id (some session_id) s =
      elim (find_first (has_session_id session_id) (sessions.rows s.session_rows)) [
        | none ↦ err invalid_session_reference
        | some r ↦ elim (find_first (has_target_id target_id) (targets.rows s.target_rows)) [
          | none ↦ err invalid_target_reference
          | some t ↦ ok (r, t)
        ]
      ]

  unfoldable pub add_target_to_session : ℕ → Option ℕ → T → Result T
  add_target_to_session target_id session_id s = do
    (r, t) ← lookup_both target_id (session_required session_id s) s
    ok (
        if any (is_link t.id r.id) s.links
        then s
        else record s { links = s.links ++ (t.id, r.id) ∷ [] })

  -- By id; 0 counts as no id. The rows of the target's jobs and links go with it, and its folder.
  -- Rows of tables that a `Store` does not have go too.
  unfoldable pub delete_target : ℕ → T → Result T
  delete_target zero s = err invalid_target_reference
  delete_target (suc n) s = elim (find_first (has_target_id (suc n)) (targets.rows s.target_rows)) [
    | none ↦ err invalid_target_reference
    | some t ↦ ok (record s {
      target_rows = targets.delete (has_target_id t.id) s.target_rows;
      links = reject (is_link_of t.id) s.links;
      queue = works.delete (λ w. w.target_id == t.id) s.queue;
      folders = files.rm_tree (target_dir t.target_url) s.folders;
    })
  ]

  -- `session_obj.targets.remove(target_obj)` fails for a target that is not in the session.
  unfoldable pub remove_target_from_session : ℕ → Option ℕ → T → Result T
  remove_target_from_session target_id session_id s = do
    (r, t) ← lookup_both target_id (session_required session_id s) s
    if any (is_link t.id r.id) s.links
        then (let s' = record s { links = reject (is_link t.id r.id) s.links } in
            if any (is_link_of t.id) s'.links then ok s' else delete_target t.id s')
        else err value_error

  -- The targets of a session.
  unfoldable pub targets_of : ℕ → T → List Target
  targets_of session_id s =
      keep (λ t. any (is_link t.id session_id) s.links) (targets.rows s.target_rows)

  -- The loop of `delete_session`: targets that are in one session only are deleted.
  unfoldable pub delete_targets : List Target → T → Result T
  delete_targets [] s = ok s
  delete_targets (t ∷ ts) s = do
    next ← if length (keep (is_link_of t.id) s.links) == 1 then delete_target t.id s else ok s
    delete_targets ts next

  unfoldable pub delete_session : ℕ → T → Result T
  delete_session session_id s =
      elim (find_first (has_session_id session_id) (sessions.rows s.session_rows)) [
        | none ↦ err invalid_session_reference
        | some r ↦ do
          left ← delete_targets (targets_of session_id s) s
          ensure_default_session (record left {
            session_rows = sessions.delete (has_session_id r.id) left.session_rows;
            links = reject (λ l. l.1 == r.id) left.links;
          })
      ]
