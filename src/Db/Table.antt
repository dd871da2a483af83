-- ===== src/Db/Table.antt =====
-- What the managers rely on of a mapped table (owtf/db/session.py hands out the sessions).
-- SQLAlchemy is not part of the repository: it is this record of operations, with their
-- documented behaviour as laws. `rows` is the table in order of its primary key.
use owtf.Base.{ℕ, ◌≡◌, ◌≢◌, Bool, List, [], ◌∷◌, ◌++◌, All, reject, map_where}

pub record Table (Row : Type 0) : Type 1 where
  pub State : Type 0
  -- query.all(), in order of the primary key
  pub rows : State → List Row
  -- the value that an autoincremented key takes next
  pub next_id : State → ℕ
  -- session.add of a row whose key the database chooses
  pub add : (ℕ → Row) → State → State
  -- session.delete of the objects that satisfy a test, query.filter(...).delete()
  pub delete : (Row → Bool) → State → State
  -- query.filter(...).update(...), or the assignment of an attribute of a loaded object
  pub update : (Row → Bool) → (Row → Row) → State → State
  pub rows-add : (make : ℕ → Row) (s : State) → rows (add make s) ≡ rows s ++ make (next_id s) ∷ []
  pub rows-delete : (p : Row → Bool) (s : State) → rows (delete p s) ≡ reject p (rows s)
  pub rows-update :
      (p : Row → Bool) (f : Row → Row) (s : State) → rows (update p f s) ≡ map_where p f (rows s)

-- An autoincremented key is new to the table.
abbrev pub KeyFresh : {Row : Type 0} (t : Table Row) → (Row → ℕ) → t.State → Type 0
KeyFresh t key s = All (λ r. key r ≢ t.next_id s) (t.rows s)
