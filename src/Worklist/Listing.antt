-- ===== src/Worklist/Listing.antt =====
-- The listings of the worklist (owtf/managers/worklist.py): worklist_generate_query, get_all_work and
-- search_all_work. `like` and `ilike` are the pattern tests of the database.

use owtf.Base.{
  ℕ, String, Bool, true, false, not, ◌&&◌, ◌||◌, Option, none, some, List, [], ◌∷◌, map, str_eq,
  if◌then◌else◌,
}
use owtf.Base.Int.{ℤ, pos, eqb_ℤ}
use owtf.Db.Query.{Selection, Found, all, search_rows, first_of, resembles}
use owtf.Db.Table.{Table}
use owtf.Db.Models.{Work, Plugin, Target}
use owtf.Exceptions.{Result, ok, err, database_error, ◌>>=◌}
use owtf.Poutput.Criteria.{Criterion, absent, one, many, number}
use owtf.Worklist.{WorkDict, derive_work_dict}

pub record WorkCriteria : Type 0 where
  pub search : Bool
  pub target_url : Criterion
  pub type : Criterion
  pub group : Criterion
  pub name : Criterion
  -- "id", a target's
  pub id : Criterion
  pub offset : Criterion
  pub limit : Criterion

-- The dictionary after the builder has run on it.
abbrev pub rewritten : WorkCriteria → WorkCriteria
rewritten c =
    let searched = λ (k : Criterion). if c.search then first_of k else k in
    record c {
      target_url = searched c.target_url;
      type = searched c.type;
      group = searched c.group;
      name = searched c.name;
      offset = first_of c.offset;
      limit = first_of c.limit;
    }

module _ (int : String → Option ℤ) where
  -- The database refuses a text that is no number.
  unfoldable pub any_id : List String → Result (ℕ → Bool)
  any_id [] = ok (λ _. false)
  any_id (s ∷ ss) = elim (int s) [
    | none ↦ err database_error
    | some n ↦ do rest ← any_id ss; ok (λ id. eqb_ℤ n (pos id) || rest id)
  ]

  unfoldable pub id_filter : Criterion → Result (ℕ → Bool)
  unfolding any_id
  id_filter absent = ok (λ _. true)
  id_filter (one s) =
      if str_eq s "" then ok (λ _. true) else do n ← number int s; ok (λ id. eqb_ℤ n (pos id))
  id_filter (many []) = ok (λ _. true)
  id_filter (many (s ∷ ss)) = any_id (s ∷ ss)

  unfoldable pub work_bound : Criterion → Result (Option ℤ)
  work_bound absent = ok none
  work_bound (one s) = if str_eq s "" then ok none else do n ← number int s; ok (some n)
  work_bound (many []) = ok none
  work_bound (many (s ∷ _)) = do n ← number int s; ok (some n)

  module _ (like ilike : String → String → Bool) (target_of : Work → Target)
      (plugin_of : Work → Plugin) where
    abbrev pub work_filter : WorkCriteria → Work → Bool
    work_filter c w =
        not c.search
        || (resembles like c.target_url (target_of w).target_url
            && resembles like c.type (plugin_of w).type
            && resembles like c.group (plugin_of w).group
            && resembles ilike c.name (plugin_of w).name)

    unfoldable pub worklist_generate_query :
        WorkCriteria → (for_stats : Bool) → Result (Selection Work)
    unfolding id_filter work_bound
    worklist_generate_query c true = do
      ids ← id_filter c.id
      ok (record { selects = λ w. work_filter c w && ids w.target_id; offset = none; limit = none })
    worklist_generate_query c false = do
      offset ← work_bound c.offset
      limit ← work_bound c.limit
      ids ← id_filter c.id
      ok (record {
        selects = λ w. work_filter c w && ids w.target_id;
        offset = offset;
        limit = limit;
      })

    module _ (works : Table Work) where
      unfoldable pub get_all_work : WorkCriteria → works.State → Result (List WorkDict)
      unfolding worklist_generate_query
      get_all_work c s = do
        q ← worklist_generate_query c false
        ws ← all q (works.rows s)
        ok (map (derive_work_dict works target_of plugin_of) ws)

      -- The rows of the page; the answer has their dictionaries.
      unfoldable pub search_all_work : WorkCriteria → works.State → Result (Found Work)
      unfolding worklist_generate_query
      search_all_work c s =
          search_rows
            (λ for_stats. worklist_generate_query (if for_stats then rewritten c else c) for_stats)
            (λ _. true) (works.rows s)
