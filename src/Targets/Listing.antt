-- ===== src/Targets/Listing.antt =====
-- The listings of targets (owtf/managers/target.py): target_gen_query, the configurations of targets, and
-- the severity chart.

use owtf.Base.{
  ℕ, zero, suc, ◌+◌, ◌-◌, String, Bool, true, false, beq, ◌&&◌, ◌||◌, Option, none, some, List, [],
  ◌∷◌, reverse, str_eq, ltb, if◌then◌else◌, get_elem?, set,
}
use owtf.Base.Int.{ℤ, pos, negsuc, eqb_ℤ, ltb_ℤ}
use owtf.Db.Query.{Selection, Found, all, search_rows, first_of, str2bool, flag, resembles}
use owtf.Db.Models.{Target, PluginOutput}
use owtf.Exceptions.{Result, ok, err, index_error, ◌>>=◌}
use owtf.Poutput.Criteria.{Criterion, absent, one, many, accepts, number}
use owtf.Sessions.{prefix}
use owtf.Worklist.Listing.{id_filter}

-- `search` is whether that key is there.
pub record TargetCriteria : Type 0 where
  pub search : Bool
  pub target_url : Criterion
  pub host_ip : Criterion
  pub scope : Criterion
  pub host_name : Criterion
  pub id : Criterion
  pub offset : Criterion
  pub limit : Criterion

-- The dictionary after the builder has run on it.
abbrev pub rewritten : TargetCriteria → TargetCriteria
rewritten c = record c {
  target_url = if c.search then first_of c.target_url else c.target_url;
  scope = if c.search then c.scope else first_of c.scope;
  offset = first_of c.offset;
  limit = first_of c.limit;
}

-- `filter_data["scope"][0]`, of a text its first letter
abbrev pub scope_flag : Criterion → Bool → Bool
scope_flag (one s) v = str_eq s "" || beq (str2bool (prefix 1 s)) v
scope_flag c v = flag c v

-- `in_session` tells whether a target is in the session that is asked for.
module _ (like : String → String → Bool) (int : String → Option ℤ)
    (in_session : Target → Bool) where
  -- The limit -1 is none.
  unfoldable pub target_limit : Option ℤ → Option ℤ
  target_limit none = none
  target_limit (some n) = if eqb_ℤ n (negsuc 0) then none else some n

  unfoldable pub target_bound : Criterion → Result (Option ℤ)
  target_bound absent = ok none
  target_bound (one s) = if str_eq s "" then ok none else do n ← number int s; ok (some n)
  target_bound (many []) = ok none
  target_bound (many (s ∷ _)) = do n ← number int s; ok (some n)

  abbrev pub target_filter : TargetCriteria → Target → Bool
  target_filter c t =
      in_session t
      && (if c.search
          then resembles like c.target_url t.target_url
          else accepts c.target_url t.target_url
            && accepts c.host_ip t.host_ip
            && scope_flag c.scope t.scope
            && accepts c.host_name t.host_name)

  -- "id" counts only outside a search.
  unfoldable pub target_gen_query : TargetCriteria → (for_stats : Bool) → Result (Selection Target)
  unfolding target_limit target_bound
  target_gen_query c true = do
    ids ← if c.search then ok (λ _. true) else id_filter int c.id
    ok (record { selects = λ t. target_filter c t && ids t.id; offset = none; limit = none })
  target_gen_query c false = do
    offset ← target_bound c.offset
    limit ← target_bound c.limit
    ids ← if c.search then ok (λ _. true) else id_filter int c.id
    ok (record {
      selects = λ t. target_filter c t && ids t.id;
      offset = offset;
      limit = target_limit limit;
    })

  -- order_by(Target.id.desc())
  unfoldable pub get_target_config_dicts : TargetCriteria → List Target → Result (List Target)
  unfolding target_gen_query
  get_target_config_dicts c rows = do q ← target_gen_query c false; all q (reverse rows)

  unfoldable pub search_target_configs : TargetCriteria → List Target → Result (Found Target)
  unfolding target_gen_query
  search_target_configs c rows =
      search_rows (λ for_stats. target_gen_query (if for_stats then rewritten c else c) for_stats)
        in_session (reverse rows)

-- max_user_rank and max_owtf_rank of owtf/models/target.py: the highest of the ranks, and at least -1
abbrev max_ℤ : ℤ → ℤ → ℤ
max_ℤ a b = if ltb_ℤ a b then b else a

unfoldable pub max_rank : (PluginOutput → ℤ) → List PluginOutput → ℤ
max_rank rank [] = negsuc 0
max_rank rank (r ∷ rs) = max_ℤ (max_rank rank rs) (rank r)

-- The place of a target in the chart: its user rank, or else its rank by the framework.
abbrev pub place_of : List PluginOutput → ℤ
place_of rs =
    let user = max_rank (λ r. r.user_rank) rs in
    if eqb_ℤ user (negsuc 0) then max_rank (λ r. r.owtf_rank) rs else user

-- The row `rank + 1` of the seven; Python counts a negative index from the end.
unfoldable pub chart_row : ℤ → Option ℕ
chart_row (pos n) = if ltb n 6 then some (n + 1) else none
chart_row (negsuc zero) = some 0
chart_row (negsuc (suc n)) = if ltb n 7 then some (6 - n) else none

-- How many targets each row counts; the chart shows the rows that count any, each as its share of
-- the whole. A rank above the rows is an IndexError.
unfoldable pub get_targets_by_severity_count : List (List PluginOutput) → List ℕ → Result (List ℕ)
unfolding max_rank chart_row
get_targets_by_severity_count [] rows = ok rows
get_targets_by_severity_count (outputs ∷ rest) rows = elim (chart_row (place_of outputs)) [
  | none ↦ err index_error
  | some k ↦
      get_targets_by_severity_count rest
        (elim (get_elem? rows k) [ none ↦ rows | some n ↦ set rows k (n + 1) ])
]
