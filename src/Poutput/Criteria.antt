-- ===== src/Poutput/Criteria.antt =====
-- `poutput_gen_query` of owtf/managers/poutput.py: a filter dictionary becomes a query.

use owtf.Base.{
  ℕ, String, Bool, true, false, not, ◌&&◌, ◌||◌, Option, none, some, List, [], ◌∷◌, str_eq, ◌==◌,
  if◌then◌else◌, mem_str,
}
use owtf.Base.Int.{ℤ, eqb_ℤ}
use owtf.Db.Models.{PluginOutput}
use owtf.Exceptions.{Result, ok, err, invalid_parameter_type, ◌>>=◌}

-- A value of the filter dictionary: a missing key, a text, or a list of texts. Empty texts and
-- empty lists are false in Python, and filter nothing.
pub data Criterion : Type 0 where
  absent : Criterion
  one : String → Criterion
  many : List String → Criterion

pub record FilterData : Type 0 where
  pub plugin_key : Criterion
  pub plugin_type : Criterion
  pub plugin_group : Criterion
  pub plugin_code : Criterion
  pub status : Criterion
  pub user_rank : Criterion
  pub owtf_rank : Criterion
  pub offset : Criterion
  pub limit : Criterion

-- `{}`
abbrev pub no_filter : FilterData
no_filter = record {
  plugin_key = absent;
  plugin_type = absent;
  plugin_group = absent;
  plugin_code = absent;
  status = absent;
  user_rank = absent;
  owtf_rank = absent;
  offset = absent;
  limit = absent;
}

-- `if filter_data.get(k): query.filter_by(k=text)`, or `.in_(texts)` for a list
abbrev pub accepts : Criterion → String → Bool
accepts absent v = true
accepts (one s) v = str_eq s "" || str_eq v s
accepts (many []) v = true
accepts (many (s ∷ ss)) v = mem_str v (s ∷ ss)

pub record Query : Type 0 where
  pub selects : PluginOutput → Bool
  -- order_by(PluginOutput.plugin_key.asc())
  pub ordered : Bool
  pub offset : Option ℤ
  pub limit : Option ℤ

-- `target_id = ...` in SQL, where NULL is found by `None` only
abbrev pub same_target : Option ℕ → Option ℕ → Bool
same_target none none = true
same_target (some a) (some b) = a == b
same_target _ _ = false

-- `int` of Python, `none` where it raises a ValueError.
module _ (int : String → Option ℤ) where
  -- `[int(x) for x in texts]`
  pub ints : List String → Result (List ℤ)
  ints [] = ok []
  ints (s ∷ ss) = elim (int s) [
    | none ↦ err invalid_parameter_type
    | some n ↦ do ns ← ints ss; ok (n ∷ ns)
  ]

  abbrev pub mem_int : ℤ → List ℤ → Bool
  mem_int n [] = false
  mem_int n (m ∷ ms) = eqb_ℤ n m || mem_int n ms

  unfoldable pub number : String → Result ℤ
  number s = elim (int s) [ none ↦ err invalid_parameter_type | some n ↦ ok n ]

  -- The test on a rank, which is parsed before the query runs.
  unfoldable pub rank_filter : Criterion → Result (ℤ → Bool)
  unfolding ints number
  rank_filter absent = ok (λ _. true)
  rank_filter (one s) = if str_eq s "" then ok (λ _. true) else do n ← number s; ok (λ r. eqb_ℤ r n)
  rank_filter (many []) = ok (λ _. true)
  rank_filter (many (s ∷ ss)) = do ns ← ints (s ∷ ss); ok (λ r. mem_int r ns)

  -- `offset` and `limit` are read from a list only, and only its first element.
  unfoldable pub bound : Criterion → Result (Option ℤ)
  unfolding number
  bound (many (s ∷ ss)) = do n ← number s; ok (some n)
  bound _ = ok none

  -- `filter_data["target_id"]` has no effect in the source: the filtered query is dropped.
  unfoldable pub poutput_gen_query : FilterData → Option ℕ → Bool → Result Query
  poutput_gen_query f target_id for_delete = do
    user ← rank_filter f.user_rank
    owtf ← rank_filter f.owtf_rank
    start ← bound f.offset
    count ← bound f.limit
    ok (record {
      selects = λ r.
          same_target target_id r.target_id
          && accepts f.plugin_key r.plugin_key
          && accepts f.plugin_type r.plugin_type
          && accepts f.plugin_group r.plugin_group
          && accepts f.plugin_code r.plugin_code
          && accepts f.status r.status
          && user r.user_rank
          && owtf r.owtf_rank;
      ordered = not for_delete;
      offset = start;
      limit = count;
    })
