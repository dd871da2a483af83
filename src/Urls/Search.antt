-- ===== src/Urls/Search.antt =====
-- The search for URLs (owtf/managers/url.py).

use owtf.Base.{
  ℕ, ◌≡◌, sym, ap, inl, inr, Bool, true, false, Option, none, arith, if◌then◌else◌, Bool-cases,
}
use owtf.Base.Int.{ℤ}
use owtf.Db.Query.{
  Selection, Found, IsOrdered, search_rows-IsOrdered, flag_first, resembles_first, first_of,
  resembles, and_mono,
}
use owtf.Db.Table.{Table}
use owtf.Exceptions.{ok, parts_of_ok, ◌>>=◌}
use owtf.Poutput.Criteria.{accepts}
use owtf.Urls.{
  Url, Web, UrlCriteria, of_target, rewritten, url_bound, url_gen_query, url_filter,
  search_all_urls,
}

module _ (web : Web) where
  selects-url_gen_query :
      (c : UrlCriteria) (target_id : ℕ) (for_stats : Bool) (q : Selection Url)
      → url_gen_query web c target_id for_stats ≡ ok q
      → q.selects ≡ url_filter web c target_id
  unfolding url_gen_query
  selects-url_gen_query c target_id true q e =
      let same : record { selects = url_filter web c target_id; offset = none; limit = none } ≡ q =
        cc in
      ap (λ q. q.selects) (sym same)
  selects-url_gen_query c target_id false q e =
      let with_limit = λ (offset : Option ℤ) (limit : Option ℤ).
        ok (record { selects = url_filter web c target_id; offset = offset; limit = limit }) in
      let (offset, _, rest) =
        parts_of_ok (url_bound web.int c.offset)
          (λ offset. url_bound web.int c.limit >>= with_limit offset) e in
      let (limit, _, last) = parts_of_ok (url_bound web.int c.limit) (with_limit offset) rest in
      let same : record { selects = url_filter web c target_id; offset = offset; limit = limit }
          ≡ q =
        cc in
      ap (λ q. q.selects) (sym same)

  only_of_target :
      (c : UrlCriteria) (target_id : ℕ) (u : Url)
      → url_filter web c target_id u ≡ true
      → of_target target_id u ≡ true
  only_of_target c target_id u h = ground (arith, h)

  text_first :
      (c : UrlCriteria) (u : Url)
      → (if c.search then resembles web.like c.url u.url else accepts c.url u.url) ≡ true
      → (if c.search
          then resembles web.like (if c.search then first_of c.url else c.url) u.url
          else accepts (if c.search then first_of c.url else c.url) u.url)
        ≡ true
  text_first c u h = elim (Bool-cases c.search) [
    | inl k ↦ let h' = rw k at h in rw k (resembles_first web.like c.url u.url h')
    | inr k ↦ let h' = rw k at h in rw k h'
  ]

  wider_when_rewritten :
      (c : UrlCriteria) (target_id : ℕ) (u : Url)
      → url_filter web c target_id u ≡ true
      → url_filter web (rewritten c) target_id u ≡ true
  wider_when_rewritten c target_id u h =
      and_mono _ _ _ _
        (and_mono _ _ _ _ (and_mono _ _ _ _ (λ k. k) (text_first c u))
          (flag_first c.visited u.visited))
        (flag_first c.scope u.scope) h

  -- What is found on a page matches, and the matches are URLs of the target: the counts that the
  -- page shows are in order.
  pub search_all_urls-IsOrdered :
      (urls : Table Url) (c : UrlCriteria) (target_id : ℕ) (s : urls.State) (found : Found Url)
      → search_all_urls web urls c target_id s ≡ ok found
      → IsOrdered found
  unfolding search_all_urls
  search_all_urls-IsOrdered urls c target_id s found e =
      search_rows-IsOrdered
        (λ for_stats. url_gen_query web (if for_stats then rewritten c else c) target_id for_stats)
        (of_target target_id) (url_filter web c target_id) (url_filter web (rewritten c) target_id)
        (urls.rows s) found (selects-url_gen_query c target_id false)
        (selects-url_gen_query (rewritten c) target_id true) (wider_when_rewritten c target_id)
        (only_of_target (rewritten c) target_id) e
