-- ===== src/Urls.antt =====
-- owtf/managers/url.py over the table of owtf/models/url.py, with the scope test of
-- owtf/managers/target.py. The regular expressions of owtf/settings.py, urlparse, `str.strip` and the
-- pattern matching of the database are parameters.

pub mod Merging
pub mod Search
use owtf.Base.{
  ℕ, String, Bool, true, false, not, ◌&&◌, Option, none, some, List, [], ◌∷◌, map, str_eq, ◌==◌,
  if◌then◌else◌, is_some, keep, any, mem_str,
}
use owtf.Base.Int.{ℤ}
use owtf.Db.Models.{Target}
use owtf.Db.Query.{Selection, Found, all, search_rows, first_of, flag, resembles}
use owtf.Db.Table.{Table}
use owtf.Exceptions.{Result, ok, ◌>>=◌}
use owtf.Poutput.Criteria.{Criterion, one, many, accepts, number}

-- class Url, whose key is the text; it is looked up by its text only, so the order of rows does not
-- matter
pub record Url : Type 0 where
  pub target_id : ℕ
  pub url : String
  pub visited : Bool
  pub scope : Bool

pub record Web : Type 0 where
  -- len(regexp.findall(url)) > 0, of is_url_regex
  pub finds_url : String → Bool
  -- url.strip()
  pub strip : String → String
  -- urlparse(url).hostname
  pub hostname : String → Option String
  pub like : String → String → Bool
  -- int(text), `none` for a ValueError
  pub int : String → Option ℤ

-- `Url(...)` as it is given to `session.merge`; an argument that is left out is `none`.
pub record Given : Type 0 where
  pub target_id : ℕ
  pub url : String
  pub visited : Option Bool
  pub scope : Option Bool

abbrev pub or_else {ℓ} : {A : Type ℓ} → Option A → A → A
or_else none a = a
or_else (some a) _ = a

abbrev pub has_url : String → Url → Bool
has_url text u = str_eq u.url text

-- A new row gets the defaults of the columns, and an old one keeps what was not given.
abbrev pub inserted : Given → Url
inserted g = record {
  target_id = g.target_id;
  url = g.url;
  visited = or_else g.visited false;
  scope = or_else g.scope true;
}

abbrev pub overwritten : Given → Url → Url
overwritten g u = record {
  target_id = g.target_id;
  url = g.url;
  visited = or_else g.visited u.visited;
  scope = or_else g.scope u.scope;
}

-- What a criterion of the API asks for.
pub record UrlCriteria : Type 0 where
  pub search : Bool
  pub url : Criterion
  pub visited : Criterion
  pub scope : Criterion
  pub offset : Criterion
  pub limit : Criterion

-- The dictionary after the builder has run on it.
abbrev pub rewritten : UrlCriteria → UrlCriteria
rewritten c = record c {
  url = if c.search then first_of c.url else c.url;
  visited = first_of c.visited;
  scope = first_of c.scope;
  offset = first_of c.offset;
  limit = first_of c.limit;
}

abbrev pub of_target : ℕ → Url → Bool
of_target target_id u = u.target_id == target_id

-- `int(criteria[k])`, of a list its first element
unfoldable pub url_bound : (String → Option ℤ) → Criterion → Result (Option ℤ)
url_bound int (one s) = if str_eq s "" then ok none else do n ← number int s; ok (some n)
url_bound int (many (s ∷ ss)) = do n ← number int s; ok (some n)
url_bound int _ = ok none

-- get_all_in_scope(key="host_name") of owtf/managers/target.py, and is_url_in_scope
abbrev pub get_all_in_scope : List Target → List String
get_all_in_scope ts = map (λ t. t.host_name) (keep (λ t. t.scope) ts)

module _ (web : Web) where
  unfoldable pub is_url_in_scope : List Target → String → Bool
  is_url_in_scope ts url = elim (web.hostname url) [
    | none ↦ false
    | some name ↦ mem_str name (get_all_in_scope ts)
  ]

  abbrev pub is_url : String → Bool
  is_url = web.finds_url

  abbrev pub url_filter : UrlCriteria → ℕ → Url → Bool
  url_filter c target_id u =
      of_target target_id u
      && (if c.search then resembles web.like c.url u.url else accepts c.url u.url)
      && flag c.visited u.visited
      && flag c.scope u.scope

  unfoldable pub url_gen_query :
      UrlCriteria → (target_id : ℕ) → (for_stats : Bool) → Result (Selection Url)
  unfolding url_bound
  url_gen_query c target_id true =
      ok (record { selects = url_filter c target_id; offset = none; limit = none })
  url_gen_query c target_id false = do
    offset ← url_bound web.int c.offset
    limit ← url_bound web.int c.limit
    ok (record { selects = url_filter c target_id; offset = offset; limit = limit })

  module _ (urls : Table Url) where
    -- session.merge
    unfoldable pub merge : Given → urls.State → urls.State
    merge g s =
        if any (has_url g.url) (urls.rows s)
        then urls.update (has_url g.url) (overwritten g) s
        else urls.add (λ _. inserted g) s

    -- `found` is not used.
    unfoldable pub add_urls_to_db :
        List Target → (url : String) → (visited : Bool) → ℕ → urls.State → urls.State
    unfolding is_url_in_scope merge
    add_urls_to_db ts url visited target_id s =
        let clean = web.strip url in
        if is_url url
        then merge
            (record {
              target_id = target_id;
              url = clean;
              visited = some visited;
              scope = some (is_url_in_scope ts clean);
            })
            s
        else s

    unfoldable pub add_url :
        List Target → (url : String) → (found : Option Bool) → ℕ → urls.State → urls.State
    unfolding add_urls_to_db
    add_url ts url found target_id s = add_urls_to_db ts url (is_some found) target_id s

    unfoldable pub get_urls_to_visit : urls.State → List String
    get_urls_to_visit s = map (λ u. u.url) (keep (λ u. not u.visited) (urls.rows s))

    -- `(url, visited, scope)` for each URL
    unfoldable pub import_processed_url : List (String × Bool × Bool) → ℕ → urls.State → urls.State
    unfolding merge
    import_processed_url [] target_id s = s
    import_processed_url ((url, visited, scope) ∷ rest) target_id s =
        import_processed_url rest target_id (
          merge
            (record {
              target_id = target_id;
              url = url;
              visited = some visited;
              scope = some scope;
            })
            s)

    unfoldable pub import_urls : List String → ℕ → urls.State → List String × urls.State
    unfolding merge
    import_urls [] target_id s = ([], s)
    import_urls (url ∷ rest) target_id s =
        let g : Given = record { target_id = target_id; url = url; visited = none; scope = none } in
        let s1 = if is_url url then merge g s else s in
        let (imported, s2) = import_urls rest target_id s1 in
        (if is_url url then url ∷ imported else imported, s2)

    unfoldable pub get_all_urls : UrlCriteria → ℕ → urls.State → Result (List Url)
    unfolding url_gen_query
    get_all_urls c target_id s = do q ← url_gen_query c target_id false; all q (urls.rows s)

    unfoldable pub search_all_urls : UrlCriteria → ℕ → urls.State → Result (Found Url)
    unfolding url_gen_query
    search_all_urls c target_id s =
        search_rows
          (λ for_stats. url_gen_query (if for_stats then rewritten c else c) target_id for_stats)
          (of_target target_id) (urls.rows s)
