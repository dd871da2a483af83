-- ===== src/Urls/Merging.antt =====
-- What is stored of a URL (owtf/managers/url.py), as a map from texts to rows.

use owtf.Base.{
  ℕ, String, ◌≡◌, refl, sym, ap, ◌∙◌, inl, inr, Bool, true, false, Option, none, some, List, [],
  ◌∷◌, ◌++◌, arith, str_eq, eq_iff, if◌then◌else◌, Bool-cases, Option-cases, eq_self, is_some,
  map_where, find_first, any,
}
use mathlib.Core.Path.{fun_ext}
use owtf.Db.Models.{Target}
use owtf.Db.Table.{Table}
use owtf.Urls.{
  Url, Web, Given, has_url, inserted, overwritten, merge, is_url, is_url_in_scope, add_urls_to_db,
  add_url, import_processed_url,
}

-- The abstract table: the row of each URL.
abbrev pub View : Type 0
View = String → Option Url

abbrev pub visit : Given → View → View
visit g view text =
    if str_eq g.url text
    then some (elim (view text) [ none ↦ inserted g | some u ↦ overwritten g u ])
    else view text

-- Writing a row under its text.
abbrev pub write : Url → View → View
write u view text = if str_eq u.url text then some u else view text

-- One write for each visited URL, with the target, the mark and the scope that are given.
abbrev pub visits : List (String × Bool × Bool) → ℕ → View → View
visits [] target_id view = view
visits ((url, visited, scope) ∷ rest) target_id view =
    visits rest target_id
      (write (record { target_id = target_id; url = url; visited = visited; scope = scope }) view)

visit-write :
    (target_id : ℕ) (url : String) (visited scope : Bool) (view : View) (text : String)
    → visit
        (record { target_id = target_id; url = url; visited = some visited; scope = some scope })
        view
        text
      ≡ write
          (record { target_id = target_id; url = url; visited = visited; scope = scope })
          view
          text
visit-write target_id url visited scope view text = elim (Option-cases (view text)) [
  | inl e ↦ rw e refl
  | inr (u, e) ↦ rw e refl
]

eq_sym : (s t : String) → str_eq s t ≡ true → s ≡ t
eq_sym s t h = (eq_iff s t).0 h

find_first-append_url :
    (text : String) (us : List Url) (u : Url)
    → find_first (has_url text) (us ++ u ∷ []) ≡ (elim (find_first (has_url text) us) [
      | none ↦ if str_eq u.url text then some u else none
      | some v ↦ some v
    ])
find_first-append_url text [] u = refl
find_first-append_url text (v ∷ us) u = ground (arith, find_first-append_url text us u)

any_none :
    (text : String) (us : List Url) → any (has_url text) us ≡ is_some (find_first (has_url text) us)
any_none text [] = refl
any_none text (u ∷ us) = ground (arith, any_none text us)

find_first-overwritten :
    (text : String) (g : Given) (us : List Url)
    → find_first (has_url text) (map_where (has_url g.url) (overwritten g) us) ≡ (
        if str_eq g.url text
        then (elim (find_first (has_url text) us) [ none ↦ none | some u ↦ some (overwritten g u) ])
        else find_first (has_url text) us)
find_first-overwritten text g [] = ground arith
find_first-overwritten text g (u ∷ us) =
    let rest = find_first-overwritten text g us in
    elim (Bool-cases (str_eq u.url g.url)) [
      | inl a ↦
          let moves : str_eq u.url text ≡ str_eq g.url text =
            ap (λ t. str_eq t text) (eq_sym u.url g.url a) in
          ground (arith, a, moves, rest)
      | inr a ↦ elim (Bool-cases (str_eq g.url text)) [
        | inl b ↦
            let moves : str_eq u.url text ≡ false = rw (sym (eq_sym g.url text b)) a in
            ground (arith, a, b, moves, rest)
        | inr b ↦ ground (arith, a, b, rest)
      ]
    ]

module _ (web : Web) (urls : Table Url) where
  abbrev pub view_of : urls.State → View
  view_of s text = find_first (has_url text) (urls.rows s)

  -- A merge changes the row of its URL only.
  pub view_of-merge :
      (g : Given) (s : urls.State) (text : String)
      → view_of (merge web urls g s) text ≡ visit g (view_of s) text
  unfolding merge
  view_of-merge g s text = elim (Bool-cases (any (has_url g.url) (urls.rows s))) [
    | inl old ↦
        let starts : view_of (merge web urls g s) text
            ≡ find_first (has_url text) (map_where (has_url g.url) (overwritten g) (urls.rows s)) =
          rw (merge, old, urls.rows-update) refl in
        let changes = find_first-overwritten text g (urls.rows s) in
        elim (Bool-cases (str_eq g.url text)) [
          | inr b ↦ rw (starts, changes, b) refl
          | inl b ↦
              let here : is_some (find_first (has_url text) (urls.rows s)) ≡ true =
                rw (sym (eq_sym g.url text b), sym (any_none g.url (urls.rows s))) old in
              elim (Option-cases (find_first (has_url text) (urls.rows s))) [
                | inl e ↦ let no : false ≡ true = rw e at here in absurd (cc)
                | inr (u, e) ↦ rw (starts, changes, b, e) refl
              ]
        ]
    | inr new ↦
        let starts : view_of (merge web urls g s) text
            ≡ find_first (has_url text) (urls.rows s ++ inserted g ∷ []) =
          rw (merge, new, urls.rows-add) refl in
        let changes = find_first-append_url text (urls.rows s) (inserted g) in
        elim (Option-cases (find_first (has_url text) (urls.rows s))) [
          | inl e ↦ rw (starts, changes, e) refl
          | inr (u, e) ↦
              let other : str_eq g.url text ≡ false = elim (Bool-cases (str_eq g.url text)) [
                | inr b ↦ b
                | inl b ↦
                    let gone : is_some (find_first (has_url text) (urls.rows s)) ≡ false =
                      rw (sym (eq_sym g.url text b), sym (any_none g.url (urls.rows s))) new in
                    let no : true ≡ false = rw e at gone in absurd (cc)
              ] in
              rw (starts, changes, e, other) refl
        ]
  ]

  -- The import of visited URLs is, for each in turn, one write of the abstract table: whether the URL is
  -- there or not, its row is then the given target, mark and scope, and no other row changes.
  pub view_of-import_processed_url :
      (rows : List (String × Bool × Bool)) (target_id : ℕ) (s : urls.State) (text : String)
      → view_of (import_processed_url web urls rows target_id s) text
        ≡ visits rows target_id (view_of s) text
  unfolding import_processed_url
  view_of-import_processed_url [] target_id s text = refl
  view_of-import_processed_url ((url, visited, scope) ∷ rest) target_id s text =
      let g : Given = record {
        target_id = target_id;
        url = url;
        visited = some visited;
        scope = some scope;
      } in
      let row : Url = record {
        target_id = target_id;
        url = url;
        visited = visited;
        scope = scope;
      } in
      let one : view_of (merge web urls g s) ≡ write row (view_of s) =
        fun_ext
          (λ t. view_of-merge g s t ∙ visit-write target_id url visited scope (view_of s) t) in
      view_of-import_processed_url rest target_id (merge web urls g s) text
      ∙ ap (λ v. visits rest target_id v text) one

  -- A URL that is added without a result is to be visited again, whether or not it was visited.
  pub view_of-add_url :
      (ts : List Target) (url : String) (found : Option Bool) (target_id : ℕ) (s : urls.State)
      → is_url web url ≡ true
      → let clean = web.strip url in
        view_of (add_url web urls ts url found target_id s) clean
        ≡ some (record {
          target_id = target_id;
          url = clean;
          visited = is_some found;
          scope = is_url_in_scope web ts clean;
        })
  unfolding add_url add_urls_to_db
  view_of-add_url ts url found target_id s valid =
      let g : Given = record {
        target_id = target_id;
        url = web.strip url;
        visited = some (is_some found);
        scope = some (is_url_in_scope web ts (web.strip url));
      } in
      let starts : view_of (add_url web urls ts url found target_id s)
          ≡ view_of (merge web urls g s) =
        rw (add_url, add_urls_to_db, valid) refl in
      let merged = view_of-merge g s (web.strip url) in
      let self = eq_self (web.strip url) in
      elim (Option-cases (view_of s (web.strip url))) [
        | inl e ↦ ap (λ v. v (web.strip url)) starts ∙ (merged ∙ rw (self, e) refl)
        | inr (u, e) ↦ ap (λ v. v (web.strip url)) starts ∙ (merged ∙ rw (self, e) refl)
      ]
