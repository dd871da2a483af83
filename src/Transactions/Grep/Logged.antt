-- ===== src/Transactions/Grep/Logged.antt =====
-- What the regular expressions find in transactions, and the rows that log_transactions
-- (owtf/managers/transaction.py) leaves of it.

use owtf.Base.{
  ℕ, String, ◌≡◌, refl, ap, ◌∙◌, ◌⊎◌, inl, inr, Bool, true, false, ◌&&◌, ◌||◌, List, [], ◌∷◌, ◌++◌,
  arith, str_eq, ◌==◌, Bool-cases, Option-cases, any, All, mem_str,
}
use owtf.Db.Table.{KeyFresh}
use owtf.Exceptions.{Result, ok}
use owtf.Transactions.{
  Body, decoded, bytes, Codecs, HttpTransaction, Transaction, Regex, Regexes, Tables, Store, grep,
  grep_all, grep_transaction, log_grep, is_grepped, stored_body, get_transaction_model,
  add_transactions, grep_transactions, log_transactions, urls_list,
}
use owtf.Transactions.Grep.{says, linked, IsKeyed, linked-log_grep}
use owtf.Urls
use owtf.Urls.Merging.{view_of, visits, view_of-import_processed_url}

-- A regular expression of the name finds the match in the text.
abbrev pub found_in : List Regex → String → String → String → Bool
found_in rs text n m = any (λ r. str_eq r.name n && mem_str m (r.findall text)) rs

says-append :
    (xs ys : List (String × List String)) (n m : String)
    → says (xs ++ ys) n m ≡ (says xs n m || says ys n m)
says-append [] ys n m = refl
says-append ((name, ms) ∷ xs) ys n m = ground (arith, says-append xs ys n m)

List-cases {ℓ} : {A : Type ℓ} (xs : List A) → (xs ≡ []) ⊎ ((x : A) × (ys : List A) × (xs ≡ x ∷ ys))
List-cases [] = inl refl
List-cases (x ∷ xs) = inr (x, xs, refl)

-- A search that returns results, which are those of a test.
record Greps (r : Result (List (String × List String))) (says_so : String → String → Bool)
    : Type 0 where
  pub results : List (String × List String)
  pub returns : r ≡ ok results
  pub agrees : (n m : String) → says results n m ≡ says_so n m

Greps-grep :
    (r : Regex) (text : String)
    → Greps (grep r (decoded text)) (λ n m. str_eq r.name n && mem_str m (r.findall text))
unfolding grep
Greps-grep r text = elim (List-cases (r.findall text)) [
  | inl e ↦ record {
    results = [];
    returns = rw (grep, e) refl;
    agrees = λ n m. rw e (ground arith);
  }
  | inr (x, xs, e) ↦ record {
    results = (r.name, x ∷ xs) ∷ [];
    returns = rw (grep, e) refl;
    agrees = λ n m. rw e (ground arith);
  }
]

Greps-grep_all :
    (rs : List Regex) (text : String) → Greps (grep_all rs (decoded text)) (found_in rs text)
unfolding grep_all
Greps-grep_all [] text = record { results = []; returns = refl; agrees = λ n m. refl }
Greps-grep_all (r ∷ rs) text =
    let here = Greps-grep r text in
    let rest = Greps-grep_all rs text in
    record {
      results = here.results ++ rest.results;
      returns = rw (grep_all, here.returns, rest.returns) refl;
      agrees = λ n m.
          says-append here.results rest.results n m ∙ (rw (here.agrees n m, rest.agrees n m) refl);
    }

-- A response that the text patterns can search.
abbrev pub HasText : HttpTransaction → Type 0
HasText t = (text : String) × (t.response_contents ≡ decoded text)

abbrev text_of : Body → String
text_of (decoded text) = text
text_of (bytes content) = ""

-- What a transaction matches, in its headers or in its body.
abbrev pub has_match : Regexes → HttpTransaction → String → String → Bool
has_match regexes t n m =
    found_in regexes.headers t.response_headers n m
    || found_in regexes.body (text_of t.response_contents) n m

Greps-grep_transaction :
    (regexes : Regexes) (t : HttpTransaction)
    → HasText t
    → Greps (grep_transaction regexes t) (has_match regexes t)
unfolding grep_transaction
Greps-grep_transaction regexes t (text, e) =
    let in_headers = Greps-grep_all regexes.headers t.response_headers in
    let in_body = Greps-grep_all regexes.body text in
    record {
      results = in_headers.results ++ in_body.results;
      returns = rw (grep_transaction, e, in_headers.returns, in_body.returns) refl;
      agrees = λ n m.
          says-append in_headers.results in_body.results n m
          ∙ (rw (in_headers.agrees n m, in_body.agrees n m, e) refl);
    }

-- The transactions in scope, by the ids of their models, that match.
abbrev pub logged : Regexes → List HttpTransaction → List Transaction → String → String → ℕ → Bool
logged regexes (t ∷ ts) (model ∷ models) n m y =
    (t.in_scope && has_match regexes t n m && y == model.id) || logged regexes ts models n m y
logged regexes _ _ n m y = false

module _ (web : owtf.Urls.Web) (codecs : Codecs) (regexes : Regexes) (tables : Tables)
    (new_ids : (s : tables.greps.State) → KeyFresh tables.greps (λ g. g.id) s) where
  -- The model of a text is grepped just when the transaction is in scope.
  is_grepped_of :
      (t : HttpTransaction) (target_id id : ℕ)
      → HasText t
      → is_grepped (get_transaction_model codecs t target_id id) ≡ t.in_scope
  unfolding get_transaction_model stored_body
  is_grepped_of t target_id id (text, e) = elim (Option-cases (codecs.encode text)) [
    | inl h ↦ rw (get_transaction_model, e, stored_body, h) refl
    | inr (encoded, h) ↦ rw (get_transaction_model, e, stored_body, h) refl
  ]

  module _ (t : HttpTransaction) (ts : List HttpTransaction) (model : Transaction)
      (models : List Transaction) (target_id : ℕ) (s : tables.greps.State) where
    -- One transaction, which is searched or passed over.
    grep_transactions-hit :
        (results : List (String × List String))
        → grep_transaction regexes t ≡ ok results
        → is_grepped model ≡ true
        → grep_transactions web codecs regexes tables (t ∷ ts) (model ∷ models) target_id s
          ≡ grep_transactions web codecs regexes tables ts models target_id
              (log_grep tables.greps target_id model.id results s)
    unfolding grep_transactions
    grep_transactions-hit results returns scoped = rw (grep_transactions, scoped, returns) refl

    grep_transactions-miss :
        is_grepped model ≡ false
        → grep_transactions web codecs regexes tables (t ∷ ts) (model ∷ models) target_id s
          ≡ grep_transactions web codecs regexes tables ts models target_id s
    unfolding grep_transactions
    grep_transactions-miss scoped = rw (grep_transactions, scoped) refl

  no_transactions :
      (target_id : ℕ) (s : tables.greps.State)
      → grep_transactions web codecs regexes tables [] [] target_id s ≡ (ok tt, s)
  unfolding grep_transactions
  no_transactions target_id s = refl

  linked-grep_transactions :
      (ts : List HttpTransaction) (a : tables.transactions.State) (target_id : ℕ)
      (s : tables.greps.State)
      → All HasText ts
      → IsKeyed tables.greps new_ids s
      → let models = (add_transactions web codecs regexes tables ts target_id a).0 in
        let out = grep_transactions web codecs regexes tables ts models target_id s in
        (out.0 ≡ ok tt)
        × ((t' : ℕ) (n m : String) (y : ℕ)
            → linked tables.greps new_ids out.1 t' n m y ≡ (
                linked tables.greps new_ids s t' n m y
                || (target_id == t' && logged regexes ts models n m y)))
  unfolding add_transactions
  linked-grep_transactions [] a target_id s h d = (
    ap (λ x. x.0) (no_transactions target_id s),
    λ t' n m y. rw (no_transactions target_id s) (ground arith),
  )
  linked-grep_transactions (t ∷ ts) a target_id s h d =
      let model = get_transaction_model codecs t target_id (tables.transactions.next_id a) in
      let a' = tables.transactions.add (get_transaction_model codecs t target_id) a in
      let models = (add_transactions web codecs regexes tables ts target_id a').0 in
      let scoped : is_grepped model ≡ t.in_scope =
        is_grepped_of t target_id (tables.transactions.next_id a) h.0 in
      let greps = Greps-grep_transaction regexes t h.0 in
      elim (Bool-cases t.in_scope) [
        | inr h' ↦
            let (ends, rest) = linked-grep_transactions ts a' target_id s h.1 d in
            rw (grep_transactions-miss t ts model models target_id s (scoped ∙ h'))
              (ends, λ t' n m y. rest t' n m y ∙ ground (arith, h'))
        | inl h' ↦
            let (d', first) =
              linked-log_grep tables.greps new_ids target_id model.id greps.results s d in
            let (ends, rest) =
              linked-grep_transactions ts a' target_id
                (log_grep tables.greps target_id model.id greps.results s) h.1 d' in
            rw
              (grep_transactions-hit t ts model models target_id s greps.results greps.returns
                (scoped ∙ h'))
              (
                ends,
                λ t' n m y.
                    rest t' n m y ∙ (rw (first t' n m y, greps.agrees n m) (ground (arith, h'))),
              )
      ]

  -- Where every response is text, transactions are logged without an exception. After that a
  -- transaction is linked to a match of a regular expression just when it was before, or when it is
  -- one of the new ones, in scope, whose headers or body the expression finds the match in; and
  -- the URLs are written one after the other.
  pub linked-log_transactions :
      (ts : List HttpTransaction) (target_id : ℕ) (s : Store tables)
      → All HasText ts
      → IsKeyed tables.greps new_ids s.greps
      → let models = (add_transactions web codecs regexes tables ts target_id s.transactions).0 in
        let out = log_transactions web codecs regexes tables ts target_id s in
        (out.0 ≡ ok tt)
        × ((t' : ℕ) (n m : String) (y : ℕ)
            → linked tables.greps new_ids out.1.greps t' n m y ≡ (
                linked tables.greps new_ids s.greps t' n m y
                || (target_id == t' && logged regexes ts models n m y)))
        × ((text : String)
            → view_of web tables.urls out.1.urls text
              ≡ visits
                  (urls_list web codecs regexes tables ts)
                  target_id
                  (view_of web tables.urls s.urls)
                  text)
  unfolding log_transactions
  linked-log_transactions ts target_id s h d =
      let (ends, all) = linked-grep_transactions ts s.transactions target_id s.greps h d in
      rw (log_transactions, ends)
        (
          refl,
          all,
          λ text.
              view_of-import_processed_url web tables.urls (urls_list web codecs regexes tables ts)
                target_id s.urls text,
        )
