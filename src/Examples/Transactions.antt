-- ===== src/Examples/Transactions.antt =====
-- URLs and transactions at concrete inputs.

use owtf.Base.{
  ℕ, String, ◌≡◌, refl, Bool, true, false, not, ◌&&◌, none, some, List, [], ◌∷◌, str_eq, ◌==◌,
  if◌then◌else◌,
}
use owtf.Base.Int.{pos}
use owtf.Db.Memory.{Stored, memory, numbered, numbered-KeyFresh}
use owtf.Db.Query.{Found, IsOrdered, search_rows, all}
use owtf.Exceptions.{ok}
use owtf.Examples.Data.{target_at}
use owtf.Poutput.Criteria.{absent, many, number}
use owtf.Transactions.{
  Body, decoded, Codecs, HttpTransaction, Transaction, Regex, Regexes, Tables, Store,
  get_transaction_model, add_transactions, log_transactions,
}
use owtf.Transactions.Grep.{linked}
use owtf.Transactions.Grep.Logged.{logged, linked-log_transactions}
use owtf.Transactions.Reading.{TransactionCriteria, search_all_transactions}
use owtf.Transactions.Reading.Search.{search_all_transactions-IsOrdered}
use owtf.Urls.{Url, Web, is_url_in_scope, add_url, import_processed_url}
use owtf.Urls.Merging.{view_of, visits, view_of-import_processed_url, view_of-add_url}

abbrev toy_web : Web
toy_web = record {
  finds_url = λ url. not (str_eq url "mailto:a");
  strip = λ url. url;
  hostname = λ url. some "a";
  like = str_eq;
  int = λ text. if str_eq text "1" then some (pos 1) else none;
}

-- A URL that was visited, of another target.
abbrev visited_url : Stored Url
visited_url = record {
  contents = record { target_id = 3; url = "http://a/x"; visited = true; scope = true } ∷ [];
  counter = 2;
}

view_of-import_processed_url_example :
    view_of toy_web memory
      (import_processed_url toy_web memory
        (("http://a/x", true, false) ∷ ("http://a/y", false, true) ∷ [])
        7
        visited_url)
      "http://a/x"
    ≡ some (record { target_id = 7; url = "http://a/x"; visited = true; scope = false })
view_of-import_processed_url_example =
    view_of-import_processed_url toy_web memory
      (("http://a/x", true, false) ∷ ("http://a/y", false, true) ∷ []) 7 visited_url "http://a/x"

-- The visited URL is to be visited again.
view_of-add_url_example :
    view_of toy_web memory
      (add_url toy_web memory (target_at 7 ∷ []) "http://a/x" none 3 visited_url)
      "http://a/x"
    ≡ some (record { target_id = 3; url = "http://a/x"; visited = false; scope = true })
unfolding is_url_in_scope
view_of-add_url_example =
    view_of-add_url toy_web memory (target_at 7 ∷ []) "http://a/x" none 3 visited_url refl

abbrev toy_codecs : Codecs
toy_codecs = record {
  encode = λ text. some text;
  b64decode = λ text. text;
  len = λ text. 5;
  column = λ text. text;
}

-- One expression for headers and one for bodies, which find their own names.
abbrev finds : String → Regex
finds name = record {
  name = name;
  findall = λ text. if str_eq text name then name ∷ name ∷ [] else [];
}

abbrev toy_regexes : Regexes
toy_regexes = record { headers = finds "Server" ∷ []; body = finds "secret" ∷ [] }

abbrev toy_tables : Tables
toy_tables = record { transactions = memory; greps = numbered (λ g. g.id); urls = memory }

abbrev visit_to : String → Bool → Body → HttpTransaction
visit_to url in_scope body = record {
  url = url;
  in_scope = in_scope;
  method = "GET";
  request_data = "";
  time = 1;
  time_human = "1s";
  local_timestamp = 5;
  raw_request = "GET /";
  status = "200 OK";
  response_headers = "Server";
  response_contents = body;
  session_tokens = "[]";
}

abbrev two_visits : List HttpTransaction
two_visits =
    visit_to "http://a/x" true (decoded "secret")
    ∷ visit_to "http://b" false (decoded "secret")
    ∷ []

abbrev no_rows : Store toy_tables
no_rows = record {
  transactions = record { contents = []; counter = 1 };
  greps = [];
  urls = visited_url;
}

abbrev after_logging : Store toy_tables
after_logging = (log_transactions toy_web toy_codecs toy_regexes toy_tables two_visits 7 no_rows).1

linked-log_transactions_example :
    ((log_transactions toy_web toy_codecs toy_regexes toy_tables two_visits 7 no_rows).0 ≡ ok tt)
    × ((t' : ℕ) (n m : String) (y : ℕ)
        → linked (numbered (λ g. g.id)) (numbered-KeyFresh (λ g. g.id)) after_logging.greps t' n m y
          ≡ (7 == t'
              && logged toy_regexes two_visits
                  (get_transaction_model toy_codecs
                      (visit_to "http://a/x" true (decoded "secret"))
                      7
                      1
                    ∷ get_transaction_model toy_codecs
                        (visit_to "http://b" false (decoded "secret"))
                        7
                        2
                    ∷ [])
                  n
                  m
                  y))
    × ((text : String)
        → view_of toy_web memory after_logging.urls text
          ≡ visits
              (("http://a/x", true, true) ∷ ("http://b", true, false) ∷ [])
              7
              (view_of toy_web memory visited_url)
              text)
unfolding add_transactions
linked-log_transactions_example =
    linked-log_transactions toy_web toy_codecs toy_regexes toy_tables
      (numbered-KeyFresh (λ g. g.id)) two_visits 7 no_rows
      (("secret", refl), (("secret", refl), tt)) tt

-- Both expressions match the first visit, and nothing is kept of the second.
linked_test :
    linked
      (numbered (λ g. g.id))
      (numbered-KeyFresh (λ g. g.id))
      after_logging.greps
      7
      "secret"
      "secret"
      1
    ≡ true
unfolding log_transactions
linked_test = refl

abbrev row : ℕ → ℕ → Transaction
row id target_id =
    get_transaction_model toy_codecs (visit_to "http://a/x" true (decoded "secret")) target_id id

abbrev stored_rows : Stored Transaction
stored_rows = record { contents = row 1 7 ∷ row 2 7 ∷ row 3 8 ∷ []; counter = 4 }

abbrev first_page : TransactionCriteria
first_page = record {
  search = true;
  url = many ("http://a/x" ∷ []);
  method = absent;
  request_data = absent;
  raw_request = absent;
  response_status = absent;
  response_headers = absent;
  response_body = absent;
  scope = absent;
  binary_response = absent;
  offset = absent;
  limit = many ("1" ∷ []);
}

abbrev found_page : Found Transaction
found_page = record { records_total = 2; records_filtered = 2; page = row 1 7 ∷ [] }

search_all_transactions-IsOrdered_example : IsOrdered found_page
unfolding get_transaction_model
search_all_transactions-IsOrdered_example =
    search_all_transactions-IsOrdered str_eq toy_web.int toy_codecs memory first_page 7 stored_rows
      found_page (unfold search_all_transactions search_rows all number in refl)
