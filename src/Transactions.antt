-- ===== src/Transactions.antt =====
-- owtf/managers/transaction.py over the tables of owtf/models/transaction.py, grep_output.py and url.py.
-- The transaction that is logged is the object of owtf/transactions/base.py. Codecs and regular
-- expressions are parameters.

pub mod Grep
pub mod Reading
use owtf.Base.{
  ℕ, ◌+◌, String, Bool, true, false, not, ◌&&◌, Option, none, some, List, [], ◌∷◌, ◌++◌, map,
  str_eq, ◌==◌, if◌then◌else◌, find_first, mem_nat,
}
use owtf.Db.Table.{Table}
use owtf.Exceptions.{Result, ok, err, type_error, ◌>>=◌}
use owtf.Urls.{Url, import_processed_url}
use owtf.Urls

-- The body of a response, decoded or as bytes.
pub data Body : Type 0 where
  decoded : (text : String) → Body
  bytes : (content : String) → Body

-- What `log_transactions` reads of an HTTPTransaction.
pub record HttpTransaction : Type 0 where
  pub url : String
  pub in_scope : Bool
  pub method : String
  pub request_data : String
  pub time : ℕ
  pub time_human : String
  pub local_timestamp : ℕ
  pub raw_request : String
  pub status : String
  pub response_headers : String
  pub response_contents : Body
  -- json.dumps(get_session_tokens())
  pub session_tokens : String

-- class Transaction
pub record Transaction : Type 0 where
  pub id : ℕ
  pub target_id : ℕ
  pub url : String
  pub scope : Bool
  pub method : String
  pub request_data : String
  pub time : ℕ
  pub time_human : String
  pub local_timestamp : ℕ
  pub raw_request : String
  pub response_status : String
  pub response_headers : String
  pub response_size : ℕ
  pub response_body : Option String
  pub binary_response : Option Bool
  pub session_tokens : String

-- class GrepOutput, with its relation `transactions`, as their ids
pub record GrepOutput : Type 0 where
  pub id : ℕ
  pub target_id : ℕ
  pub name : String
  pub output : String
  pub transactions : List ℕ

-- A compiled regular expression: its name, and `findall`, each match as json.dumps writes it.
pub record Regex : Type 0 where
  pub name : String
  pub findall : String → List String

pub record Codecs : Type 0 where
  -- text.encode("utf-8"), `none` where the text has no encoding
  pub encode : String → Option String
  -- what the column, which is of texts, holds of bytes that are put into it
  pub column : String → String
  -- base64.b64decode, and len
  pub b64decode : String → String
  pub len : String → ℕ

pub record Regexes : Type 0 where
  pub headers : List Regex
  pub body : List Regex

module _ (codecs : Codecs) where
  -- What is stored of a body. Bytes have no `encode`, and the `finally` block drops every exception: the
  -- branch for a UnicodeDecodeError is not taken, since encoding does not raise it.
  unfoldable pub stored_body : Body → Option String × ℕ × Option Bool
  stored_body (bytes content) = (none, 0, none)
  stored_body (decoded text) = elim (codecs.encode text) [
    | none ↦ (none, 0, none)
    | some encoded ↦ (some (codecs.column encoded), codecs.len encoded, some false)
  ]

  -- The target id is set by the caller, and the id by the database.
  unfoldable pub get_transaction_model : HttpTransaction → ℕ → ℕ → Transaction
  unfolding stored_body
  get_transaction_model t target_id id =
      let (body, size, binary) = stored_body t.response_contents in
      record {
        id = id;
        target_id = target_id;
        url = t.url;
        scope = t.in_scope;
        method = t.method;
        request_data = t.request_data;
        time = t.time;
        time_human = t.time_human;
        local_timestamp = t.local_timestamp;
        raw_request = t.raw_request;
        response_status = t.status;
        response_headers = t.response_headers;
        response_size = size;
        response_body = body;
        binary_response = binary;
        session_tokens = t.session_tokens;
      }

-- `grep`: no entry where nothing matches. A pattern on texts cannot search bytes.
unfoldable pub grep : Regex → Body → Result (List (String × List String))
grep r (bytes content) = err type_error
grep r (decoded text) = elim (r.findall text) [ [] ↦ ok [] | m ∷ ms ↦ ok ((r.name, m ∷ ms) ∷ []) ]

-- Regular expressions have different names, so that no entry of the dictionary replaces another.
unfoldable pub grep_all : List Regex → Body → Result (List (String × List String))
unfolding grep
grep_all [] b = ok []
grep_all (r ∷ rs) b = do here ← grep r b; rest ← grep_all rs b; ok (here ++ rest)

unfoldable pub grep_transaction : Regexes → HttpTransaction → Result (List (String × List String))
unfolding grep_all
grep_transaction regexes t = do
  in_headers ← grep_all regexes.headers (decoded t.response_headers)
  in_body ← grep_all regexes.body t.response_contents
  ok (in_headers ++ in_body)

abbrev pub is_entry : ℕ → String → String → GrepOutput → Bool
is_entry target_id name output g =
    g.target_id == target_id && str_eq g.name name && str_eq g.output output

abbrev pub new_grep_output : ℕ → String → String → ℕ → ℕ → GrepOutput
new_grep_output target_id name output transaction_id id = record {
  id = id;
  target_id = target_id;
  name = name;
  output = output;
  transactions = transaction_id ∷ [];
}

-- `grep_output.transactions.append(transaction)`; the relation is a set.
abbrev pub with_transaction : ℕ → GrepOutput → GrepOutput
with_transaction id g = record g {
  transactions = if mem_nat id g.transactions then g.transactions else g.transactions ++ id ∷ [];
}

module _ (greps : Table GrepOutput) (target_id transaction_id : ℕ) where
  -- The row of a match is looked for, and made if there is none.
  unfoldable pub log_match : (name match : String) → greps.State → greps.State
  log_match name match s = elim (find_first (is_entry target_id name match) (greps.rows s)) [
    | some g ↦ greps.update (λ h. h.id == g.id) (with_transaction transaction_id) s
    | none ↦ greps.add (new_grep_output target_id name match transaction_id) s
  ]

  unfoldable pub log_matches : (name : String) → List String → greps.State → greps.State
  unfolding log_match
  log_matches name [] s = s
  log_matches name (m ∷ ms) s = log_matches name ms (log_match name m s)

  unfoldable pub log_grep : List (String × List String) → greps.State → greps.State
  unfolding log_matches
  log_grep [] s = s
  log_grep ((name, ms) ∷ rest) s = log_grep rest (log_matches name ms s)

-- `not model.binary_response and model.scope`; NULL is false.
abbrev pub is_grepped : Transaction → Bool
is_grepped m = not (elim m.binary_response [ none ↦ false | some b ↦ b ]) && m.scope

pub record Tables : Type 1 where
  pub transactions : Table Transaction
  pub greps : Table GrepOutput
  pub urls : Table Url

pub record Store (t : Tables) : Type 0 where
  pub transactions : t.transactions.State
  pub greps : t.greps.State
  pub urls : t.urls.State

module _ (web : owtf.Urls.Web) (codecs : Codecs) (regexes : Regexes) (tables : Tables) where
  -- The models of the transactions, with the ids that the database gives them.
  unfoldable pub add_transactions :
      List HttpTransaction
      → ℕ
      → tables.transactions.State
      → List Transaction × tables.transactions.State
  unfolding get_transaction_model
  add_transactions [] target_id s = ([], s)
  add_transactions (t ∷ ts) target_id s =
      let model = get_transaction_model codecs t target_id (tables.transactions.next_id s) in
      let (models, s') =
        add_transactions ts target_id
          (tables.transactions.add (get_transaction_model codecs t target_id) s) in
      (model ∷ models, s')

  -- Over the transactions and their models; an exception ends it.
  unfoldable pub grep_transactions :
      List HttpTransaction
      → List Transaction
      → ℕ
      → tables.greps.State
      → Result (Unit {0}) × tables.greps.State
  unfolding grep_transaction log_grep
  grep_transactions (t ∷ ts) (m ∷ ms) target_id s =
      if is_grepped m
      then (elim (grep_transaction regexes t) [
        | err e ↦ (err e, s)
        | ok found ↦
            grep_transactions ts ms target_id (log_grep tables.greps target_id m.id found s)
      ])
      else grep_transactions ts ms target_id s
  grep_transactions _ _ target_id s = (ok tt, s)

  abbrev pub urls_list : List HttpTransaction → List (String × Bool × Bool)
  urls_list ts = map (λ t. (t.url, true, t.in_scope)) ts

  -- The transactions are committed first; after an exception the rows of matches are not.
  unfoldable pub log_transactions :
      List HttpTransaction → ℕ → Store tables → Result (Unit {0}) × Store tables
  unfolding add_transactions grep_transactions
  log_transactions ts target_id s =
      let (models, added) = add_transactions ts target_id s.transactions in
      let (ends, greps) = grep_transactions ts models target_id s.greps in
      elim ends [
        | err e ↦ (err e, record s { transactions = added })
        | ok _ ↦ (
          ok tt,
          record {
            transactions = added;
            greps = greps;
            urls = import_processed_url web tables.urls (urls_list ts) target_id s.urls;
          },
        )
      ]

  -- The transactions of the proxy, by target; an empty list is passed over.
  unfoldable pub log_transactions_from_logger :
      List (ℕ × List HttpTransaction) → Store tables → Result (Unit {0}) × Store tables
  unfolding log_transactions
  log_transactions_from_logger [] s = (ok tt, s)
  log_transactions_from_logger ((target_id, []) ∷ rest) s = log_transactions_from_logger rest s
  log_transactions_from_logger ((target_id, t ∷ ts) ∷ rest) s =
      let (ends, s') = log_transactions (t ∷ ts) target_id s in
      elim ends [ err e ↦ (err e, s') | ok _ ↦ log_transactions_from_logger rest s' ]
