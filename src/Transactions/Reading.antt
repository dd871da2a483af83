-- ===== src/Transactions/Reading.antt =====
-- The queries of owtf/managers/transaction.py, and the objects that are made of their rows.

pub mod Search
use owtf.Base.{
  ℕ, String, Bool, true, false, not, beq, ◌&&◌, Option, none, some, List, [], ◌∷◌, str_eq, ltb,
  ◌==◌, if◌then◌else◌, length, get_elem?, find_first,
}
use owtf.Base.Int.{ℤ, pos, negsuc}
use owtf.Db.Query.{Selection, Found, all, get_count, search_rows, first_of, flag, resembles}
use owtf.Db.Table.{Table}
use owtf.Exceptions.{Result, ok, err, type_error, invalid_transaction_reference, ◌>>=◌}
use owtf.Poutput.Criteria.{Criterion, absent, one, many, accepts, number}
use owtf.Transactions.{Codecs, Transaction}

pub record TransactionCriteria : Type 0 where
  pub search : Bool
  pub url : Criterion
  pub method : Criterion
  pub request_data : Criterion
  pub raw_request : Criterion
  pub response_status : Criterion
  pub response_headers : Criterion
  pub response_body : Criterion
  pub scope : Criterion
  pub binary_response : Criterion
  pub offset : Criterion
  pub limit : Criterion

-- The dictionary after the builder has run on it.
abbrev pub rewritten : TransactionCriteria → TransactionCriteria
rewritten c =
    let searched = λ (k : Criterion). if c.search then first_of k else k in
    record c {
      url = searched c.url;
      method = searched c.method;
      request_data = searched c.request_data;
      raw_request = searched c.raw_request;
      response_status = searched c.response_status;
      response_headers = searched c.response_headers;
      response_body = searched c.response_body;
      scope = first_of c.scope;
      binary_response = first_of c.binary_response;
    }

abbrev pub of_target : ℕ → Transaction → Bool
of_target target_id t = t.target_id == target_id

abbrev pub has_id : ℕ → Transaction → Bool
has_id id t = t.id == id

-- `if criteria.get(k)`
abbrev pub is_given : Criterion → Bool
is_given absent = false
is_given (one s) = not (str_eq s "")
is_given (many []) = false
is_given (many (_ ∷ _)) = true

-- A column that may be NULL, which no Boolean equals.
abbrev pub nullable_flag : Criterion → Option Bool → Bool
nullable_flag c none = not (is_given c)
nullable_flag c (some v) = flag c v

-- What an HTTPTransaction gets from the database.
pub record Loaded : Type 0 where
  pub model : Transaction
  pub response_size : ℕ
  pub response_contents : String

unfoldable pub get_transaction : Codecs → Option Transaction → Result (Option Loaded)
get_transaction codecs none = ok none
get_transaction codecs (some t) = elim t.response_body [
  | none ↦ err type_error
  | some body ↦
      let decodes : Bool = elim t.binary_response [ none ↦ false | some b ↦ b ] in
      let contents = if decodes then codecs.b64decode body else body in
      ok (
        some
          (record { model = t; response_size = codecs.len contents; response_contents = contents }))
]

unfoldable pub get_transactions : Codecs → List Transaction → Result (List Loaded)
unfolding get_transaction
get_transactions codecs [] = ok []
get_transactions codecs (t ∷ ts) = do
  loaded ← get_transaction codecs (some t)
  rest ← get_transactions codecs ts
  ok (elim loaded [ none ↦ rest | some l ↦ l ∷ rest ])

-- `int(id)`, where `none` is a ValueError
unfoldable pub get_transaction_by_id : Option ℕ → List Transaction → Option Transaction
get_transaction_by_id none rows = none
get_transaction_by_id (some id) rows = find_first (has_id id) rows

unfoldable pub get_transactions_by_id :
    Codecs → List (Option ℕ) → List Transaction → Result (List Loaded)
unfolding get_transaction_by_id get_transactions
get_transactions_by_id codecs ids rows = get_transactions codecs (found ids)
  where
    found : List (Option ℕ) → List Transaction
    found [] = []
    found (id ∷ ids) = elim (get_transaction_by_id id rows) [
      | none ↦ found ids
      | some t ↦ t ∷ found ids
    ]

module _ (like : String → String → Bool) (int : String → Option ℤ) where
  -- In a search for a body the test `binary_response is False` compares the column as an object: it is
  -- the constant False, and no row matches.
  abbrev pub search_filter : TransactionCriteria → Transaction → Bool
  search_filter c t =
      resembles like c.url t.url
      && resembles like c.method t.method
      && resembles like c.request_data t.request_data
      && resembles like c.raw_request t.raw_request
      && resembles like c.response_status t.response_status
      && resembles like c.response_headers t.response_headers
      && not (is_given c.response_body)

  abbrev pub plain_filter : TransactionCriteria → Transaction → Bool
  plain_filter c t =
      accepts c.url t.url && accepts c.method t.method && accepts c.request_data t.request_data

  abbrev pub transaction_filter : TransactionCriteria → ℕ → Transaction → Bool
  transaction_filter c target_id t =
      of_target target_id t
      && (if c.search then search_filter c t else plain_filter c t)
      && flag c.scope t.scope
      && nullable_flag c.binary_response t.binary_response

  -- A negative number is passed over; a text that is not in a list is compared with 0.
  unfoldable pub transaction_bound : Criterion → Result (Option ℤ)
  transaction_bound absent = ok none
  transaction_bound (one s) = if str_eq s "" then ok none else err type_error
  transaction_bound (many []) = ok none
  transaction_bound (many (s ∷ _)) = do
    n ← number int s
    ok (elim n [ pos k ↦ some (pos k) | negsuc _ ↦ none ])

  -- The default limit of 10 is dropped.
  unfoldable pub transaction_gen_query :
      TransactionCriteria → (target_id : ℕ) → (for_stats : Bool) → Result (Selection Transaction)
  unfolding transaction_bound
  transaction_gen_query c target_id true =
      ok (record { selects = transaction_filter c target_id; offset = none; limit = none })
  transaction_gen_query c target_id false = do
    offset ← transaction_bound c.offset
    limit ← transaction_bound c.limit
    ok (record { selects = transaction_filter c target_id; offset = offset; limit = limit })

  module _ (codecs : Codecs) (transactions : Table Transaction) where
    unfoldable pub num_transactions : Bool → ℕ → transactions.State → ℕ
    num_transactions scope target_id s =
        get_count (λ t. beq t.scope scope && of_target target_id t) (transactions.rows s)

    unfoldable pub get_all_transactions :
        TransactionCriteria → ℕ → transactions.State → Result (List Loaded)
    unfolding transaction_gen_query get_transactions
    get_all_transactions c target_id s = do
      q ← transaction_gen_query c target_id false
      ts ← all q (transactions.rows s)
      get_transactions codecs ts

    unfoldable pub get_first : TransactionCriteria → ℕ → transactions.State → Result (Option Loaded)
    unfolding transaction_gen_query get_transaction
    get_first c target_id s = do
      q ← transaction_gen_query c target_id false
      ts ← all q (transactions.rows s)
      get_transaction codecs (get_elem? ts 0)

    unfoldable pub is_transaction_already_added :
        TransactionCriteria → ℕ → transactions.State → Result Bool
    unfolding get_all_transactions
    is_transaction_already_added c target_id s = do
      ts ← get_all_transactions c target_id s
      ok (ltb 0 (length ts))

    unfoldable pub search_all_transactions :
        TransactionCriteria → ℕ → transactions.State → Result (Found Transaction)
    unfolding transaction_gen_query
    search_all_transactions c target_id s =
        search_rows
          (λ for_stats.
            transaction_gen_query (if for_stats then rewritten c else c) target_id for_stats)
          (of_target target_id) (transactions.rows s)

    unfoldable pub delete_transaction :
        (transaction_id target_id : ℕ) → transactions.State → transactions.State
    delete_transaction transaction_id target_id s =
        transactions.delete (λ t. of_target target_id t && has_id transaction_id t) s

    unfoldable pub get_by_id_as_dict :
        (trans_id target_id : ℕ) → transactions.State → Result Transaction
    get_by_id_as_dict trans_id target_id s =
        elim (find_first (λ t. of_target target_id t && has_id trans_id t) (transactions.rows s)) [
          | none ↦ err invalid_transaction_reference
          | some t ↦ ok t
        ]
