-- ===== src/Transactions/Reading/Search.antt =====
-- The search for transactions, and their deletion (owtf/managers/transaction.py).

use owtf.Base.{
  ℕ, String, ◌≡◌, refl, sym, ap, inl, inr, Bool, true, false, not, ◌&&◌, Option, none, some, List,
  [], ◌∷◌, arith, ◌==◌, if◌then◌else◌, Bool-cases, reject, find_first,
}
use owtf.Base.Int.{ℤ}
use owtf.Db.Query.{
  Selection, Found, IsOrdered, search_rows-IsOrdered, flag_first, resembles_first, first_of,
  and_left, and_mono,
}
use owtf.Db.Table.{Table}
use owtf.Exceptions.{ok, err, invalid_transaction_reference, parts_of_ok, ◌>>=◌}
use owtf.Poutput.Criteria.{Criterion, absent, one, many}
use owtf.Transactions.{Codecs, Transaction}
use owtf.Transactions.Reading.{
  TransactionCriteria, rewritten, of_target, has_id, is_given, nullable_flag, search_filter,
  plain_filter, transaction_filter, transaction_bound, transaction_gen_query,
  search_all_transactions, delete_transaction, get_by_id_as_dict,
}

find_first-reject :
    (id target_id id' target_id' : ℕ) (ts : List Transaction)
    → find_first
        (λ t. of_target target_id' t && has_id id' t)
        (reject (λ t. of_target target_id t && has_id id t) ts)
      ≡ (if id == id' && target_id == target_id'
          then none
          else find_first (λ t. of_target target_id' t && has_id id' t) ts)
find_first-reject id target_id id' target_id' [] = ground arith
find_first-reject id target_id id' target_id' (t ∷ ts) =
    ground (arith, find_first-reject id target_id id' target_id' ts)

is_given_first : (c : Criterion) → not (is_given c) ≡ true → not (is_given (first_of c)) ≡ true
is_given_first absent h = h
is_given_first (one s) h = h
is_given_first (many []) h = h
is_given_first (many (s ∷ _)) h = absurd (cc)

nullable_first :
    (c : Criterion) (v : Option Bool)
    → nullable_flag c v ≡ true
    → nullable_flag (first_of c) v ≡ true
nullable_first c none h = is_given_first c h
nullable_first c (some v) h = flag_first c v h

module _ (like : String → String → Bool) (int : String → Option ℤ) where
  selects-transaction_gen_query :
      (c : TransactionCriteria) (target_id : ℕ) (for_stats : Bool) (q : Selection Transaction)
      → transaction_gen_query like int c target_id for_stats ≡ ok q
      → q.selects ≡ transaction_filter like int c target_id
  unfolding transaction_gen_query
  selects-transaction_gen_query c target_id true q e =
      let same : record {
        selects = transaction_filter like int c target_id;
        offset = none;
        limit = none;
      }
          ≡ q =
        cc in
      ap (λ q. q.selects) (sym same)
  selects-transaction_gen_query c target_id false q e =
      let with_limit = λ (offset : Option ℤ) (limit : Option ℤ). ok (record {
        selects = transaction_filter like int c target_id;
        offset = offset;
        limit = limit;
      }) in
      let (offset, _, rest) =
        parts_of_ok (transaction_bound like int c.offset)
          (λ offset. transaction_bound like int c.limit >>= with_limit offset) e in
      let (limit, _, last) =
        parts_of_ok (transaction_bound like int c.limit) (with_limit offset) rest in
      let same : record {
        selects = transaction_filter like int c target_id;
        offset = offset;
        limit = limit;
      }
          ≡ q =
        cc in
      ap (λ q. q.selects) (sym same)

  search_first :
      (c : TransactionCriteria) (t : Transaction)
      → (if c.search then search_filter like int c t else plain_filter like int c t) ≡ true
      → (if c.search
          then search_filter like int (rewritten c) t
          else plain_filter like int (rewritten c) t)
        ≡ true
  search_first c t h = elim (Bool-cases c.search) [
    | inr k ↦ let h' = rw k at h in rw k h'
    | inl k ↦
        let h' = rw k at h in
        rw k (
          and_mono _ _ _ _
            (and_mono _ _ _ _
              (and_mono _ _ _ _
                (and_mono _ _ _ _
                  (and_mono _ _ _ _
                    (and_mono _ _ _ _ (resembles_first like c.url t.url)
                      (resembles_first like c.method t.method))
                    (resembles_first like c.request_data t.request_data))
                  (resembles_first like c.raw_request t.raw_request))
                (resembles_first like c.response_status t.response_status))
              (resembles_first like c.response_headers t.response_headers))
            (is_given_first c.response_body) h')
  ]

  wider_when_rewritten :
      (c : TransactionCriteria) (target_id : ℕ) (t : Transaction)
      → transaction_filter like int c target_id t ≡ true
      → transaction_filter like int (rewritten c) target_id t ≡ true
  wider_when_rewritten c target_id t h =
      and_mono _ _ _ _
        (and_mono _ _ _ _ (and_mono _ _ _ _ (λ k. k) (search_first c t))
          (flag_first c.scope t.scope))
        (nullable_first c.binary_response t.binary_response) h

  only_of_target :
      (c : TransactionCriteria) (target_id : ℕ) (t : Transaction)
      → transaction_filter like int c target_id t ≡ true
      → of_target target_id t ≡ true
  only_of_target c target_id t h = and_left _ _ (and_left _ _ (and_left _ _ h))

  module _ (codecs : Codecs) (transactions : Table Transaction) where
    -- A search that returns shows at most as many transactions as it says that it has found, and finds
    -- at most as many as it says that the target has.
    pub search_all_transactions-IsOrdered :
        (c : TransactionCriteria) (target_id : ℕ) (s : transactions.State)
        (found : Found Transaction)
        → search_all_transactions like int codecs transactions c target_id s ≡ ok found
        → IsOrdered found
    unfolding search_all_transactions
    search_all_transactions-IsOrdered c target_id s found e =
        search_rows-IsOrdered
          (λ for_stats.
            transaction_gen_query like int (if for_stats then rewritten c else c) target_id
              for_stats)
          (of_target target_id) (transaction_filter like int c target_id)
          (transaction_filter like int (rewritten c) target_id) (transactions.rows s) found
          (selects-transaction_gen_query c target_id false)
          (selects-transaction_gen_query (rewritten c) target_id true)
          (wider_when_rewritten c target_id) (only_of_target (rewritten c) target_id) e

    -- A transaction that was deleted is an error to ask for, and every other one is as before.
    pub get_by_id_as_dict-delete_transaction :
        (id target_id id' target_id' : ℕ) (s : transactions.State)
        → let deleted = delete_transaction like int codecs transactions id target_id s in
          get_by_id_as_dict like int codecs transactions id' target_id' deleted ≡ (
            if id == id' && target_id == target_id'
            then err invalid_transaction_reference
            else get_by_id_as_dict like int codecs transactions id' target_id' s)
    unfolding get_by_id_as_dict delete_transaction
    get_by_id_as_dict-delete_transaction id target_id id' target_id' s =
        elim (Bool-cases (id == id' && target_id == target_id')) [
          | inl h ↦
              let gone = find_first-reject id target_id id' target_id' (transactions.rows s) in
              let gone' = rw h at gone in
              rw (delete_transaction, get_by_id_as_dict, transactions.rows-delete, gone', h) refl
          | inr h ↦
              let kept = find_first-reject id target_id id' target_id' (transactions.rows s) in
              let kept' = rw h at kept in
              rw (delete_transaction, get_by_id_as_dict, transactions.rows-delete, kept', h) refl
        ]
