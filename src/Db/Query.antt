-- ===== src/Db/Query.antt =====
-- What the query builders of the managers share: how a criterion of a request becomes a filter, and
-- the slice of the matching rows that `.offset` and `.limit` make.

use owtf.Base.{
  ℕ, zero, suc, ◌≤◌, String, ◌≡◌, refl, sym, inl, inr, Bool, true, false, not, beq, ◌&&◌, ◌||◌,
  Option, none, some, List, [], ◌∷◌, arith, str_eq, Bool-cases, length, keep, mem_str, take, drop,
}
use owtf.Base.Int.{ℤ, pos, negsuc}
use owtf.Exceptions.{Result, ok, err, database_error, ◌>>=◌, parts_of_ok}
use owtf.Poutput.Criteria.{Criterion, absent, one, many}

-- `str2bool` of owtf/utils/strings.py, at a text
abbrev pub str2bool : String → Bool
str2bool text = not (mem_str text ("False" ∷ "false" ∷ "0" ∷ []))

-- `if criteria.get(k): query.filter_by(k=str2bool(...))`, of a list its first element
abbrev pub flag : Criterion → Bool → Bool
flag absent v = true
flag (one s) v = str_eq s "" || beq (str2bool s) v
flag (many []) v = true
flag (many (s ∷ _)) v = beq (str2bool s) v

-- `column.like("%text%")`, of a list its first element. How the database matches a pattern is a
-- parameter.
abbrev pub resembles : (like : String → String → Bool) → Criterion → String → Bool
resembles like absent v = true
resembles like (one s) v = str_eq s "" || like s v
resembles like (many []) v = true
resembles like (many (s ∷ _)) v = like s v

-- A builder replaces a list in the dictionary by its first element: what the next run on the same
-- dictionary reads.
abbrev pub first_of : Criterion → Criterion
first_of (many (s ∷ _)) = one s
first_of c = c

pub flag_first : (c : Criterion) (v : Bool) → flag c v ≡ true → flag (first_of c) v ≡ true
flag_first absent v h = h
flag_first (one s) v h = h
flag_first (many []) v h = h
flag_first (many (s ∷ _)) v h = ground (arith, h)

pub resembles_first :
    (like : String → String → Bool) (c : Criterion) (v : String)
    → resembles like c v ≡ true
    → resembles like (first_of c) v ≡ true
resembles_first like absent v h = h
resembles_first like (one s) v h = h
resembles_first like (many []) v h = h
resembles_first like (many (s ∷ _)) v h = ground (arith, h)

pub and_left : (p q : Bool) → (p && q) ≡ true → p ≡ true
and_left true q h = refl
and_left false q h = absurd (cc)

pub and_mono :
    (p q p' q' : Bool)
    → (p ≡ true → p' ≡ true)
    → (q ≡ true → q' ≡ true)
    → (p && q) ≡ true
    → (p' && q') ≡ true
and_mono true true p' q' f g h = rw (f refl, g refl) refl
and_mono true false p' q' f g h = absurd (cc)
and_mono false q p' q' f g h = absurd (cc)

-- A query after its filters.
pub record Selection (Row : Type 0) : Type 0 where
  pub selects : Row → Bool
  pub offset : Option ℤ
  pub limit : Option ℤ

-- What a search page gets.
pub record Found (Row : Type 0) : Type 0 where
  pub records_total : ℕ
  pub records_filtered : ℕ
  -- `data`
  pub page : List Row

module _ {Row : Type 0} where
  -- PostgreSQL refuses a negative offset or limit.
  abbrev pub skip : Option ℤ → List Row → Result (List Row)
  skip none rs = ok rs
  skip (some (pos n)) rs = ok (drop n rs)
  skip (some (negsuc _)) rs = err database_error

  abbrev pub limit_to : Option ℤ → List Row → Result (List Row)
  limit_to none rs = ok rs
  limit_to (some (pos n)) rs = ok (take n rs)
  limit_to (some (negsuc _)) rs = err database_error

  -- query.all()
  unfoldable pub all : Selection Row → List Row → Result (List Row)
  all q rs = do l ← skip q.offset (keep q.selects rs); limit_to q.limit l

  -- get_count(query), of a query without bounds
  abbrev pub get_count : (Row → Bool) → List Row → ℕ
  get_count p rs = length (keep p rs)

  length-take :
      (n : ℕ) (xs : List Row) → (length (take n xs) ≤ n) × (length (take n xs) ≤ length xs)
  length-take zero xs = (omega arith, omega arith)
  length-take (suc n) [] = (omega arith, omega arith)
  length-take (suc n) (x ∷ xs) =
      (omega (arith, (length-take n xs).0), omega (arith, (length-take n xs).1))

  length-drop : (n : ℕ) (xs : List Row) → length (drop n xs) ≤ length xs
  length-drop zero xs = omega arith
  length-drop (suc n) [] = omega arith
  length-drop (suc n) (x ∷ xs) = omega (arith, length-drop n xs)

  -- A narrower filter keeps fewer rows.
  pub get_count_mono :
      (p q : Row → Bool) (xs : List Row)
      → ((x : Row) → p x ≡ true → q x ≡ true)
      → get_count p xs ≤ get_count q xs
  get_count_mono p q [] h = omega arith
  get_count_mono p q (x ∷ xs) h = elim (Bool-cases (p x)) [
    | inl c ↦ let d = h x c in ground (arith, c, d, get_count_mono p q xs h)
    | inr c ↦ ground (arith, c, get_count_mono p q xs h)
  ]

  length-skip : (o : Option ℤ) (rs out : List Row) → skip o rs ≡ ok out → length out ≤ length rs
  length-skip none rs out e = let same : rs ≡ out = cc in rw same (omega arith)
  length-skip (some (pos n)) rs out e =
      let same : drop n rs ≡ out = cc in rw (sym same) (length-drop n rs)
  length-skip (some (negsuc n)) rs out e = absurd (cc)

  length-limit_to :
      (o : Option ℤ) (rs out : List Row)
      → limit_to o rs ≡ ok out
      → (length out ≤ length rs) × ((n : ℕ) → o ≡ some (pos n) → length out ≤ n)
  length-limit_to none rs out e =
      let same : rs ≡ out = cc in (rw same (omega arith), λ n h. absurd (cc))
  length-limit_to (some (pos n)) rs out e =
      let same : take n rs ≡ out = cc in
      (
        rw (sym same) ((length-take n rs).1),
        λ m h. let eq : n ≡ m = cc in rw (sym same, sym eq) ((length-take n rs).0),
      )
  length-limit_to (some (negsuc n)) rs out e = absurd (cc)

  -- A page has no more rows than match, and no more than its limit.
  pub length-all :
      (q : Selection Row) (rs out : List Row)
      → all q rs ≡ ok out
      → (length out ≤ get_count q.selects rs) × ((n : ℕ) → q.limit ≡ some (pos n) → length out ≤ n)
  unfolding all
  length-all q rs out e =
      let (l, skips, limits) =
        parts_of_ok (skip q.offset (keep q.selects rs)) (λ l. limit_to q.limit l) e in
      let (fewer, few) = length-limit_to q.limit l out limits in
      (omega (arith, fewer, length-skip q.offset (keep q.selects rs) l skips), few)

  -- Without bounds it has all of them.
  pub all_unbounded :
      (q : Selection Row) (rs : List Row)
      → q.offset ≡ none
      → q.limit ≡ none
      → all q rs ≡ ok (keep q.selects rs)
  unfolding all
  all_unbounded q rs h k = rw (all, h, k) refl

  -- What the searches of the managers share: the builder runs for the page, and again for the counts.
  abbrev counted : (Row → Bool) → List Row → List Row → Selection Row → Result (Found Row)
  counted whole rs page stats = ok (record {
    records_total = get_count whole rs;
    records_filtered = get_count stats.selects rs;
    page = page;
  })

  unfoldable pub search_rows :
      (gen_query : (for_stats : Bool) → Result (Selection Row))
      → (whole : Row → Bool) → List Row
      → Result (Found Row)
  search_rows gen_query whole rs = do
    q ← gen_query false
    page ← all q rs
    stats ← gen_query true
    counted whole rs page stats

  -- The numbers of a search are in order.
  abbrev pub IsOrdered : Found Row → Type 0
  IsOrdered found =
      (length found.page ≤ found.records_filtered) × (found.records_filtered ≤ found.records_total)

  pub search_rows-IsOrdered :
      (gen_query : Bool → Result (Selection Row)) (whole filter wider : Row → Bool) (rs : List Row)
      (found : Found Row)
      → ((q : Selection Row) → gen_query false ≡ ok q → q.selects ≡ filter)
      → ((q : Selection Row) → gen_query true ≡ ok q → q.selects ≡ wider)
      → ((r : Row) → filter r ≡ true → wider r ≡ true)
      → ((r : Row) → wider r ≡ true → whole r ≡ true)
      → search_rows gen_query whole rs ≡ ok found
      → IsOrdered found
  unfolding search_rows
  search_rows-IsOrdered gen_query whole filter wider rs found selects selects' narrow narrower e =
      let (q, gens, rest) =
        parts_of_ok (gen_query false)
          (λ q. all q rs >>= λ page. gen_query true >>= λ stats. counted whole rs page stats) e in
      let (page, pages, rest') =
        parts_of_ok (all q rs) (λ page. gen_query true >>= λ stats. counted whole rs page stats)
          rest in
      let (stats, counts, last) =
        parts_of_ok (gen_query true) (λ stats. counted whole rs page stats) rest' in
      let same : record {
        records_total = get_count whole rs;
        records_filtered = get_count stats.selects rs;
        page = page;
      }
          ≡ found =
        cc in
      let fits = (length-all q rs page pages).0 in
      let fits' = rw (selects q gens) at fits in
      let more = get_count_mono filter wider rs narrow in
      rw (sym same, selects' stats counts)
        (omega (arith, fits', more), get_count_mono wider whole rs narrower)
