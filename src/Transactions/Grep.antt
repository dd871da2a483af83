-- ===== src/Transactions/Grep.antt =====
-- What log_transactions (owtf/managers/transaction.py) stores of the matches in transactions.

pub mod Logged
use owtf.Base.{
  ℕ, ◌+◌, ◌-◌, String, ◌≡◌, refl, sym, ap, ◌≢◌, inl, inr, Bool, true, false, ◌&&◌, ◌||◌, Option,
  some, List, [], ◌∷◌, ◌++◌, arith, str_eq, eq_iff, ◌==◌, Bool-cases, Option-cases, map_where,
  find_first, any, All, All-append, any-append, mem_nat, mem_str, Distinct,
}
use mathlib.Core.Path.{subst}
use owtf.Base.{All-found, str_eq_comm}
use owtf.Db.Table.{Table, KeyFresh}
use owtf.Transactions.{
  GrepOutput, is_entry, new_grep_output, with_transaction, log_match, log_matches, log_grep,
}

module _ {ℓ} {A : Type ℓ} (key : A → ℕ) (q r : A → Bool) where
  any_absent :
      (n : ℕ) (xs : List A) → All (λ y. n ≢ key y) xs → any (λ y. key y == n && r y) xs ≡ false
  any_absent n [] h = refl
  any_absent n (y ∷ xs) h = ground (arith, any_absent n xs h.1, h.0)

  -- One element has the key of the hit.
  any_of_key :
      (xs : List A) (x : A)
      → Distinct key xs
      → find_first q xs ≡ some x
      → any (λ y. key y == key x && r y) xs ≡ r x
  any_of_key [] x d e = absurd (cc)
  any_of_key (y ∷ xs) x d e = elim (Bool-cases (q y)) [
    | inl c ↦
        let same : y ≡ x = ground (arith, c) in
        let others = any_absent (key x) xs (subst (λ v. All (λ z. key v ≢ key z) xs) same d.0) in
        ground (arith, others, ap r same, ap key same)
    | inr c ↦
        let rest : find_first q xs ≡ some x = ground (arith, c) in
        let other = All-found (λ z. key y ≢ key z) q xs x d.0 rest in
        ground (arith, other, any_of_key xs x d.1 rest)
  ]

  holds-found : (xs : List A) (x : A) → find_first q xs ≡ some x → q x ≡ true
  holds-found [] x e = absurd (cc)
  holds-found (y ∷ xs) x e = elim (Bool-cases (q y)) [
    | inl c ↦ let same : y ≡ x = ground (arith, c) in rw (sym same) c
    | inr c ↦ holds-found xs x (ground (arith, c))
  ]

mem-append_one : (x y : ℕ) (xs : List ℕ) → mem_nat y (xs ++ x ∷ []) ≡ (mem_nat y xs || y == x)
mem-append_one x y [] = ground arith
mem-append_one x y (z ∷ xs) = ground (arith, mem-append_one x y xs)

mem-with_transaction :
    (x y : ℕ) (g : GrepOutput)
    → mem_nat y (with_transaction x g).transactions ≡ (mem_nat y g.transactions || y == x)
mem-with_transaction x y g = elim (Bool-cases (mem_nat x g.transactions)) [
  | inr h ↦ rw h (mem-append_one x y g.transactions)
  | inl h ↦ elim (Bool-cases (y == x)) [
    | inr h' ↦ ground (arith, h, h')
    | inl h' ↦ let same : y ≡ x = ground (arith, h') in rw (same, h, h) refl
  ]
]

-- Is a transaction linked to a match?
abbrev pub links : ℕ → String → String → ℕ → GrepOutput → Bool
links target_id name match x g = is_entry target_id name match g && mem_nat x g.transactions

any-with_transaction :
    (n x : ℕ) (target_id : ℕ) (name match : String) (y : ℕ) (gs : List GrepOutput)
    → any (links target_id name match y) (map_where (λ h. h.id == n) (with_transaction x) gs) ≡ (
        any (links target_id name match y) gs
        || (any (λ h. h.id == n && is_entry target_id name match h) gs && y == x))
any-with_transaction n x target_id name match y [] = refl
any-with_transaction n x target_id name match y (g ∷ gs) =
    ground (arith, any-with_transaction n x target_id name match y gs, mem-with_transaction x y g)

-- Two descriptions of one entry.
abbrev pub same_entry : ℕ → String → String → ℕ → String → String → Bool
same_entry t n m t' n' m' = t == t' && str_eq n n' && str_eq m m'

is_entry_of :
    (t : ℕ) (n m : String) (g : GrepOutput)
    → is_entry t n m g ≡ true
    → (t' : ℕ) (n' m' : String) → is_entry t' n' m' g ≡ same_entry t n m t' n' m'
is_entry_of t n m g h t' n' m' =
    let target : g.target_id ≡ t = ground (arith, h) in
    let named : g.name ≡ n = (eq_iff g.name n).0 (ground (arith, h)) in
    let output : g.output ≡ m = (eq_iff g.output m).0 (ground (arith, h)) in
    rw (target, named, output) refl

id-with_transaction :
    (n x k : ℕ) (gs : List GrepOutput)
    → All (λ g. k ≢ g.id) gs
    → All (λ g. k ≢ g.id) (map_where (λ h. h.id == n) (with_transaction x) gs)
id-with_transaction n x k [] h = tt
id-with_transaction n x k (g ∷ gs) h = ((ground (arith, h.0)), id-with_transaction n x k gs h.1)

Distinct-map_where :
    (n x : ℕ) (gs : List GrepOutput)
    → Distinct (λ g. g.id) gs
    → Distinct (λ g. g.id) (map_where (λ h. h.id == n) (with_transaction x) gs)
Distinct-map_where n x [] d = tt
Distinct-map_where n x (g ∷ gs) d = elim (Bool-cases (g.id == n)) [
  | inl h ↦ rw h (id-with_transaction n x g.id gs d.0, Distinct-map_where n x gs d.1)
  | inr h ↦ rw h (id-with_transaction n x g.id gs d.0, Distinct-map_where n x gs d.1)
]

Distinct-append_one :
    (gs : List GrepOutput) (new : GrepOutput)
    → Distinct (λ g. g.id) gs
    → All (λ g. g.id ≢ new.id) gs
    → Distinct (λ g. g.id) (gs ++ new ∷ [])
Distinct-append_one [] new d h = (tt, tt)
Distinct-append_one (g ∷ gs) new d h =
    (All-append (λ k. g.id ≢ k.id) gs (new ∷ []) d.0 (h.0, tt), Distinct-append_one gs new d.1 h.1)

-- What a dictionary of results says.
abbrev pub says : List (String × List String) → String → String → Bool
says [] n m = false
says ((name, ms) ∷ rest) n m = (str_eq name n && mem_str m ms) || says rest n m

module _ (greps : Table GrepOutput)
    (new_ids : (s : greps.State) → KeyFresh greps (λ g. g.id) s) where
  abbrev pub IsKeyed : greps.State → Type 0
  IsKeyed s = Distinct (λ g. g.id) (greps.rows s)

  abbrev pub linked : greps.State → ℕ → String → String → ℕ → Bool
  linked s target_id name match x = any (links target_id name match x) (greps.rows s)

  linked-log_match :
      (t x : ℕ) (n m : String) (s : greps.State)
      → IsKeyed s
      → (t' : ℕ) (n' m' : String) (y : ℕ)
      → linked (log_match greps t x n m s) t' n' m' y
        ≡ (linked s t' n' m' y || (same_entry t n m t' n' m' && y == x))
  unfolding log_match
  linked-log_match t x n m s d t' n' m' y =
      elim (Option-cases (find_first (is_entry t n m) (greps.rows s))) [
        | inr (g, e) ↦
            let one =
              any_of_key (λ h. h.id) (is_entry t n m) (is_entry t' n' m') (greps.rows s) g d e in
            let it =
              is_entry_of t n m g
                (holds-found (λ h. h.id) (is_entry t n m) (is_entry t n m) (greps.rows s) g e) t' n'
                m' in
            rw
              (
                log_match,
                e,
                greps.rows-update,
                any-with_transaction g.id x t' n' m' y (greps.rows s),
                one,
                it,
              )
              refl
        | inl e ↦
            rw
              (
                log_match,
                e,
                greps.rows-add,
                any-append (links t' n' m' y) (greps.rows s)
                    (new_grep_output t n m x (greps.next_id s) ∷ []),
              )
              (ground arith)
      ]

  IsKeyed-log_match :
      (t x : ℕ) (n m : String) (s : greps.State) → IsKeyed s → IsKeyed (log_match greps t x n m s)
  unfolding log_match
  IsKeyed-log_match t x n m s d = elim (Option-cases (find_first (is_entry t n m) (greps.rows s))) [
    | inr (g, e) ↦ rw (log_match, e, greps.rows-update) (Distinct-map_where g.id x (greps.rows s) d)
    | inl e ↦
        rw (log_match, e, greps.rows-add)
          (Distinct-append_one (greps.rows s) (new_grep_output t n m x (greps.next_id s)) d
            (new_ids s))
  ]

  -- The matches of one name.
  linked-log_matches :
      (t x : ℕ) (n : String) (ms : List String) (s : greps.State)
      → IsKeyed s
      → IsKeyed (log_matches greps t x n ms s)
        × ((t' : ℕ) (n' m' : String) (y : ℕ)
            → linked (log_matches greps t x n ms s) t' n' m' y
              ≡ (linked s t' n' m' y || (t == t' && str_eq n n' && mem_str m' ms && y == x)))
  unfolding log_matches
  linked-log_matches t x n [] s d = (d, λ t' n' m' y. ground arith)
  linked-log_matches t x n (m ∷ ms) s d =
      let d1 = IsKeyed-log_match t x n m s d in
      let (d2, rest) = linked-log_matches t x n ms (log_match greps t x n m s) d1 in
      (
        d2,
        λ t' n' m' y.
            rw (rest t' n' m' y, linked-log_match t x n m s d t' n' m' y)
              (ground (arith, str_eq_comm m m')),
      )

  pub linked-log_grep :
      (t x : ℕ) (found : List (String × List String)) (s : greps.State)
      → IsKeyed s
      → IsKeyed (log_grep greps t x found s)
        × ((t' : ℕ) (n' m' : String) (y : ℕ)
            → linked (log_grep greps t x found s) t' n' m' y
              ≡ (linked s t' n' m' y || (t == t' && says found n' m' && y == x)))
  unfolding log_grep
  linked-log_grep t x [] s d = (d, λ t' n' m' y. ground arith)
  linked-log_grep t x ((name, ms) ∷ rest) s d =
      let (d1, first) = linked-log_matches t x name ms s d in
      let (d2, others) = linked-log_grep t x rest (log_matches greps t x name ms s) d1 in
      (d2, λ t' n' m' y. rw (others t' n' m' y, first t' n' m' y) (ground arith))
