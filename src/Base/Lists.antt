-- ===== src/Base/Lists.antt =====
-- Lists measured and indexed by native numbers, the filters that queries use, and predicates on
-- all elements and on all pairs.
use Prim.Native.Nat.{ℕ, zero, suc, ◌+◌, ◌<◌}
use Prim.Native.String.{String}
use mathlib.Core.Path.{◌≡◌, refl, sym, ap}
use mathlib.Core.Logic.{◌≢◌, ◌↔◌, inl, inr}
use mathlib.Core.Bool.{Bool, true, false, ◌||◌}
use mathlib.Core.List.{List, [], ◌∷◌, ◌++◌}
use mathlib.Core.Option.{Option, none, some}
use native.Mathlib.Omega.{arith}
use text.Mathlib.Text.{◌==◌ as str_eq}
use owtf.Base.Tests.{if◌then◌else◌, ◌==◌, Bool-cases}

module _ {ℓ} {A : Type ℓ} where
  abbrev pub length : List A → ℕ
  length [] = 0
  length (x ∷ xs) = suc (length xs)

  abbrev pub get_elem? : List A → ℕ → Option A
  get_elem? [] i = none
  get_elem? (x ∷ xs) zero = some x
  get_elem? (x ∷ xs) (suc i) = get_elem? xs i

  -- A write out of bounds changes nothing.
  abbrev pub set : List A → ℕ → A → List A
  set [] i v = []
  set (x ∷ xs) zero v = v ∷ xs
  set (x ∷ xs) (suc i) v = x ∷ set xs i v

  -- `del xs[i]`
  abbrev pub erase_idx : List A → ℕ → List A
  erase_idx [] i = []
  erase_idx (x ∷ xs) zero = xs
  erase_idx (x ∷ xs) (suc i) = x ∷ erase_idx xs i

  abbrev pub keep : (A → Bool) → List A → List A
  keep p [] = []
  keep p (x ∷ xs) = let rest = keep p xs in if p x then x ∷ rest else rest

  abbrev pub reject : (A → Bool) → List A → List A
  reject p [] = []
  reject p (x ∷ xs) = let rest = reject p xs in if p x then rest else x ∷ rest

  abbrev pub map_where : (A → Bool) → (A → A) → List A → List A
  map_where p f [] = []
  map_where p f (x ∷ xs) = (if p x then f x else x) ∷ map_where p f xs

  abbrev pub find_first : (A → Bool) → List A → Option A
  find_first p [] = none
  find_first p (x ∷ xs) = if p x then some x else find_first p xs

  abbrev pub any : (A → Bool) → List A → Bool
  any p [] = false
  any p (x ∷ xs) = p x || any p xs

  abbrev pub All {κ} : (A → Type κ) → List A → Type κ
  All P [] = Unit
  All P (x ∷ xs) = P x × All P xs

  -- `R` holds between each element and each later one.
  abbrev pub Pairs {κ} : (A → A → Type κ) → List A → Type κ
  Pairs R [] = Unit
  Pairs R (x ∷ xs) = All (R x) xs × Pairs R xs

  pub length-append : (xs ys : List A) → length (xs ++ ys) ≡ length xs + length ys
  length-append [] ys = omega arith
  length-append (x ∷ xs) ys = omega (arith, length-append xs ys)

  pub length-set : (xs : List A) (i : ℕ) (v : A) → length (set xs i v) ≡ length xs
  length-set [] i v = refl
  length-set (x ∷ xs) zero v = refl
  length-set (x ∷ xs) (suc i) v = ap suc (length-set xs i v)

  pub length-erase_idx :
      (xs : List A) (i : ℕ) → i < length xs → suc (length (erase_idx xs i)) ≡ length xs
  length-erase_idx [] i h = absurd (omega arith)
  length-erase_idx (x ∷ xs) zero h = refl
  length-erase_idx (x ∷ xs) (suc i) h = omega (arith, length-erase_idx xs i)

module _ {ℓ κ} {A : Type ℓ} (P : A → Type κ) where
  pub All-append : (xs ys : List A) → All P xs → All P ys → All P (xs ++ ys)
  All-append [] ys hx hy = hy
  All-append (x ∷ xs) ys hx hy = (hx.0, All-append xs ys hx.1 hy)

  pub All-append_left : (xs ys : List A) → All P (xs ++ ys) → All P xs
  All-append_left [] ys h = tt
  All-append_left (x ∷ xs) ys h = (h.0, All-append_left xs ys h.1)

  pub All-append_right : (xs ys : List A) → All P (xs ++ ys) → All P ys
  All-append_right [] ys h = h
  All-append_right (x ∷ xs) ys h = All-append_right xs ys h.1

module _ {ℓ} {A : Type ℓ} where
  pub any-append : (p : A → Bool) (xs ys : List A) → any p (xs ++ ys) ≡ (any p xs || any p ys)
  any-append p [] ys = refl
  any-append p (x ∷ xs) ys = ground (arith, any-append p xs ys)

abbrev pub mem_nat : ℕ → List ℕ → Bool
mem_nat n [] = false
mem_nat n (m ∷ ms) = n == m || mem_nat n ms

abbrev pub mem_str : String → List String → Bool
mem_str s [] = false
mem_str s (t ∷ ts) = str_eq s t || mem_str s ts

module _ {ℓ} {A : Type ℓ} (p : A → Bool) where
  -- The first hit splits the list.
  pub record Hit (x : A) (xs : List A) : Type ℓ where
    pub before : List A
    pub after : List A
    pub split : xs ≡ before ++ x ∷ after
    pub missed : All (λ y. p y ≡ false) before
    pub holds : p x ≡ true

  pub find_first-Hit : (x : A) (xs : List A) → find_first p xs ≡ some x → Hit x xs
  find_first-Hit x [] e = absurd (cc)
  find_first-Hit x (y ∷ xs) e = elim (Bool-cases (p y)) [
    | inl h ↦ record {
      before = [];
      after = xs;
      split = ground (arith, h);
      missed = tt;
      holds = ground (arith, h);
    }
    | inr h ↦
        let found = find_first-Hit x xs (ground arith) in
        record {
          before = y ∷ found.before;
          after = found.after;
          split = ap (λ l. y ∷ l) found.split;
          missed = (h, found.missed);
          holds = found.holds;
        }
  ]

  pub find_first-none : (xs : List A) → (find_first p xs ≡ none) ↔ All (λ y. p y ≡ false) xs
  find_first-none [] = (λ _. tt, λ _. refl)
  find_first-none (y ∷ xs) = elim (Bool-cases (p y)) [
    | inl h ↦ (λ e. absurd (ground arith), λ a. absurd (cc (a.0)))
    | inr h ↦ (
      λ e. (h, (find_first-none xs).0 (ground arith)),
      λ a. ground (arith, (find_first-none xs).1 a.1),
    )
  ]

-- Elements with distinct keys.
module _ {ℓ} {A : Type ℓ} (key : A → ℕ) where
  abbrev pub Distinct : List A → Type 0
  Distinct = Pairs (λ a b. key a ≢ key b)

  reject-absent : (n : ℕ) (xs : List A) → All (λ x. n ≢ key x) xs → reject (λ x. key x == n) xs ≡ xs
  reject-absent n [] h = refl
  reject-absent n (x ∷ xs) h = ground (arith, reject-absent n xs h.1, h.0)

  -- Deleting by a key removes the one element that has it.
  pub reject-one :
      (before : List A) (x : A) (after : List A)
      → Distinct (before ++ x ∷ after)
      → reject (λ y. key y == key x) (before ++ x ∷ after) ≡ before ++ after
  reject-one [] x after d = ground (arith, reject-absent (key x) after d.0)
  reject-one (y ∷ before) x after d = ground (
    arith,
    reject-one before x after d.1,
    (All-append_right (λ b. key y ≢ key b) before (x ∷ after) d.0).0,
  )

module _ {ℓ} {A : Type ℓ} where
  abbrev pub take : ℕ → List A → List A
  take zero xs = []
  take (suc n) [] = []
  take (suc n) (x ∷ xs) = x ∷ take n xs

  abbrev pub drop : ℕ → List A → List A
  drop zero xs = xs
  drop (suc n) [] = []
  drop (suc n) (x ∷ xs) = drop n xs

  pub keep-reject :
      (p q : A → Bool) (xs : List A)
      → ((x : A) → p x ≡ true → q x ≡ false)
      → keep q (reject p xs) ≡ keep q xs
  keep-reject p q [] h = refl
  keep-reject p q (x ∷ xs) h = ground (arith, keep-reject p q xs h, h x)

  pub any-reject :
      (p q : A → Bool) (xs : List A)
      → ((x : A) → q x ≡ true → p x ≡ true)
      → any q (reject p xs) ≡ false
  any-reject p q [] h = refl
  any-reject p q (x ∷ xs) h = ground (arith, any-reject p q xs h, h x)

module _ {ℓ} {A : Type ℓ} where
  -- What holds of all elements holds of the first hit.
  pub All-found {κ} :
      (P : A → Type κ) (p : A → Bool) (xs : List A) (x : A)
      → All P xs
      → find_first p xs ≡ some x
      → P x
  All-found P p [] x h e = absurd (cc)
  All-found P p (y ∷ xs) x h e = elim (Bool-cases (p y)) [
    | inl c ↦ let same : y ≡ x = ground (arith, c) in rw (sym same) (h.0)
    | inr c ↦ All-found P p xs x h.1 (ground arith)
  ]
