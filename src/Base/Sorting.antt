-- ===== src/Base/Sorting.antt =====
-- `sorted(xs, key=key, reverse=True)` of Python: descending by key, and stable.
use owtf.Base.Int.{ℤ, ◌≤ℤ◌, ltb_ℤ, eqb_ℤ}
use owtf.Base.Lists.{All, Pairs, keep}
use owtf.Base.Tests.{if◌then◌else◌, Bool-cases}
use mathlib.Core.Path.{◌≡◌, refl}
use mathlib.Core.Logic.{inl, inr}
use mathlib.Core.List.{List, [], ◌∷◌, Perm}
use mathlib.Core.List.Perm
use native.Mathlib.Omega.{arith}

module _ {ℓ} {A : Type ℓ} (key : A → ℤ) where
  unfoldable pub insert : A → List A → List A
  insert x [] = x ∷ []
  insert x (y ∷ ys) = if ltb_ℤ (key x) (key y) then y ∷ insert x ys else x ∷ y ∷ ys

  unfoldable pub sorted_reverse : List A → List A
  unfolding insert
  sorted_reverse [] = []
  sorted_reverse (x ∷ xs) = insert x (sorted_reverse xs)

  abbrev pub IsDescending : List A → Type 0
  IsDescending = Pairs (λ a b. key b ≤ℤ key a)

  abbrev Above : A → A → Type 0
  Above x y = key y ≤ℤ key x

  All-insert : (z x : A) (ys : List A) → Above z x → All (Above z) ys → All (Above z) (insert x ys)
  unfolding insert
  All-insert z x [] hx h = (hx, tt)
  All-insert z x (y ∷ ys) hx h = ground (arith, All-insert z x ys hx h.1)

  All-Above : (x y : A) (ys : List A) → Above x y → All (Above y) ys → All (Above x) ys
  All-Above x y [] hx h = tt
  All-Above x y (z ∷ ys) hx h = (omega arith, All-Above x y ys hx h.1)

  insert-IsDescending : (x : A) (ys : List A) → IsDescending ys → IsDescending (insert x ys)
  unfolding insert
  insert-IsDescending x [] h = (tt, tt)
  insert-IsDescending x (y ∷ ys) h = elim (Bool-cases (ltb_ℤ (key x) (key y))) [
    | inl lower ↦ rw lower (All-insert y x ys (ground arith) h.0, insert-IsDescending x ys h.1)
    | inr upper ↦ rw upper ((ground arith, All-Above x y ys (ground arith) h.0), h)
  ]

  pub sorted_reverse-IsDescending : (xs : List A) → IsDescending (sorted_reverse xs)
  unfolding sorted_reverse
  sorted_reverse-IsDescending [] = tt
  sorted_reverse-IsDescending (x ∷ xs) =
      insert-IsDescending x (sorted_reverse xs) (sorted_reverse-IsDescending xs)

  -- A symmetric relation between all pairs holds of the sorted list too.
  module _ {κ} (R : A → A → Type κ) (flip : (a b : A) → R a b → R b a) where
    All-inserted : (z x : A) (ys : List A) → R z x → All (R z) ys → All (R z) (insert x ys)
    unfolding insert
    All-inserted z x [] hx h = (hx, tt)
    All-inserted z x (y ∷ ys) hx h = elim (Bool-cases (ltb_ℤ (key x) (key y))) [
      | inl lower ↦ rw lower (h.0, All-inserted z x ys hx h.1)
      | inr upper ↦ rw upper (hx, h)
    ]

    insert-Pairs : (x : A) (ys : List A) → All (R x) ys → Pairs R ys → Pairs R (insert x ys)
    unfolding insert
    insert-Pairs x [] hx h = (tt, tt)
    insert-Pairs x (y ∷ ys) hx h = elim (Bool-cases (ltb_ℤ (key x) (key y))) [
      | inl lower ↦ rw lower (All-inserted y x ys (flip x y hx.0) h.0, insert-Pairs x ys hx.1 h.1)
      | inr upper ↦ rw upper (hx, h)
    ]

    All-sorted : (z : A) (xs : List A) → All (R z) xs → All (R z) (sorted_reverse xs)
    unfolding sorted_reverse
    All-sorted z [] h = tt
    All-sorted z (x ∷ xs) h = All-inserted z x (sorted_reverse xs) h.0 (All-sorted z xs h.1)

    pub sorted_reverse-Pairs : (xs : List A) → Pairs R xs → Pairs R (sorted_reverse xs)
    unfolding sorted_reverse
    sorted_reverse-Pairs [] h = tt
    sorted_reverse-Pairs (x ∷ xs) h =
        insert-Pairs x (sorted_reverse xs) (All-sorted x xs h.0) (sorted_reverse-Pairs xs h.1)

  abbrev pub at_key : ℤ → List A → List A
  at_key k = keep (λ a. eqb_ℤ (key a) k)

  at_key-insert : (k : ℤ) (x : A) (ys : List A) → at_key k (insert x ys) ≡ at_key k (x ∷ ys)
  unfolding insert
  at_key-insert k x [] = refl
  at_key-insert k x (y ∷ ys) = ground (arith, at_key-insert k x ys)

  -- Elements of one key keep their order.
  pub sorted_reverse-stable : (k : ℤ) (xs : List A) → at_key k (sorted_reverse xs) ≡ at_key k xs
  unfolding sorted_reverse
  sorted_reverse-stable k [] = refl
  sorted_reverse-stable k (x ∷ xs) =
      ground (arith, at_key-insert k x (sorted_reverse xs), sorted_reverse-stable k xs)

  insert-perm : (x : A) (ys : List A) → Perm (insert x ys) (x ∷ ys)
  unfolding insert
  insert-perm x [] = Perm.refl (x ∷ [])
  insert-perm x (y ∷ ys) = elim (Bool-cases (ltb_ℤ (key x) (key y))) [
    | inl lower ↦ rw lower (Perm.trans (Perm.cons y (insert-perm x ys)) (Perm.swap x y ys))
    | inr upper ↦ rw upper (Perm.refl (x ∷ y ∷ ys))
  ]

  pub sorted_reverse-perm : (xs : List A) → Perm (sorted_reverse xs) xs
  unfolding sorted_reverse
  sorted_reverse-perm [] = Perm.refl []
  sorted_reverse-perm (x ∷ xs) =
      Perm.trans (insert-perm x (sorted_reverse xs)) (Perm.cons x (sorted_reverse-perm xs))
