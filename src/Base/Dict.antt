-- ===== src/Base/Dict.antt =====
-- Dictionaries with texts as keys, as lists in order of insertion.
use Prim.Native.String.{String}
use mathlib.Core.Path.{◌≡◌, refl}
use mathlib.Core.Logic.{inl, inr}
use mathlib.Core.Bool.{false}
use mathlib.Core.List.{List, [], ◌∷◌}
use mathlib.Core.Option.{Option, none, some}
use text.Mathlib.Text.{◌==◌ as str_eq}
use owtf.Base.Tests.{if◌then◌else◌, Bool-cases, eq_self}
use text.Mathlib.TextEquality.{eq_iff}

abbrev pub Dict {ℓ} : Type ℓ → Type ℓ
Dict V = List (String × V)

module _ {ℓ} {V : Type ℓ} where
  unfoldable pub lookup : String → Dict V → Option V
  lookup k [] = none
  lookup k ((j, v) ∷ d) = if str_eq j k then some v else lookup k d

  -- `d[k] = v`: a key that is there keeps its place.
  unfoldable pub insert : String → V → Dict V → Dict V
  insert k v [] = (k, v) ∷ []
  insert k v ((j, w) ∷ d) =
      let rest = insert k v d in if str_eq j k then (j, v) ∷ d else (j, w) ∷ rest

  pub lookup-insert : (k : String) (v : V) (d : Dict V) → lookup k (insert k v d) ≡ some v
  unfolding lookup insert
  lookup-insert k v [] = rw (insert, lookup, eq_self k) refl
  lookup-insert k v ((j, w) ∷ d) = elim (Bool-cases (str_eq j k)) [
    | inl e ↦ rw (insert, e, lookup, e) refl
    | inr e ↦ rw (insert, e, lookup, e) (lookup-insert k v d)
  ]

  pub lookup-insert_other :
      (k k' : String) (v : V) (d : Dict V)
      → str_eq k k' ≡ false
      → lookup k' (insert k v d) ≡ lookup k' d
  unfolding lookup insert
  lookup-insert_other k k' v [] h = rw (insert, lookup, h) refl
  lookup-insert_other k k' v ((j, w) ∷ d) h = elim (Bool-cases (str_eq j k)) [
    | inl e ↦
        let other : str_eq j k' ≡ false = rw ((eq_iff j k).0 e) h in
        rw (insert, e, lookup, other) refl
    | inr e ↦ elim (Bool-cases (str_eq j k')) [
      | inl its ↦ rw (insert, e, lookup, its) refl
      | inr not_its ↦ rw (insert, e, lookup, not_its) (lookup-insert_other k k' v d h)
    ]
  ]
