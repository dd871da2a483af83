-- ===== src/Config/Reading.antt =====
-- What is read of the configuration (owtf/config.py) after a value was set.

use owtf.Base.{
  String, ◌≡◌, refl, inl, inr, Bool, true, false, Option, some, not, ◌||◌, is_some, str_eq,
  Option-cases, if◌then◌else◌,
}
use owtf.Base.Dict.{lookup, lookup-insert, lookup-insert_other}
use owtf.Config.{
  Value, text, texts, flag, Config, pad_key, is_set, get_val, get_key_val, set_string, set_other,
  set_val,
}

abbrev pub is_text : Value → Bool
is_text (text s) = true
is_text (texts ss) = false
is_text (flag b) = false

-- The item of the type "string" that a key has.
abbrev pub string_item : Config → String → Option Value
string_item c key = lookup (pad_key key) c.string

is_set-get_val : (c : Config) (key : String) → is_set c key ≡ is_some (get_val c key)
unfolding is_set get_val get_key_val
is_set-get_val c key = elim (Option-cases (lookup (pad_key key) c.string)) [
  | inl e ↦ rw (is_set, get_val, get_key_val, e) refl
  | inr (v, e) ↦ rw (is_set, get_val, get_key_val, e) refl
]

-- A key that is set has a value.
pub value_of_set :
    (c : Config) (key : String) → is_set c key ≡ true → (v : Value) × (get_val c key ≡ some v)
value_of_set c key h = elim (Option-cases (get_val c key)) [
  | inl e ↦ let no : is_set c key ≡ false = rw (is_set-get_val c key, e) refl in absurd (cc)
  | inr found ↦ found
]

-- Writing to the type "other" leaves the texts.
under_text :
    (c : Config) (key : String) (v : Value)
    → is_text v ≡ false
    → (get_val (set_other (pad_key key) v c) key
        ≡ (if is_text v || not (is_some (string_item c key)) then some v else string_item c key))
      × ((k : String)
          → str_eq (pad_key key) (pad_key k) ≡ false
          → get_val (set_other (pad_key key) v c) k ≡ get_val c k)
unfolding get_val get_key_val set_other
under_text c key v not_text =
    let here = lookup-insert (pad_key key) v c.other in
    (
      elim (Option-cases (lookup (pad_key key) c.string)) [
        | inl e ↦ rw (get_val, get_key_val, set_other, e, not_text, here) refl
        | inr (w, e) ↦ rw (get_val, get_key_val, set_other, e, not_text) refl
      ],
      λ k h. elim (Option-cases (lookup (pad_key k) c.string)) [
        | inl e ↦
            rw
              (
                get_val,
                get_key_val,
                set_other,
                e,
                lookup-insert_other (pad_key key) (pad_key k) v c.other h,
              )
              refl
        | inr (w, e) ↦ rw (get_val, get_key_val, set_other, e) refl
      ],
    )

-- A value that was set is read back if it is a text, or if no text was ever set under the key; a list
-- or a flag that is set over a text is hidden by it. Every key that is padded otherwise reads as before.
pub get_val-set_val :
    (c : Config) (key : String) (v : Value)
    → (get_val (set_val key v c) key
        ≡ (if is_text v || not (is_some (string_item c key)) then some v else string_item c key))
      × ((k : String)
          → str_eq (pad_key key) (pad_key k) ≡ false
          → get_val (set_val key v c) k ≡ get_val c k)
unfolding get_val get_key_val set_val set_string set_other
get_val-set_val c key (text s) =
    let here = lookup-insert (pad_key key) (text s) c.string in
    (
      rw (get_val, get_key_val, set_val, set_string, here) refl,
      λ k h.
          rw
            (
              get_val,
              get_key_val,
              set_val,
              set_string,
              lookup-insert_other (pad_key key) (pad_key k) (text s) c.string h,
            )
            refl,
    )
get_val-set_val c key (texts ss) = under_text c key (texts ss) refl
get_val-set_val c key (flag b) = under_text c key (flag b) refl
