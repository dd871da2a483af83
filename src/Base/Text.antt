-- ===== src/Base/Text.antt =====
-- Texts as Python handles them, by their characters.
use Prim.Native.Nat.{ℕ, zero, suc}
use Prim.Native.String.{String}
use Prim.Native.Char.{Char, code}
use mathlib.Core.Path.{◌≡◌, refl}
use mathlib.Core.Bool.{Bool, true, false, ◌&&◌, ◌||◌}
use mathlib.Core.List.{List, [], ◌∷◌}
use native.Mathlib.Omega.{arith}
use owtf.Base.Tests.{if◌then◌else◌, ◌==◌}

-- `s + t`
abbrev pub cat : String → String → String
cat String.[] t = t
cat (String.◌∷◌ c s) t = String.◌∷◌ c (cat s t)

-- `len(s)`
abbrev pub size : String → ℕ
size String.[] = 0
size (String.◌∷◌ c s) = suc (size s)

-- `s[1:]`
abbrev pub tail : String → String
tail String.[] = ""
tail (String.◌∷◌ c s) = s

-- Is the character in the text?
abbrev pub has_char : ℕ → String → Bool
has_char c String.[] = false
has_char c (String.◌∷◌ d s) = code d == c || has_char c s

-- `s.startswith(t)`
unfoldable pub begins : String → String → Bool
begins s String.[] = true
begins String.[] (String.◌∷◌ c t) = false
begins (String.◌∷◌ d s) (String.◌∷◌ c t) = code d == code c && begins s t

-- A character in front of the first chunk.
abbrev pub attach : Char → List String → List String
attach c [] = String.◌∷◌ c "" ∷ []
attach c (chunk ∷ chunks) = String.◌∷◌ c chunk ∷ chunks

-- `text.split(separator)`, for a separator of one character
unfoldable pub split_on : ℕ → String → List String
split_on sep String.[] = "" ∷ []
split_on sep (String.◌∷◌ c s) =
    let rest = split_on sep s in if code c == sep then "" ∷ rest else attach c rest

-- The same for a longer separator, of size `n + 1`; `skip` characters belong to one that was found.
unfoldable pub split_at : (sep : String) (n skip : ℕ) → String → List String
unfolding begins
split_at sep n skip String.[] = "" ∷ []
split_at sep n (suc skip) (String.◌∷◌ c s) = split_at sep n skip s
split_at sep n zero (String.◌∷◌ c s) =
    let rest = split_at sep n zero s in
    let beyond = split_at sep n n s in
    if begins (String.◌∷◌ c s) sep then "" ∷ beyond else attach c rest

-- Taking every occurrence of a text of size `n + 1` out.
unfoldable pub remove_at : (old : String) (n skip : ℕ) → String → String
unfolding begins
remove_at old n skip String.[] = ""
remove_at old n (suc skip) (String.◌∷◌ c s) = remove_at old n skip s
remove_at old n zero (String.◌∷◌ c s) =
    let rest = remove_at old n zero s in
    let beyond = remove_at old n n s in
    if begins (String.◌∷◌ c s) old then beyond else String.◌∷◌ c rest

-- `s.replace(old, "")`
unfoldable pub remove_all : (old : String) → String → String
unfolding remove_at
remove_all String.[] s = s
remove_all (String.◌∷◌ c old) s = remove_at (String.◌∷◌ c old) (size old) 0 s

-- Does the text occur in the other one?
abbrev pub occurs : (sub : String) → String → Bool
occurs sub String.[] = begins String.[] sub
occurs sub (String.◌∷◌ c s) = begins (String.◌∷◌ c s) sub || occurs sub s

pub split_on-none : (c : ℕ) (s : String) → has_char c s ≡ false → split_on c s ≡ s ∷ []
unfolding split_on
split_on-none c String.[] h = refl
split_on-none c (String.◌∷◌ d s) h =
    let other : (code d == c) ≡ false = ground (arith, h) in
    let rest : has_char c s ≡ false = ground (arith, h) in rw (other, split_on-none c s rest) refl

pub split_on-cat :
    (c : ℕ) (a b : String)
    → has_char c a ≡ false
    → (d : Char) → code d ≡ c
    → split_on c (cat a (String.◌∷◌ d b)) ≡ a ∷ split_on c b
unfolding split_on
split_on-cat c String.[] b h d e = let it : (code d == c) ≡ true = ground (arith, e) in rw it refl
split_on-cat c (String.◌∷◌ x a) b h d e =
    let other : (code x == c) ≡ false = ground (arith, h) in
    let rest : has_char c a ≡ false = ground (arith, h) in
    rw (other, split_on-cat c a b rest d e) refl

begins-cat : (p s : String) → begins (cat p s) p ≡ true
unfolding begins
begins-cat String.[] s = refl
begins-cat (String.◌∷◌ c p) s = ground (arith, begins-cat p s)

remove_at-cat :
    (old : String) (n : ℕ) (p s : String) → remove_at old n (size p) (cat p s) ≡ remove_at old n 0 s
unfolding remove_at
remove_at-cat old n String.[] s = refl
remove_at-cat old n (String.◌∷◌ c p) s = remove_at-cat old n p s

remove_at-none :
    (old : String) (n : ℕ) (s : String) → occurs old s ≡ false → remove_at old n 0 s ≡ s
unfolding remove_at
remove_at-none old n String.[] h = refl
remove_at-none old n (String.◌∷◌ c s) h =
    let here : begins (String.◌∷◌ c s) old ≡ false = ground (arith, h) in
    let rest : occurs old s ≡ false = ground (arith, h) in
    rw (here, remove_at-none old n s rest) refl

-- A text at the beginning is taken out, and one that does not occur in the rest is not missed.
pub remove_all-cat :
    (c : Char) (p s : String)
    → occurs (String.◌∷◌ c p) s ≡ false
    → remove_all (String.◌∷◌ c p) (cat (String.◌∷◌ c p) s) ≡ s
unfolding remove_all remove_at
remove_all-cat c p s h =
    let old : String = String.◌∷◌ c p in
    let first = begins-cat (String.◌∷◌ c p) s in
    rw (first, remove_at-cat old (size p) p s, remove_at-none old (size p) s h) refl
