-- ===== src/Sessions/Links.antt =====
-- Lists of links of targets to sessions, `target_session_association` of owtf/models/target.py.

use owtf.Base.{
  ℕ, ◌≡◌, refl, ◌≢◌, inl, inr, Bool, true, false, not, ◌&&◌, List, [], ◌∷◌, ◌++◌, arith, ◌==◌,
  ==_iff, Bool-cases, length, keep, reject, any, All, Pairs, All-append,
}
use owtf.Sessions.{is_link, is_link_of}

abbrev pub Links : Type 0
Links = List (ℕ × ℕ)

-- The links of one target.
abbrev pub own : ℕ → Links → Links
own t = keep (is_link_of t)

abbrev pub AllDifferent : Links → Type 0
AllDifferent = Pairs (λ a b. a.0 ≡ b.0 → a.1 ≢ b.1)

pub any-own : (t : ℕ) (ls : Links) → any (is_link_of t) (own t ls) ≡ any (is_link_of t) ls
any-own t [] = refl
any-own t (l ∷ ls) = ground (arith, any-own t ls)

pub own-reject_other : (t u : ℕ) (ls : Links) → u ≢ t → own t (reject (is_link_of u) ls) ≡ own t ls
own-reject_other t u [] h = refl
own-reject_other t u (l ∷ ls) h = ground (arith, own-reject_other t u ls h)

-- A target in another session than `n`.
abbrev pub elsewhere : ℕ → ℕ → ℕ × ℕ → Bool
elsewhere t n l = l.0 == t && not (l.1 == n)

pub any-elsewhere :
    (t n : ℕ) (ls : Links)
    → any (elsewhere t n) ls ≡ true
    → any (is_link_of t) (reject (λ l. l.1 == n) ls) ≡ true
any-elsewhere t n [] h = absurd (cc)
any-elsewhere t n (l ∷ ls) h = ground (arith, any-elsewhere t n ls)

pub not_linked-elsewhere :
    (t n : ℕ) (ls : Links)
    → any (is_link_of t) ls ≡ true
    → any (is_link t n) ls ≡ false
    → any (elsewhere t n) ls ≡ true
not_linked-elsewhere t n [] h k = absurd (cc)
not_linked-elsewhere t n (l ∷ ls) h k = ground (arith, not_linked-elsewhere t n ls)

rest-elsewhere :
    (t n : ℕ) (l : ℕ × ℕ) (ls : Links)
    → l.0 ≡ t
    → l.1 ≡ n
    → All (λ b. l.0 ≡ b.0 → l.1 ≢ b.1) ls
    → length (own t ls) ≢ 0
    → any (elsewhere t n) ls ≡ true
rest-elsewhere t n l [] e k h some_left = absurd (some_left refl)
rest-elsewhere t n l (b ∷ ls) e k h some_left = ground (arith, rest-elsewhere t n l ls e k h.1, h.0)

-- A target with one link to `n` and more than one link has another.
pub linked_once-elsewhere :
    (t n : ℕ) (ls : Links)
    → AllDifferent ls
    → any (is_link_of t) ls ≡ true
    → length (own t ls) ≢ 1
    → any (elsewhere t n) ls ≡ true
linked_once-elsewhere t n [] d some_link many = absurd (cc)
linked_once-elsewhere t n (l ∷ ls) d some_link many = elim (Bool-cases (l.0 == t)) [
  | inl its ↦ elim (Bool-cases (l.1 == n)) [
    | inl here ↦
        let rest =
          rest-elsewhere t n l ls ((==_iff l.0 t).0 its) ((==_iff l.1 n).0 here) d.0
            (λ none_left. many (ground arith)) in
        ground arith
    | inr there ↦ ground arith
  ]
  | inr not_its ↦
      let rest = linked_once-elsewhere t n ls d.1 (ground arith) (λ one. many (ground arith)) in
      ground arith
]

All-reject : (P : ℕ × ℕ → Type 0) (p : ℕ × ℕ → Bool) (ls : Links) → All P ls → All P (reject p ls)
All-reject P p [] h = tt
All-reject P p (l ∷ ls) h = elim (Bool-cases (p l)) [
  | inl e ↦ rw e (All-reject P p ls h.1)
  | inr e ↦ rw e (h.0, All-reject P p ls h.1)
]

pub AllDifferent-reject :
    (p : ℕ × ℕ → Bool) (ls : Links) → AllDifferent ls → AllDifferent (reject p ls)
AllDifferent-reject p [] h = tt
AllDifferent-reject p (l ∷ ls) h = elim (Bool-cases (p l)) [
  | inl e ↦ rw e (AllDifferent-reject p ls h.1)
  | inr e ↦ rw e (All-reject _ p ls h.0, AllDifferent-reject p ls h.1)
]

pub AllDifferent-append :
    (ls : Links) (t n : ℕ)
    → AllDifferent ls
    → any (is_link t n) ls ≡ false
    → AllDifferent (ls ++ (t, n) ∷ [])
AllDifferent-append [] t n d h = (tt, tt)
AllDifferent-append (l ∷ ls) t n d h = (
  All-append _ ls _ d.0 (λ e k. absurd (ground arith), tt),
  AllDifferent-append ls t n d.1 (ground arith),
)

pub any-elsewhere-own :
    (t n : ℕ) (ls : Links) → any (elsewhere t n) (own t ls) ≡ any (elsewhere t n) ls
any-elsewhere-own t n [] = refl
any-elsewhere-own t n (l ∷ ls) = ground (arith, any-elsewhere-own t n ls)

pub any_unlink_other :
    (t u n : ℕ) (ls : Links)
    → u ≢ t
    → any (is_link_of t) (reject (is_link u n) ls) ≡ any (is_link_of t) ls
any_unlink_other t u n [] h = refl
any_unlink_other t u n (l ∷ ls) h = ground (arith, any_unlink_other t u n ls h)

pub any_append_link :
    (t u n : ℕ) (ls : Links)
    → any (is_link_of t) ls ≡ true
    → any (is_link_of t) (ls ++ (u, n) ∷ []) ≡ true
any_append_link t u n [] h = absurd (cc)
any_append_link t u n (l ∷ ls) h = ground (arith, any_append_link t u n ls)

pub any_new_link : (t n : ℕ) (ls : Links) → any (is_link t n) (ls ++ (t, n) ∷ []) ≡ true
any_new_link t n [] = ground arith
any_new_link t n (l ∷ ls) = ground (arith, any_new_link t n ls)
