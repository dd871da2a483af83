-- ===== src/Worklist/Priority.antt =====
-- `group_sort_order` of owtf/managers/worklist.py: plugins by the priority of their type.
use mathlib.Core.List.{Perm}
use owtf.Base.{
  ℕ, ◌+◌, ◌≤◌, String, ◌≡◌, Bool, not, Option, none, some, List, [], ◌∷◌, All, Pairs, arith, str_eq,
  if◌then◌else◌, is_some, any,
}
use owtf.Base.Int.{ℤ, pos, negsuc, pos_part, neg_part, ◌≤ℤ◌}
use owtf.Base.Sorting.{
  sorted_reverse, IsDescending, sorted_reverse-IsDescending, sorted_reverse-perm,
  sorted_reverse-stable, at_key,
}
use owtf.Db.Models.{Plugin}
use owtf.Exceptions.{Result, ok, err, key_error}

-- The dictionary `priority`.
abbrev pub priority : String → Option ℤ
priority t =
    if str_eq t "grep"
    then some (negsuc 0)
    else if str_eq t "bruteforce"
    then some (pos 0)
    else if str_eq t "active"
    then some (pos 1)
    else if str_eq t "semi_passive"
    then some (pos 2)
    else if str_eq t "passive"
    then some (pos 3)
    else if str_eq t "external"
    then some (pos 4)
    else none

abbrev pub is_known : Plugin → Bool
is_known p = is_some (priority p.type)

-- The sort key; the default is never read, since an unknown type raises before the sort.
abbrev pub key_of : Plugin → ℤ
key_of p = elim (priority p.type) [ none ↦ pos 0 | some k ↦ k ]

-- `sorted(plugin_list, key=lambda k: priority[k["type"]], reverse=True)`: Python computes all
-- keys first, so one unknown type is a KeyError.
unfoldable pub group_sort_order : List Plugin → Result (List Plugin)
group_sort_order plugin_list =
    if any (λ p. not (is_known p)) plugin_list
    then err key_error
    else ok (sorted_reverse key_of plugin_list)

-- The place of a type in the order external, passive, semi_passive, active, bruteforce, grep.
abbrev pub place : String → ℕ
place t =
    if str_eq t "grep"
    then 5
    else if str_eq t "bruteforce"
    then 4
    else if str_eq t "active"
    then 3
    else if str_eq t "semi_passive"
    then 2
    else if str_eq t "passive"
    then 1
    else if str_eq t "external"
    then 0
    else 4

key_of-place : (p : Plugin) → pos_part (key_of p) + place p.type ≡ 4 + neg_part (key_of p)
key_of-place p = ground arith

pub record IsSortedGroup (given result : List Plugin) : Type 0 where
  pub same : Perm result given
  pub in_order : Pairs (λ p q. place p.type ≤ place q.type) result
  pub stable : (k : ℤ) → at_key key_of k result ≡ at_key key_of k given

in_order-IsDescending :
    (ps : List Plugin) → IsDescending key_of ps → Pairs (λ p q. place p.type ≤ place q.type) ps
in_order-IsDescending [] d = tt
in_order-IsDescending (p ∷ ps) d = (below ps d.0, in_order-IsDescending ps d.1)
  where
    below :
        (qs : List Plugin)
        → All (λ q. key_of q ≤ℤ key_of p) qs
        → All (λ q. place p.type ≤ place q.type) qs
    below [] h = tt
    below (q ∷ qs) h = (omega (arith, h.0, key_of-place p, key_of-place q), below qs h.1)

-- A list of plugins of known types that is sorted holds the same plugins, in the order external,
-- passive, semi_passive, active, bruteforce, grep of their types, and plugins of one priority keep the
-- order in which they were given.
pub group_sort_order-IsSortedGroup :
    (given result : List Plugin) → group_sort_order given ≡ ok result → IsSortedGroup given result
unfolding group_sort_order
group_sort_order-IsSortedGroup given result e =
    let sorts : sorted_reverse key_of given ≡ result = ground arith in
    rw (← sorts) (record {
      same = sorted_reverse-perm key_of given;
      in_order =
          in_order-IsDescending (sorted_reverse key_of given)
            (sorted_reverse-IsDescending key_of given);
      stable = λ k. sorted_reverse-stable key_of k given;
    })
