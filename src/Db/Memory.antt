-- ===== src/Db/Memory.antt =====
-- A table in memory: the laws of `Table` can be met. The witnesses run on it.

use owtf.Base.{
  ℕ, suc, ◌+◌, ◌<◌, ◌≢◌, max, All, String, ◌≡◌, refl, false, List, [], ◌∷◌, ◌++◌, arith, str_eq,
  reject, map_where, mem_str,
}
use owtf.Db.Files.{Files}
use owtf.Db.Table.{Table, KeyFresh}

pub record Stored (Row : Type 0) : Type 0 where
  pub contents : List Row
  pub counter : ℕ

abbrev pub memory : {Row : Type 0} → Table Row
memory {Row} = record {
  State = Stored Row;
  rows = λ s. s.contents;
  next_id = λ s. s.counter;
  add = λ make s. record { contents = s.contents ++ make s.counter ∷ []; counter = s.counter + 1 };
  delete = λ p s. record s { contents = reject p s.contents };
  update = λ p f s. record s { contents = map_where p f s.contents };
  rows-add = λ make s. refl;
  rows-delete = λ p s. refl;
  rows-update = λ p f s. refl;
}

-- A table that numbers its rows itself: the next key is one more than the highest.
module _ {Row : Type 0} (key : Row → ℕ) where
  abbrev highest : List Row → ℕ
  highest [] = 0
  highest (r ∷ rs) = max (key r) (highest rs)

  abbrev pub numbered : Table Row
  numbered = record {
    State = List Row;
    rows = λ s. s;
    next_id = λ s. suc (highest s);
    add = λ make s. s ++ make (suc (highest s)) ∷ [];
    delete = reject;
    update = map_where;
    rows-add = λ make s. refl;
    rows-delete = λ p s. refl;
    rows-update = λ p f s. refl;
  }

  below : (n : ℕ) (rs : List Row) → highest rs < n → All (λ r. key r ≢ n) rs
  below n [] h = tt
  below n (r ∷ rs) h = ((λ e. absurd (omega (arith, e, h))), below n rs (omega (arith, h)))

  pub numbered-KeyFresh : (s : List Row) → KeyFresh numbered key s
  numbered-KeyFresh s = below (suc (highest s)) s (omega arith)

-- A file system that is a list of paths, each a folder of its own.
abbrev pub without : String → List String → List String
without p = reject (str_eq p)

pub mem-without : (p : String) (s : List String) → mem_str p (without p s) ≡ false
mem-without p [] = refl
mem-without p (q ∷ s) = ground (arith, mem-without p s)

pub mem_of_without :
    (p q : String) (s : List String) → mem_str p s ≡ false → mem_str p (without q s) ≡ false
mem_of_without p q [] e = refl
mem_of_without p q (r ∷ s) e = ground (arith, mem_of_without p q s)

abbrev pub memory_files : Files
memory_files = record {
  State = List String;
  exists = mem_str;
  rm_tree = without;
  exists-rm_tree = mem-without;
  exists_of_rm_tree = mem_of_without;
}
