-- ===== src/FileLock/Exclusion.antt =====
-- Mutual exclusion of `FileLock` (owtf/lib/filelock.py) in every interleaving.

use owtf.Base.{ℕ, ◌≡◌, refl, true, false, arith}
use owtf.FileLock.System.{
  Stage, idle, locked, releasing, is_inside, System, move, start, Step, create, refuse, set_flag,
  fail_write, drop_flag, unlink, stray_release, stray_unlink, is_stray, Reach, here, next,
  IsDisciplined,
}

-- Those that are inside are one instance, and the file is there while one is.
pub record Inv (s : System) : Type 0 where
  pub unique : (i j : ℕ) → is_inside (s.stage i) ≡ true → is_inside (s.stage j) ≡ true → i ≡ j
  pub covered : (i : ℕ) → is_inside (s.stage i) ≡ true → s.file ≡ true

Inv-start : Inv start
Inv-start = record { unique = λ i j p q. cc; covered = λ i p. cc }

-- An instance that is inside and stays there.
stays_inside :
    (s : System) (i : ℕ) (t : Stage)
    → is_inside (s.stage i) ≡ true
    → Inv s
    → Inv (record { file = s.file; stage = move s.stage i t })
stays_inside s i t was v = record {
  unique = λ j k p q. ground (arith, v.unique j k, v.unique i k, v.unique j i);
  covered = λ j p. v.covered i was;
}

Step-Inv : (s s' : System) (st : Step s s') → is_stray st ≡ false → Inv s → Inv s'
Step-Inv s s' (create i at free e) d v =
    rw e (record {
      unique = λ j k p q. ground (arith, v.covered j, v.covered k);
      covered = λ j p. refl;
    })
Step-Inv s s' (refuse i at there e) d v = rw e v
Step-Inv s s' (set_flag i at e) d v = rw e (stays_inside s i locked (ground arith) v)
Step-Inv s s' (fail_write i at e) d v = rw e (stays_inside s i idle (ground arith) v)
Step-Inv s s' (drop_flag i at e) d v = rw e (stays_inside s i releasing (ground arith) v)
Step-Inv s s' (unlink i at e) d v = rw e (record {
  unique = λ j k p q. ground (arith, v.unique j k, v.unique i j, v.unique i k);
  covered = λ j p. absurd (ground (arith, v.unique i j));
})
Step-Inv s s' (stray_release i at e) d v = absurd (cc)
Step-Inv s s' (stray_unlink i at e) d v = absurd (cc)

-- In every state that any interleaving of instances reaches from a free lock, also with writes of the
-- file that fail, at most one instance is between creating the file and removing it, and the file exists
-- while one is, given that `release` is only called by an instance that holds the lock.
pub Reach-Inv : (s : System) (r : Reach start s) → IsDisciplined r → Inv s
Reach-Inv s here d = Inv-start
Reach-Inv s (next {a = mid} r st) d = Step-Inv mid s st d.0 (Reach-Inv mid r d.1)

-- A file that is there with no instance inside, as a failed write leaves it, stays: no instance gets
-- in again as long as no `release` is called without the lock.
pub record IsStale (s : System) : Type 0 where
  pub left : s.file ≡ true
  pub empty : (i : ℕ) → s.stage i ≡ idle

Step-IsStale : (s s' : System) (st : Step s s') → is_stray st ≡ false → IsStale s → IsStale s'
Step-IsStale s s' (create i at free e) d v = absurd (let no = v.left in cc)
Step-IsStale s s' (refuse i at there e) d v = rw e v
Step-IsStale s s' (set_flag i at e) d v = absurd (let no = v.empty i in cc)
Step-IsStale s s' (fail_write i at e) d v = absurd (let no = v.empty i in cc)
Step-IsStale s s' (drop_flag i at e) d v = absurd (let no = v.empty i in cc)
Step-IsStale s s' (unlink i at e) d v = absurd (let no = v.empty i in cc)
Step-IsStale s s' (stray_release i at e) d v = absurd (cc)
Step-IsStale s s' (stray_unlink i at e) d v = absurd (cc)
