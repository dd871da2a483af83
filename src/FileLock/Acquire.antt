-- ===== src/FileLock/Acquire.antt =====
-- `FileLock.acquire` of owtf/lib/filelock.py, run against what the system answers to each attempt.

use owtf.Base.{
  ℕ, ◌+◌, ◌≡◌, ◌↔◌, ◌⊎◌, Bool, true, false, Option, none, some, List, [], ◌∷◌, ◌++◌, arith, leb,
  if◌then◌else◌, All,
}

-- The answer to `os.open(self.lockfile, os.O_CREAT | os.O_EXCL | os.O_RDWR)`, and to the writing of
-- the file after it.
pub data Answer : Type 0 where
  created : Answer
  -- the file was created, and writing it is an error
  unwritten : Answer
  eexist : Answer
  other_error : Answer

-- One round of the loop: the answer, and the clock when it is read after a refusal.
pub record Attempt : Type 0 where
  pub answer : Answer
  pub now : ℕ

pub record FileLock : Type 0 where
  pub is_locked : Bool
  pub timeout : Option ℕ

pub data Outcome : Type 0 where
  acquired : Outcome
  refused : Outcome
  timed_out : Outcome
  os_error : Outcome
  -- the answers are used up: the call sleeps
  waiting : Outcome

-- `self.timeout is not None and (time.time() - start_time) >= self.timeout`
unfoldable pub is_late : Option ℕ → ℕ → ℕ → Bool
is_late none start now = false
is_late (some t) start now = leb (start + t) now

unfoldable pub attempts : FileLock → Bool → ℕ → List Attempt → Outcome × FileLock
unfolding is_late
attempts l blocking start [] = (waiting, l)
attempts l blocking start (a ∷ rest) =
    let again = attempts l blocking start rest in
    elim a.answer [
      | created ↦ (acquired, record l { is_locked = true })
      | unwritten ↦ (os_error, l)
      | other_error ↦ (os_error, l)
      | eexist ↦
          if is_late l.timeout start a.now
          then (timed_out, l)
          else if blocking
          then again
          else (refused, l)
    ]

unfoldable pub acquire : FileLock → Bool → ℕ → List Attempt → Outcome × FileLock
unfolding attempts
acquire l blocking start answers = attempts l blocking start answers

-- `release`: the flag falls, and the file is unlinked.
unfoldable pub release : FileLock → FileLock
release l = record l { is_locked = false }

-- The file existed at an attempt, which was not too late.
abbrev pub IsRefusal : FileLock → ℕ → Attempt → Type 0
IsRefusal l start a = (a.answer ≡ eexist) × (is_late l.timeout start a.now ≡ false)

-- How a call comes to its end.
pub data Ends (l : FileLock) (blocking : Bool) (start : ℕ) (answers : List Attempt) (o : Outcome)
    : Type 0 where
  -- after refusals, an attempt decides
  decided :
      (before : List Attempt) (a : Attempt) (after : List Attempt)
      → answers ≡ before ++ a ∷ after
      → All (IsRefusal l start) before
      → (a.answer ≡ created) × (o ≡ acquired)
        ⊎ (a.answer ≡ unwritten) × (o ≡ os_error)
        ⊎ (a.answer ≡ other_error) × (o ≡ os_error)
        ⊎ (a.answer ≡ eexist) × (is_late l.timeout start a.now ≡ true) × (o ≡ timed_out)
        ⊎ (a.answer ≡ eexist)
          × (is_late l.timeout start a.now ≡ false)
          × (blocking ≡ false)
          × (o ≡ refused)
      → Ends l blocking start answers o
  -- all answers were refusals, and the call waits
  unfinished : All (IsRefusal l start) answers → o ≡ waiting → Ends l blocking start answers o

-- The flag of the instance is set by a call just when the call acquires the lock.
pub is_locked-acquire :
    (l : FileLock) (blocking : Bool) (start : ℕ) (answers : List Attempt)
    → l.is_locked ≡ false
    → ((acquire l blocking start answers).1.is_locked ≡ true)
      ↔ ((acquire l blocking start answers).0 ≡ acquired)
unfolding acquire
is_locked-acquire l blocking start [] free = (λ e. absurd (ground arith), λ e. absurd (cc))
is_locked-acquire l blocking start (a ∷ rest) free =
    let ih = is_locked-acquire l blocking start rest free in
    (λ e. ground (arith, ih), λ e. ground (arith, ih))
