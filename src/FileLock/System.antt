-- ===== src/FileLock/System.antt =====
-- Many `FileLock` instances (owtf/lib/filelock.py), in any threads and processes, on one lock file.

use owtf.Base.{ℕ, ◌≡◌, Bool, true, false, ◌==◌, if◌then◌else◌}

-- Where an instance stands. `creating`: its `os.open` has made the file, and the flag is not yet
-- set; `releasing`: the flag has fallen, and the file is not yet unlinked. `straying`: `release` was
-- called without the lock, and has not unlinked the file yet.
pub data Stage : Type 0 where
  idle creating locked releasing straying : Stage

-- Between the creation of the file and its removal.
abbrev pub is_inside : Stage → Bool
is_inside idle = false
is_inside creating = true
is_inside locked = true
is_inside releasing = true
is_inside straying = false

pub record System : Type 0 where
  -- the lock file exists
  pub file : Bool
  pub stage : ℕ → Stage

abbrev pub move : (ℕ → Stage) → ℕ → Stage → ℕ → Stage
move f i s j = if i == j then s else f j

-- Nobody has the lock.
abbrev pub start : System
start = record { file = false; stage = λ _. idle }

-- One step of instance `i`. `os.open` with O_EXCL creates the file and fails if it is there, at
-- once. `release` has no guard: it may be called with the lock (`drop_flag`) and without
-- (`stray_release`). An unlink of a file that is not there is an error, and leaves it away.
pub data Step (s : System) (s' : System) : Type 0 where
  create :
      (i : ℕ)
      → s.stage i ≡ idle
      → s.file ≡ false
      → s' ≡ record { file = true; stage = move s.stage i creating }
      → Step s s'
  refuse : (i : ℕ) → s.stage i ≡ idle → s.file ≡ true → s' ≡ s → Step s s'
  set_flag :
      (i : ℕ)
      → s.stage i ≡ creating
      → s' ≡ record { file = s.file; stage = move s.stage i locked }
      → Step s s'
  -- the write raises, and the file stays
  fail_write :
      (i : ℕ)
      → s.stage i ≡ creating
      → s' ≡ record { file = s.file; stage = move s.stage i idle }
      → Step s s'
  drop_flag :
      (i : ℕ)
      → s.stage i ≡ locked
      → s' ≡ record { file = s.file; stage = move s.stage i releasing }
      → Step s s'
  unlink :
      (i : ℕ)
      → s.stage i ≡ releasing
      → s' ≡ record { file = false; stage = move s.stage i idle }
      → Step s s'
  stray_release :
      (i : ℕ)
      → s.stage i ≡ idle
      → s' ≡ record { file = s.file; stage = move s.stage i straying }
      → Step s s'
  stray_unlink :
      (i : ℕ)
      → s.stage i ≡ straying
      → s' ≡ record { file = false; stage = move s.stage i idle }
      → Step s s'

pub data Reach (s : System) : System → Type 0 where
  here : Reach s s
  next : {a b : System} → Reach s a → Step a b → Reach s b

abbrev pub is_stray : {s s' : System} → Step s s' → Bool
is_stray (create i at free e) = false
is_stray (refuse i at there e) = false
is_stray (set_flag i at e) = false
is_stray (fail_write i at e) = false
is_stray (drop_flag i at e) = false
is_stray (unlink i at e) = false
is_stray (stray_release i at e) = true
is_stray (stray_unlink i at e) = true

-- `release` is called by an instance that holds the lock only, as `__exit__` and `__del__` do.
abbrev pub IsDisciplined : {s s' : System} → Reach s s' → Type 0
IsDisciplined here = Unit
IsDisciplined (next r st) = (is_stray st ≡ false) × IsDisciplined r
