-- ===== src/Process.antt =====
-- owtf/utils/process.py and `_signal_children` of owtf/managers/worker.py: signals to a process
-- and its children. psutil is a parameter: the processes below a process, which processes are gone,
-- and which of those that were waited for are still alive.

use owtf.Base.{
  ℕ, ◌≡◌, refl, inl, inr, Bool, true, false, not, Option, none, some, List, [], ◌∷◌, ◌++◌,
  append-nil, if◌then◌else◌, any, Bool-cases, Option-cases,
}

pub data Signal : Type 0 where
  sigint sigstop sigcont sigkill : Signal

-- A signal sent to a pid.
pub record Sent : Type 0 where
  pub pid : ℕ
  pub signal : Signal

pub record Host : Type 0 where
  -- psutil.Process(pid).children(recursive=True), `none` for a NoSuchProcess
  pub children : ℕ → Option (List ℕ)
  -- send_signal raises a NoSuchProcess
  pub is_gone : ℕ → Bool
  -- the second part of psutil.wait_procs
  pub alive : List ℕ → List ℕ

-- The outcome of `os.kill(pid, 0)`.
pub data KillResult : Type 0 where
  success : KillResult
  esrch : KillResult
  eperm : KillResult
  other : KillResult

-- `none`: the OSError is raised again.
unfoldable pub check_pid : KillResult → Option Bool
check_pid success = some true
check_pid esrch = some false
check_pid eperm = some true
check_pid other = none

abbrev is_empty : List ℕ → Bool
is_empty [] = true
is_empty (_ ∷ _) = false

abbrev kill_all : List ℕ → List Sent
kill_all [] = []
kill_all (p ∷ ps) = record { pid = p; signal = sigkill } ∷ kill_all ps

-- `if not alive: for pid in alive: pid.kill()`
abbrev kill_survivors : List ℕ → List Sent
kill_survivors alive = if is_empty alive then kill_all alive else []

kill_survivors_none : (alive : List ℕ) → kill_survivors alive ≡ []
kill_survivors_none [] = refl
kill_survivors_none (p ∷ ps) = refl

-- The signal to each process in order.
abbrev pub signals : Signal → List ℕ → List Sent
signals sig [] = []
signals sig (p ∷ ps) = record { pid = p; signal = sig } ∷ signals sig ps

module _ (host : Host) where
  -- `for pid in children: pid.send_signal(psignal)`: does the loop return, and what was sent
  unfoldable pub send_all : Signal → List ℕ → Bool × List Sent
  send_all sig [] = (true, [])
  send_all sig (p ∷ ps) =
      let (returned, later) = send_all sig ps in
      if host.is_gone p then (false, []) else (returned, record { pid = p; signal = sig } ∷ later)

  -- The signals, and the killing that follows where they return.
  abbrev pub send_and_wait : Signal → List ℕ → Bool × List Sent
  send_and_wait sig ps =
      let (returned, all) = send_all sig ps in
      (returned, if returned then all ++ kill_survivors (host.alive ps) else all)

  unfoldable pub signal_process : ℕ → Signal → Bool × List Sent
  unfolding send_all
  signal_process pid sig = elim (host.children pid) [
    | none ↦ (false, [])
    | some children ↦ send_and_wait sig (children ++ pid ∷ [])
  ]

  unfoldable pub signal_children : ℕ → Signal → Bool × List Sent
  unfolding send_all
  signal_children pid sig = elim (host.children pid) [
    | none ↦ (false, [])
    | some children ↦ send_and_wait sig children
  ]

  -- The processes before the first that is gone.
  abbrev pub until_gone : List ℕ → List ℕ
  until_gone [] = []
  until_gone (p ∷ ps) = let rest = until_gone ps in if host.is_gone p then [] else p ∷ rest

  send_all_lem :
      (sig : Signal) (ps : List ℕ)
      → send_all sig ps ≡ (not (any host.is_gone ps), signals sig (until_gone ps))
  unfolding send_all
  send_all_lem sig [] = refl
  send_all_lem sig (p ∷ ps) = elim (Bool-cases (host.is_gone p)) [
    | inl h ↦ rw (send_all, h) refl
    | inr h ↦ rw (send_all, h, send_all_lem sig ps) refl
  ]

  send_and_wait_lem :
      (sig : Signal) (ps : List ℕ)
      → send_and_wait sig ps ≡ (not (any host.is_gone ps), signals sig (until_gone ps))
  send_and_wait_lem sig ps = elim (Bool-cases (any host.is_gone ps)) [
    | inl h ↦ rw (send_and_wait, send_all_lem sig ps, h) refl
    | inr h ↦
        rw (send_and_wait, send_all_lem sig ps, h, kill_survivors_none (host.alive ps), append-nil)
          refl
  ]

  -- A process that is not there is sent nothing, and the call raises. Otherwise exactly the given signal
  -- is sent, once to each child in order and last to the process itself, up to the first that is gone by
  -- then; the call returns just when none is. No survivor is killed.
  pub signal_process_lem :
      (pid : ℕ) (sig : Signal)
      → signal_process pid sig ≡ elim (host.children pid) [
        | none ↦ (false, [])
        | some children ↦ (
          not (any host.is_gone (children ++ pid ∷ [])),
          signals sig (until_gone (children ++ pid ∷ [])),
        )
      ]
  unfolding signal_process
  signal_process_lem pid sig = elim (Option-cases (host.children pid)) [
    | inl h ↦ rw (signal_process, h) refl
    | inr (children, h) ↦ rw (signal_process, h) (send_and_wait_lem sig (children ++ pid ∷ []))
  ]
