-- ===== src/Executor/ProcessTree.antt =====
-- client/proc_linux.go and client/proc_windows.go: how a process is started in a group of its own, and
-- how it is killed with all of that group.
use claude_distant.Common.{
  Bool, List, Option, [], if◌then◌else◌, none, some, true, ℕ, ◌%◌, ◌+◌, ◌/◌, ◌==◌, ◌∷◌,
}
use claude_distant.Regex.{run}
use claude_distant.Text.{Text, codes}
use claude_distant.Text.Decimal.{decimal}

-- `cmd.SysProcAttr`, as far as the client sets it.
pub record SysProcAttr : Type 0 where
  pub setpgid : Bool

-- `startProcess`: what the command is started with; `start` is `cmd.Start`, with its error.
unfoldable pub start_process {ℓ} : {A : Type ℓ} → (SysProcAttr → A) → Option SysProcAttr → A
start_process start none = start (record { setpgid = true })
start_process start (some attr) = start (record attr { setpgid = true })

pub data Kill : Type 0 where
  kill_group kill_process : ℕ → Kill

-- Behind `syscall.Getpgid`.
unfoldable pub kill_by_group : ℕ → Option ℕ → List Kill
kill_by_group pid (some pgid) = kill_group pgid ∷ []
kill_by_group pid none = kill_process pid ∷ []

-- `killProcessTree`, by the process's number; there is none before the start.
unfoldable pub kill_process_tree : (ℕ → Option ℕ) → Option ℕ → List Kill
unfolding kill_by_group
kill_process_tree getpgid none = []
kill_process_tree getpgid (some pid) = kill_by_group pid (getpgid pid)

-- The same on Windows. `cmd.SysProcAttr` by its creation flags.
pub record WindowsAttr : Type 0 where
  pub creation_flags : ℕ

-- `CREATE_NEW_PROCESS_GROUP`
abbrev pub create_new_process_group : ℕ
create_new_process_group = 512

-- `flags | CREATE_NEW_PROCESS_GROUP`: the ninth bit is set, if it is not.
unfoldable pub with_new_group : ℕ → ℕ
with_new_group flags =
    if flags / create_new_process_group % 2 == 1 then flags else flags + create_new_process_group

-- `startProcess` of client/proc_windows.go
unfoldable pub start_process_windows {ℓ} : {A : Type ℓ} → (WindowsAttr → A) → Option WindowsAttr → A
unfolding with_new_group
start_process_windows start none = start (record { creation_flags = with_new_group 0 })
start_process_windows start (some attr) =
    start (record { creation_flags = with_new_group attr.creation_flags })

pub data WindowsKill : Type 0 where
  ran_command : List Text → WindowsKill
  killed_one : ℕ → WindowsKill

-- Behind the run of taskkill, by its error.
unfoldable pub kill_unless_done : ℕ → Option Text → List WindowsKill
kill_unless_done pid none = []
kill_unless_done pid (some err) = killed_one pid ∷ []

abbrev pub taskkill : ℕ → List Text
taskkill pid = codes "taskkill" ∷ codes "/PID" ∷ decimal pid ∷ codes "/T" ∷ codes "/F" ∷ []

-- `killProcessTree` of client/proc_windows.go; `run` is `killer.Run`.
unfoldable pub kill_process_tree_windows : (List Text → Option Text) → Option ℕ → List WindowsKill
unfolding kill_unless_done
kill_process_tree_windows run none = []
kill_process_tree_windows run (some pid) =
    ran_command (taskkill pid) ∷ kill_unless_done pid (run (taskkill pid))
