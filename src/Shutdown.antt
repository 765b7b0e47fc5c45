-- ===== src/Shutdown.antt =====
-- The end of the client: client/lifecycle.go, client/secrets.go, client/workspace.go, the removal of
-- the binary in client/cleanup_binary.go, and the end of `main` in client/main.go.
pub mod Clean
use claude_distant.Base64.{Bytes}
use claude_distant.Common.{
  Bool, List, Option, [], false, if◌then◌else◌, inl, inr, none, some, true, ℕ, ◌++◌, ◌∷◌, ◌⊎◌,
}
use claude_distant.Text.{Text, codes, equal}
use claude_distant.Text.Decimal.{decimal}

-- `SecretBytes`: the array that `data` was made with, and whether `data` still refers to it.
pub record SecretBytes : Type 0 where
  pub array : Bytes
  pub held : Bool

-- `NewSecret`
unfoldable pub new_secret : Bytes → SecretBytes
new_secret s = record { array = s; held = true }

-- `SecretBytes.String`
unfoldable pub secret_text : Option SecretBytes → Bytes
secret_text none = []
secret_text (some s) = if s.held then s.array else []

-- `ZeroBytes`
unfoldable pub zero_bytes : Bytes → Bytes
zero_bytes [] = []
zero_bytes (x ∷ bytes) = 0 ∷ zero_bytes bytes

-- `SecretBytes.Zero`
unfoldable pub zero_secret : SecretBytes → SecretBytes
unfolding zero_bytes
zero_secret s = record { array = if s.held then zero_bytes s.array else s.array; held = false }

-- `Workspace`; its directory is empty once it is removed.
pub record Workspace : Type 0 where
  pub ws_dir : Text

-- What the end of the client does. A call of `os.RemoveAll` has its error beside it.
pub data ShutdownEffect : Type 0 where
  removed_tree : Text → Option Text → ShutdownEffect
  unlinked : Text → ShutdownEffect
  wrote_script : Text → Text → ShutdownEffect
  started_script : Text → ShutdownEffect
  noted : Text → ShutdownEffect

-- What the end of the client does not compute itself: the error of `os.RemoveAll`, `os.Executable`, `filepath.EvalSymlinks`,
-- where scripts go, the process's number, and the errors of the calls.
pub record RemoveOs : Type 0 where
  pub goos : Text
  pub executable : Text ⊎ Text
  pub resolved_link : Text → Option Text
  pub temp_path : Text → Text
  pub pid : ℕ
  pub remove_all_error : Text → Option Text
  pub remove_error : Option Text
  pub write_error : Option Text
  pub start_error : Option Text

-- `Workspace.Cleanup`, by the directory: what it did, and its error, which `main` does not look at.
unfoldable pub cleanup_dir : RemoveOs → Text → List ShutdownEffect × Option Text
cleanup_dir os [] = ([], none)
cleanup_dir os (c ∷ d) =
    let err = os.remove_all_error (c ∷ d) in (removed_tree (c ∷ d) err ∷ [], err)

unfoldable pub cleanup : RemoveOs → Workspace → (List ShutdownEffect × Option Text) × Workspace
unfolding cleanup_dir
cleanup os w = (cleanup_dir os w.ws_dir, record w { ws_dir = [] })

-- `resolveExecutablePath`
unfoldable pub resolve_link : Option Text → Text → Text
resolve_link none p = p
resolve_link (some resolved) p = resolved

unfoldable pub resolve_executable_path : RemoveOs → Text ⊎ Text
unfolding resolve_link
resolve_executable_path os = elim os.executable [
  | inl err ↦ inl (codes "résolution du chemin de l'exécutable: " ++ err)
  | inr p ↦ inr (resolve_link (os.resolved_link p) p)
]

-- `buildWindowsCleanupScript`
unfoldable pub build_windows_cleanup_script : Text → ℕ → Text
build_windows_cleanup_script exe_path pid =
    let pid_text = decimal pid in
    codes "@echo off\r\n"
    ++ (codes ":wait\r\n"
        ++ (codes "tasklist /FI \"PID eq "
            ++ (pid_text
                ++ (codes "\" 2>NUL | find \""
                    ++ (pid_text
                        ++ (codes "\" >NUL\r\n"
                            ++ (codes "if not errorlevel 1 (\r\n"
                                ++ (codes "  ping -n 2 127.0.0.1 >NUL\r\n"
                                    ++ (codes "  goto wait\r\n"
                                        ++ (codes ")\r\n"
                                            ++ (codes "del /f /q \""
                                                ++ (exe_path
                                                    ++ (codes "\" >NUL 2>&1\r\n"
                                                        ++ codes
                                                            "del /f /q \"%~f0\"\r\n")))))))))))))

-- `removeBinaryWindows`, by the errors of the write and of the start: what it did, and its error.
unfoldable pub run_script :
    Text → Text → Option Text → Option Text → List ShutdownEffect × Option Text
run_script path script (some err) start =
    ([], some (codes "écriture du script de nettoyage: " ++ err))
run_script path script none (some err) =
    (wrote_script path script ∷ [], some (codes "lancement du script de nettoyage: " ++ err))
run_script path script none none = (wrote_script path script ∷ started_script path ∷ [], none)

unfoldable pub remove_binary_windows : RemoveOs → Text → List ShutdownEffect × Option Text
unfolding run_script build_windows_cleanup_script
remove_binary_windows os exe_path =
    run_script (os.temp_path (codes "claude-distant-cleanup-" ++ (decimal os.pid ++ codes ".cmd")))
      (build_windows_cleanup_script exe_path os.pid) os.write_error os.start_error

-- `os.Remove`, by its error.
unfoldable pub unlink : Text → Option Text → List ShutdownEffect × Option Text
unlink path none = (unlinked path ∷ [], none)
unlink path (some err) = ([], some err)

-- `removeBinary`
unfoldable pub remove_binary : RemoveOs → Text → List ShutdownEffect × Option Text
unfolding remove_binary_windows unlink
remove_binary os exe_path =
    if equal os.goos (codes "windows")
    then remove_binary_windows os exe_path
    else unlink exe_path os.remove_error

-- The report of `removeOwnBinary`.
unfoldable pub report_removal : List ShutdownEffect × Option Text → List ShutdownEffect
report_removal (es, none) = es ++ noted (codes "Nettoyage: binaire supprimé.") ∷ []
report_removal (es, some err) =
    es ++ noted (codes "claude-distant-client: remove-on-exit: suppression échouée: " ++ err) ∷ []

-- `removeOwnBinary`
unfoldable pub remove_resolved : RemoveOs → Text ⊎ Text → List ShutdownEffect
unfolding report_removal remove_binary
remove_resolved os (inl err) =
    noted (codes "claude-distant-client: remove-on-exit: chemin introuvable: " ++ err) ∷ []
remove_resolved os (inr path) = report_removal (remove_binary os path)

unfoldable pub remove_own_binary : RemoveOs → List ShutdownEffect
unfolding remove_resolved resolve_executable_path
remove_own_binary os = remove_resolved os (resolve_executable_path os)

-- What `main` holds while it runs.
pub record Client : Type 0 where
  pub workspace : Workspace
  pub token : SecretBytes
  pub removes_binary : Bool

-- The function that `main` hands to `RunGuarded` as the cleanup.
unfoldable pub clean_client : RemoveOs → Client → List ShutdownEffect × Client
unfolding cleanup zero_secret remove_own_binary
clean_client os c =
    let ((es, err), w) = cleanup os c.workspace in
    (
      es ++ (if c.removes_binary then remove_own_binary os else []),
      record c { workspace = w; token = zero_secret c.token },
    )

-- How the guarded function ends: no error, the error of a cancelled context, another one, or a panic.
pub data RunEnd : Type 0 where
  returned_nil returned_canceled : RunEnd
  returned_error panicked : Text → RunEnd

-- How the process ends.
pub data Exit : Type 0 where
  exit_clean exit_failure : Exit
  exit_panic : Text → Exit

-- The end of `main` behind `RunGuarded`, which raises a panic again.
unfoldable pub exit_of : RunEnd → Exit
exit_of returned_nil = exit_clean
exit_of returned_canceled = exit_clean
exit_of (returned_error err) = exit_failure
exit_of (panicked v) = exit_panic v

-- `RunGuarded`: the cleanup runs in a deferred function, so however the function ends.
unfoldable pub run_guarded {ℓ} :
    {S : Type ℓ} → (S → List ShutdownEffect × S) → RunEnd → S → (List ShutdownEffect × S) × Exit
unfolding exit_of
run_guarded clean end s = (clean s, exit_of end)

-- The end of `main`.
unfoldable pub main_end : RemoveOs → RunEnd → Client → (List ShutdownEffect × Client) × Exit
unfolding run_guarded clean_client
main_end os = run_guarded (clean_client os)
