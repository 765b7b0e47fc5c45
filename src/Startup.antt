-- ===== src/Startup.antt =====
-- `main` of client/main.go from its first line to its last, `NewWorkspace`, `Dir` and `Path` of
-- client/workspace.go, and `runUI` of client/gui_stub.go.
pub mod Residue
use claude_distant.Base64.{Bytes}
use claude_distant.Common.{List, Option, [], inl, inr, map, none, some, ℕ, ◌++◌, ◌∷◌, ◌⊎◌}
use claude_distant.Gui.Window.{build}
use claude_distant.Policy.{Policy, policy_auto, policy_confirm, policy_deny, policy_name}
use claude_distant.Session.Config.{
  BuildDefaults, Config, ConfigError, Flags, parse_config_with_defaults,
}
use claude_distant.Session.Reconnect.{
  Round, context_cancelled, killed_by_relay, run_forever, still_running,
}
use claude_distant.Shutdown.{
  Client, Exit, RemoveOs, RunEnd, ShutdownEffect, Workspace, main_end, new_secret, panicked,
  returned_canceled, returned_error, returned_nil,
}
use claude_distant.Text.{Text, codes}

-- What `main` does: what it prints, to both outputs, the scratch directory, and the shutdown.
pub data MainEffect : Type 0 where
  printed printed_error : Text → MainEffect
  refused_config : ConfigError → MainEffect
  made_dir : Text → MainEffect
  set_mode : Text → ℕ → MainEffect
  shut_down : ShutdownEffect → MainEffect

-- How the process ends: `os.Exit(2)` before the session, or as behind it.
pub data MainExit : Type 0 where
  exit_usage : MainExit
  exit_behind : Exit → MainExit

-- `NewWorkspace`, by what `os.MkdirTemp` gives; the error of `os.Chmod` is dropped.
unfoldable pub new_workspace : Text ⊎ Text → List MainEffect × (Text ⊎ Workspace)
new_workspace (inl err) = ([], inl (codes "création du workspace temporaire: " ++ err))
new_workspace (inr d) = (made_dir d ∷ set_mode d 448 ∷ [], inr (record { ws_dir = d }))

-- `Workspace.Dir`, `Workspace.Path`; `join` is `filepath.Join`.
unfoldable pub workspace_dir : Option Workspace → Text
workspace_dir none = []
workspace_dir (some w) = w.ws_dir

unfoldable pub workspace_path : (Text → Text → Text) → Option Workspace → Text → Text
workspace_path join none name = name
workspace_path join (some w) name = join w.ws_dir name

-- `parseConfig`: the defaults are the variables of client/buildconfig.go, which the linker sets.
unfoldable pub parse_config :
    BuildDefaults → (List Text → Text ⊎ Flags) → List Text → (Text → Text) → ConfigError ⊎ Config
parse_config build parse_flags args getenv =
    parse_config_with_defaults parse_flags args getenv build

abbrev pub client_version : Text
client_version = codes "0.3.0"

abbrev pub auto_warning : Policy → List MainEffect
auto_warning policy_auto =
    printed (
      codes
        "Mode automatique : les commandes et opérations fichier du harnais s'exécutent SANS confirmation.")
    ∷ printed (
        codes
          "Pour valider chaque opération sensible : --policy confirm (ou CLAUDE_DISTANT_POLICY=confirm).")
    ∷ []
auto_warning policy_confirm = []
auto_warning policy_deny = []

-- What the operator reads at the start.
unfoldable pub banner : Text → Text → Policy → List MainEffect
unfolding policy_name
banner goos goarch policy =
    printed (
      codes "claude-distant client v"
      ++ (client_version
          ++ (codes " ("
              ++ (goos ++ (codes "/" ++ (goarch ++ (codes ") — policy=" ++ policy_name policy)))))))
    ∷ (auto_warning policy ++ printed (codes "Connexion au relay...") ∷ [])

-- The last lines, by how the guarded function ended; a panic goes on.
unfoldable pub farewell : RunEnd → List MainEffect
farewell returned_nil = printed (codes "Arrêt propre du client.") ∷ []
farewell returned_canceled = printed (codes "Arrêt propre du client.") ∷ []
farewell (returned_error err) = printed_error (codes "claude-distant-client: arrêt: " ++ err) ∷ []
farewell (panicked v) = []

-- `runUI` without a window is `runForever`; a loop that still runs has no end yet.
unfoldable pub run_ui : List Round → Option RunEnd
run_ui rounds = elim (run_forever rounds).1 [
  | context_cancelled ↦ some returned_canceled
  | killed_by_relay ↦ some (
      returned_error
        (codes "session terminée par le relay (kill-switch) : arrêt du client, pas de reconnexion"))
  | still_running ↦ none
]

-- What `main` needs of the machine: its names, the two environments, `os.MkdirTemp`, the bytes of a
-- text, and what the removal of the binary needs.
pub record MainOs : Type 0 where
  pub goos : Text
  pub goarch : Text
  pub build : BuildDefaults
  pub parse_flags : List Text → Text ⊎ Flags
  pub getenv : Text → Text
  pub mkdir_temp : Text ⊎ Text
  pub bytes_of : Text → Bytes
  pub remove_os : RemoveOs

-- Behind the workspace.
unfoldable pub run_client :
    MainOs → RunEnd → Config → List MainEffect × (Text ⊎ Workspace) → List MainEffect × MainExit
unfolding banner farewell main_end new_secret
run_client os end cfg (es, inl err) =
    (es ++ printed_error (codes "claude-distant-client: " ++ err) ∷ [], exit_usage)
run_client os end cfg (es, inr ws) =
    let client : Client = record {
      workspace = ws;
      token = new_secret (os.bytes_of cfg.token);
      removes_binary = cfg.remove_on_exit;
    } in
    let ((down, client'), exit) = main_end os.remove_os end client in
    (
      es ++ (banner os.goos os.goarch cfg.policy ++ (map shut_down down ++ farewell end)),
      exit_behind exit,
    )

-- Behind the configuration.
unfoldable pub run_configured : MainOs → RunEnd → ConfigError ⊎ Config → List MainEffect × MainExit
unfolding run_client new_workspace
run_configured os end (inl err) = (refused_config err ∷ [], exit_usage)
run_configured os end (inr cfg) = run_client os end cfg (new_workspace os.mkdir_temp)

-- `main`, by how `runUI` ends once it is called.
unfoldable pub main : MainOs → List Text → RunEnd → List MainEffect × MainExit
unfolding run_configured parse_config
main os args end = run_configured os end (parse_config os.build os.parse_flags args os.getenv)
