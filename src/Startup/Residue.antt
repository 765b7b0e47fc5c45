-- ===== src/Startup/Residue.antt =====
-- What a whole run of the client leaves on the machine: `main` of client/main.go.
use claude_distant.Common.{
  Bool, List, Sum-cases, [], ap, append-nil, append_assoc, false, inl, inr, is_empty, map, none,
  refl, some, sym, true, ◌++◌, ◌∙◌, ◌∷◌, ◌≡◌, ◌⊎◌,
}
use claude_distant.Policy.{Policy, policy_auto, policy_confirm, policy_deny}
use claude_distant.Session.Config.{Config}
use claude_distant.Shutdown.{
  RemoveOs, RunEnd, ShutdownEffect, main_end, noted, panicked, removed_tree, returned_canceled,
  returned_error, returned_nil, started_script, unlinked, wrote_script,
}
use claude_distant.Shutdown.Clean.{main_end-gone, started_client, trees_gone}
use claude_distant.Startup.{
  MainEffect, MainExit, MainOs, banner, exit_behind, exit_usage, farewell, made_dir, main,
  new_workspace, parse_config, run_client, run_configured, shut_down,
}
use claude_distant.Text.{Text}

abbrev collect : (MainEffect → List Text) → List MainEffect → List Text
collect g [] = []
collect g (x ∷ es) = g x ++ collect g es

-- The scratch directories that a run made, and those that it removed with what is in them.
abbrev made_of : MainEffect → List Text
made_of (made_dir d) = d ∷ []
made_of _ = []

abbrev removed_of : MainEffect → List Text
removed_of (shut_down (removed_tree d none)) = d ∷ []
removed_of _ = []

abbrev pub made_dirs : List MainEffect → List Text
made_dirs = collect made_of

abbrev pub removed_dirs : List MainEffect → List Text
removed_dirs = collect removed_of

collect-append :
    (g : MainEffect → List Text) (xs ys : List MainEffect)
    → collect g (xs ++ ys) ≡ collect g xs ++ collect g ys
collect-append g [] ys = refl
collect-append g (x ∷ xs) ys =
    ap (◌++◌ (g x)) (collect-append g xs ys)
    ∙ sym (append_assoc (g x) (collect g xs) (collect g ys))

banner_quiet :
    (goos goarch : Text) (policy : Policy)
    → (made_dirs (banner goos goarch policy) ≡ []) × (removed_dirs (banner goos goarch policy) ≡ [])
unfolding banner
banner_quiet goos goarch policy_auto = (refl, refl)
banner_quiet goos goarch policy_confirm = (refl, refl)
banner_quiet goos goarch policy_deny = (refl, refl)

farewell_quiet :
    (end : RunEnd) → (made_dirs (farewell end) ≡ []) × (removed_dirs (farewell end) ≡ [])
unfolding farewell
farewell_quiet returned_nil = (refl, refl)
farewell_quiet returned_canceled = (refl, refl)
farewell_quiet (returned_error err) = (refl, refl)
farewell_quiet (panicked v) = (refl, refl)

made_dirs-shut_down : (es : List ShutdownEffect) → made_dirs (map shut_down es) ≡ []
made_dirs-shut_down [] = refl
made_dirs-shut_down (e ∷ es) = made_dirs-shut_down es

removed_dirs-shut_down :
    (es : List ShutdownEffect) → removed_dirs (map shut_down es) ≡ trees_gone es
removed_dirs-shut_down [] = refl
removed_dirs-shut_down (removed_tree d none ∷ es) = ap (◌∷◌ d) (removed_dirs-shut_down es)
removed_dirs-shut_down (removed_tree d (some err) ∷ es) = removed_dirs-shut_down es
removed_dirs-shut_down (unlinked t ∷ es) = removed_dirs-shut_down es
removed_dirs-shut_down (wrote_script t u ∷ es) = removed_dirs-shut_down es
removed_dirs-shut_down (started_script t ∷ es) = removed_dirs-shut_down es
removed_dirs-shut_down (noted t ∷ es) = removed_dirs-shut_down es

-- The part of a run behind the workspace.
behind_workspace :
    (goos goarch : Text) (policy : Policy) (end : RunEnd) (down : List ShutdownEffect)
    → let es = banner goos goarch policy ++ (map shut_down down ++ farewell end) in
      (made_dirs es ≡ []) × (removed_dirs es ≡ trees_gone down)
behind_workspace goos goarch policy end down =
    let (no_dir, none_removed) = banner_quiet goos goarch policy in
    let (no_dir', none_removed') = farewell_quiet end in
    (
      collect-append made_of (banner goos goarch policy) (map shut_down down ++ farewell end)
          ∙ rw no_dir (
              collect-append made_of (map shut_down down) (farewell end)
              ∙ rw (made_dirs-shut_down down) no_dir'),
      collect-append removed_of (banner goos goarch policy) (map shut_down down ++ farewell end)
          ∙ rw none_removed (
              collect-append removed_of (map shut_down down) (farewell end)
              ∙ rw none_removed' (append-nil _ ∙ removed_dirs-shut_down down)),
    )

-- Whether a run got as far as a session.
abbrev pub reached_session : MainExit → Bool
reached_session exit_usage = false
reached_session (exit_behind exit) = true

-- A run that made scratch directories removed each of them, and one that reached no session made none.
pub record IsResidueFree (r : List MainEffect × MainExit) : Type 0 where
  pub balanced : made_dirs r.0 ≡ removed_dirs r.0
  pub untouched : reached_session r.1 ≡ false → made_dirs r.0 ≡ []

-- What the operating system gives: a scratch directory with a name, which can be removed.
abbrev pub NamesDir : RemoveOs → Text ⊎ Text → Type 0
NamesDir os (inl err) = Unit
NamesDir os (inr d) = (is_empty d ≡ false) × (os.remove_all_error d ≡ none)

run_configured-IsResidueFree :
    (os : MainOs) (end : RunEnd) (made : Text ⊎ Text) (cfg : Config)
    → NamesDir os.remove_os made
    → IsResidueFree (run_client os end cfg (new_workspace made))
unfolding run_client new_workspace
run_configured-IsResidueFree os end (inl err) cfg h = record {
  balanced = refl;
  untouched = λ e. refl;
}
run_configured-IsResidueFree os end (inr d) cfg h =
    let gone =
      main_end-gone os.remove_os end d (os.bytes_of cfg.token) cfg.remove_on_exit h.0 h.1 in
    let (no_dir, removed) =
      behind_workspace os.goos os.goarch cfg.policy end
        (main_end os.remove_os end
          (started_client d (os.bytes_of cfg.token) cfg.remove_on_exit)).0.0 in
    record { balanced = ap (◌∷◌ d) no_dir ∙ sym (removed ∙ gone); untouched = λ e. cc }

-- The way of `main` leaves no scratch directory: whatever the arguments, the environment and the machine,
-- and however the function that it guards ends, a panic of that function included, the scratch
-- directories that the run makes are exactly those that it removes, if `os.RemoveAll` succeeds on them;
-- and a run that is refused before a session makes none. A panic of another goroutine ends the process
-- on no such way.
pub main-IsResidueFree :
    (os : MainOs) (args : List Text) (end : RunEnd)
    → NamesDir os.remove_os os.mkdir_temp
    → IsResidueFree (main os args end)
unfolding main run_configured
main-IsResidueFree os args end h =
    elim (Sum-cases (parse_config os.build os.parse_flags args os.getenv)) [
      | inl (err, q) ↦ rw q (record { balanced = refl; untouched = λ e. refl })
      | inr (cfg, q) ↦ rw q (run_configured-IsResidueFree os end os.mkdir_temp cfg h)
    ]
