-- ===== src/Shutdown/Clean.antt =====
-- What the end of the client leaves behind.
use claude_distant.Base64.{Bytes}
use claude_distant.Common.{
  All, Bool, Bool-cases, List, Option, [], ap, false, if◌then◌else◌, inl, inr, is_empty, length,
  none, refl, some, suc, true, ◌++◌, ◌∙◌, ◌∷◌, ◌≡◌, ◌⊎◌,
}
use claude_distant.Shutdown.{
  Client, RemoveOs, RunEnd, ShutdownEffect, clean_client, cleanup, cleanup_dir, main_end,
  new_secret, noted, remove_binary, remove_binary_windows, remove_own_binary, remove_resolved,
  removed_tree, report_removal, resolve_executable_path, run_guarded, run_script, secret_text,
  started_script, unlink, unlinked, wrote_script, zero_bytes, zero_secret,
}
use claude_distant.Text.{Text, codes, equal}

abbrev pub AllZero : Bytes → Type 0
AllZero = All (λ x. x ≡ 0)

zero_bytes-AllZero : (bytes : Bytes) → AllZero (zero_bytes bytes)
unfolding zero_bytes
zero_bytes-AllZero [] = tt
zero_bytes-AllZero (x ∷ bytes) = (refl, zero_bytes-AllZero bytes)

length-zero_bytes : (bytes : Bytes) → length (zero_bytes bytes) ≡ length bytes
unfolding zero_bytes
length-zero_bytes [] = refl
length-zero_bytes (x ∷ bytes) = ap suc (length-zero_bytes bytes)

-- The directories for which `os.RemoveAll` was called, whatever it returned.
abbrev pub removed_trees : List ShutdownEffect → List Text
removed_trees [] = []
removed_trees (removed_tree d err ∷ es) = d ∷ removed_trees es
removed_trees (_ ∷ es) = removed_trees es

-- The client is gone: the token's own memory is zero, as long as it was, and no longer readable; the
-- removal of the scratch directory was called for once, and its path is forgotten; and nothing else was
-- done unless the binary was to be removed.
pub record IsClean (os : RemoveOs) (d token : Text) (removes_binary : Bool) (c : Client)
    (es : List ShutdownEffect) : Type 0 where
  pub unreadable : secret_text (some c.token) ≡ []
  pub zeroed : AllZero c.token.array
  pub size : length c.token.array ≡ length token
  pub removed : removed_trees es ≡ d ∷ []
  pub forgotten : c.workspace.ws_dir ≡ []
  pub kept : removes_binary ≡ false → es ≡ removed_tree d (os.remove_all_error d) ∷ []

removed_trees-append :
    (xs ys : List ShutdownEffect) → removed_trees (xs ++ ys) ≡ removed_trees xs ++ removed_trees ys
removed_trees-append [] ys = refl
removed_trees-append (removed_tree d err ∷ xs) ys = ap (◌∷◌ d) (removed_trees-append xs ys)
removed_trees-append (unlinked p ∷ xs) ys = removed_trees-append xs ys
removed_trees-append (wrote_script p s ∷ xs) ys = removed_trees-append xs ys
removed_trees-append (started_script p ∷ xs) ys = removed_trees-append xs ys
removed_trees-append (noted t ∷ xs) ys = removed_trees-append xs ys

run_script-trees :
    (path script : Text) (w s : Option Text) → removed_trees (run_script path script w s).0 ≡ []
unfolding run_script
run_script-trees path script none none = refl
run_script-trees path script none (some err) = refl
run_script-trees path script (some err) s = refl

unlink-trees : (path : Text) (e : Option Text) → removed_trees (unlink path e).0 ≡ []
unfolding unlink
unlink-trees path none = refl
unlink-trees path (some err) = refl

remove_binary-trees : (os : RemoveOs) (path : Text) → removed_trees (remove_binary os path).0 ≡ []
unfolding remove_binary remove_binary_windows
remove_binary-trees os path = elim (Bool-cases (equal os.goos (codes "windows"))) [
  | inl windows ↦ rw (windows, remove_binary) (run_script-trees _ _ os.write_error os.start_error)
  | inr other ↦ rw (other, remove_binary) (unlink-trees path os.remove_error)
]

report_removal-trees :
    (r : List ShutdownEffect × Option Text)
    → removed_trees r.0 ≡ []
    → removed_trees (report_removal r) ≡ []
unfolding report_removal
report_removal-trees (es, none) h = removed_trees-append es _ ∙ ap (λ (x : List Text). x ++ []) h
report_removal-trees (es, some err) h =
    removed_trees-append es _ ∙ ap (λ (x : List Text). x ++ []) h

remove_resolved-trees :
    (os : RemoveOs) (p : Text ⊎ Text) → removed_trees (remove_resolved os p) ≡ []
unfolding remove_resolved
remove_resolved-trees os (inl err) = refl
remove_resolved-trees os (inr path) =
    report_removal-trees (remove_binary os path) (remove_binary-trees os path)

choice-trees :
    (b : Bool) (os : RemoveOs) → removed_trees (if b then remove_own_binary os else []) ≡ []
unfolding remove_own_binary
choice-trees true os = remove_resolved-trees os (resolve_executable_path os)
choice-trees false os = refl

-- The client that `main` starts, with its scratch directory and its token.
abbrev pub started_client : Text → Text → Bool → Client
started_client d token removes_binary = record {
  workspace = record { ws_dir = d };
  token = new_secret token;
  removes_binary = removes_binary;
}

-- However the guarded function ends, by a return, an error, a cancelled context or a panic, the removal
-- of the scratch directory is called for exactly once, the token's own memory is zero and cannot be read
-- again, and nothing more is done unless the removal of the binary was asked for.
pub main_end-IsClean :
    (os : RemoveOs) (end : RunEnd) (d token : Text) (removes_binary : Bool)
    → is_empty d ≡ false
    → let r = main_end os end (started_client d token removes_binary) in
      IsClean os d token removes_binary r.0.1 r.0.0
unfolding main_end run_guarded clean_client cleanup cleanup_dir zero_secret new_secret secret_text
main_end-IsClean os end [] token removes_binary h = cc
main_end-IsClean os end (x ∷ d) token removes_binary h = record {
  unreadable = refl;
  zeroed = zero_bytes-AllZero token;
  size = length-zero_bytes token;
  removed = ap (◌∷◌ (x ∷ d)) (choice-trees removes_binary os);
  forgotten = refl;
  kept = λ no.
      ap
        (λ b.
          removed_tree (x ∷ d) (os.remove_all_error (x ∷ d))
          ∷ (if b then remove_own_binary os else []))
        no;
}

-- The directories that are gone: `os.RemoveAll` was called for them and returned no error.
abbrev pub trees_gone : List ShutdownEffect → List Text
trees_gone [] = []
trees_gone (removed_tree d none ∷ es) = d ∷ trees_gone es
trees_gone (removed_tree d (some err) ∷ es) = trees_gone es
trees_gone (unlinked p ∷ es) = trees_gone es
trees_gone (wrote_script p s ∷ es) = trees_gone es
trees_gone (started_script p ∷ es) = trees_gone es
trees_gone (noted t ∷ es) = trees_gone es

none_called : (es : List ShutdownEffect) → removed_trees es ≡ [] → trees_gone es ≡ []
none_called [] h = refl
none_called (removed_tree d err ∷ es) h = cc
none_called (unlinked p ∷ es) h = none_called es h
none_called (wrote_script p s ∷ es) h = none_called es h
none_called (started_script p ∷ es) h = none_called es h
none_called (noted t ∷ es) h = none_called es h

-- Where its removal succeeds, the scratch directory is gone.
pub main_end-gone :
    (os : RemoveOs) (end : RunEnd) (d token : Text) (removes_binary : Bool)
    → is_empty d ≡ false
    → os.remove_all_error d ≡ none
    → trees_gone (main_end os end (started_client d token removes_binary)).0.0 ≡ d ∷ []
unfolding main_end run_guarded clean_client cleanup cleanup_dir
main_end-gone os end [] token removes_binary h ok = cc
main_end-gone os end (x ∷ d) token removes_binary h ok = rw ok (
    ap (◌∷◌ (x ∷ d)) (
      none_called (if removes_binary then remove_own_binary os else [])
        (choice-trees removes_binary os)))

-- A second cleanup removes no directory and changes nothing more, and it does nothing at all unless
-- the removal of the binary was asked for.
pub clean_client_again :
    (os : RemoveOs) (c : Client)
    → let c' = (clean_client os c).1 in
      (removed_trees (clean_client os c').0 ≡ [])
      × ((clean_client os c').1 ≡ c')
      × (c.removes_binary ≡ false → (clean_client os c').0 ≡ [])
unfolding clean_client cleanup cleanup_dir zero_secret
clean_client_again os c = (
  choice-trees c.removes_binary os,
  refl,
  λ no. ap (λ b. if b then remove_own_binary os else []) no,
)
