-- ===== src/Shell/Resolve.antt =====
-- What `resolveShell` chooses.
use claude_distant.Common.{List, Option, [], arith, inl, inr, none, refl, some, true, ◌∷◌, ◌≡◌, ◌⊎◌}
use claude_distant.Shell.{
  LookPath, Resolved, ShellStyle, is_found, named_result, resolve_auto, resolve_named,
  resolve_shell, style_posix, style_power_shell,
}
use claude_distant.Text.{Text, codes}

abbrev pub posix_shells : List Text
posix_shells = codes "bash" ∷ codes "sh" ∷ []

abbrev pub power_shells : List Text
power_shells = codes "pwsh" ∷ codes "powershell" ∷ []

-- The binaries that a style may come with.
abbrev pub binaries : ShellStyle → List Text
binaries style_posix = posix_shells
binaries style_power_shell = power_shells

abbrev pub Among : Text → List Text → Type 0
Among s [] = ⊥
Among s (t ∷ ts) = (s ≡ t) ⊎ Among s ts

-- A chosen interpreter is one of its style's binaries, and was found; an error chooses nothing.
abbrev pub IsChosen : LookPath → Resolved → Type 0
IsChosen look_path (inl e) = Unit
IsChosen look_path (inr (bin, style)) =
    Among bin (binaries style) × (is_found (look_path bin) ≡ true)

module _ (look_path : LookPath) where
  named-IsChosen :
      (bin : Text) (style : ShellStyle) (o : Option Text)
      → Among bin (binaries style)
      → look_path bin ≡ o
      → IsChosen look_path (named_result bin style o)
  unfolding named_result
  named-IsChosen bin style none a e = (a, rw e)
  named-IsChosen bin style (some x) a e = tt

  auto-IsChosen : (goos : Text) → IsChosen look_path (resolve_auto goos look_path)
  unfolding resolve_auto
  auto-IsChosen goos = ground arith

  named :
      (bin : Text) (style : ShellStyle)
      → Among bin (binaries style)
      → IsChosen look_path (resolve_named look_path bin style)
  named bin style a = named-IsChosen bin style (look_path bin) a refl

  -- Whatever shell is asked for, on whatever system, the result is an error or an interpreter that
  -- was found on the machine and whose arguments are built in its own style.
  pub resolve_shell-IsChosen :
      (goos override : Text) → IsChosen look_path (resolve_shell goos override look_path)
  unfolding resolve_shell
  resolve_shell-IsChosen goos override = ground (
    arith,
    auto-IsChosen goos,
    named (codes "powershell") style_power_shell (inr (inl refl)),
    named (codes "pwsh") style_power_shell (inl refl),
    named (codes "bash") style_posix (inl refl),
    named (codes "sh") style_posix (inr (inl refl)),
  )
