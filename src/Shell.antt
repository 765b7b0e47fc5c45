-- ===== src/Shell.antt =====
-- client/executor.go: the choice of an interpreter, its arguments, and the argument splitter.
pub mod Quote
pub mod Resolve
use claude_distant.Common.{
  Bool, List, Option, [], false, if◌then◌else◌, inl, inr, is_empty, none, some, true, ℕ, ◌&&◌, ◌++◌,
  ◌==◌, ◌||◌, ◌∷◌, ◌⊎◌,
}
use claude_distant.Text.{Text, codes, equal, to_lower, trim_space}

-- `shellStyle`
pub data ShellStyle : Type 0 where
  style_power_shell style_posix : ShellStyle

-- `lookPath`: the error of a binary that is not found.
abbrev pub LookPath : Type 0
LookPath = Text → Option Text

-- An interpreter with its style, or the text of the error.
abbrev pub Resolved : Type 0
Resolved = Text ⊎ (Text × ShellStyle)

-- A `case` that names one binary.
unfoldable pub named_result : Text → ShellStyle → Option Text → Resolved
named_result bin style none = inr (bin, style)
named_result bin style (some e) = inl (bin ++ (codes " introuvable: " ++ e))

abbrev pub resolve_named : LookPath → Text → ShellStyle → Resolved
resolve_named look_path bin style = named_result bin style (look_path bin)

abbrev pub is_found : Option Text → Bool
is_found none = true
is_found (some e) = false

-- `case "auto"`
unfoldable pub resolve_auto : Text → LookPath → Resolved
resolve_auto goos look_path =
    if equal goos (codes "windows")
    then (if is_found (look_path (codes "pwsh"))
        then inr (codes "pwsh", style_power_shell)
        else if is_found (look_path (codes "powershell"))
        then inr (codes "powershell", style_power_shell)
        else inl (codes "aucun interpréteur PowerShell trouvé (pwsh/powershell)"))
    else if is_found (look_path (codes "bash"))
    then inr (codes "bash", style_posix)
    else inl (codes "bash introuvable pour shell=auto")

-- `resolveShell`. The error of an unknown shell quotes the override, here as it is.
unfoldable pub resolve_shell : Text → Text → LookPath → Resolved
resolve_shell goos override look_path =
    let name = to_lower (trim_space override) in
    let ov = if is_empty name then codes "auto" else name in
    if equal ov (codes "auto")
    then resolve_auto goos look_path
    else if equal ov (codes "powershell")
    then resolve_named look_path (codes "powershell") style_power_shell
    else if equal ov (codes "pwsh")
    then resolve_named look_path (codes "pwsh") style_power_shell
    else if equal ov (codes "bash")
    then resolve_named look_path (codes "bash") style_posix
    else if equal ov (codes "sh")
    then resolve_named look_path (codes "sh") style_posix
    else inl (codes "shell non supporté: " ++ override)

-- `buildShellArgv`
unfoldable pub build_shell_argv : ShellStyle → Text → List Text
build_shell_argv style_power_shell command =
    codes "-NoProfile"
    ∷ codes "-NonInteractive"
    ∷ codes "-Command"
    ∷ (codes "$OutputEncoding = [Console]::OutputEncoding = [System.Text.Encoding]::UTF8; "
        ++ command)
    ∷ []
build_shell_argv style_posix command = codes "-c" ∷ command ∷ []

-- `inSingle` and `inDouble`, of which one at most is set.
pub data Quoting : Type 0 where
  unquoted in_single in_double : Quoting

-- The variables of `splitArgv`.
pub record Split : Type 0 where
  pub args : List Text
  pub cur : Text
  pub has_cur : Bool
  pub quoting : Quoting

-- `flush`
unfoldable pub flush : Split → Split
flush st =
    if st.has_cur
    then record st { args = st.args ++ st.cur ∷ []; cur = []; has_cur = false }
    else st

-- `cur.WriteRune(r); hasCur = true`
unfoldable pub put_rune : Split → ℕ → Split
put_rune st r = record st { cur = st.cur ++ r ∷ []; has_cur = true }

-- Whether a backslash `r` escapes the character `n` behind it.
unfoldable pub escapes : Quoting → ℕ → ℕ → Bool
escapes in_single r n = false
escapes in_double r n = r == b'\\' && (n == b'"' || n == b'\\')
escapes unquoted r n = r == b'\\'

-- The loop's body for a character that is no escape.
unfoldable pub split_step : Quoting → Split → ℕ → Split
unfolding flush put_rune
split_step in_single st r = if r == b'\'' then record st { quoting = unquoted } else put_rune st r
split_step in_double st r = if r == b'"' then record st { quoting = unquoted } else put_rune st r
split_step unquoted st r =
    if r == b'\''
    then record st { quoting = in_single; has_cur = true }
    else if r == b'"'
    then record st { quoting = in_double; has_cur = true }
    else if r == b' ' || r == b'\t'
    then flush st
    else put_rune st r

-- Behind the loop; `none` is the error of an unclosed quote.
unfoldable pub split_end : Quoting → Split → Option (List Text)
unfolding flush
split_end unquoted st = some (flush st).args
split_end _ st = none

unfoldable pub split_from : Split → Text → Option (List Text)
unfolding split_step split_end escapes
split_from st [] = split_end st.quoting st
split_from st (r ∷ []) = (let st' = split_step st.quoting st r in split_end st'.quoting st')
split_from st (r ∷ n ∷ rest) =
    let escaped = split_from (put_rune st n) rest in
    let plain = split_from (split_step st.quoting st r) (n ∷ rest) in
    if escapes st.quoting r n then escaped else plain

-- `splitArgv`
unfoldable pub split_argv : Text → Option (List Text)
unfolding split_from
split_argv = split_from (record { args = []; cur = []; has_cur = false; quoting = unquoted })
