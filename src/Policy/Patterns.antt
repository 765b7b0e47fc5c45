-- ===== src/Policy/Patterns.antt =====
-- `destructivePatterns` and `IsDestructive` of client/policy.go.
use Prim.Native.String.{String}
use claude_distant.Common.{Bool, List, [], false, ◌++◌, ◌||◌, ◌∷◌}
use claude_distant.Regex.{
  Re, alternative, boundary, dot, letter, lit, many, match_string, nothing, one, sequence, white,
  word_char,
}
use claude_distant.Text.{Text, codes}

-- A literal run of characters.
unfoldable pub text_re : Text → Re
text_re [] = nothing
text_re (c ∷ s) = sequence (one (lit c)) (text_re s)

abbrev pub lits : String → Re
lits s = text_re (codes s)

infixr 60 ◌then_re◌
abbrev pub ◌then_re◌ : Re → Re → Re
r then_re r' = sequence r r'

-- `\b…\b`
abbrev pub bounded : Re → Re
bounded r = boundary then_re r then_re boundary

-- `\s+`
abbrev pub blanks : Re
blanks = one white then_re many white

abbrev pub optional : Re → Re
optional r = alternative r nothing

abbrev pub deletion_patterns : List Re
deletion_patterns =
    (boundary
      then_re lits "rm"
      then_re blanks
      then_re many dot
      then_re lits "-"
      then_re many letter
      then_re lits "r"
      then_re many letter
      then_re lits "f")
    ∷ (boundary
        then_re lits "rm"
        then_re blanks
        then_re many dot
        then_re lits "-"
        then_re many letter
        then_re lits "f"
        then_re many letter
        then_re lits "r")
    ∷ (bounded (lits "remove-item") then_re many dot then_re lits "-recurse")
    ∷ (bounded (lits "remove-item") then_re many dot then_re lits "-force")
    ∷ (boundary then_re lits "rd" then_re blanks then_re lits "/s" then_re boundary)
    ∷ (boundary then_re lits "rmdir" then_re blanks then_re lits "/s" then_re boundary)
    ∷ (boundary then_re lits "del" then_re blanks then_re lits "/s" then_re boundary)
    ∷ []

abbrev pub disk_patterns : List Re
disk_patterns =
    (boundary
      then_re lits "mkfs"
      then_re optional (lits "." then_re one word_char then_re many word_char)
      then_re boundary)
    ∷ (boundary
        then_re lits "dd"
        then_re blanks
        then_re many dot
        then_re boundary
        then_re lits "of=")
    ∷ bounded (lits "wipefs")
    ∷ bounded (lits "shred")
    ∷ bounded (lits "fdisk")
    ∷ bounded (lits "parted")
    ∷ bounded (lits "diskpart")
    ∷ (boundary then_re lits "format" then_re optional (lits "-volume") then_re boundary)
    ∷ bounded (lits "clear-disk")
    ∷ (lits ">"
        then_re many white
        then_re lits "/dev/"
        then_re alternative (lits "sd")
            (alternative (lits "nvme") (alternative (lits "hd") (lits "xvd")))
        then_re many word_char
        then_re boundary)
    ∷ []

abbrev pub power_patterns : List Re
power_patterns =
    bounded (lits "shutdown")
    ∷ bounded (lits "reboot")
    ∷ bounded (lits "poweroff")
    ∷ bounded (lits "restart-computer")
    ∷ bounded (lits "stop-computer")
    ∷ []

abbrev pub system_patterns : List Re
system_patterns =
    bounded (lits "userdel")
    ∷ bounded (lits "deluser")
    ∷ (boundary then_re lits "reg" then_re blanks then_re lits "delete" then_re boundary)
    ∷ (boundary then_re lits "iptables" then_re blanks then_re lits "-f" then_re boundary)
    ∷ []

abbrev pub fork_bomb : Re
fork_bomb =
    lits ":"
    then_re many white
    then_re lits "()"
    then_re many white
    then_re lits "{"
    then_re many white
    then_re lits ":|:"
    then_re many white
    then_re lits "&"
    then_re many white
    then_re lits "}"
    then_re many white
    then_re lits ";"
    then_re many white
    then_re lits ":"

abbrev pub destructive_patterns : List Re
destructive_patterns =
    deletion_patterns ++ (disk_patterns ++ (power_patterns ++ (system_patterns ++ fork_bomb ∷ [])))

unfoldable pub any_match : List Re → Text → Bool
any_match [] s = false
any_match (r ∷ rs) s = match_string r s || any_match rs s

-- `IsDestructive`
unfoldable pub is_destructive : Text → Bool
unfolding any_match
is_destructive = any_match destructive_patterns
