-- ===== src/Policy/Dangerous.antt =====
-- Commands that `IsDestructive` of client/policy.go must not miss.
use mathlib.Core.List.{Memᴰ}
use claude_distant.Common.{
  Bool, List, [], and-eq-true, false, refl, subst, sym, true, ◌&&◌, ◌++◌, ◌∙◌, ◌∷◌, ◌≡◌,
}
use claude_distant.Policy.Destructive.{is_destructive-around, is_destructive_case}
use claude_distant.Policy.Patterns.{any_match, is_destructive, text_re}
use claude_distant.Regex.{in_class, match_string, occurs, run, starts_word}
use claude_distant.Regex.Context.{word_after}
use claude_distant.Regex.Fold.{lower_all}
use claude_distant.Text.{Text, codes}

-- For each kind of command that the comments of `destructivePatterns` name, what such commands say:
-- recursive or forced deletion, file systems and disks, power, accounts, the registry and the firewall,
-- and the fork bomb.
abbrev pub dangerous_phrases : List Text
dangerous_phrases =
    codes "rm -rf"
    ∷ codes "rm -fr"
    ∷ codes "rm dir -rvf"
    ∷ codes "remove-item dir -recurse"
    ∷ codes "remove-item dir -force"
    ∷ codes "rd /s"
    ∷ codes "rmdir /s"
    ∷ codes "del /s"
    ∷ codes "mkfs"
    ∷ codes "mkfs.ext4"
    ∷ codes "dd if=a of="
    ∷ codes "wipefs"
    ∷ codes "shred"
    ∷ codes "fdisk"
    ∷ codes "parted"
    ∷ codes "diskpart"
    ∷ codes "format"
    ∷ codes "format-volume"
    ∷ codes "clear-disk"
    ∷ codes ">/dev/sda"
    ∷ codes "> /dev/nvme0n1"
    ∷ codes "> /dev/hda"
    ∷ codes "> /dev/xvda"
    ∷ codes "shutdown"
    ∷ codes "reboot"
    ∷ codes "poweroff"
    ∷ codes "restart-computer"
    ∷ codes "stop-computer"
    ∷ codes "userdel"
    ∷ codes "deluser"
    ∷ codes "reg delete"
    ∷ codes "iptables -f"
    ∷ codes ":(){ :|:& };:"
    ∷ []

unfoldable all_flagged : List Text → Bool
all_flagged [] = true
all_flagged (p ∷ ps) = is_destructive p && all_flagged ps

phrases_flagged : all_flagged dangerous_phrases ≡ true
unfolding all_flagged is_destructive any_match match_string occurs run in_class starts_word text_re
phrases_flagged = refl

flagged_member :
    {p : Text} {ps : List Text} → all_flagged ps ≡ true → Memᴰ p ps → is_destructive p ≡ true
unfolding all_flagged
flagged_member {ps = []} h m = elim m [ ]
flagged_member {ps = q ∷ ps} h (Memᴰ.head e) =
    subst (λ x. is_destructive x ≡ true) (sym e)
      (and-eq-true (is_destructive q) (all_flagged ps) h).0
flagged_member {ps = q ∷ ps} h (Memᴰ.tail m) =
    flagged_member (and-eq-true (is_destructive q) (all_flagged ps) h).1 m

-- The listed dangerous commands do not slip through: a command line that says one of the phrases, in any case of its
-- letters and wherever in the line, is flagged, if the text before the phrase does not end in a word
-- character (a letter, a digit or `_`) and the text behind it does not begin with one.
pub is_destructive-phrase :
    (u s t phrase : Text)
    → Memᴰ phrase dangerous_phrases
    → lower_all s ≡ lower_all phrase
    → word_after false u ≡ false
    → starts_word t ≡ false
    → is_destructive (u ++ (s ++ t)) ≡ true
is_destructive-phrase u s t phrase listed same hu ht =
    is_destructive-around u s t hu ht
      (is_destructive_case s phrase same ∙ flagged_member phrases_flagged listed)
