-- ===== src/Policy/Prompt.antt =====
-- `PromptConfirm` of client/policy.go, and the policy names.
use claude_distant.Common.{
  Bool, List, Option, [], ap, arith, false, none, not, refl, some, true, ◌&&◌, ◌++◌, ◌||◌, ◌↔◌, ◌∙◌,
  ◌∷◌, ◌≡◌,
}
use claude_distant.Policy.{
  Policy, parse_policy, policy_auto, policy_confirm, policy_deny, policy_name, policy_named,
}
use claude_distant.Text.{Text, codes, equal, to_lower, trim_space}
use claude_distant.Text.Laws.{equal_iff}

-- What the operator answered: `approved`, and `always` for "toujours".
pub record Answer : Type 0 where
  pub approved : Bool
  pub always : Bool

unfoldable pub is_one_of : Text → List Text → Bool
is_one_of s [] = false
is_one_of s (t ∷ ts) = equal s t || is_one_of s ts

abbrev pub yes_words : List Text
yes_words = codes "o" ∷ codes "oui" ∷ codes "y" ∷ codes "yes" ∷ []

abbrev pub always_words : List Text
always_words = codes "t" ∷ codes "toujours" ∷ codes "always" ∷ codes "a" ∷ []

-- The `switch` on the operator's word, by the two lists that it tests.
unfoldable pub choose : Bool → Bool → Answer
choose true a = record { approved = true; always = false }
choose false true = record { approved = true; always = true }
choose false false = record { approved = false; always = false }

-- `none` is a failed read of the line.
unfoldable pub prompt_confirm : Option Text → Answer
unfolding choose
prompt_confirm none = record { approved = false; always = false }
prompt_confirm (some line) =
    let word = to_lower (trim_space line) in
    choose (is_one_of word yes_words) (is_one_of word always_words)

is_one_of-append :
    (s : Text) (ts us : List Text) → is_one_of s (ts ++ us) ≡ (is_one_of s ts || is_one_of s us)
unfolding is_one_of
is_one_of-append s [] us = refl
is_one_of-append s (t ∷ ts) us = ground (arith, is_one_of-append s ts us)

choose_lem :
    (y a : Bool) → ((choose y a).approved ≡ (y || a)) × ((choose y a).always ≡ (not y && a))
unfolding choose
choose_lem y a = ground arith

-- The operator's word, with no regard to case and to white space around it, approves exactly if it
-- is one of the eight listed words, and stands for "toujours" exactly if it is none of the first
-- four and one of the last four. So "toujours" is only answered with an approval.
pub prompt_confirm_lem :
    (line : Text)
    → let word = to_lower (trim_space line) in
      ((prompt_confirm (some line)).approved ≡ is_one_of word (yes_words ++ always_words))
      × ((prompt_confirm (some line)).always
          ≡ (not (is_one_of word yes_words) && is_one_of word always_words))
unfolding prompt_confirm
prompt_confirm_lem line = rw is_one_of-append (choose_lem _ _)

policy_named-policy_name : (p : Policy) → policy_named (policy_name p) ≡ some p
unfolding policy_named policy_name equal
policy_named-policy_name policy_auto = refl
policy_named-policy_name policy_confirm = refl
policy_named-policy_name policy_deny = refl

policy_named_sound : (name : Text) (p : Policy) → policy_named name ≡ some p → name ≡ policy_name p
unfolding policy_named policy_name
policy_named_sound name p h = ground (
  arith,
  equal_iff name (codes "auto"),
  equal_iff name (codes "confirm"),
  equal_iff name (codes "deny"),
)

-- A line that names a policy, in any case and with white space around it, is read as that policy,
-- and nothing else is read as it.
pub parse_policy_iff :
    (s : Text) (p : Policy) → (parse_policy s ≡ some p) ↔ (to_lower (trim_space s) ≡ policy_name p)
unfolding parse_policy
parse_policy_iff s p = (
  policy_named_sound (to_lower (trim_space s)) p,
  (λ e. ap policy_named e ∙ policy_named-policy_name p),
)
