-- ===== src/Executor/Shared/Words.antt =====
-- What the operator has said to the shared guard rail, and what a handler has to show for itself.
use claude_distant.Common.{Bool, List, [], arith, false, true, ◌&&◌, ◌||◌, ◌∷◌, ◌≡◌}
use claude_distant.Executor.Shared.{
  Gate, Word, at_answer, at_list, at_policy, at_prompt, chose, gave, let_through, turned_down,
}
use claude_distant.Gui.Window.{is_auto}
use claude_distant.Text.{Text, equal}

-- Whether the operator chose the policy `auto`, approved a description, and approved it for always.
unfoldable pub auto_in : List Word → Bool
auto_in [] = false
auto_in (gave d a ∷ words) = auto_in words
auto_in (chose p ∷ words) = is_auto p || auto_in words

unfoldable pub approved_in : Text → List Word → Bool
approved_in d [] = false
approved_in d (gave d' a ∷ words) = (equal d d' && a.approved) || approved_in d words
approved_in d (chose p ∷ words) = approved_in d words

unfoldable pub always_in : Text → List Word → Bool
always_in d [] = false
always_in d (gave d' a ∷ words) = (equal d d' && (a.approved && a.always)) || always_in d words
always_in d (chose p ∷ words) = always_in d words

-- What a handler at a gate has to show for itself.
abbrev pub IsHeld : List Word → Text → Gate → Type 0
IsHeld words d let_through = (auto_in words || approved_in d words) ≡ true
IsHeld words d (at_answer a) =
    (a.approved ≡ true → approved_in d words ≡ true)
    × ((a.approved && a.always) ≡ true → always_in d words ≡ true)
IsHeld words d _ = Unit

pub always-approved :
    (d : Text) (words : List Word) → always_in d words ≡ true → approved_in d words ≡ true
unfolding always_in approved_in
always-approved d [] h = cc
always-approved d (gave d' a ∷ words) h = ground (arith, always-approved d words)
always-approved d (chose p ∷ words) h = always-approved d words h

-- More words take nothing back.
pub IsHeld-more :
    (w : Word) (words : List Word) (d : Text) (g : Gate) → IsHeld words d g → IsHeld (w ∷ words) d g
unfolding auto_in approved_in always_in
IsHeld-more (gave d' a) words d let_through h = ground arith
IsHeld-more (chose p) words d let_through h = ground arith
IsHeld-more (gave d' a) words d (at_answer b) h =
    (λ y. ground (arith, h.0 y), λ y. ground (arith, h.1 y))
IsHeld-more (chose p) words d (at_answer b) h = h
IsHeld-more w words d at_policy h = tt
IsHeld-more w words d at_list h = tt
IsHeld-more w words d at_prompt h = tt
IsHeld-more w words d turned_down h = tt

pub always_in-more :
    (w : Word) (words : List Word) (d : Text)
    → always_in d words ≡ true
    → always_in d (w ∷ words) ≡ true
unfolding always_in
always_in-more (gave d' a) words d h = ground arith
always_in-more (chose p) words d h = h
