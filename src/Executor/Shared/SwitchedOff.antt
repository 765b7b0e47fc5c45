-- ===== src/Executor/Shared/SwitchedOff.antt =====
-- What the automatic mode leaves behind in the shared guard rail once it is switched off.
use claude_distant.Common.{
  All, Bool, List, Option, [], ap, arith, false, none, or-eq-false, refl, some, subst, suc, sym,
  true, zero, ℕ, ◌++◌, ◌||◌, ◌∙◌, ◌∷◌, ◌≡◌,
}
use claude_distant.Executor.{Executor, ask}
use claude_distant.Executor.Shared.{
  Gate, Pending, Shared, Turn, Word, arrives, at_answer, at_list, at_policy, at_prompt, changes,
  chose, gate_step, goes_on, let_through, step_at, take_turn, take_turns, turned_down,
}
use claude_distant.Executor.Shared.Heard.{
  SameAnswers, always_in-answers_in, answers_in, answers_in_idem, append-SameAnswers,
  approved_in-answers_in, auto_in-answers_in,
}
use claude_distant.Executor.Shared.Justified.{IsJustified, take_turns-IsJustified_from}
use claude_distant.Executor.Shared.Words.{IsHeld, approved_in, auto_in}
use claude_distant.Gui.Window.{is_auto}
use claude_distant.Policy.{get}
use claude_distant.Policy.Prompt.{Answer}
use claude_distant.Text.{Text}

-- A handler that has passed was approved.
abbrev pub IsAskedAt : List Word → Text → Gate → Type 0
IsAskedAt words d let_through = approved_in d words ≡ true
IsAskedAt words d _ = Unit

abbrev pub IsAsked : List Word → Pending → Type 0
IsAsked words p = IsAskedAt words p.description p.gate

-- No turn switches the automatic mode on.
abbrev pub switches_on : Turn → Bool
switches_on (changes p) = is_auto p
switches_on (arrives d) = false
switches_on (goes_on i said) = false

abbrev pub switched_on : List Turn → Bool
switched_on [] = false
switched_on (t ∷ turns) = switches_on t || switched_on turns

-- The same handlers, which know only the answers.
abbrev with_words : List Word → Shared → Shared
with_words words s = record s { words = words }

answers_in-IsHeld :
    (words : List Word) (d : Text) (g : Gate)
    → IsAskedAt words d g
    → IsHeld words d g
    → IsHeld (answers_in words) d g
answers_in-IsHeld words d let_through ask h =
    let approved = approved_in-answers_in d words ∙ ask in ground arith
answers_in-IsHeld words d (at_answer a) ask h =
    (λ y. approved_in-answers_in d words ∙ h.0 y, λ y. always_in-answers_in d words ∙ h.1 y)
answers_in-IsHeld words d at_policy ask h = tt
answers_in-IsHeld words d at_list ask h = tt
answers_in-IsHeld words d at_prompt ask h = tt
answers_in-IsHeld words d turned_down ask h = tt

answers_in-Held :
    (words : List Word) (ps : List Pending)
    → All (IsAsked words) ps
    → All (λ p. IsHeld words p.description p.gate) ps
    → All (λ p. IsHeld (answers_in words) p.description p.gate) ps
answers_in-Held words [] ask h = tt
answers_in-Held words (p ∷ ps) ask h =
    (answers_in-IsHeld words p.description p.gate ask.0 h.0, answers_in-Held words ps ask.1 h.1)

gate_step-auto_in :
    (e : Executor) (d : Text) (said : Option Answer) (g : Gate) (words : List Word)
    → auto_in ((gate_step e d said g).2 ++ words) ≡ auto_in words
unfolding gate_step auto_in
gate_step-auto_in e d none at_prompt words = refl
gate_step-auto_in e d (some a) at_prompt words = refl
gate_step-auto_in e d said g words = refl

step_at-auto_in :
    (e : Executor) (said : Option Answer) (i : ℕ) (ps : List Pending) (words : List Word)
    → auto_in ((step_at e said i ps).2 ++ words) ≡ auto_in words
unfolding step_at auto_in
step_at-auto_in e said i [] words = refl
step_at-auto_in e said zero (p ∷ ps) words = gate_step-auto_in e p.description said p.gate words
step_at-auto_in e said (suc i) (p ∷ ps) words = step_at-auto_in e said i ps words

take_turn-auto_in :
    (t : Turn) (s : Shared) → auto_in (take_turn t s).words ≡ switches_on t || auto_in s.words
unfolding take_turn auto_in
take_turn-auto_in (arrives d) s = refl
take_turn-auto_in (goes_on i said) s = step_at-auto_in s.executor said i s.pending s.words
take_turn-auto_in (changes p) s = refl

-- The turns take no word back and do not look at what was said.
take_turns-with_words :
    (turns : List Turn) (s : Shared) (words : List Word)
    → SameAnswers words s.words
    → ((take_turns turns (with_words words s)).pending ≡ (take_turns turns s).pending)
      × SameAnswers (take_turns turns (with_words words s)).words (take_turns turns s).words
unfolding take_turns take_turn
take_turns-with_words [] s words h = (refl, h)
take_turns-with_words (arrives d ∷ turns) s words h =
    take_turns-with_words turns (take_turn (arrives d) s) words h
take_turns-with_words (goes_on i said ∷ turns) s words h =
    let new = (step_at s.executor said i s.pending).2 in
    take_turns-with_words turns (take_turn (goes_on i said) s) (new ++ words)
      (append-SameAnswers new words s.words h)
take_turns-with_words (changes p ∷ turns) s words h =
    take_turns-with_words turns (take_turn (changes p) s) (chose p ∷ words) h

take_turns_stay_off :
    (turns : List Turn) (s : Shared)
    → switched_on turns ≡ false
    → auto_in s.words ≡ false
    → auto_in (take_turns turns s).words ≡ false
unfolding take_turns
take_turns_stay_off [] s off h = h
take_turns_stay_off (t ∷ turns) s off h =
    let (t_off, turns_off) = or-eq-false (switches_on t) (switched_on turns) off in
    take_turns_stay_off turns (take_turn t s) turns_off (take_turn-auto_in t s ∙ rw t_off h)

passed-IsAskedAt :
    (words words' : List Word) (d : Text) (g : Gate)
    → auto_in words ≡ false
    → SameAnswers words words'
    → IsHeld words d g
    → IsAskedAt words' d g
passed-IsAskedAt words words' d let_through off same h =
    let approved : approved_in d words ≡ true = ground arith in
    sym (approved_in-answers_in d words')
    ∙ sym (ap (approved_in d) same)
    ∙ approved_in-answers_in d words
    ∙ approved
passed-IsAskedAt words words' d (at_answer a) off same h = tt
passed-IsAskedAt words words' d at_policy off same h = tt
passed-IsAskedAt words words' d at_list off same h = tt
passed-IsAskedAt words words' d at_prompt off same h = tt
passed-IsAskedAt words words' d turned_down off same h = tt

held-IsAsked :
    (words words' : List Word) (ps : List Pending)
    → auto_in words ≡ false
    → SameAnswers words words'
    → All (λ p. IsHeld words p.description p.gate) ps
    → All (IsAsked words') ps
held-IsAsked words words' [] off same h = tt
held-IsAsked words words' (p ∷ ps) off same h = (
  passed-IsAskedAt words words' p.description p.gate off same h.0,
  held-IsAsked words words' ps off same h.1,
)

-- Once the automatic mode is switched off, it lets nobody through any more: from a justified state in
-- which every handler that has passed was approved, and while the policy in force is not `auto` and no
-- turn makes it so, every handler that passes was approved by the operator under its very description,
-- even where the operator had chosen `auto` before.
pub take_turns_switched_off :
    (turns : List Turn) (s : Shared)
    → IsJustified s
    → is_auto (get s.executor.policy) ≡ false
    → All (IsAsked s.words) s.pending
    → switched_on turns ≡ false
    → All (IsAsked (take_turns turns s).words) (take_turns turns s).pending
take_turns_switched_off turns s justified off ask never =
    let start = with_words (answers_in s.words) s in
    let same = take_turns-with_words turns s (answers_in s.words) (sym (answers_in_idem s.words)) in
    let end = take_turns-IsJustified_from turns start (record {
      held = answers_in-Held s.words s.pending ask justified.held;
      listed = λ d m. always_in-answers_in d s.words ∙ justified.listed d m;
      chosen = λ m. cc;
    }) in
    subst (All (IsAsked (take_turns turns s).words)) same.0 (
      held-IsAsked (take_turns turns start).words (take_turns turns s).words
        (take_turns turns start).pending
        (take_turns_stay_off turns start never (auto_in-answers_in s.words)) same.1 end.held)
