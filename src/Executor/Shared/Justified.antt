-- ===== src/Executor/Shared/Justified.antt =====
-- Nothing passes the shared guard rail without the operator's word.
use claude_distant.Common.{
  All, Bool, List, Option, [], arith, false, none, refl, some, suc, true, zero, ℕ, ◌&&◌, ◌++◌, ◌∷◌,
  ◌≡◌,
}
use claude_distant.Executor.{
  Executor, after_answer, is_always_allowed, new_executor, remember_always_allowed,
}
use claude_distant.Executor.Shared.{
  Gate, Pending, Shared, Turn, Word, arrives, at_answer, at_list, at_policy, at_prompt,
  behind_answer, behind_list, changes, chose, gate_of, gate_step, gave, goes_on, let_through,
  new_shared, step_at, take_turn, take_turns, turned_down,
}
use claude_distant.Executor.Shared.Words.{
  IsHeld, IsHeld-more, always-approved, always_in, always_in-more, approved_in, auto_in,
}
use claude_distant.FileTransfer.Write.{Fs}
use claude_distant.Gui.Window.{is_auto}
use claude_distant.Policy.{Policy, get, policy_auto, policy_confirm, policy_deny, set}
use claude_distant.Policy.Prompt.{Answer, is_one_of}
use claude_distant.Text.{Text}
use claude_distant.Text.Laws.{equal_iff, equal_refl}

-- Every handler that has passed was let through by the policy `auto`, which the operator chose at some
-- time, or by the operator's approval of its very description; what is always allowed was approved for
-- always; and the policy in force was chosen.
pub record IsJustified (s : Shared) : Type 0 where
  pub held : All (λ p. IsHeld s.words p.description p.gate) s.pending
  pub listed : (d : Text) → is_always_allowed s.executor d ≡ true → always_in d s.words ≡ true
  pub chosen : is_auto (get s.executor.policy) ≡ true → auto_in s.words ≡ true

-- What the handlers share is accounted for.
record IsKnown (words : List Word) (e : Executor) : Type 0 where
  listed : (d : Text) → is_always_allowed e d ≡ true → always_in d words ≡ true
  chosen : is_auto (get e.policy) ≡ true → auto_in words ≡ true

gate_of-IsHeld :
    (p : Policy) (words : List Word) (d : Text)
    → (is_auto p ≡ true → auto_in words ≡ true)
    → IsHeld words d (gate_of p)
unfolding gate_of
gate_of-IsHeld policy_auto words d h = rw (h refl)
gate_of-IsHeld policy_confirm words d h = tt
gate_of-IsHeld policy_deny words d h = tt

behind_list-IsHeld :
    (b : Bool) (words : List Word) (d : Text)
    → (b ≡ true → always_in d words ≡ true)
    → IsHeld words d (behind_list b)
unfolding behind_list
behind_list-IsHeld true words d h = let approved = always-approved d words (h refl) in ground arith
behind_list-IsHeld false words d h = tt

behind_answer-IsHeld :
    (b : Bool) (words : List Word) (d : Text)
    → (b ≡ true → approved_in d words ≡ true)
    → IsHeld words d (behind_answer b)
unfolding behind_answer
behind_answer-IsHeld true words d h = let approved = h refl in ground arith
behind_answer-IsHeld false words d h = tt

after_answer-IsKnown :
    (words : List Word) (e : Executor) (d : Text) (a : Answer) (b : Bool)
    → (a.approved && a.always) ≡ b
    → IsKnown words e
    → (b ≡ true → always_in d words ≡ true)
    → IsKnown words (after_answer e d a)
unfolding after_answer remember_always_allowed is_always_allowed
after_answer-IsKnown words e d a true q k h = rw q (record {
  listed = λ d' m. ground (arith, equal_iff d' d, k.listed d', h refl);
  chosen = k.chosen;
})
after_answer-IsKnown words e d a false q k h = rw q k

said-IsHeld :
    (words : List Word) (d : Text) (a : Answer) → IsHeld (gave d a ∷ words) d (at_answer a)
unfolding approved_in always_in
said-IsHeld words d a = rw (equal_refl d) (λ h. ground arith, λ h. ground arith)

IsKnown-more :
    (w : Word) (words : List Word) (e : Executor) → IsKnown words e → IsKnown (w ∷ words) e
unfolding auto_in
IsKnown-more (gave d a) words e k = record {
  listed = λ d' m. always_in-more (gave d a) words d' (k.listed d' m);
  chosen = k.chosen;
}
IsKnown-more (chose p) words e k = record {
  listed = λ d' m. always_in-more (chose p) words d' (k.listed d' m);
  chosen = λ m. let before = k.chosen m in ground arith;
}

gate_step-IsHeld :
    (e : Executor) (d : Text) (said : Option Answer) (g : Gate) (words : List Word)
    → IsKnown words e
    → IsHeld words d g
    → let (e', g', new) = gate_step e d said g in
      IsKnown (new ++ words) e' × IsHeld (new ++ words) d g'
unfolding gate_step
gate_step-IsHeld e d said at_policy words k h = (k, gate_of-IsHeld (get e.policy) words d k.chosen)
gate_step-IsHeld e d said at_list words k h =
    (k, behind_list-IsHeld (is_always_allowed e d) words d (k.listed d))
gate_step-IsHeld e d none at_prompt words k h = (k, tt)
gate_step-IsHeld e d (some a) at_prompt words k h =
    (IsKnown-more (gave d a) words e k, said-IsHeld words d a)
gate_step-IsHeld e d said (at_answer a) words k h = (
  after_answer-IsKnown words e d a (a.approved && a.always) refl k h.1,
  behind_answer-IsHeld a.approved words d h.0,
)
gate_step-IsHeld e d said let_through words k h = (k, h)
gate_step-IsHeld e d said turned_down words k h = (k, h)

abbrev Held : List Word → List Pending → Type 0
Held words = All (λ p. IsHeld words p.description p.gate)

Held-more : (w : Word) (words : List Word) (ps : List Pending) → Held words ps → Held (w ∷ words) ps
Held-more w words [] h = tt
Held-more w words (p ∷ ps) h =
    (IsHeld-more w words p.description p.gate h.0, Held-more w words ps h.1)

Held-append : (new words : List Word) (ps : List Pending) → Held words ps → Held (new ++ words) ps
Held-append [] words ps h = h
Held-append (w ∷ new) words ps h = Held-more w (new ++ words) ps (Held-append new words ps h)

IsHeld-append :
    (new words : List Word) (d : Text) (g : Gate) → IsHeld words d g → IsHeld (new ++ words) d g
IsHeld-append [] words d g h = h
IsHeld-append (w ∷ new) words d g h =
    IsHeld-more w (new ++ words) d g (IsHeld-append new words d g h)

step_at-Held :
    (e : Executor) (said : Option Answer) (i : ℕ) (ps : List Pending) (words : List Word)
    → IsKnown words e
    → Held words ps
    → let (e', ps', new) = step_at e said i ps in
      IsKnown (new ++ words) e' × Held (new ++ words) ps'
unfolding step_at
step_at-Held e said i [] words k h = (k, tt)
step_at-Held e said zero (p ∷ ps) words k h =
    let (known, held) = gate_step-IsHeld e p.description said p.gate words k h.0 in
    (known, (held, Held-append (gate_step e p.description said p.gate).2 words ps h.1))
step_at-Held e said (suc i) (p ∷ ps) words k h =
    let (known, held) = step_at-Held e said i ps words k h.1 in
    (known, (IsHeld-append (step_at e said i ps).2 words p.description p.gate h.0, held))

take_turn-IsJustified : (t : Turn) (s : Shared) → IsJustified s → IsJustified (take_turn t s)
unfolding take_turn set get is_always_allowed
take_turn-IsJustified (arrives d) s h = record {
  held = (tt, h.held);
  listed = h.listed;
  chosen = h.chosen;
}
take_turn-IsJustified (goes_on i said) s h =
    let (known, held) =
      step_at-Held s.executor said i s.pending s.words
        (record { listed = h.listed; chosen = h.chosen }) h.held in
    record { held = held; listed = known.listed; chosen = known.chosen }
take_turn-IsJustified (changes p) s h = record {
  held = Held-more (chose p) s.words s.pending h.held;
  listed = λ d m. always_in-more (chose p) s.words d (h.listed d m);
  chosen = λ m. unfold auto_in in rw m refl;
}

pub take_turns-IsJustified_from :
    (turns : List Turn) (s : Shared) → IsJustified s → IsJustified (take_turns turns s)
unfolding take_turns
take_turns-IsJustified_from [] s h = h
take_turns-IsJustified_from (t ∷ turns) s h =
    take_turns-IsJustified_from turns (take_turn t s) (take_turn-IsJustified t s h)

-- However the handlers of a session are interleaved, whatever the operator answers meanwhile, and however
-- the policy is changed in between: a handler that has passed the guard rail passed because the operator
-- had chosen the policy `auto` at some time, or had approved its very description; and nothing is always
-- allowed that the operator did not approve for always.
pub take_turns-IsJustified :
    (p : Policy) (work_dir : Text) (fs : Fs) (turns : List Turn)
    → IsJustified (take_turns turns (new_shared p work_dir fs))
unfolding new_shared new_executor get is_always_allowed is_one_of
take_turns-IsJustified p work_dir fs turns =
    take_turns-IsJustified_from turns (new_shared p work_dir fs)
      (record { held = tt; listed = λ d h. cc; chosen = λ h. unfold auto_in in rw h refl })
