-- ===== src/Executor/Shared/Heard.antt =====
-- The answers among what the operator said to the shared guard rail of client/executor.go.
use claude_distant.Common.{List, [], ap, false, refl, sym, ◌&&◌, ◌++◌, ◌||◌, ◌∙◌, ◌∷◌, ◌≡◌}
use claude_distant.Executor.Shared.{Word, chose, gave}
use claude_distant.Executor.Shared.Words.{always_in, approved_in, auto_in}
use claude_distant.Text.{Text, equal}

-- What the operator said, without the choices of a policy.
abbrev pub answers_in : List Word → List Word
answers_in [] = []
answers_in (gave d a ∷ words) = gave d a ∷ answers_in words
answers_in (chose p ∷ words) = answers_in words

pub approved_in-answers_in :
    (d : Text) (words : List Word) → approved_in d (answers_in words) ≡ approved_in d words
unfolding approved_in
approved_in-answers_in d [] = refl
approved_in-answers_in d (gave d' a ∷ words) =
    ap (◌||◌ (equal d d' && a.approved)) (approved_in-answers_in d words)
approved_in-answers_in d (chose p ∷ words) = approved_in-answers_in d words

pub always_in-answers_in :
    (d : Text) (words : List Word) → always_in d (answers_in words) ≡ always_in d words
unfolding always_in
always_in-answers_in d [] = refl
always_in-answers_in d (gave d' a ∷ words) =
    ap (◌||◌ (equal d d' && (a.approved && a.always))) (always_in-answers_in d words)
always_in-answers_in d (chose p ∷ words) = always_in-answers_in d words

pub auto_in-answers_in : (words : List Word) → auto_in (answers_in words) ≡ false
unfolding auto_in
auto_in-answers_in [] = refl
auto_in-answers_in (gave d a ∷ words) = auto_in-answers_in words
auto_in-answers_in (chose p ∷ words) = auto_in-answers_in words

pub answers_in-append :
    (new words : List Word) → answers_in (new ++ words) ≡ answers_in new ++ answers_in words
answers_in-append [] words = refl
answers_in-append (gave d a ∷ new) words = ap (◌∷◌ (gave d a)) (answers_in-append new words)
answers_in-append (chose p ∷ new) words = answers_in-append new words

pub answers_in_idem : (words : List Word) → answers_in words ≡ answers_in (answers_in words)
answers_in_idem [] = refl
answers_in_idem (gave d a ∷ words) = ap (◌∷◌ (gave d a)) (answers_in_idem words)
answers_in_idem (chose p ∷ words) = answers_in_idem words

-- Two lists of words with the same answers in them.
abbrev pub SameAnswers : List Word → List Word → Type 0
SameAnswers words words' = answers_in words ≡ answers_in words'

pub append-SameAnswers :
    (new words words' : List Word)
    → SameAnswers words words'
    → SameAnswers (new ++ words) (new ++ words')
append-SameAnswers new words words' h =
    answers_in-append new words ∙ ap (◌++◌ (answers_in new)) h ∙ sym (answers_in-append new words')
