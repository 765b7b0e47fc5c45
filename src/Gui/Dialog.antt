-- ===== src/Gui/Dialog.antt =====
-- `confirm` of client/gui.go: the channel of one place that the dialog's callbacks answer into.
use claude_distant.Common.{List, Option, [], false, none, refl, some, true, ◌++◌, ◌∷◌, ◌≡◌}
use claude_distant.Policy.Prompt.{Answer}

-- What the operator does: a button, or a close of the dialog without one.
pub data Click : Type 0 where
  refuse_click allow_click always_click dismissed : Click

abbrev pub refused : Answer
refused = record { approved = false; always = false }

-- The answer that a click stands for.
unfoldable pub answer_of : Click → Answer
answer_of refuse_click = refused
answer_of allow_click = record { approved = true; always = false }
answer_of always_click = record { approved = true; always = true }
answer_of dismissed = refused

-- The calls of `respond` that a click makes: a button answers and hides the dialog, and the hidden
-- dialog answers with a refusal.
unfoldable pub responses : Click → List Answer
unfolding answer_of
responses refuse_click = answer_of refuse_click ∷ refused ∷ []
responses allow_click = answer_of allow_click ∷ refused ∷ []
responses always_click = answer_of always_click ∷ refused ∷ []
responses dismissed = refused ∷ []

-- `respond`: a full channel drops the answer.
unfoldable pub respond : Option Answer → Answer → Option Answer
respond none a = some a
respond (some b) a = some b

unfoldable pub respond_all : Option Answer → List Answer → Option Answer
unfolding respond
respond_all channel [] = channel
respond_all channel (a ∷ answers) = respond_all (respond channel a) answers

unfoldable pub all_responses : List Click → List Answer
all_responses [] = []
all_responses (c ∷ clicks) = responses c ++ all_responses clicks

-- `confirm`, over the clicks that come before it reads the channel; `none` still waits.
unfoldable pub confirm_by_dialog : List Click → Option Answer
unfolding respond_all all_responses responses
confirm_by_dialog clicks = respond_all none (all_responses clicks)

full_channel : (a : Answer) (answers : List Answer) → respond_all (some a) answers ≡ some a
unfolding respond_all
full_channel a [] = refl
full_channel a (b ∷ answers) = full_channel a answers

-- The operator's first click decides, with the refusal that the closing dialog sends behind it and
-- every further click dropped; a dialog that is closed without a button refuses.
pub confirm_by_dialog_first :
    (c : Click) (clicks : List Click) → confirm_by_dialog (c ∷ clicks) ≡ some (answer_of c)
unfolding confirm_by_dialog
confirm_by_dialog_first refuse_click clicks = full_channel refused (refused ∷ all_responses clicks)
confirm_by_dialog_first allow_click clicks =
    full_channel (answer_of allow_click) (refused ∷ all_responses clicks)
confirm_by_dialog_first always_click clicks =
    full_channel (answer_of always_click) (refused ∷ all_responses clicks)
confirm_by_dialog_first dismissed clicks = full_channel refused (all_responses clicks)
