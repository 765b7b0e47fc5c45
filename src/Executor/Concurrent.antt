-- ===== src/Executor/Concurrent.antt =====
-- Commands that run beside each other: `go executor.Handle(…)` in client/main.go. Each handler's
-- effects happen in its own order, and those of different handlers in any order between them.
use claude_distant.Common.{
  All, Bool, List, [], ap, arith, false, if◌then◌else◌, refl, suc, ℕ, ◌++◌, ◌+◌, ◌∙◌, ◌∷◌, ◌≡◌,
}
use claude_distant.Executor.{
  Effect, Env, Executor, asked, event, killed, opened_for_read, opened_for_write, started, wrote,
}
use claude_distant.Executor.Answering.{AnswersOnce, IsNoResult}
use claude_distant.Executor.Handle.{handle}
use claude_distant.Executor.OneResult.{handle-AnswersOnce}
use claude_distant.Protocol.{
  CommandMessage, approval_response_message, file_chunk_message, heartbeat_message,
  register_message, result_message, stream_message,
}
use claude_distant.Text.{Text, equal}

-- The third list has the elements of the first two, each list's in its own order.
pub data Shuffle : List Effect → List Effect → List Effect → Type 0 where
  shuffled : Shuffle [] [] []
  from_left :
      {x : Effect} {xs ys zs : List Effect} → Shuffle xs ys zs → Shuffle (x ∷ xs) ys (x ∷ zs)
  from_right :
      {y : Effect} {xs ys zs : List Effect} → Shuffle xs ys zs → Shuffle xs (y ∷ ys) (y ∷ zs)

-- The last list is a shuffle of all of the others.
pub data Merged : List (List Effect) → List Effect → Type 0 where
  merged_none : Merged [] []
  merged_one :
      {xs ws zs : List Effect} {xss : List (List Effect)}
      → Merged xss ws
      → Shuffle xs ws zs
      → Merged (xs ∷ xss) zs

-- One command on its way: the executor as this handler finds it, and what is outside.
pub record Task : Type 0 where
  pub env : Env
  pub executor : Executor
  pub command : CommandMessage

abbrev pub effects_of_task : Task → List Effect
effects_of_task t = (handle t.env t.executor t.command).0

abbrev pub task_effects : List Task → List (List Effect)
task_effects [] = []
task_effects (t ∷ tasks) = effects_of_task t ∷ task_effects tasks

-- Whether an effect writes a result for a request, and how many of them do.
abbrev pub is_answer : Text → Effect → Bool
is_answer id (wrote (result_message id' exit_code err info)) = equal id' id
is_answer id _ = false

unfoldable pub count_answers : Text → List Effect → ℕ
count_answers id [] = 0
count_answers id (x ∷ es) = let n = count_answers id es in if is_answer id x then suc n else n

-- How many of the commands have the request's id.
unfoldable pub count_requests : Text → List Task → ℕ
count_requests id [] = 0
count_requests id (t ∷ tasks) =
    let n = count_requests id tasks in if equal t.command.request_id id then suc n else n

pub count_answers-Shuffle :
    (id : Text) {xs ys zs : List Effect}
    → Shuffle xs ys zs
    → count_answers id zs ≡ count_answers id xs + count_answers id ys
unfolding count_answers
count_answers-Shuffle id shuffled = refl
count_answers-Shuffle id (from_left s) = ground (arith, count_answers-Shuffle id s)
count_answers-Shuffle id (from_right s) = ground (arith, count_answers-Shuffle id s)

quiet-is_answer : (id : Text) (x : Effect) → IsNoResult x → is_answer id x ≡ false
quiet-is_answer id (event kind detail) h = refl
quiet-is_answer id (wrote (register_message a b c d e)) h = refl
quiet-is_answer id (wrote heartbeat_message) h = refl
quiet-is_answer id (wrote (stream_message a b c)) h = refl
quiet-is_answer id (wrote (file_chunk_message a b c)) h = refl
quiet-is_answer id (wrote (result_message a b c d)) h = absurd h
quiet-is_answer id (wrote (approval_response_message a b)) h = refl
quiet-is_answer id (asked d) h = refl
quiet-is_answer id (started c) h = refl
quiet-is_answer id killed h = refl
quiet-is_answer id (opened_for_read p) h = refl
quiet-is_answer id (opened_for_write p) h = refl

count_answers-quiet :
    (id : Text) (xs ys : List Effect)
    → All IsNoResult xs
    → count_answers id (xs ++ ys) ≡ count_answers id ys
unfolding count_answers
count_answers-quiet id [] ys h = refl
count_answers-quiet id (x ∷ xs) ys h =
    rw (quiet-is_answer id x h.0) (count_answers-quiet id xs ys h.1)

count_answers-AnswersOnce :
    (id id' : Text) (es : List Effect)
    → AnswersOnce id' es
    → count_answers id es ≡ (if equal id' id then 1 else 0)
unfolding count_answers
count_answers-AnswersOnce id id' es a =
    ap (count_answers id) a.shape ∙ count_answers-quiet id a.before _ a.quiet

pub count_answers-task :
    (id : Text) (t : Task)
    → count_answers id (effects_of_task t) ≡ (if equal t.command.request_id id then 1 else 0)
count_answers-task id t =
    count_answers-AnswersOnce id t.command.request_id _
      (handle-AnswersOnce t.env t.executor t.command)

-- However the effects of commands that run beside each other are interleaved, and whatever state each
-- handler finds, every request gets exactly as many results as commands were handled with its id: none
-- is lost, none is answered twice, and none is answered in place of another.
pub count_answers-Merged :
    (id : Text) (tasks : List Task) {zs : List Effect}
    → Merged (task_effects tasks) zs
    → count_answers id zs ≡ count_requests id tasks
unfolding count_answers count_requests
count_answers-Merged id [] merged_none = refl
count_answers-Merged id (t ∷ tasks) (merged_one m s) =
    ground
      (arith, count_answers-Shuffle id s, count_answers-task id t, count_answers-Merged id tasks m)
