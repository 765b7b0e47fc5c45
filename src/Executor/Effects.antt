-- ===== src/Executor/Effects.antt =====
-- A property of every effect of the pieces that the handlers of client/executor.go are made of.
use claude_distant.Activity.{ActivityKind}
use claude_distant.Common.{
  All, All-append, Bool, List, Option, [], false, if◌then◌else◌, none, some, suc, true, ℕ, ◌∷◌,
}
use claude_distant.Executor.{
  Command, Effect, Env, Executor, Process, ProcessEnd, context_done, emit_activity, event, exited,
  killed, started, wait_failed, wrote,
}
use claude_distant.Executor.Files.{chunk_effects}
use claude_distant.Executor.Run.{Pumps, both_run, process_end, pump, runs, start_and_stream}
use claude_distant.FileTransfer.Read.{Chunk}
use claude_distant.Protocol.{StreamKind, new_file_chunk_message, new_stream_message}
use claude_distant.Text.{Text}

module _ {ℓ κ} {A : Type ℓ} (P : A → Type κ) where
  pub choice-All : (b : Bool) (xs ys : List A) → All P xs → All P ys → All P (if b then xs else ys)
  choice-All true xs ys h k = h
  choice-All false xs ys h k = k

  pub if-All : (b : Bool) (xs : List A) → All P xs → All P (if b then xs else [])
  if-All b xs h = choice-All b xs [] h tt

module _ {κ} (P : Effect → Type κ) where
  pub emit_activity-All :
      (e : Executor) (kind : ActivityKind) (detail : Text)
      → P (event kind detail)
      → All P (emit_activity e kind detail)
  unfolding emit_activity
  emit_activity-All e kind detail h = if-All P e.has_events (event kind detail ∷ []) (h, tt)

  pub pump-All :
      (env : Env) (id : Text) (n : ℕ) (p : Pumps) (output : List (StreamKind × Text))
      → ((kind : StreamKind) (text : Text) → P (wrote (new_stream_message id kind text)))
      → All P (pump env id n p output)
  unfolding pump
  pump-All env id n p [] h = tt
  pump-All env id n p ((kind, text) ∷ output) h =
      choice-All P (runs p kind) _ _ (h kind text, pump-All env id (suc n) _ output h)
        (pump-All env id n p output h)

  pub chunk_effects-All :
      (id : Text) (cs : List Chunk)
      → ((seq : ℕ) (text : Text) → P (wrote (new_file_chunk_message id seq text)))
      → All P (chunk_effects id cs)
  unfolding chunk_effects
  chunk_effects-All id [] h = tt
  chunk_effects-All id (c ∷ cs) h = (h c.seq c.data_base64, chunk_effects-All id cs h)

  pub process_end-All : (ended : ProcessEnd) → P killed → All P (process_end ended).2
  unfolding process_end
  process_end-All (exited exit_code) h = tt
  process_end-All (wait_failed err) h = tt
  process_end-All (context_done err) h = (h, tt)

  pub start_and_stream-All :
      (pipe start : Option Text) (env : Env) (id : Text) (n : ℕ) (command : Command)
      (proc : Process)
      → P (started command)
      → P killed
      → ((kind : StreamKind) (text : Text) → P (wrote (new_stream_message id kind text)))
      → All P (start_and_stream pipe start env id n command proc).2
  unfolding start_and_stream
  start_and_stream-All (some err) start env id n command proc h k s = tt
  start_and_stream-All none (some err) env id n command proc h k s = tt
  start_and_stream-All none none env id n command proc h k s = (
    h,
    All-append P _ _ (pump-All env id n both_run proc.output s) (process_end-All proc.ended k),
  )
