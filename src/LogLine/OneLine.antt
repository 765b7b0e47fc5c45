-- ===== src/LogLine/OneLine.antt =====
-- `describeCommand` of client/commanddetail.go and the lines of the journal.
use claude_distant.Activity.Render.{OneLine}
use claude_distant.Common.{[], arith, if◌then◌else◌, inl, inr, is_empty, ◌++◌, ◌||◌, ◌↔◌, ◌∷◌, ◌⊎◌}
use claude_distant.LogLine.Describe.{
  describe_command, describe_decoded, describe_read_file, describe_run, describe_tool_params,
  describe_write_file, summary_of,
}
use claude_distant.LogLine.Fragments.{
  append-OneLine, choice-OneLine, describe_read_file-OneLine, describe_run-OneLine,
  describe_write_file-OneLine, raw_params_summary-OneLine,
}
use claude_distant.Protocol.{CommandMessage, Json}
use claude_distant.Text.{Text, codes, equal, trim_space}

summary_of-OneLine :
    {A : Type 0} (json : Json) (params : Text) (describe : A → Text) (o : Text ⊎ A)
    → ((p : A) → OneLine (describe p))
    → OneLine (summary_of json params describe o)
unfolding summary_of
summary_of-OneLine json params describe (inl err) h = raw_params_summary-OneLine json params
summary_of-OneLine json params describe (inr p) h = h p

describe_tool_params-OneLine :
    (json : Json) (tool params : Text) → OneLine (describe_tool_params json tool params)
unfolding describe_tool_params describe_decoded
describe_tool_params-OneLine json tool params =
    let is_shell = equal tool (codes "run_shell") in
    choice-OneLine (is_empty (trim_space params)) [] _ tt (
      choice-OneLine (is_shell || equal tool (codes "run_command")) _ _
        (summary_of-OneLine json params (describe_run is_shell) _ (describe_run-OneLine is_shell))
        (choice-OneLine (equal tool (codes "read_file")) _ _
          (summary_of-OneLine json params describe_read_file _ describe_read_file-OneLine)
          (choice-OneLine (equal tool (codes "write_file")) _ _
            (summary_of-OneLine json params describe_write_file _ describe_write_file-OneLine)
            (choice-OneLine (equal tool (codes "system_info")) [] _ tt
              (raw_params_summary-OneLine json params)))))

-- The tool's name, or what stands for a missing one, and the summary behind it.
abbrev named_tool : Text → Text
named_tool tool = if is_empty tool then codes "(outil non précisé)" else tool

abbrev with_summary : Text → Text → Text
with_summary summary named = if is_empty summary then named else named ++ (codes " : " ++ summary)

abbrev shown : Json → CommandMessage → Text
shown json cmd = with_summary (describe_tool_params json cmd.tool cmd.params) (named_tool cmd.tool)

with_summary-OneLine :
    (summary named : Text) → OneLine summary → OneLine named → OneLine (with_summary summary named)
with_summary-OneLine summary named h k =
    choice-OneLine (is_empty summary) named _ k
      (append-OneLine named _ k (append-OneLine (codes " : ") summary (omega arith) h))

OneLine-end : (s t : Text) → OneLine (s ++ t) → OneLine t
OneLine-end [] t h = h
OneLine-end (c ∷ s) t h = OneLine-end s t h.1

OneLine-start : (s t : Text) → OneLine (s ++ t) → OneLine s
OneLine-start [] t h = tt
OneLine-start (c ∷ s) t h = (h.0, OneLine-start s t h.1)

named_tool-end : (tool : Text) → OneLine (named_tool tool) → OneLine tool
named_tool-end [] h = tt
named_tool-end (c ∷ tool) h = h

with_summary-start : (summary named : Text) → OneLine (with_summary summary named) → OneLine named
with_summary-start [] named h = h
with_summary-start (c ∷ summary) named h = OneLine-start named _ h

-- What the journal says of a command is one line, whatever its parameters hold, exactly if the tool's
-- name and the request's id, which are shown as they come, are each one line.
pub describe_command_iff :
    (json : Json) (cmd : CommandMessage)
    → OneLine (describe_command json cmd) ↔ (OneLine cmd.tool × OneLine cmd.request_id)
unfolding describe_command
describe_command_iff json cmd =
    let tail = codes " (request " ++ (cmd.request_id ++ codes ")") in
    (
      (λ h. (
        named_tool-end cmd.tool (
            with_summary-start (describe_tool_params json cmd.tool cmd.params) (named_tool cmd.tool)
              (OneLine-start (shown json cmd) tail h)),
        OneLine-start cmd.request_id (codes ")") (
            OneLine-end (codes " (request ") (cmd.request_id ++ codes ")")
              (OneLine-end (shown json cmd) tail h)),
      )),
      (λ h.
          append-OneLine (shown json cmd) tail
            (with_summary-OneLine (describe_tool_params json cmd.tool cmd.params)
              (named_tool cmd.tool) (describe_tool_params-OneLine json cmd.tool cmd.params)
              (choice-OneLine (is_empty cmd.tool) (codes "(outil non précisé)") cmd.tool
                (omega arith) h.0))
            (append-OneLine (codes " (request ") _ (omega arith)
              (append-OneLine cmd.request_id (codes ")") h.1 (omega arith)))),
    )
