-- ===== src/LogLine/Describe.antt =====
-- `describeCommand` and its helpers.
use claude_distant.Base64.{base64_decoded_len}
use claude_distant.Common.{
  Bool, List, Option, [], false, if◌then◌else◌, inl, inr, is_empty, none, not, some, true, ◌&&◌,
  ◌++◌, ◌||◌, ◌∷◌, ◌⊎◌,
}
use claude_distant.Common.Int.{is_positive, pos_part}
use claude_distant.LogLine.{sanitize_log_line}
use claude_distant.Protocol.{CommandMessage, Json, ReadFileParams, RunParams, WriteFileParams}
use claude_distant.Text.{Text, codes, equal, trim_space}
use claude_distant.Text.Decimal.{decimal}

-- `pathSummary`
unfoldable pub path_summary : Text → Text
path_summary path =
    let s = sanitize_log_line path in if is_empty s then codes "(chemin manquant)" else s

-- `rawParamsSummary`
unfoldable pub raw_params_summary : Json → Text → Text
raw_params_summary json params = elim (json.compact params) [
  | none ↦ sanitize_log_line params
  | some compact ↦ sanitize_log_line compact
]

-- `strings.Join(extras, ", ")`
unfoldable pub join_extras : List Text → Text
join_extras [] = []
join_extras (x ∷ []) = x
join_extras (x ∷ y ∷ xs) = x ++ (codes ", " ++ join_extras (y ∷ xs))

-- ` [extras]` behind the summary, if there are any.
unfoldable pub with_extras : Text → List Text → Text
unfolding join_extras
with_extras summary [] = summary
with_extras summary (x ∷ xs) = summary ++ (codes " [" ++ (join_extras (x ∷ xs) ++ codes "]"))

-- `if cond { extras = append(extras, s) }`
unfoldable pub extra_if : Bool → Text → List Text
extra_if true s = s ∷ []
extra_if false s = []

-- `case "run_shell", "run_command"`
unfoldable pub describe_run : Bool → RunParams → Text
unfolding with_extras extra_if
describe_run is_shell p =
    let summary = sanitize_log_line p.command in
    let shell = trim_space p.shell in
    with_extras (if is_empty summary then codes "(commande vide)" else summary) (
      extra_if (not (is_empty shell) && is_shell) (codes "shell=" ++ sanitize_log_line shell)
      ++ extra_if (is_positive p.timeout)
          (codes "timeout=" ++ (decimal (pos_part p.timeout) ++ codes "s")))

-- `case "read_file"`
unfoldable pub describe_read_file : ReadFileParams → Text
unfolding with_extras extra_if path_summary
describe_read_file p = with_extras (path_summary p.path) (
    extra_if (is_positive p.offset) (codes "offset=" ++ decimal (pos_part p.offset))
    ++ extra_if (is_positive p.max_bytes) (codes "max_bytes=" ++ decimal (pos_part p.max_bytes)))

abbrev pub is_false : Option Bool → Bool
is_false none = false
is_false (some b) = not b

-- `case "write_file"`: the payload is not shown, only its size.
unfoldable pub describe_write_file : WriteFileParams → Text
unfolding with_extras extra_if path_summary
describe_write_file p =
    let mode = trim_space p.mode in
    with_extras
      (path_summary p.path
        ++ (codes " (" ++ (decimal (base64_decoded_len p.content_base64) ++ codes " octets)")))
      (extra_if p.create_dirs (codes "create_dirs")
        ++ (extra_if (is_false p.overwrite) (codes "overwrite=false")
            ++ extra_if (not (is_empty mode)) (codes "mode=" ++ sanitize_log_line mode)))

-- Each case behind its decoding: what cannot be decoded is shown raw.
unfoldable pub summary_of : {A : Type 0} → Json → Text → (A → Text) → Text ⊎ A → Text
unfolding raw_params_summary
summary_of json params describe (inl err) = raw_params_summary json params
summary_of json params describe (inr p) = describe p

-- The `switch` of `describeToolParams`, for params that are not blank.
unfoldable pub describe_decoded : Json → Text → Text → Text
unfolding summary_of describe_run describe_read_file describe_write_file
describe_decoded json tool params =
    if equal tool (codes "run_shell") || equal tool (codes "run_command")
    then summary_of json params (describe_run (equal tool (codes "run_shell")))
        (json.unmarshal_run params)
    else if equal tool (codes "read_file")
    then summary_of json params describe_read_file (json.unmarshal_read_file params)
    else if equal tool (codes "write_file")
    then summary_of json params describe_write_file (json.unmarshal_write_file params)
    else if equal tool (codes "system_info")
    then []
    else raw_params_summary json params

-- `describeToolParams`
unfoldable pub describe_tool_params : Json → Text → Text → Text
unfolding describe_decoded
describe_tool_params json tool params =
    if is_empty (trim_space params) then [] else describe_decoded json tool params

-- `describeCommand`. The tool's name and the request's id are shown as they came.
unfoldable pub describe_command : Json → CommandMessage → Text
unfolding describe_tool_params
describe_command json cmd =
    let line = if is_empty cmd.tool then codes "(outil non précisé)" else cmd.tool in
    let summary = describe_tool_params json cmd.tool cmd.params in
    let shown = if is_empty summary then line else line ++ (codes " : " ++ summary) in
    shown ++ (codes " (request " ++ (cmd.request_id ++ codes ")"))
