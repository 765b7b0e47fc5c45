-- ===== src/Tests/Sessions.antt =====
-- Runs of the sessions, the reconnects, the configuration and the window.
use claude_distant.Activity.Render.{OneLine}
use claude_distant.Base64.{Bytes}
use claude_distant.Common.{List, [], false, inl, inr, none, refl, some, ◌↔◌, ◌∷◌, ◌≡◌, ◌⊎◌}
use claude_distant.Executor.{Effect}
use claude_distant.Executor.Concurrent.{Shuffle, Task, from_left, shuffled}
use claude_distant.Gui.Connection.{gui_run_forever, gui_run_session}
use claude_distant.Gui.SameLoops.{SameLoop, SameSession, gui_run_forever_same, gui_run_session_same}
use claude_distant.LogLine.Describe.{describe_command}
use claude_distant.LogLine.OneLine.{describe_command_iff}
use claude_distant.Policy.{parse_policy, policy_auto, policy_name, policy_named}
use claude_distant.Policy.Prompt.{is_one_of}
use claude_distant.Protocol.{
  CommandMessage, Message, client_capabilities, new_register_message, type_command, type_registered,
  type_session_terminated,
}
use claude_distant.Session.{
  Inbound, InboundJson, received, run_session, session_failed, session_terminated,
}
use claude_distant.Session.Code.{IsCode, resolve_desired_code, resolve_desired_code-IsCode}
use claude_distant.Session.Config.{
  BuildDefaults, Config, Flags, config_from, config_of, ephemeral_code_enabled, is_truthy,
  make_config, parse_config_with_defaults, remove_on_exit_enabled,
}
use claude_distant.Session.Pace.{IsPaced, run_forever-IsPaced, sessions_due, sessions_in}
use claude_distant.Session.Reconnect.{Round, run_forever}
use claude_distant.Session.Resolved.{IsResolved, no_flags, parse_config_with_defaults-IsResolved}
use claude_distant.Tests.Setting.{client_with, machine, plain_json, write_note}
use claude_distant.Text.{
  Text, codes, equal, is_space, lower_rune, to_lower, trim_left, trim_right, trim_space,
}

abbrev inbox_json : InboundJson
inbox_json = record {
  unmarshal_registered = some;
  unmarshal_command =
      λ s. some (record { request_id = s; tool = codes "system_info"; params = [] });
}

abbrev messages : List Inbound
messages =
    received type_registered (codes "784123678")
    ∷ received type_command (codes "r1")
    ∷ received type_session_terminated []
    ∷ received type_command (codes "r2")
    ∷ []

abbrev lost_round : Round
lost_round = record {
  done_before = false;
  session = session_failed (codes "EOF");
  done_after = false;
  random = λ n. 0;
  done_waiting = false;
}

abbrev killed_now : Round
killed_now = record lost_round { session = session_terminated }

run_forever-IsPaced_example :
    let rounds = lost_round ∷ lost_round ∷ [] in
    (sessions_in (run_forever rounds).0 ≡ sessions_due rounds) × IsPaced 0 (run_forever rounds).0
run_forever-IsPaced_example =
    run_forever-IsPaced (lost_round ∷ lost_round ∷ []) ((λ n h. h), ((λ n h. h), tt))

abbrev some_hmac : Text → Text → Bytes
some_hmac secret id = 0 ∷ 0 ∷ 0 ∷ 0 ∷ 0 ∷ 0 ∷ 1 ∷ 2 ∷ 3 ∷ []

resolve_desired_code-IsCode_example :
    IsCode (resolve_desired_code some_hmac false [] (some (codes "machine")))
resolve_desired_code-IsCode_example =
    resolve_desired_code-IsCode some_hmac false [] (some (codes "machine"))

abbrev no_env : Text → Text
no_env name = []

abbrev built_in : BuildDefaults
built_in = record { url = codes "wss://r"; token = codes "t"; identity_secret = [] }

abbrev parse_none : List Text → Text ⊎ Flags
parse_none [] = inr no_flags
parse_none (arg ∷ args) = inl (codes "flag provided but not defined")

abbrev expected_config : Config
expected_config = record {
  url = codes "wss://r";
  token = codes "t";
  policy = policy_auto;
  insecure = false;
  remove_on_exit = false;
  identity_secret = [];
  ephemeral_code = false;
}

expected : parse_config_with_defaults parse_none [] no_env built_in ≡ inr expected_config
unfolding parse_config_with_defaults config_from config_of make_config trim_space trim_left
    trim_right is_space parse_policy policy_named policy_name to_lower lower_rune equal
    remove_on_exit_enabled ephemeral_code_enabled is_truthy is_one_of
expected = refl

parse_config_with_defaults-IsResolved_example :
    (f : Flags) × (parse_none [] ≡ inr f) × IsResolved f no_env built_in expected_config
parse_config_with_defaults-IsResolved_example =
    parse_config_with_defaults-IsResolved parse_none [] no_env built_in expected_config expected

abbrev broken_id : CommandMessage
broken_id = record { request_id = codes "r\n1"; tool = codes "system_info"; params = [] }

describe_command_iff_example :
    OneLine (describe_command plain_json broken_id)
    ↔ (OneLine (codes "system_info") × OneLine (codes "r\n1"))
describe_command_iff_example = describe_command_iff plain_json broken_id

abbrev one_task : Task
one_task = record { env = machine; executor = client_with policy_auto; command = write_note }

alone : (es : List Effect) → Shuffle es [] es
alone [] = shuffled
alone (x ∷ es) = from_left (alone es)

abbrev register_note : Message
register_note =
    new_register_message (codes "linux") (codes "host") (codes "0.3.0") client_capabilities []

gui_run_session_same_example :
    SameSession
      (gui_run_session inbox_json (codes "host") (codes "linux") none none register_note messages)
      (run_session inbox_json none none register_note messages)
gui_run_session_same_example =
    gui_run_session_same inbox_json (codes "host") (codes "linux") none none register_note messages

gui_run_forever_same_example :
    SameLoop
      (gui_run_forever (lost_round ∷ killed_now ∷ []))
      (run_forever (lost_round ∷ killed_now ∷ []))
gui_run_forever_same_example = gui_run_forever_same (lost_round ∷ killed_now ∷ [])
