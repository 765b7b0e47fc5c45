-- ===== src/Policy.antt =====
-- client/policy.go: the local guard-rail policy, its controller and the console prompt.
-- The destructive patterns are in Policy/Patterns.
pub mod Patterns
pub mod Destructive
pub mod Dangerous
pub mod Prompt
use claude_distant.Common.{Option, if◌then◌else◌, none, some}
use claude_distant.Text.{Text, codes, equal, to_lower, trim_space}

pub data Policy : Type 0 where
  policy_auto policy_confirm policy_deny : Policy

unfoldable pub policy_name : Policy → Text
policy_name policy_auto = codes "auto"
policy_name policy_confirm = codes "confirm"
policy_name policy_deny = codes "deny"

-- The `switch` of `ParsePolicy`.
unfoldable pub policy_named : Text → Option Policy
policy_named name =
    if equal name (codes "auto")
    then some policy_auto
    else if equal name (codes "confirm")
    then some policy_confirm
    else if equal name (codes "deny")
    then some policy_deny
    else none

-- `ParsePolicy`; `none` is the error that names the three policies.
unfoldable pub parse_policy : Text → Option Policy
unfolding policy_named
parse_policy s = policy_named (to_lower (trim_space s))

-- `PolicyController`: one value behind a lock, which makes `Get` and `Set` atomic.
pub record PolicyController : Type 0 where
  pub p : Policy

unfoldable pub get : PolicyController → Policy
get c = c.p

unfoldable pub set : Policy → PolicyController → PolicyController
set p c = record c { p = p }
