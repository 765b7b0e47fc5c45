-- ===== src/Session/Config.antt =====
-- `parseConfigWithDefaults` of client/main.go, and the tests of an environment variable in
-- client/cleanup_binary.go. The flag set of the standard library is a parameter.
use claude_distant.Common.{
  Bool, List, Option, [], if◌then◌else◌, inl, inr, is_empty, none, some, ◌||◌, ◌∷◌, ◌⊎◌,
}
use claude_distant.Policy.{Policy, parse_policy, policy_auto, policy_name}
use claude_distant.Policy.Prompt.{is_one_of}
use claude_distant.Session.Code.{or_else}
use claude_distant.Text.{Text, codes, to_lower, trim_space}

-- `isTruthy`
abbrev pub truthy_words : List Text
truthy_words = codes "1" ∷ codes "true" ∷ codes "yes" ∷ codes "on" ∷ []

unfoldable pub is_truthy : Text → Bool
unfolding is_one_of
is_truthy v = is_one_of (to_lower (trim_space v)) truthy_words

-- `removeOnExitEnabled`
unfoldable pub remove_on_exit_enabled : Bool → (Text → Text) → Bool
unfolding is_truthy
remove_on_exit_enabled flag_set getenv =
    flag_set || is_truthy (getenv (codes "CLAUDE_DISTANT_REMOVE_ON_EXIT"))

-- `ephemeralCodeEnabled`
unfoldable pub ephemeral_code_enabled : Bool → (Text → Text) → Bool
unfolding is_truthy
ephemeral_code_enabled flag_set getenv =
    flag_set || is_truthy (getenv (codes "CLAUDE_DISTANT_EPHEMERAL_CODE"))

-- The values of the flags.
pub record Flags : Type 0 where
  pub url : Text
  pub token : Text
  pub policy : Text
  pub insecure : Bool
  pub remove_on_exit : Bool
  pub ephemeral_code : Bool

-- `buildDefaults`
pub record BuildDefaults : Type 0 where
  pub url : Text
  pub token : Text
  pub identity_secret : Text

-- `config`
pub record Config : Type 0 where
  pub url : Text
  pub token : Text
  pub policy : Policy
  pub insecure : Bool
  pub remove_on_exit : Bool
  pub identity_secret : Text
  pub ephemeral_code : Bool

pub data ConfigError : Type 0 where
  bad_flags : Text → ConfigError
  url_missing token_missing bad_policy : ConfigError

abbrev pub chosen_url : Flags → (Text → Text) → BuildDefaults → Text
chosen_url f getenv d = or_else (or_else f.url (getenv (codes "CLAUDE_DISTANT_URL"))) d.url

abbrev pub chosen_token : Flags → (Text → Text) → BuildDefaults → Text
chosen_token f getenv d = or_else (or_else f.token (getenv (codes "CLAUDE_DISTANT_TOKEN"))) d.token

abbrev pub chosen_policy : Flags → (Text → Text) → Text
chosen_policy f getenv =
    or_else (or_else f.policy (getenv (codes "CLAUDE_DISTANT_POLICY"))) (policy_name policy_auto)

-- Behind the flags: the two settings that must be given, the policy, and the whole.
unfoldable pub make_config :
    Flags → (Text → Text) → BuildDefaults → Text → Text → Option Policy → ConfigError ⊎ Config
make_config f getenv d url token none = inl bad_policy
make_config f getenv d url token (some policy) = inr (record {
  url = url;
  token = token;
  policy = policy;
  insecure = f.insecure;
  remove_on_exit = remove_on_exit_enabled f.remove_on_exit getenv;
  identity_secret = d.identity_secret;
  ephemeral_code = ephemeral_code_enabled f.ephemeral_code getenv;
})

unfoldable pub config_of : Flags → (Text → Text) → BuildDefaults → ConfigError ⊎ Config
unfolding make_config policy_name
config_of f getenv d =
    let url = chosen_url f getenv d in
    let token = chosen_token f getenv d in
    if is_empty (trim_space url)
    then inl url_missing
    else if is_empty (trim_space token)
    then inl token_missing
    else make_config f getenv d url token (parse_policy (chosen_policy f getenv))

-- Behind the flags, with the error of their parse.
unfoldable pub config_from : (Text → Text) → BuildDefaults → Text ⊎ Flags → ConfigError ⊎ Config
unfolding config_of
config_from getenv d (inl err) = inl (bad_flags err)
config_from getenv d (inr f) = config_of f getenv d

-- `parseConfigWithDefaults`
unfoldable pub parse_config_with_defaults :
    (List Text → Text ⊎ Flags) → List Text → (Text → Text) → BuildDefaults → ConfigError ⊎ Config
unfolding config_from
parse_config_with_defaults parse_flags args getenv d = config_from getenv d (parse_flags args)
