-- ===== src/Session/Resolved.antt =====
-- What `parseConfigWithDefaults` of client/main.go makes of its three sources.
use claude_distant.Common.{
  Bool, Bool-cases, List, Option, [], ap, arith, false, inl, inr, is_empty, none, refl, some, subst,
  sym, ◌||◌, ◌∙◌, ◌∷◌, ◌≡◌, ◌⊎◌,
}
use claude_distant.Policy.{Policy, parse_policy, policy_auto, policy_name, policy_named}
use claude_distant.Policy.Prompt.{is_one_of}
use claude_distant.Session.Code.{or_else}
use claude_distant.Session.Config.{
  BuildDefaults, Config, ConfigError, Flags, chosen_policy, chosen_token, chosen_url, config_from,
  config_of, ephemeral_code_enabled, is_truthy, make_config, parse_config_with_defaults,
  remove_on_exit_enabled,
}
use claude_distant.Text.{
  Text, codes, equal, is_space, lower_rune, to_lower, trim_left, trim_right, trim_space,
}

-- The first text of a list that is not empty, or the empty text.
unfoldable pub first_given : List Text → Text
first_given [] = []
first_given ([] ∷ ts) = first_given ts
first_given ((c ∷ t) ∷ ts) = c ∷ t

first_given_three : (a b c : Text) → or_else (or_else a b) c ≡ first_given (a ∷ b ∷ c ∷ [])
unfolding first_given
first_given_three [] [] [] = refl
first_given_three [] [] (z ∷ c) = refl
first_given_three [] (y ∷ b) c = refl
first_given_three (x ∷ a) b c = refl

-- The sources of a setting, in their order.
abbrev pub sources : Text → (Text → Text) → Text → Text → List Text
sources flag getenv name fallback = flag ∷ getenv name ∷ fallback ∷ []

-- An environment variable that switches something on, in any case and with white space around it.
abbrev pub says_yes : Text → Bool
says_yes v =
    let word = to_lower (trim_space v) in
    equal word (codes "1")
    || equal word (codes "true")
    || equal word (codes "yes")
    || equal word (codes "on")

is_truthy-says_yes : (v : Text) → is_truthy v ≡ says_yes v
unfolding is_truthy is_one_of
is_truthy-says_yes v = ground arith

-- A configuration that agrees with the flags, the environment and the compiled-in values.
pub record IsResolved (f : Flags) (getenv : Text → Text) (d : BuildDefaults) (c : Config)
    : Type 0 where
  pub url : c.url ≡ first_given (sources f.url getenv (codes "CLAUDE_DISTANT_URL") d.url)
  pub token : c.token ≡ first_given (sources f.token getenv (codes "CLAUDE_DISTANT_TOKEN") d.token)
  pub url_given : is_empty (trim_space c.url) ≡ false
  pub token_given : is_empty (trim_space c.token) ≡ false
  pub policy :
      parse_policy
        (first_given (sources f.policy getenv (codes "CLAUDE_DISTANT_POLICY") (codes "auto")))
      ≡ some c.policy
  pub insecure : c.insecure ≡ f.insecure
  pub remove_on_exit :
      c.remove_on_exit
      ≡ (f.remove_on_exit || says_yes (getenv (codes "CLAUDE_DISTANT_REMOVE_ON_EXIT")))
  pub ephemeral_code :
      c.ephemeral_code
      ≡ (f.ephemeral_code || says_yes (getenv (codes "CLAUDE_DISTANT_EPHEMERAL_CODE")))
  pub identity_secret : c.identity_secret ≡ d.identity_secret

right_or : Config → ConfigError ⊎ Config → Config
right_or c (inl err) = c
right_or c (inr c') = c'

make_config-IsResolved :
    (f : Flags) (getenv : Text → Text) (d : BuildDefaults) (o : Option Policy) (c : Config)
    → is_empty (trim_space (chosen_url f getenv d)) ≡ false
    → is_empty (trim_space (chosen_token f getenv d)) ≡ false
    → parse_policy (chosen_policy f getenv) ≡ o
    → make_config f getenv d (chosen_url f getenv d) (chosen_token f getenv d) o ≡ inr c
    → IsResolved f getenv d c
unfolding make_config right_or policy_name remove_on_exit_enabled ephemeral_code_enabled
make_config-IsResolved f getenv d none c hu ht hp h = cc
make_config-IsResolved f getenv d (some policy) c hu ht hp h =
    subst (λ (x : Config). IsResolved f getenv d x) (ap (right_or c) h)
      (record {
        url = first_given_three f.url (getenv (codes "CLAUDE_DISTANT_URL")) d.url;
        token = first_given_three f.token (getenv (codes "CLAUDE_DISTANT_TOKEN")) d.token;
        url_given = hu;
        token_given = ht;
        policy =
            ap parse_policy (
              sym (
                first_given_three f.policy (getenv (codes "CLAUDE_DISTANT_POLICY")) (codes "auto")))
            ∙ hp;
        insecure = refl;
        remove_on_exit =
            ap (◌||◌ f.remove_on_exit)
              (is_truthy-says_yes (getenv (codes "CLAUDE_DISTANT_REMOVE_ON_EXIT")));
        ephemeral_code =
            ap (◌||◌ f.ephemeral_code)
              (is_truthy-says_yes (getenv (codes "CLAUDE_DISTANT_EPHEMERAL_CODE")));
        identity_secret = refl;
      })

config_of-IsResolved :
    (f : Flags) (getenv : Text → Text) (d : BuildDefaults) (c : Config)
    → config_of f getenv d ≡ inr c
    → IsResolved f getenv d c
unfolding config_of
config_of-IsResolved f getenv d c h =
    elim (Bool-cases (is_empty (trim_space (chosen_url f getenv d)))) [
      | inl missing ↦ cc (rw (missing, config_of) at h)
      | inr hu ↦ elim (Bool-cases (is_empty (trim_space (chosen_token f getenv d)))) [
        | inl missing ↦ cc (rw (hu, missing, config_of) at h)
        | inr ht ↦
            make_config-IsResolved f getenv d (parse_policy (chosen_policy f getenv)) c hu ht refl
              (rw (hu, ht, config_of) at h)
      ]
    ]

config_from-IsResolved :
    (getenv : Text → Text) (d : BuildDefaults) (o : Text ⊎ Flags) (c : Config)
    → config_from getenv d o ≡ inr c
    → (f : Flags) × (o ≡ inr f) × IsResolved f getenv d c
unfolding config_from
config_from-IsResolved getenv d (inl err) c h = cc
config_from-IsResolved getenv d (inr f) c h = (f, refl, config_of-IsResolved f getenv d c h)

-- A configuration that is accepted agrees with its sources in every field. The relay's address and the
-- token are the first that is given of the flag, the environment variable and the compiled-in value, and
-- neither is blank; the policy is the one that the flag or else the environment names, and `auto` where
-- neither does; the removal of the binary and the ephemeral code are on exactly if the flag is set or the
-- environment variable says `1`, `true`, `yes` or `on`; `insecure` is the flag's, and the identity secret
-- the compiled-in one. So no client starts with a policy that it does not know.
pub parse_config_with_defaults-IsResolved :
    (parse_flags : List Text → Text ⊎ Flags) (args : List Text) (getenv : Text → Text)
    (d : BuildDefaults) (c : Config)
    → parse_config_with_defaults parse_flags args getenv d ≡ inr c
    → (f : Flags) × (parse_flags args ≡ inr f) × IsResolved f getenv d c
unfolding parse_config_with_defaults
parse_config_with_defaults-IsResolved parse_flags args getenv d c h =
    config_from-IsResolved getenv d (parse_flags args) c h

-- The flags of a command line without arguments.
abbrev pub no_flags : Flags
no_flags = record {
  url = [];
  token = [];
  policy = [];
  insecure = false;
  remove_on_exit = false;
  ephemeral_code = false;
}

auto_read : parse_policy (codes "auto") ≡ some policy_auto
unfolding parse_policy policy_named equal to_lower trim_space lower_rune is_space trim_left
    trim_right
auto_read = refl

unset_exit :
    (getenv : Text → Text)
    → getenv (codes "CLAUDE_DISTANT_REMOVE_ON_EXIT") ≡ []
    → remove_on_exit_enabled false getenv ≡ false
unfolding remove_on_exit_enabled is_truthy is_one_of equal to_lower trim_space trim_left trim_right
unset_exit getenv h = rw h refl

config_of_defaults :
    (getenv : Text → Text) (d : BuildDefaults)
    → ((name : Text) → getenv name ≡ [])
    → is_empty (trim_space d.url) ≡ false
    → is_empty (trim_space d.token) ≡ false
    → (c : Config) × (config_of no_flags getenv d ≡ inr c)
      × (c.policy ≡ policy_auto)
      × (c.url ≡ d.url)
      × (c.token ≡ d.token)
      × (c.remove_on_exit ≡ false)
unfolding config_of make_config policy_name
config_of_defaults getenv d he du dt =
    let exit_unset : remove_on_exit_enabled false getenv ≡ false =
      unset_exit getenv (he (codes "CLAUDE_DISTANT_REMOVE_ON_EXIT")) in
    rw
      (
        he (codes "CLAUDE_DISTANT_URL"),
        he (codes "CLAUDE_DISTANT_TOKEN"),
        he (codes "CLAUDE_DISTANT_POLICY"),
        du,
        dt,
        auto_read,
      )
      (_, refl, refl, refl, refl, exit_unset)

-- A customized build starts with no argument at all: where no flag is set, the environment has nothing
-- and the compiled-in address and token are not blank, there is a configuration with these two, the
-- policy `auto`, and the binary left in place.
pub parse_config_with_defaults_customized :
    (parse_flags : List Text → Text ⊎ Flags) (getenv : Text → Text) (d : BuildDefaults)
    → parse_flags [] ≡ inr no_flags
    → ((name : Text) → getenv name ≡ [])
    → is_empty (trim_space d.url) ≡ false
    → is_empty (trim_space d.token) ≡ false
    → (c : Config) × (parse_config_with_defaults parse_flags [] getenv d ≡ inr c)
      × (c.policy ≡ policy_auto)
      × (c.url ≡ d.url)
      × (c.token ≡ d.token)
      × (c.remove_on_exit ≡ false)
unfolding parse_config_with_defaults config_from
parse_config_with_defaults_customized parse_flags getenv d hf he du dt =
    let (c, made, auto, url, token, kept) = config_of_defaults getenv d he du dt in
    (c, ap (config_from getenv d) hf ∙ made, auto, url, token, kept)
