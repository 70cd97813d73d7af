-- ===== src/Policy/Config.antt =====
-- policy/global_regime_v1.py: the policy configuration, its validation and its loading.
use Prim.Native.String.{◌++◌ as text_append}
use defi_engine.Base.{
  String, Bool, Option, none, some, List, [], ◌∷◌, if◌then◌else◌, str_eq, is_nil,
}
use defi_engine.Base.Int.{ℤ}
use defi_engine.Truth.{Result, return, runtime_error, ◌>>=◌, or_raise}

pub record GlobalRegimePolicyRule : Type 0 where
  pub advisory_bias : String
  pub allow_new_long_hypotheses : Bool
  pub allow_new_short_hypotheses : Bool
  pub notes : String

pub record GlobalRegimePolicyConfig : Type 0 where
  pub version : ℤ
  pub condition_set : String
  pub status : String
  pub description : Option String
  pub regimes : List (String × GlobalRegimePolicyRule)

-- `config.regimes[key]`; `none` is the KeyError.
unfoldable pub lookup :
    String → List (String × GlobalRegimePolicyRule) → Option GlobalRegimePolicyRule
lookup k [] = none
lookup k ((j, rule) ∷ rest) = if str_eq j k then some rule else lookup k rest

-- _REQUIRED_REGIMES, sorted, and _NO_TRADE_REGIMES
abbrev pub required_regimes : List String
required_regimes = "long_friendly" ∷ "no_trade" ∷ "risk_off" ∷ "short_friendly" ∷ []

abbrev pub no_trade_regimes : List String
no_trade_regimes = "risk_off" ∷ "no_trade" ∷ []

unfoldable pub missing_from : List (String × GlobalRegimePolicyRule) → List String → List String
unfolding lookup
missing_from regimes [] = []
missing_from regimes (name ∷ names) = elim (lookup name regimes) [
  | none ↦ name ∷ missing_from regimes names
  | some _ ↦ missing_from regimes names
]

-- `validate_required_regimes`: `none` is the ValueError.
unfoldable pub validate_required_regimes :
    GlobalRegimePolicyConfig → Option GlobalRegimePolicyConfig
unfolding missing_from
validate_required_regimes config =
    if is_nil (missing_from config.regimes required_regimes) then some config else none

-- The policy file, and what the program takes from PyYAML, pydantic and hashlib: `text` is `none`
-- if the file cannot be read, `decode` is `none` if the text is no YAML mapping or a field has a
-- wrong type.
pub record PolicySource : Type 0 where
  pub path : String
  pub file_text : Option String
  pub decode : String → Option GlobalRegimePolicyConfig
  pub sha256 : String → String

pub record LoadedPolicyConfig : Type 0 where
  pub config : GlobalRegimePolicyConfig
  pub config_hash : String

abbrev pub valid_config : Option GlobalRegimePolicyConfig → Option GlobalRegimePolicyConfig
valid_config none = none
valid_config (some config) = validate_required_regimes config

unfoldable pub load_global_regime_policy_config : PolicySource → Result LoadedPolicyConfig
unfolding validate_required_regimes
load_global_regime_policy_config source = do
  raw_text ←
      or_raise source.file_text
        (runtime_error (text_append "Policy config could not be read: " source.path))
  config ←
      or_raise (valid_config (source.decode raw_text))
        (runtime_error (text_append "Policy config is invalid: " source.path))
  return (record { config = config; config_hash = source.sha256 raw_text })
