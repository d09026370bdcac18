-- ===== src/Config/Secrets.antt =====
-- internal/config/config.go: values that look like a secret are kept out of manifests and hashes.
use trimetry.Base.{◌≡◌, refl, String, Bool, List, [], ◌∷◌, any, starts_with, str_eq, if◌then◌else◌}
use trimetry.Base.Dict.{Dict}
use trimetry.Config.Types.{Config}

abbrev pub secret_prefixes : List String
secret_prefixes = "sk-ant-" ∷ "sk-lf-" ∷ "sk_live_" ∷ "ghp_" ∷ "gho_" ∷ "github_pat_" ∷ "hf_" ∷ []

unfoldable pub looks_like_secret : String → Bool
looks_like_secret v = any (λ prefix. starts_with v prefix) secret_prefixes

unfoldable pub redact : String → String
redact v = if looks_like_secret v then "[REDACTED]" else v

unfoldable pub redact_all : Dict String → Dict String
redact_all [] = []
redact_all ((k, v) ∷ options) = (k, redact v) ∷ redact_all options

module _ {F : Type 0} where
  unfoldable pub redact_options : Config F → Dict String
  redact_options c = redact_all c.adapter.options

  -- The copy that is hashed: without the credentials, and with the options redacted.
  unfoldable pub redacted : Config F → Config F
  redacted c = record c {
    telemetry = record (c.telemetry) { secret_key = ""; public_key = ""; token = "" };
    adapter = record (c.adapter) { options = redact_options c };
  }

  -- `digest` is the SHA-256 of the YAML of a configuration, as a text.
  unfoldable pub effective_hash : (digest : Config F → String) → Config F → String
  effective_hash digest c = digest (redacted c)

  unfoldable pub hash : (digest : Config F → String) → Config F → String
  hash digest c = if str_eq c.raw_hash "" then effective_hash digest c else c.raw_hash

  -- The effective hash is the same whatever the keys and the token are, and for all options that are redacted
  -- to the same.
  pub effective_hash-credentials :
      (digest : Config F → String) (c : Config F) (secret_key public_key token : String)
      (options : Dict String)
      → redact_all options ≡ redact_all c.adapter.options
      → effective_hash digest (record c {
        telemetry = record (c.telemetry) {
          secret_key = secret_key;
          public_key = public_key;
          token = token;
        };
        adapter = record (c.adapter) { options = options };
      })
        ≡ effective_hash digest c
  unfolding effective_hash redacted redact_options
  effective_hash-credentials digest c secret_key public_key token options h = rw h refl
