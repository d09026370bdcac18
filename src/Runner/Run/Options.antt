-- ===== src/Runner/Run/Options.antt =====
-- What BuildManifest of internal/runner/runner.go writes of the adapter's options.
use trimetry.Base.{
  ◌≡◌, refl, String, Bool, true, false, [], ◌∷◌, any, starts_with, is_empty, inl, inr, Bool-cases,
  if◌then◌else◌, arith,
}
use trimetry.Base.Dict.{Dict}
use trimetry.Model.Value.{Fields, text, object, end, field, put}
use trimetry.Model.Trial.{BenchmarkRun}
use trimetry.Config.Types.{Config}
use trimetry.Config.Secrets.{looks_like_secret, redact, redact_all, redact_options}
use trimetry.Runner.Run.{option_fields, adapter_fields, build_manifest}

-- The text starts like a key of Anthropic, Langfuse, Stripe, GitHub or Hugging Face.
unfoldable pub starts_like_key : String → Bool
starts_like_key v =
    any (λ prefix. starts_with v prefix)
      ("hf_" ∷ "ghp_" ∷ "gho_" ∷ "github_pat_" ∷ "sk-ant-" ∷ "sk-lf-" ∷ "sk_live_" ∷ [])

-- The fields show the options in their order: each under its key, with its value unless that starts like a key.
pub data IsRedacted : Dict String → Fields → Type 0 where
  no_options : IsRedacted [] end
  shown :
      (k v : String) (options : Dict String) (fs : Fields)
      → starts_like_key v ≡ false
      → IsRedacted options fs
      → IsRedacted ((k, v) ∷ options) (field k (text v) fs)
  hidden :
      (k v : String) (options : Dict String) (fs : Fields)
      → starts_like_key v ≡ true
      → IsRedacted options fs
      → IsRedacted ((k, v) ∷ options) (field k (text "[REDACTED]") fs)

looks_like_secret_lem : (v : String) → looks_like_secret v ≡ starts_like_key v
unfolding looks_like_secret starts_like_key
looks_like_secret_lem v = ground arith

option_fields-IsRedacted :
    (options : Dict String) → IsRedacted options (option_fields (redact_all options))
unfolding option_fields redact_all redact
option_fields-IsRedacted [] = no_options
option_fields-IsRedacted ((k, v) ∷ options) =
    let rest = option_fields-IsRedacted options in
    elim (Bool-cases (starts_like_key v)) [
      | inl e ↦ rw (looks_like_secret_lem v, e) (hidden k v options _ e rest)
      | inr e ↦ rw (looks_like_secret_lem v, e) (shown k v options _ e rest)
    ]

-- The adapter's part of the manifest is its type and, where there are options, all of them in their order, under
-- their keys: a value that starts with one of the seven prefixes of keys is replaced by `[REDACTED]`, and
-- every other value is written as it is.
pub build_manifest-options :
    {F : Type 0} (digest : Config F → String) (c : Config F) (run : BenchmarkRun F) (dry_run : Bool)
    → (fs : Fields) × IsRedacted c.adapter.options fs
      × ((build_manifest digest c run dry_run).adapter
          ≡ field "type"
              (text c.adapter.kind)
              (if is_empty c.adapter.options then end else field "options" (object fs) end))
unfolding build_manifest adapter_fields put redact_options
build_manifest-options digest c run dry_run = (
  option_fields (redact_all c.adapter.options),
  option_fields-IsRedacted c.adapter.options,
  elim (Bool-cases (is_empty c.adapter.options)) [ inl e ↦ rw e refl | inr e ↦ rw e refl ],
)
