-- ===== src/Tests/Sample.antt =====
-- Inputs that the tests share, with natural numbers in the place of `float64`.
use trimetry.Base.{
  ℕ, zero, suc, ◌+◌, ◌-◌, ◌*◌, ◌/◌, true, false, none, some, List, [], ◌∷◌, ltb, ◌==◌,
}
use trimetry.Base.Int.{ℤ, pos, pos_part}
use trimetry.Base.Clock.{zero_time}
use trimetry.Base.Float.{FloatOps}
use trimetry.Model.Value.{end}
use trimetry.Base.Decimal.{decimal}
use trimetry.Display.Format.{Formats}
use trimetry.Report.Write.{Disk}
use trimetry.Model.Trial.{Scenario, ModelConfig, Trial, ExecutionStatus, BenchmarkRun, RunStatus}
use trimetry.Adapter.Types.{ExecutionResult, StepDetail, completed_step, generation, tool}
use trimetry.Evaluator.{Reasons}
use trimetry.Config.Types.{Config}
use trimetry.Runner.Types.{TrialSpec, Executor, Surroundings, Answer}

abbrev pub natural_ops : FloatOps
natural_ops = record {
  Float = ℕ;
  of_int = pos_part;
  add = λ a b. a + b;
  sub = λ a b. a - b;
  mul = λ a b. a * b;
  div = λ a b. a / b;
  lt = ltb;
  eq = λ a b. a == b;
  floor = pos;
  ceil = pos;
  round = λ a. a;
  abs = λ a. a;
  sqrt = λ a. a;
  log10 = λ a. a;
  pow = λ a b. a;
  is_nan = λ a. false;
  is_inf = λ a. false;
  sort = λ l. l;
}

abbrev pub reasons : Reasons
reasons = record {
  contains = λ s. s;
  does_not_contain = λ s. s;
  status = λ s. "status";
  output_length = λ n. "length";
}

abbrev pub scenario : Scenario
scenario = record {
  scenario_id = "greet";
  scenario_version = "1";
  name = "Greeting";
  input = "Say hello";
  metadata = end;
  timeout_seconds = pos 60;
  expected_output = "hello";
}

abbrev pub sonnet : ModelConfig ℕ
sonnet = record {
  name = "sonnet";
  provider = "anthropic";
  parameters = end;
  pricing = some (record { input_per_m_token = 3; output_per_m_token = 15 });
}

abbrev pub trial : Trial ℕ
trial = record {
  trial_id = "trial-1";
  benchmark_run_id = "run-1";
  scenario_id = "greet";
  scenario_version = "1";
  trial_number = 1;
  model_name = "sonnet";
  model_provider = "anthropic";
  model_parameters = end;
  started_at = zero_time;
  finished_at = none;
  execution_status = ExecutionStatus.completed;
  error_type = none;
  error_message = "";
  output = "hello";
  metrics = none;
  evaluations = [];
}

abbrev pub spec : TrialSpec ℕ
spec = record { trial = trial; scenario = scenario; input = "Say hello"; pricing = sonnet.pricing }

abbrev pub executor : ℤ → Executor
executor retries = record {
  adapter_name = "claude";
  concurrency = pos 2;
  retries = retries;
  flush_on_trial_end = true;
  enrichment_dir = "";
  benchmark_name = "bench";
}

abbrev pub steps : List StepDetail
steps = completed_step generation "llm" ∷ completed_step tool "Read" ∷ []

abbrev pub answered : ExecutionResult ℕ
answered = record {
  output = "hello";
  started_at = pos 1_000_000;
  finished_at = pos 5_000_000;
  exit_code = pos 0;
  stderr = "";
  error = none;
  tokens = none;
  steps = steps;
  ttft_ms = none;
  cost_usd = some 2;
  session_id = "";
}

-- The adapter fails to run at first, and then answers.
abbrev pub answer : ℕ → Answer ℕ
answer zero = record { result = none; exec_err = some "exec: not found"; ctx_err = false }
answer (suc n) = record { result = some answered; exec_err = none; ctx_err = false }

abbrev pub surroundings : Surroundings ℕ
surroundings = record { started_at = pos 0; finished_at = pos 9_000_000; answer = answer }

abbrev pub config : Config ℕ
config = record {
  benchmark = record {
    name = "bench";
    trials = pos 3;
    concurrency = pos 2;
    timeout_seconds = pos 60;
    retries = pos 1;
    environment = "local";
  };
  scenarios = scenario ∷ record scenario { scenario_id = "part" } ∷ [];
  models = sonnet ∷ [];
  telemetry = record {
    enabled = false;
    provider = "langfuse";
    flush_on_trial_end = false;
    enrichment_dir = "";
    base_url = "";
    public_key = "pk";
    secret_key = "sk";
    batch_chunk_size = pos 50;
    max_retries = pos 3;
    max_batch_queue = pos 100;
    tracking_uri = "";
    token = "";
    workspace = "";
    tls_skip_verify = false;
  };
  report = record { output_directory = "out"; formats = "json" ∷ []; mask_output = false };
  adapter = record { kind = "claude"; options = ("command", "claude") ∷ [] };
  raw_hash = "";
}

-- Durations and times that are printed as nothing.
abbrev pub plain_formats : Formats natural_ops
plain_formats = record {
  fixed = λ n x. decimal x;
  truncate = pos;
  seconds = pos_part;
  time = λ layout t. "";
}

abbrev pub benchmark_run : BenchmarkRun ℕ
benchmark_run = record {
  benchmark_run_id = "run-1";
  name = "bench";
  started_at = pos 0;
  finished_at = none;
  runner_version = "0.6.2";
  environment = "local";
  git_commit = "abc";
  config_hash = "";
  status = RunStatus.completed;
  trials =
      trial
      ∷ record trial {
        trial_id = "trial-2";
        scenario_id = "part";
        execution_status = ExecutionStatus.failed;
      }
      ∷ [];
}

-- A disk on which everything can be written.
abbrev pub disk : Disk ℕ ℕ
disk = record {
  make_dir = λ dir. true;
  create = λ path. true;
  encode_manifest = λ m. true;
  encode_trial = λ t. true;
  encode_error = λ e. true;
  encode_summary = λ s. true;
}
