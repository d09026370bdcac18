-- ===== src/Adapter/Fake.antt =====
-- internal/adapter/fake.go: an agent that answers by itself, for dry runs. F stands for `float64`.
use Prim.Native.Nat.{◌/◌, ◌+◌}
use trimetry.Base.{String, Bool, ◌&&◌, none, some, List, [], ◌∷◌, if◌then◌else◌}
use trimetry.Base.Text.{join}
use trimetry.Base.Int.{ℤ, pos, negsuc, sub_ℕ, ◌+ℤ◌, ◌-ℤ◌}
use trimetry.Base.Clock.{Time, unix_milli}
use trimetry.Base.Float.{FloatOps}
use trimetry.Adapter.Types.{
  ExecutionContext, ExecutionResult, no_tokens, StepDetail, completed_step, generation, tool,
}

pub record FakeAdapter (F : Type 0) : Type 0 where
  -- in nanoseconds
  pub latency : ℤ
  pub latency_jitter : ℤ
  pub fail_rate : F
  pub timeout_rate : F
  pub input_tokens : ℤ
  pub output_tokens : ℤ

unfoldable pub new_fake_adapter : (ops : FloatOps) → FakeAdapter ops.Float
new_fake_adapter ops = record {
  latency = pos 200_000_000;
  latency_jitter = pos 50_000_000;
  fail_rate = ops.of_int (pos 0);
  timeout_rate = ops.of_int (pos 0);
  input_tokens = pos 150;
  output_tokens = pos 80;
}

-- What the outside decides: whether the context ends before the delay is over, the clock, and the random numbers
-- that the rates are compared with.
pub record FakeRun (F : Type 0) : Type 0 where
  pub ctx_done : Bool
  pub started_at : Time
  pub finished_at : Time
  pub timeout_draw : F
  pub fail_draw : F

-- Division of an `int64` by three, towards zero
abbrev third : ℤ → ℤ
third (pos n) = pos (n / 3)
third (negsuc n) = sub_ℕ 0 ((n + 1) / 3)

unfoldable pub fake_steps : (gen_start gen_end : ℤ) → List StepDetail
fake_steps gen_start gen_end =
    let tool_start = gen_start +ℤ third (gen_end -ℤ gen_start) in
    let tool_end = tool_start +ℤ pos 30 in
    record (completed_step generation "llm (tool-calls)") {
      start_ms = gen_start;
      end_ms = tool_start;
      duration_ms = tool_start -ℤ gen_start;
      llm_inference_ms = (tool_start -ℤ gen_start) -ℤ pos 30;
      reason = "tool-calls";
    }
    ∷ record (completed_step tool "glob") {
      start_ms = tool_start;
      end_ms = tool_end;
      duration_ms = pos 30;
    }
    ∷ record (completed_step generation "llm (stop)") {
      start_ms = tool_end;
      end_ms = gen_end;
      duration_ms = gen_end -ℤ tool_end;
      llm_inference_ms = gen_end -ℤ tool_end;
      reason = "stop";
    }
    ∷ []

module _ {F : Type 0} where
  abbrev fake_failure : FakeRun F → ℤ → String → ExecutionResult F
  fake_failure run exit_code error = record {
    output = "";
    started_at = run.started_at;
    finished_at = run.finished_at;
    exit_code = exit_code;
    stderr = "";
    error = some error;
    tokens = none;
    steps = [];
    ttft_ms = none;
    cost_usd = none;
    session_id = "";
  }

  unfoldable pub fake_success :
      FakeAdapter F → FakeRun F → (input : String) → ExecutionContext → ExecutionResult F
  fake_success a run input ec = record (fake_failure run (pos 0) "") {
    output = join ("Fake response to: " ∷ input ∷ " (trial=" ∷ ec.trial_id ∷ ")" ∷ []);
    error = none;
    tokens = some (record no_tokens {
      input = a.input_tokens;
      output = a.output_tokens;
      total = a.input_tokens +ℤ a.output_tokens;
    });
    steps = fake_steps (unix_milli run.started_at) (unix_milli run.finished_at);
    ttft_ms = some (pos 50);
  }

-- Execute always returns a result and no error of its own.
unfoldable pub fake_execute :
    (ops : FloatOps)
    → FakeAdapter ops.Float
    → FakeRun ops.Float
    → (input : String) → ExecutionContext
    → ExecutionResult ops.Float
fake_execute ops a run input ec =
    let zero = ops.of_int (pos 0) in
    if run.ctx_done
    then fake_failure run (negsuc 0) "timeout"
    else if ops.lt zero a.timeout_rate && ops.lt run.timeout_draw a.timeout_rate
    then fake_failure run (negsuc 0) "simulated timeout"
    else if ops.lt zero a.fail_rate && ops.lt run.fail_draw a.fail_rate
    then fake_failure run (pos 1) "simulated error"
    else fake_success a run input ec
