-- ===== src/Adapter/Factory.antt =====
-- internal/adapter/factory.go: the adapter of a configuration.
use trimetry.Base.{String, Option, none, some, if◌then◌else◌, str_eq}
use trimetry.Base.Text.{or_text}
use trimetry.Base.Dict.{Dict, lookup}
use trimetry.Base.Float.{FloatOps}
use trimetry.Adapter.Claude.Command.{ClaudeAdapter, new_claude_adapter}
use trimetry.Adapter.Codex.{CodexAdapter, new_codex_adapter}
use trimetry.Adapter.Cursor.{CursorAdapter, new_cursor_adapter}
use trimetry.Adapter.Fake.{FakeAdapter, new_fake_adapter}

-- NewOpencodeAdapter of internal/adapter/opencode.go
pub record OpencodeAdapter : Type 0 where
  pub command : String
  pub working_dir : String

unfoldable pub new_opencode_adapter : String → String → OpencodeAdapter
new_opencode_adapter command working_dir = record {
  command = or_text command "opencode";
  working_dir = working_dir;
}

pub data ApplicationAdapter (F : Type 0) : Type 0 where
  opencode : OpencodeAdapter → ApplicationAdapter F
  claude : ClaudeAdapter → ApplicationAdapter F
  codex : CodexAdapter → ApplicationAdapter F
  cursor : CursorAdapter → ApplicationAdapter F
  fake : FakeAdapter F → ApplicationAdapter F

-- Name()
unfoldable pub adapter_name : {F : Type 0} → ApplicationAdapter F → String
adapter_name (opencode a) = "opencode"
adapter_name (claude a) = "claude"
adapter_name (codex a) = "codex"
adapter_name (cursor a) = "cursor"
adapter_name (fake a) = "fake"

-- options[key], empty where it is missing
abbrev option : Dict String → String → String
option options key = elim (lookup key options) [ none ↦ "" | some v ↦ v ]

-- The error of a type that is not known is `none`.
unfoldable pub new_adapter :
    (ops : FloatOps) → (kind : String) → Dict String → Option (ApplicationAdapter ops.Float)
new_adapter ops kind options =
    let command = option options "command" in
    let working_dir = option options "working_directory" in
    if str_eq kind "opencode"
    then some (opencode (new_opencode_adapter command working_dir))
    else if str_eq kind "claude"
    then some (claude (new_claude_adapter command working_dir options))
    else if str_eq kind "codex"
    then some (codex (new_codex_adapter command working_dir options))
    else if str_eq kind "cursor"
    then some (cursor (new_cursor_adapter command working_dir options))
    else if str_eq kind "fake"
    then some (fake (new_fake_adapter ops))
    else none
