-- ===== src/Llm.antt =====
-- llm/llm.go: messages, tool calls, requests and responses of a model provider.
-- A raw JSON value is its text. A provider is a call on a world `W`, which holds what the program
-- cannot see of it.
pub mod Fake
pub mod Retry
pub mod OpenAi
pub mod Anthropic
pub mod Failures
use contract_review_ai_agent.Common.{ℕ, String, List, [], Go}

pub data Role : Type 0 where
  system user assistant tool : Role
  -- any other text: `Role` is a string
  other_role : String → Role

unfoldable pub role_text : Role → String
role_text system = "system"
role_text user = "user"
role_text assistant = "assistant"
role_text tool = "tool"
role_text (other_role s) = s

pub record ToolCall : Type 0 where
  pub id : String
  pub name : String
  pub args : String

pub record Message : Type 0 where
  pub role : Role
  pub content : String
  pub tool_calls : List ToolCall
  pub tool_call_id : String

pub record ToolSchema : Type 0 where
  pub name : String
  pub description : String
  pub parameters : String

-- The temperature counts tenths, the timeout nanoseconds; 0 is Go's zero value in each field.
pub record CompletionRequest : Type 0 where
  pub messages : List Message
  pub tools : List ToolSchema
  pub max_tokens : ℕ
  pub temperature : ℕ
  pub force_tool_name : String
  pub timeout : ℕ

pub record CompletionResponse : Type 0 where
  pub content : String
  pub tool_calls : List ToolCall
  pub stop_reason : String
  pub input_tokens : ℕ
  pub output_tokens : ℕ
  pub model : String
  pub provider : String

-- The interface `LLM`, its one method.
abbrev pub Llm : Type 0 → Type 0
Llm W = CompletionRequest → Go W CompletionResponse

-- A message with a role and a text, and nothing else.
abbrev pub message : Role → String → Message
message r s = record { role = r; content = s; tool_calls = []; tool_call_id = "" }
