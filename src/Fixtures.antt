-- ===== src/Fixtures.antt =====
-- Data for the tests: a platform over ASCII, a token count by runes, a provider's script and a task.
pub mod Contracts
pub mod Databases
pub mod Settings
use contract_review_ai_agent.Common.{
  pos, ℕ, String, ◌<>◌, code, ◌||◌, none, some, List, [], ◌∷◌, ok, err, plain, length, runes,
  str_eq, ◌==◌, if◌then◌else◌,
}
use contract_review_ai_agent.Llm.{message, user, ToolCall, CompletionResponse}
use contract_review_ai_agent.Llm.Fake.{FakeLlm, complete}
use contract_review_ai_agent.Platform.{Platform, SubmitFindingArgs}
use contract_review_ai_agent.Tokens.{Tiktoken}
use contract_review_ai_agent.Tool.{new_registry}
use contract_review_ai_agent.Tool.Submit.{new_submit_finding}
use contract_review_ai_agent.Context.{ContextManager}
use contract_review_ai_agent.Domain.{ClauseAnalysis, high}
use contract_review_ai_agent.Budget.{Budget, new_budget}
use contract_review_ai_agent.Agent.State.{Runtime, Agent, AnalyzeClauseTask}

abbrev pub good_args : SubmitFindingArgs
good_args = record {
  risk_level = "high";
  explanation = "uncapped liability";
  ambiguous_language = "";
  recommendations = "add a cap";
}

-- Two raw values decode: a complete finding, and one with no explanation.
abbrev pub ascii : Platform
ascii = record {
  quote = λ s. "\"" <> s <> "\"";
  lower = λ c. c;
  upper = λ c. c;
  is_space = λ c. code c == 32 || code c == 10;
  unmarshal_submit = λ s.
      if str_eq s "good"
      then ok good_args
      else if str_eq s "silent"
      then ok (record good_args { explanation = "" })
      else err (plain "unexpected end of JSON input");
  unmarshal_field = λ field s. ok s;
  unmarshal_strings = λ s. ok (s ∷ []);
  unmarshal_messages = λ s. ok (message user s ∷ []);
  marshal_messages = λ ms. "saved";
}

-- Every rune is a token.
abbrev pub rune_tokens : Tiktoken
rune_tokens = record {
  encoding_for_model = λ model. none;
  cl100k_base = some (λ s. length (runes s));
}

abbrev pub runtime : Runtime FakeLlm
runtime = record {
  platform = ascii;
  tiktoken = rune_tokens;
  ctx_err = λ w. none;
  new_uuid = λ w. ("run-1", w);
}

abbrev pub task : AnalyzeClauseTask
task = record { contract_id = "c1"; clause_id = "cl-1"; clause_text = "Liability is unlimited." }

abbrev pub call : String → String → ToolCall
call name args = record { id = "t1"; name = name; args = args }

-- A response of 100 and 20 tokens
abbrev pub response : List ToolCall → CompletionResponse
response calls = record {
  content = "";
  tool_calls = calls;
  stop_reason = "tool_use";
  input_tokens = 100;
  output_tokens = 20;
  model = "gpt-4o-mini";
  provider = "openai";
}

abbrev pub scripted : List CompletionResponse → FakeLlm
scripted rs = record { script = rs; failure = none; calls = []; idx = 0 }

-- The model first submits a finding with no explanation, then a complete one.
abbrev pub two_tries : FakeLlm
two_tries = scripted (
    response (call "submit_finding" "silent" ∷ [])
    ∷ response (call "submit_finding" "good" ∷ [])
    ∷ [])

abbrev pub manager : ℕ → ℕ → ContextManager FakeLlm
manager compact_at window = record {
  model = "gpt-4o-mini";
  window_limit = window;
  compact_at = compact_at;
  keep_recent = pos 1;
  summarizer = complete;
}

abbrev pub agent : Agent FakeLlm
agent = record {
  llm = complete;
  tools = new_registry (new_submit_finding ascii none "{}" ∷ []);
  max_steps = 3;
  ctx_mgr = some (manager 5000 6000);
  store = none;
}

-- What a store holds of a clause that was analysed
abbrev pub found_finding : ClauseAnalysis
found_finding = record {
  id = "a-1";
  clause_id = "cl-1";
  risk_level = some high;
  explanation = "uncapped liability";
  ambiguous_language = "";
  recommendations = "add a cap";
  status = "analyzed";
}

abbrev pub limited : Budget
limited = new_budget 0 0 5
