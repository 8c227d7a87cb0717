-- ===== src/Llm/OpenAi.antt =====
-- llm/openai.go: a request in the shapes of the OpenAI SDK, and its answer in those of llm/llm.go. The
-- SDK's messages and tools, their constructors and the call itself are parameters; the context is part
-- of the call.
pub mod Keeps
use contract_review_ai_agent.Common.{
  ℕ, zero, suc, String, ◌<>◌, Option, none, some, List, [], ◌∷◌, ◌++◌, map, Result, ok, err, Error,
  plain, Go, pure, fail, ◌>>=◌, orelse, str_eq, if◌then◌else◌,
}
use contract_review_ai_agent.Llm.{
  Role, system, user, assistant, tool, other_role, ToolCall, Message, ToolSchema, CompletionRequest,
  CompletionResponse, Llm,
}

-- `openai.SystemMessage` and its like, and the struct literals of the code
pub record OpenAiSdk (M T P C : Type 0) : Type 0 where
  pub system_message : String → M
  pub user_message : String → M
  pub assistant_message : String → M
  pub tool_message : String → String → M
  -- a call of an assistant's message, of its identifier, its name and its arguments
  pub function_call : String → String → String → C
  -- an assistant's message with calls; a content that is not set is `none`
  pub assistant_calls : Option String → List C → M
  -- what json.Unmarshal leaves in a nil `FunctionParameters`, its error dropped
  pub no_parameters : P
  pub unmarshal_parameters : String → P
  pub function_tool : String → String → P → T

-- `ChatCompletionNewParams`; a field that is not set is `none`
pub record ChatParams (M T : Type 0) : Type 0 where
  pub model : String
  pub messages : List M
  pub max_tokens : Option ℕ
  pub temperature : Option ℕ
  pub tools : List T
  pub tool_choice : Option String

pub record ChatToolCall : Type 0 where
  pub id : String
  pub function_name : String
  pub function_arguments : String

pub record ChatChoice : Type 0 where
  pub content : String
  pub finish_reason : String
  pub tool_calls : List ChatToolCall

-- What the code reads of a `ChatCompletion`
pub record ChatCompletion : Type 0 where
  pub choices : List ChatChoice
  pub prompt_tokens : ℕ
  pub completion_tokens : ℕ
  pub model : String

unless_empty : String → Option String
unless_empty s = if str_eq s "" then none else some s

unless_zero : ℕ → Option ℕ
unless_zero zero = none
unless_zero (suc n) = some (suc n)

map_openai_stop_reason : String → String
map_openai_stop_reason r =
    if str_eq r "stop"
    then "end_turn"
    else if str_eq r "tool_calls"
    then "tool_use"
    else if str_eq r "length"
    then "max_tokens"
    else r

-- The loop behind the answer
read_calls : List ChatToolCall → List ToolCall
read_calls [] = []
read_calls (tc ∷ tcs) =
    record { id = tc.id; name = tc.function_name; args = tc.function_arguments } ∷ read_calls tcs

module _ {M T P C : Type 0} (sdk : OpenAiSdk M T P C) where
  to_openai_calls : List ToolCall → List C
  to_openai_calls [] = []
  to_openai_calls (tc ∷ tcs) = sdk.function_call tc.id tc.name tc.args ∷ to_openai_calls tcs

  to_openai_assistant : String → List ToolCall → M
  unfolding unless_empty to_openai_calls
  to_openai_assistant content [] = sdk.assistant_message content
  to_openai_assistant content (tc ∷ tcs) =
      sdk.assistant_calls (unless_empty content) (to_openai_calls (tc ∷ tcs))

  -- One round of the loop: what it appends. A role that the switch does not name appends nothing.
  to_openai_message : Role → Message → List M
  unfolding to_openai_assistant
  to_openai_message system m = sdk.system_message m.content ∷ []
  to_openai_message user m = sdk.user_message m.content ∷ []
  to_openai_message assistant m = to_openai_assistant m.content m.tool_calls ∷ []
  to_openai_message tool m = sdk.tool_message m.content m.tool_call_id ∷ []
  to_openai_message (other_role r) m = []

  unfoldable pub to_openai_messages : List Message → List M
  unfolding to_openai_message
  to_openai_messages [] = []
  to_openai_messages (m ∷ ms) = to_openai_message m.role m ++ to_openai_messages ms

  to_openai_tools : List ToolSchema → List T
  to_openai_tools ts =
      map
        (λ t. sdk.function_tool t.name t.description (
          if str_eq t.parameters ""
          then sdk.no_parameters
          else sdk.unmarshal_parameters t.parameters))
        ts

  chat_params : String → CompletionRequest → ChatParams M T
  unfolding unless_empty unless_zero to_openai_messages to_openai_tools
  chat_params model req = record {
    model = model;
    messages = to_openai_messages req.messages;
    max_tokens = unless_zero req.max_tokens;
    temperature = unless_zero req.temperature;
    tools = to_openai_tools req.tools;
    tool_choice = unless_empty req.force_tool_name;
  }

  module _ {W : Type 0} (send : ChatParams M T → Go W ChatCompletion) where
    unfoldable pub first_choice : ChatCompletion → List ChatChoice → Go W CompletionResponse
    unfolding map_openai_stop_reason read_calls
    first_choice raw [] = fail (plain "openai returned no choices")
    first_choice raw (choice ∷ others) = pure (record {
      content = choice.content;
      tool_calls = read_calls choice.tool_calls;
      stop_reason = map_openai_stop_reason choice.finish_reason;
      input_tokens = raw.prompt_tokens;
      output_tokens = raw.completion_tokens;
      model = raw.model;
      provider = "openai";
    })

    unfoldable pub openai_complete : String → Llm W
    unfolding chat_params first_choice
    openai_complete model req = do
      raw ← orelse "openai completion" (send (chat_params model req))
      first_choice raw raw.choices
