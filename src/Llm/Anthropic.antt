-- ===== src/Llm/Anthropic.antt =====
-- llm/anthropic.go: a request in the shapes of the Anthropic SDK, and its answer in those of llm/llm.go.
-- The SDK's messages and tools, their constructors and the call itself are parameters; the context is
-- part of the call.
pub mod Drops
use contract_review_ai_agent.Common.{
  ℕ, String, Option, none, some, List, [], ◌∷◌, ◌++◌, map, Result, ok, err, Go, pure, ◌>>=◌, orelse,
  str_eq, if◌then◌else◌,
}
use contract_review_ai_agent.Llm.{
  Role, system, user, assistant, tool, other_role, ToolCall, Message, ToolSchema, CompletionRequest,
  CompletionResponse, Llm,
}

-- `anthropic.NewUserMessage` of a text or of a tool's result, and its like
pub record AnthropicSdk (M T P : Type 0) : Type 0 where
  pub user_text : String → M
  -- the call's identifier and the result, which is no error
  pub user_tool_result : String → String → M
  pub assistant_text : String → M
  -- what json.Unmarshal leaves in a nil interface, its error dropped
  pub unmarshal_schema : String → P
  pub tool_param : String → String → P → T

-- `MessageNewParams`; a field that is not set is `none`
pub record MessageParams (M T : Type 0) : Type 0 where
  pub model : String
  pub max_tokens : ℕ
  pub messages : List M
  pub system : Option String
  pub tools : List T
  pub tool_choice : Option String

pub data ContentBlock : Type 0 where
  text_block : String → ContentBlock
  tool_use_block : ToolCall → ContentBlock
  -- the kinds that the code does not name
  other_block : ContentBlock

-- What the code reads of a `Message` of the SDK
pub record AnthropicMessage : Type 0 where
  pub content : List ContentBlock
  pub stop_reason : String
  pub input_tokens : ℕ
  pub output_tokens : ℕ
  pub model : String

given : String → Option String
given s = if str_eq s "" then none else some s

-- The last text is the content; the calls are kept in order.
read_block : ContentBlock → CompletionResponse → CompletionResponse
read_block (text_block s) resp = record resp { content = s }
read_block (tool_use_block tc) resp = record resp { tool_calls = resp.tool_calls ++ (tc ∷ []) }
read_block other_block resp = resp

read_blocks : List ContentBlock → CompletionResponse → CompletionResponse
unfolding read_block
read_blocks [] resp = resp
read_blocks (b ∷ bs) resp = read_blocks bs (read_block b resp)

module _ {M T P : Type 0} (sdk : AnthropicSdk M T P) where
  user_message : Message → M
  user_message m =
      if str_eq m.tool_call_id ""
      then sdk.user_text m.content
      else sdk.user_tool_result m.tool_call_id m.content

  -- One round of the loop, on the system text and the messages so far
  split_message : Role → Message → String × List M → String × List M
  unfolding user_message
  split_message system m (sys, out) = (m.content, out)
  split_message user m (sys, out) = (sys, out ++ (user_message m ∷ []))
  split_message assistant m (sys, out) = (sys, out ++ (sdk.assistant_text m.content ∷ []))
  split_message tool m (sys, out) = (sys, out)
  split_message (other_role r) m (sys, out) = (sys, out)

  split_from : List Message → String × List M → String × List M
  unfolding split_message
  split_from [] t = t
  split_from (m ∷ ms) t = split_from ms (split_message m.role m t)

  unfoldable pub split_system : List Message → String × List M
  unfolding split_from
  split_system ms = split_from ms ("", [])

  to_anthropic_tools : List ToolSchema → List T
  to_anthropic_tools ts =
      map (λ t. sdk.tool_param t.name t.description (sdk.unmarshal_schema t.parameters)) ts

  unfoldable pub message_params : String → CompletionRequest → MessageParams M T
  unfolding given split_system to_anthropic_tools
  message_params model req =
      let (sys, msgs) = split_system req.messages in
      record {
        model = model;
        max_tokens = req.max_tokens;
        messages = msgs;
        system = given sys;
        tools = to_anthropic_tools req.tools;
        tool_choice = given req.force_tool_name;
      }

  module _ {W : Type 0} (send : MessageParams M T → Go W AnthropicMessage) where
    unfoldable pub anthropic_complete : String → Llm W
    unfolding message_params read_blocks
    anthropic_complete model req = do
      raw ← orelse "anthropic completion" (send (message_params model req))
      pure (
          read_blocks raw.content (record {
            content = "";
            tool_calls = [];
            stop_reason = raw.stop_reason;
            input_tokens = raw.input_tokens;
            output_tokens = raw.output_tokens;
            model = raw.model;
            provider = "anthropic";
          }))
