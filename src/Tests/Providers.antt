-- ===== src/Tests/Providers.antt =====
-- Tests of llm/openai.go and llm/anthropic.go over SDKs whose messages are those of llm/llm.go.
use contract_review_ai_agent.Common.{
  map-id, ap, sym, ℕ, suc, none, err, Error, wrap, permanent, Go, String, ◌≡◌, refl, List, [], ◌∷◌,
  map,
}
use contract_review_ai_agent.Llm.{
  system, user, assistant, tool, ToolCall, Message, message, ToolSchema, CompletionRequest,
}
use contract_review_ai_agent.Llm.OpenAi.{
  OpenAiSdk, ChatParams, ChatCompletion, to_openai_messages, openai_complete,
}
use contract_review_ai_agent.Llm.Retry.{
  Clock, RetryingLlm, new_retrying_llm, complete, attempts_from, is_permanent, call, back_off,
}
use contract_review_ai_agent.Llm.Retry.Chains.{Retried}
use contract_review_ai_agent.Llm.Failures.{openai, complete-Exhausted}
use contract_review_ai_agent.Llm.OpenAi.Keeps.{
  text_of_option, all_plain, to_openai_messages-plain_of,
}
use contract_review_ai_agent.Llm.Anthropic.{AnthropicSdk, split_system}
use contract_review_ai_agent.Llm.Anthropic.Drops.{without_tools, split_system-without_tools}
use contract_review_ai_agent.Fixtures.{call as tool_call}

abbrev openai_sdk : OpenAiSdk Message ToolSchema String ToolCall
openai_sdk = record {
  system_message = message system;
  user_message = message user;
  assistant_message = message assistant;
  tool_message = λ s id. record (message tool s) { tool_call_id = id };
  function_call = λ id name args. record { id = id; name = name; args = args };
  assistant_calls =
      λ content calls. record (message assistant (text_of_option content)) { tool_calls = calls };
  no_parameters = "";
  unmarshal_parameters = λ s. s;
  function_tool = λ name description parameters. record {
    name = name;
    description = description;
    parameters = parameters;
  };
}

abbrev anthropic : AnthropicSdk Message ToolSchema String
anthropic = record {
  user_text = message user;
  user_tool_result = λ id s. record (message user s) { tool_call_id = id };
  assistant_text = message assistant;
  unmarshal_schema = λ s. s;
  tool_param = λ name description parameters. record {
    name = name;
    description = description;
    parameters = parameters;
  };
}

-- A turn of an agent: its task, a call of a tool, and the answer
abbrev turn : List Message
turn =
    message user "Analyse the clause."
    ∷ record (message assistant "") { tool_calls = tool_call "get_definition" "{}" ∷ [] }
    ∷ record (message tool "not found") { tool_call_id = "t1" }
    ∷ []

to_openai_messages-plain_of_example :
    map (λ m. m) (to_openai_messages openai_sdk turn) ≡ all_plain turn
to_openai_messages-plain_of_example =
    to_openai_messages-plain_of openai_sdk (λ m. m) (λ tc. tc)
      (record {
        system_message = λ s. refl;
        user_message = λ s. refl;
        assistant_message = λ s. refl;
        tool_message = λ s id. refl;
        function_call = λ id name args. refl;
        assistant_calls = λ content calls.
            ap (λ t. record (message assistant (text_of_option content)) { tool_calls = t })
              (sym (map-id calls));
      })
      turn

split_system-without_tools_example :
    split_system anthropic turn ≡ split_system anthropic (without_tools turn)
split_system-without_tools_example = split_system-without_tools anthropic turn

-- With OpenAI the turn is sent whole; with Anthropic the call and its answer are lost.
openai_test : to_openai_messages openai_sdk turn ≡ turn
unfolding to_openai_messages
openai_test = refl

anthropic_test :
    split_system anthropic turn
    ≡ ("", message user "Analyse the clause." ∷ message assistant "" ∷ [])
unfolding split_system
anthropic_test = refl

abbrev steady : Clock ℕ
steady = record { ctx_err = λ w. none; int63n = λ n w. (7, w); wait = λ d w. (none, w) }

-- A service that counts the calls and refuses every key
abbrev refusing : ℕ → ChatParams Message ToolSchema → Go ℕ ChatCompletion
refusing deadline params calls = (err (permanent 401 "invalid key"), suc calls)

abbrev retrying : RetryingLlm ℕ
retrying = new_retrying_llm (λ d. openai_complete openai_sdk (refusing d) "gpt-4o-mini") 2 500

abbrev no_messages : CompletionRequest
no_messages = record {
  messages = [];
  tools = [];
  max_tokens = 10;
  temperature = 0;
  force_tool_name = "";
  timeout = 0;
}

-- All three attempts are made.
abbrev last_error : Error
last_error = wrap "openai completion" (permanent 401 "invalid key")

failed_test :
    complete steady retrying no_messages 0 ≡ (err (wrap "llm: max retries exceeded" last_error), 3)
unfolding complete attempts_from openai_complete new_retrying_llm is_permanent call back_off
failed_test = refl

complete-Exhausted_example :
    (w : ℕ) × Retried steady retrying no_messages 0 2 w
    × (last : Error) × (call steady retrying no_messages w ≡ (err last, 3))
    × (wrap "llm: max retries exceeded" last_error ≡ wrap "llm: max retries exceeded" last)
unfolding new_retrying_llm
complete-Exhausted_example =
    complete-Exhausted steady retrying no_messages 0 (openai openai_sdk refusing "gpt-4o-mini")
      (λ w. refl) (λ d w. refl) 3 (wrap "llm: max retries exceeded" last_error) failed_test
