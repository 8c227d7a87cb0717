-- ===== src/Tests/Contexts.antt =====
-- Tests of agent/context.go.
use Prim.Native.Nat.{min}
use contract_review_ai_agent.Common.{
  ◌-◌, ◌≡◌, refl, String, ◌<>◌, List, [], ◌∷◌, ◌++◌, ok, err, panicked, negsuc, length, take, drop,
  runes, arith,
}
use contract_review_ai_agent.Llm.{Message, message, user, assistant, tool, role_text}
use contract_review_ai_agent.Llm.Fake.{FakeLlm, complete, new_fake}
use contract_review_ai_agent.Tokens.{count, count_messages}
use contract_review_ai_agent.Context.{
  ContextManager, split, truncate_message, truncate_tool_results, prepare, is_tool, flatten,
  compact, summarize,
}
use contract_review_ai_agent.Context.Truncate.{truncate_message-long, truncate_tool_results_idem}
use contract_review_ai_agent.Context.Prepare.{Fits, prepare-keeps, prepare-window, prepare-panics}
use contract_review_ai_agent.Fixtures.{rune_tokens, manager}

abbrev ten : String
ten = "0123456789"

abbrev hundred : String
hundred = ten <> ten <> ten <> ten <> ten <> ten <> ten <> ten <> ten <> ten

abbrev long_result : Message
long_result = message tool (hundred <> hundred <> hundred <> hundred <> hundred <> ten)

abbrev history : List Message
history =
    message user "analyse" ∷ long_result ∷ message assistant "looking" ∷ message user "go on" ∷ []

truncate_message-long_example :
    (runes (truncate_message long_result).content
      ≡ take 250 (runes long_result.content)
        ++ (runes "\n...[truncated]...\n"
            ++ drop (length (runes long_result.content) - 250) (runes long_result.content)))
    × (length (runes (truncate_message long_result).content) ≡ 519)
    × ((truncate_message long_result).role ≡ long_result.role)
    × ((truncate_message long_result).tool_calls ≡ long_result.tool_calls)
    × ((truncate_message long_result).tool_call_id ≡ long_result.tool_call_id)
unfolding is_tool
truncate_message-long_example = truncate_message-long long_result refl (omega arith)

truncate_tool_results_idem_example :
    truncate_tool_results (truncate_tool_results history) ≡ truncate_tool_results history
truncate_tool_results_idem_example = truncate_tool_results_idem history

-- Over 30 tokens, so the middle is summarized.
prepare_test :
    (prepare rune_tokens (manager 30 1000) history (new_fake "sum")).0
    ≡ ok (message user "analyse" ∷ message assistant "sum" ∷ message user "go on" ∷ [])
unfolding prepare split compact summarize complete new_fake truncate_tool_results count_messages
    flatten count role_text
prepare_test = refl

prepare-keeps_example :
    (middle : List Message) × (recent : List Message) × (before : List Message) × ((prepare
        rune_tokens
        (manager 30 1000)
        history
        (new_fake "sum")).0
      ≡ ok (take 1 history ++ (middle ++ recent)))
    × (history ≡ take 1 history ++ (before ++ recent))
    × (length recent ≡ min 1 (length history - 1))
prepare-keeps_example = prepare-keeps rune_tokens (manager 30 1000) 1 history (new_fake "sum") refl

prepare-window_example :
    (recent : List Message) × (before : List Message) × (history
      ≡ take 1 history ++ (before ++ recent))
    × (length recent ≡ min 1 (length history - 1))
    × Fits rune_tokens
        (manager 30 1000)
        (take 1 history)
        recent
        (prepare rune_tokens (manager 30 1000) history (new_fake "sum")).0
prepare-window_example =
    prepare-window rune_tokens (manager 30 1000) 1 history (new_fake "sum") refl (omega arith)

-- The setting of -1
abbrev keeping_less : ContextManager FakeLlm
keeping_less = record (manager 30 1000) { keep_recent = negsuc 0 }

prepare-panics_example :
    prepare rune_tokens keeping_less history (new_fake "sum") ≡ (err panicked, new_fake "sum")
unfolding count_messages count role_text
prepare-panics_example =
    prepare-panics rune_tokens keeping_less 0 (message user "analyse")
      (long_result ∷ message assistant "looking" ∷ message user "go on" ∷ []) (new_fake "sum") refl
      (omega arith) (omega arith)
