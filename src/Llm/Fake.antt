-- ===== src/Llm/Fake.antt =====
-- llm/fake.go: the scripted provider `Fake`. Its world is its own record; the mutex makes a call one
-- step on it.
use contract_review_ai_agent.Common.{
  ℕ, zero, suc, ◌+◌, String, ◌<>◌, Option, none, some, List, [], ◌∷◌, ◌++◌, Result, ok, err, Error,
  plain, decimal,
}
use contract_review_ai_agent.Llm.{Message, CompletionRequest, CompletionResponse, Llm}

pub record FakeLlm : Type 0 where
  pub script : List CompletionResponse
  pub failure : Option Error
  pub calls : List CompletionRequest
  pub idx : ℕ

-- `Script[idx]`, `none` out of range
response_at : ℕ → List CompletionResponse → Option CompletionResponse
response_at i [] = none
response_at zero (r ∷ rs) = some r
response_at (suc i) (r ∷ rs) = response_at i rs

next_response : Option CompletionResponse → FakeLlm → Result CompletionResponse × FakeLlm
next_response none f =
    (err (plain ("fake: script exhausted after " <> decimal f.idx <> " calls")), f)
next_response (some r) f = (ok r, record f { idx = f.idx + 1 })

fail_or_next : Option Error → FakeLlm → Result CompletionResponse × FakeLlm
unfolding next_response response_at
fail_or_next (some e) f = (err e, f)
fail_or_next none f = next_response (response_at f.idx f.script) f

unfoldable pub complete : Llm FakeLlm
unfolding fail_or_next
complete req f =
    let logged : FakeLlm = record f { calls = f.calls ++ (req ∷ []) } in
    fail_or_next logged.failure logged

-- `NewFake`
unfoldable pub new_fake : String → FakeLlm
new_fake response = record {
  script =
      record {
        content = response;
        tool_calls = [];
        stop_reason = "";
        input_tokens = 0;
        output_tokens = 0;
        model = "";
        provider = "";
      }
      ∷ [];
  failure = none;
  calls = [];
  idx = 0;
}

-- A response with a text and nothing else
text_response : String → CompletionResponse
text_response content = record {
  content = content;
  tool_calls = [];
  stop_reason = "";
  input_tokens = 0;
  output_tokens = 0;
  model = "";
  provider = "";
}

-- `fakeWithHook`: a nil hook is `none`.
unfoldable pub complete_with_hook : {W : Type 0} → String → Option (W → W) → Llm W
unfolding text_response
complete_with_hook response none req w = (ok (text_response response), w)
complete_with_hook response (some hook) req w = (ok (text_response response), hook w)

captured : List Message → String → String
captured [] text = text
captured (m ∷ []) text = m.content
captured (m ∷ n ∷ ms) text = captured (n ∷ ms) text

-- `fakeCapture`: the world is the text that it keeps, the content of the last message.
unfoldable pub complete_capture : Llm String
unfolding text_response captured
complete_capture req text =
    (ok (text_response "# Report\n\nSummary here."), captured req.messages text)
