-- ===== src/Context.antt =====
-- agent/context.go: the context manager, which keeps a growing message list inside the model's
-- window. Its warnings go to the log and are left out. A compaction ratio counts hundredths. A window is not
-- negative; a panic is the error `panicked`.
pub mod Truncate
pub mod Split
pub mod Prepare
use contract_review_ai_agent.Common.{
  ℕ, suc, ℤ, pos, negsuc, ◌^◌, ◌+◌, ◌-◌, ◌*◌, ◌/◌, String, ◌<>◌, Char, Bool, true, false, ◌&&◌,
  List, [], ◌∷◌, ◌++◌, map, length, take, drop, runes, from_runes, Result, ok, err, panicked,
  wrapping, Go, pure, ◌>>=◌, ltb, leb, if◌then◌else◌,
}
use contract_review_ai_agent.Llm.{
  Llm, Role, user, assistant, tool, Message, message, role_text, CompletionRequest,
  CompletionResponse,
}
use contract_review_ai_agent.Tokens.{Tiktoken, count_messages}

abbrev pub max_tool_result_runes : ℕ
max_tool_result_runes = 500

pub record ContextManager (W : Type 0) : Type 0 where
  pub model : String
  pub window_limit : ℕ
  pub compact_at : ℕ
  pub keep_recent : ℤ
  pub summarizer : Llm W

abbrev pub new_context_manager : {W : Type 0} → String → ℕ → ℕ → ℤ → Llm W → ContextManager W
new_context_manager model window compact_ratio keep_recent summarizer = record {
  model = model;
  window_limit = window;
  compact_at = window * compact_ratio / 100;
  keep_recent = keep_recent;
  summarizer = summarizer;
}

-- `recentStart`, an int64. Where Go's difference is below 0, `-` gives 0, which the test treats alike.
unfoldable pub recent_start : ℤ → List Message → ℕ
recent_start (pos keep) msgs = let start = length msgs - keep in if leb start 1 then 1 else start
recent_start (negsuc n) msgs =
    let start = length msgs + suc n in if leb (2 ^ 63) start then 1 else start

-- `split`: the pinned first message, the middle, and the recent messages. A slice from behind the last
-- message panics, as the one of the recent messages does where `keep_recent` is negative.
unfoldable pub split : ℤ → List Message → Result (List Message × List Message × List Message)
unfolding recent_start
split keep_recent [] = ok ([], [], [])
split keep_recent (m ∷ ms) =
    let msgs = m ∷ ms in
    let start = recent_start keep_recent msgs in
    if ltb (length msgs) start
    then err panicked
    else ok (take 1 msgs, drop 1 (take start msgs), drop start msgs)

-- The content that a long tool result is cut to
unfoldable pub shorten : String → String
shorten s =
    let rs = runes s in
    let half = max_tool_result_runes / 2 in
    let head = from_runes (take half rs) in
    let tail = from_runes (drop (length rs - half) rs) in head <> "\n...[truncated]...\n" <> tail

unfoldable pub is_tool : Role → Bool
is_tool tool = true
is_tool _ = false

unfoldable pub truncate_message : Message → Message
unfolding shorten is_tool
truncate_message m =
    if is_tool m.role && ltb max_tool_result_runes (length (runes m.content))
    then record m { content = shorten m.content }
    else m

unfoldable pub truncate_tool_results : List Message → List Message
unfolding truncate_message
truncate_tool_results = map truncate_message

unfoldable pub flatten : List Message → List Message → List Message → List Message
flatten pinned middle recent = pinned ++ (middle ++ recent)

transcript : List Message → String
transcript [] = ""
transcript (m ∷ ms) = role_text m.role <> ": " <> m.content <> "\n" <> transcript ms

summary_request : List Message → CompletionRequest
unfolding transcript
summary_request msgs = record {
  messages =
      message user (
        "Summarize these prior steps and findings concisely so analysis can continue:\n\n"
        <> transcript msgs)
      ∷ [];
  tools = [];
  max_tokens = 512;
  temperature = 0;
  force_tool_name = "";
  timeout = 0;
}

module _ {W : Type 0} where
  unfoldable pub summarize : ContextManager W → List Message → Go W Message
  unfolding summary_request
  summarize cm msgs w =
      let (r, w') = cm.summarizer (summary_request msgs) w in
      (
        elim (wrapping "summarize" r) [
          | ok resp ↦ ok (message assistant resp.content)
          | err e ↦ err e
        ],
        w',
      )

  module _ (t : Tiktoken) (cm : ContextManager W) where
    -- After `summarize`: the block is dropped if that failed, or if the summary still leaves the
    -- list over the window.
    unfoldable pub with_summary : List Message → List Message → Result Message → List Message
    with_summary pinned recent (err e) = flatten pinned [] recent
    with_summary pinned recent (ok summary) =
        let result = flatten pinned (summary ∷ []) recent in
        if ltb cm.window_limit (count_messages t cm.model result)
        then flatten pinned [] recent
        else result

    unfoldable pub compact : List Message → List Message → List Message → Go W (List Message)
    unfolding with_summary
    compact pinned middle recent w =
        let result = flatten pinned middle recent in
        if ltb (count_messages t cm.model result) cm.compact_at
        then (ok result, w)
        else (let (r, w') = summarize cm middle w in (ok (with_summary pinned recent r), w'))

    -- What follows the split
    unfoldable pub prepare_parts :
        Result (List Message × List Message × List Message) → Go W (List Message)
    prepare_parts (err e) w = (err e, w)
    prepare_parts (ok (pinned, middle, recent)) w =
        compact pinned (truncate_tool_results middle) recent w

    unfoldable pub prepare : List Message → Go W (List Message)
    unfolding prepare_parts
    prepare msgs w =
        if ltb (count_messages t cm.model msgs) cm.compact_at
        then (ok msgs, w)
        else prepare_parts (split cm.keep_recent msgs) w
