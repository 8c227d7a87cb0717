-- ===== src/Context/Truncate.antt =====
-- truncateToolResults of agent/context.go: what the cut keeps, and how long it leaves a text.
use contract_review_ai_agent.Common.{
  ◌-◌, ◌≤◌, ◌<◌, ◌≡◌, refl, ◌∙◌, sym, ap, inl, inr, String, ◌<>◌, Char, true, false, List, [], ◌∷◌,
  ◌++◌, length, take, drop, runes, from_runes, runes-from_runes, from_runes-runes, runes-append,
  length-append, length-take, length-drop, take-append, drop-append, ◌&&◌, Bool-cases, ltb, lt→ltb,
  arith,
}
use mathlib.Core.List.{append_assoc}
use contract_review_ai_agent.Llm.{Message}
use contract_review_ai_agent.Context.{shorten, truncate_message, truncate_tool_results, is_tool}

abbrev marker : String
marker = "\n...[truncated]...\n"

-- The first 250 runes, the marker, the last 250 runes.
abbrev cut : List Char → List Char
cut rs = take 250 rs ++ (runes marker ++ drop (length rs - 250) rs)

runes-shorten : (s : String) → runes (shorten s) ≡ cut (runes s)
unfolding shorten
runes-shorten s =
    runes-append (from_runes (take 250 (runes s)))
      (marker <> from_runes (drop (length (runes s) - 250) (runes s)))
    ∙ rw (
      runes-append marker,
      runes-from_runes (take 250 (runes s)),
      runes-from_runes (drop (length (runes s) - 250) (runes s)),
    )

length-cut : (rs : List Char) → 250 ≤ length rs → length (cut rs) ≡ 519
length-cut rs h = omega (
  arith,
  length-append (take 250 rs) (runes marker ++ drop (length rs - 250) rs),
  length-append (runes marker) (drop (length rs - 250) rs),
  length-take 250 rs,
  length-drop (length rs - 250) rs,
)

take-cut : (rs : List Char) → 250 ≤ length rs → take 250 (cut rs) ≡ take 250 rs
take-cut rs h = take-append (take 250 rs) _ 250 (omega (arith, length-take 250 rs))

drop-cut :
    (rs : List Char)
    → 250 ≤ length rs
    → drop (length (cut rs) - 250) (cut rs) ≡ drop (length rs - 250) rs
drop-cut rs h = rw (length-cut rs h) (
    rw (← append_assoc (take 250 rs) (runes marker) (drop (length rs - 250) rs)) (
      drop-append (take 250 rs ++ runes marker) (drop (length rs - 250) rs) 269
        (omega (arith, length-append (take 250 rs) (runes marker), length-take 250 rs))))

cut_idem : (rs : List Char) → 250 ≤ length rs → cut (cut rs) ≡ cut rs
cut_idem rs h = cc (take-cut rs h, drop-cut rs h)

shorten_idem : (s : String) → 250 ≤ length (runes s) → shorten (shorten s) ≡ shorten s
shorten_idem s h =
    sym (from_runes-runes (shorten (shorten s)))
    ∙ ap from_runes (
        runes-shorten (shorten s)
        ∙ ap cut (runes-shorten s)
        ∙ cut_idem (runes s) h
        ∙ sym (runes-shorten s))
    ∙ from_runes-runes (shorten s)

length-shorten : (s : String) → 250 ≤ length (runes s) → length (runes (shorten s)) ≡ 519
length-shorten s h = rw (runes-shorten s) (length-cut (runes s) h)

-- A cut message is a tool message of more than 500 runes. It keeps its role, its tool calls and its
-- call id; its text is the first 250 runes, a marker of 19 runes and the last 250 runes, 519 in all.
pub truncate_message-long :
    (m : Message)
    → is_tool m.role ≡ true
    → 500 < length (runes m.content)
    → (runes (truncate_message m).content
        ≡ take 250 (runes m.content)
          ++ (runes "\n...[truncated]...\n"
              ++ drop (length (runes m.content) - 250) (runes m.content)))
      × (length (runes (truncate_message m).content) ≡ 519)
      × ((truncate_message m).role ≡ m.role)
      × ((truncate_message m).tool_calls ≡ m.tool_calls)
      × ((truncate_message m).tool_call_id ≡ m.tool_call_id)
unfolding truncate_message
truncate_message-long m is_result long =
    rw (is_result, lt→ltb 500 (length (runes m.content)) long)
      (runes-shorten m.content, length-shorten m.content (omega arith), refl, refl, refl)

truncate_message-short :
    (m : Message)
    → (is_tool m.role && ltb 500 (length (runes m.content))) ≡ false
    → truncate_message m ≡ m
unfolding truncate_message
truncate_message-short m kept = rw kept

truncate_message_idem : (m : Message) → truncate_message (truncate_message m) ≡ truncate_message m
unfolding truncate_message is_tool
truncate_message_idem m = elim (Bool-cases (is_tool m.role && ltb 500 (length (runes m.content)))) [
  | inl cut_off ↦
      ground (arith, shorten_idem m.content (ground arith), length-shorten m.content (ground arith))
  | inr kept ↦ ap truncate_message (truncate_message-short m kept)
]

-- Cutting the tool results of a list a second time changes nothing.
pub truncate_tool_results_idem :
    (ms : List Message)
    → truncate_tool_results (truncate_tool_results ms) ≡ truncate_tool_results ms
unfolding truncate_tool_results
truncate_tool_results_idem [] = refl
truncate_tool_results_idem (m ∷ ms) = cc (truncate_message_idem m, truncate_tool_results_idem ms)
