-- ===== src/Platform.antt =====
-- What the program takes from Go's packages fmt, unicode and encoding/json and does not define:
-- `%q`, the case mappings and the white space of a character, and the JSON codec at the types used.
use contract_review_ai_agent.Common.{
  String, Char, Bool, true, false, ◌&&◌, ◌||◌, List, [], ◌∷◌, map, Result, runes, from_runes,
  str_eq, if◌then◌else◌,
}
use contract_review_ai_agent.Llm.{Message}

-- The arguments of `submit_finding`, as both readers of them declare them (`submitFindingArgs` in
-- agent/agent.go, the local struct of Execute in tool/submit_finding.go).
pub record SubmitFindingArgs : Type 0 where
  pub risk_level : String
  pub explanation : String
  pub ambiguous_language : String
  pub recommendations : String

pub record Platform : Type 0 where
  pub quote : String → String
  pub lower : Char → Char
  pub upper : Char → Char
  pub is_space : Char → Bool
  pub unmarshal_submit : String → Result SubmitFindingArgs
  -- a struct with one text field, by the field's JSON name
  pub unmarshal_field : String → String → Result String
  pub unmarshal_strings : String → Result (List String)
  pub unmarshal_messages : String → Result (List Message)
  pub marshal_messages : List Message → String

module _ (p : Platform) where
  -- `strings.ToLower`, `strings.ToUpper`
  unfoldable pub to_lower : String → String
  to_lower s = from_runes (map p.lower (runes s))

  unfoldable pub to_upper : String → String
  to_upper s = from_runes (map p.upper (runes s))

  trim_left : List Char → List Char
  trim_left [] = []
  trim_left (c ∷ cs) = let rest = trim_left cs in if p.is_space c then rest else c ∷ cs

  -- A space is kept where something stands behind it.
  keep_char : Char → List Char → List Char
  keep_char c [] = if p.is_space c then [] else c ∷ []
  keep_char c (d ∷ ds) = c ∷ d ∷ ds

  trim_right : List Char → List Char
  unfolding keep_char
  trim_right [] = []
  trim_right (c ∷ cs) = keep_char c (trim_right cs)

  -- `strings.TrimSpace`
  unfoldable pub trim_space : String → String
  unfolding trim_left trim_right
  trim_space s = from_runes (trim_right (trim_left (runes s)))

-- `strings.HasPrefix`, on runes
unfoldable pub has_prefix : List Char → List Char → Bool
has_prefix [] s = true
has_prefix (c ∷ cs) [] = false
has_prefix (c ∷ cs) (d ∷ ds) =
    str_eq (from_runes (c ∷ [])) (from_runes (d ∷ [])) && has_prefix cs ds

contains_runes : List Char → List Char → Bool
unfolding has_prefix
contains_runes t [] = has_prefix t []
contains_runes t (c ∷ cs) = has_prefix t (c ∷ cs) || contains_runes t cs

-- `strings.Contains(s, t)`
unfoldable pub contains : String → String → Bool
unfolding contains_runes
contains s t = contains_runes (runes t) (runes s)
