-- ===== src/Tool.antt =====
-- tool/tool.go: the tools of an agent and their registry.
pub mod Submit
pub mod Lookup
pub mod Catalog
use contract_review_ai_agent.Common.{
  String, ◌<>◌, Option, none, some, List, [], ◌∷◌, map, Result, ok, Go, Assoc, lookup, insert,
}
use contract_review_ai_agent.Llm.{ToolCall, ToolSchema}
use contract_review_ai_agent.Platform.{Platform}

pub record Tool (W : Type 0) : Type 0 where
  pub name : String
  pub description : String
  pub schema : String
  pub execute : String → Go W String

abbrev pub Registry : Type 0 → Type 0
Registry W = Assoc (Tool W)

-- `%v` of a slice of texts, without its brackets
joined : List String → String
joined [] = ""
joined (s ∷ []) = s
joined (s ∷ t ∷ ts) = s <> " " <> joined (t ∷ ts)

module _ {W : Type 0} where
  register_all : List (Tool W) → Registry W → Registry W
  register_all [] r = r
  register_all (t ∷ ts) r = register_all ts (insert t.name t r)

  -- `NewRegistry`: a later tool takes the place of an earlier one of its name.
  unfoldable pub new_registry : List (Tool W) → Registry W
  unfolding register_all
  new_registry ts = register_all ts []

  tool_schema : Tool W → ToolSchema
  tool_schema t = record { name = t.name; description = t.description; parameters = t.schema }

  unfoldable pub schemas : Registry W → List ToolSchema
  unfolding tool_schema
  schemas = map (λ e. tool_schema e.value)

  only_or_all : Option (Tool W) → Registry W → List ToolSchema
  unfolding tool_schema schemas
  only_or_all none r = schemas r
  only_or_all (some t) r = tool_schema t ∷ []

  unfoldable pub submit_finding_schema : Registry W → List ToolSchema
  unfolding only_or_all
  submit_finding_schema r = only_or_all (lookup "submit_finding" r) r

  unfoldable pub tool_names : Registry W → List String
  tool_names = map (λ e. e.key)

  module _ (p : Platform) where
    dispatch_to : Option (Tool W) → Registry W → ToolCall → Go W String
    unfolding tool_names joined
    dispatch_to none r call w = (
      ok (
          "unknown tool "
          <> p.quote call.name
          <> "; available tools: ["
          <> joined (tool_names r)
          <> "]"),
      w,
    )
    dispatch_to (some t) r call w = t.execute call.args w

    -- An unknown tool is an answer to the model, not an error.
    unfoldable pub dispatch : Registry W → ToolCall → Go W String
    unfolding dispatch_to
    dispatch r call = dispatch_to (lookup call.name r) r call
