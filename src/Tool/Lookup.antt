-- ===== src/Tool/Lookup.antt =====
-- tool/contract_tools.go: the four tools that look something up in the contract or in the library of
-- standard clauses. A contract's clauses are the store's; an error of the store is the tool's. Their
-- descriptions and schemas stand in Catalog.
-- `excerpt[:200]` counts bytes: where byte 200 lies inside a character, Go keeps the bytes before it,
-- and this text ends before the character.
pub mod Sections
use Prim.Native.String.{len, slice}
use contract_review_ai_agent.Common.{
  String, ◌<>◌, Bool, ◌||◌, Option, none, some, List, [], ◌∷◌, Result, ok, err, wrap, error_text,
  is_not_found, Go, pure, ◌>>=◌, orelse, decimal, find_first, str_eq, ltb, if◌then◌else◌,
}
use contract_review_ai_agent.Domain.{Clause, LibraryClause}
use contract_review_ai_agent.Platform.{Platform, to_lower, trim_space, contains}
use contract_review_ai_agent.Store.{Store}

module _ (p : Platform) where
  -- The three forms of a definition that GetDefinition looks for
  unfoldable pub defines : String → Clause → Bool
  defines term_lower c =
      let text = to_lower p c.text in
      contains text ("\"" <> term_lower <> "\" means")
      || contains text ("'" <> term_lower <> "' means")
      || contains text (term_lower <> " means")

  unfoldable pub definition_in : String → Option Clause → String
  definition_in term none = "definition of " <> p.quote term <> " not found in contract"
  definition_in term (some c) = c.text

  unfoldable pub mentions : String → Clause → Bool
  mentions ref_lower c = contains (to_lower p c.text) ref_lower

  abbrev pub numbered : String → Clause → Bool
  numbered reference c = str_eq (decimal c.sequence_number) reference

  -- The two loops of GetContractSection, the second on what the first does not find
  unfoldable pub section_in : String → List Clause → Option Clause → String
  section_in reference clauses (some c) = c.text
  section_in reference clauses none = elim (find_first (mentions (to_lower p reference)) clauses) [
    | some c ↦ c.text
    | none ↦ "section " <> p.quote reference <> " not found in contract"
  ]

excerpt : String → String
excerpt text = if ltb 200 (len text) then slice text 0 200 <> "..." else text

excerpts : List LibraryClause → String
unfolding excerpt
excerpts [] = ""
excerpts (r ∷ rs) = "[" <> r.clause_type <> "] " <> excerpt r.standard_text <> "\n" <> excerpts rs

standard_text : LibraryClause → String
standard_text c =
    let result = "Type: " <> c.clause_type <> "\n\nStandard text:\n" <> c.standard_text in
    if str_eq c.notes "" then result else result <> "\n\nNotes: " <> c.notes

module _ {W : Type 0} (p : Platform) (s : Store W) where
  -- The reading of a tool's one argument: a refused or an empty one is an answer to the model.
  abbrev pub with_argument : String → String → (String → Go W String) → Go W String
  with_argument field args act w = elim (p.unmarshal_field field args) [
    | err e ↦ (ok ("invalid args: " <> error_text e), w)
    | ok v ↦ if str_eq v "" then (ok ("invalid args: " <> field <> " is required"), w) else act v w
  ]

  unfoldable pub get_definition : String → String → Go W String
  get_definition contract_id args = with_argument "term" args λ term. do
    clauses ← orelse "get clauses" (s.get_clauses contract_id)
    pure (definition_in p term (find_first (defines p (to_lower p term)) clauses))

  unfoldable pub get_contract_section : String → String → Go W String
  get_contract_section contract_id args = with_argument "reference" args λ reference. do
    clauses ← orelse "get clauses" (s.get_clauses contract_id)
    pure (section_in p reference clauses (find_first (numbered p reference) clauses))

  search_answer : String → List LibraryClause → String
  unfolding excerpts
  search_answer query [] = "no clauses found matching " <> p.quote query
  search_answer query results = trim_space p (excerpts results)

  unfoldable pub search_clause_library : String → Go W String
  unfolding search_answer
  search_clause_library args = with_argument "query" args λ query. do
    results ← orelse "search clause library" (s.search_clause_library query)
    pure (search_answer query results)

  standard_answer : String → Result LibraryClause → Result String
  unfolding standard_text
  standard_answer clause_type (ok c) = ok (standard_text c)
  standard_answer clause_type (err e) =
      if is_not_found e
      then ok ("standard clause for type " <> p.quote clause_type <> " not found")
      else err (wrap "lookup standard clause" e)

  unfoldable pub lookup_standard_clause : String → Go W String
  unfolding standard_answer
  lookup_standard_clause args = with_argument "clause_type" args λ clause_type w.
      let (r, w') = s.get_standard_clause clause_type w in (standard_answer clause_type r, w')
