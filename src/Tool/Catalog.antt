-- ===== src/Tool/Catalog.antt =====
-- The names, descriptions and schemas of the five tools (tool/contract_tools.go,
-- tool/submit_finding.go), and the registry that an agent of a contract has.
use contract_review_ai_agent.Common.{String, ◌<>◌, [], ◌∷◌, none}
use contract_review_ai_agent.Platform.{Platform}
use contract_review_ai_agent.Store.{Store}
use contract_review_ai_agent.Tool.{Tool, Registry, new_registry}
use contract_review_ai_agent.Tool.Lookup.{
  get_definition, get_contract_section, search_clause_library, lookup_standard_clause,
}
use contract_review_ai_agent.Tool.Submit.{new_submit_finding}

abbrev get_definition_schema : String
get_definition_schema =
    "{\n" <> "\t\t\"type\": \"object\",\n" <> "\t\t\"properties\": {\n"
    <> "\t\t\t\"term\": {\"type\": \"string\", \"description\": \"The defined term to look up\"}\n"
    <> "\t\t},\n" <> "\t\t\"required\": [\"term\"]\n" <> "\t}"

abbrev get_contract_section_schema : String
get_contract_section_schema =
    "{\n" <> "\t\t\"type\": \"object\",\n" <> "\t\t\"properties\": {\n"
    <> "\t\t\t\"reference\": {\"type\": \"string\", \"description\": \"Section name, number, or clause sequence number\"}\n"
    <> "\t\t},\n" <> "\t\t\"required\": [\"reference\"]\n" <> "\t}"

abbrev search_clause_library_schema : String
search_clause_library_schema =
    "{\n" <> "\t\t\"type\": \"object\",\n" <> "\t\t\"properties\": {\n"
    <> "\t\t\t\"query\": {\"type\": \"string\", \"description\": \"Search query — clause type name or keywords\"}\n"
    <> "\t\t},\n" <> "\t\t\"required\": [\"query\"]\n" <> "\t}"

abbrev lookup_standard_clause_schema : String
lookup_standard_clause_schema =
    "{\n" <> "\t\t\"type\": \"object\",\n" <> "\t\t\"properties\": {\n"
    <> "\t\t\t\"clause_type\": {\"type\": \"string\", \"description\": \"The clause type to retrieve (e.g. 'liability', 'indemnity', 'termination')\"}\n"
    <> "\t\t},\n" <> "\t\t\"required\": [\"clause_type\"]\n" <> "\t}"

abbrev submission_schema : String
submission_schema =
    "{\n" <> "\t\t\"type\": \"object\",\n" <> "\t\t\"properties\": {\n"
    <> "\t\t\t\"risk_level\": {\n" <> "\t\t\t\t\"type\": \"string\",\n"
    <> "\t\t\t\t\"enum\": [\"high\", \"medium\", \"low\"],\n"
    <> "\t\t\t\t\"description\": \"The assessed risk level for this clause\"\n" <> "\t\t\t},\n"
    <> "\t\t\t\"explanation\": {\n" <> "\t\t\t\t\"type\": \"string\",\n"
    <> "\t\t\t\t\"description\": \"Clear explanation of the risk and why it matters\"\n"
    <> "\t\t\t},\n" <> "\t\t\t\"ambiguous_language\": {\n" <> "\t\t\t\t\"type\": \"string\",\n"
    <> "\t\t\t\t\"description\": \"Any ambiguous or problematic language identified (empty string if none)\"\n"
    <> "\t\t\t},\n" <> "\t\t\t\"recommendations\": {\n" <> "\t\t\t\t\"type\": \"string\",\n"
    <> "\t\t\t\t\"description\": \"Specific recommendations for improving or accepting the clause\"\n"
    <> "\t\t\t}\n" <> "\t\t},\n"
    <> "\t\t\"required\": [\"risk_level\", \"explanation\", \"ambiguous_language\", \"recommendations\"]\n"
    <> "\t}"

module _ {W : Type 0} (p : Platform) (s : Store W) (contract_id : String) where
  new_get_definition : Tool W
  new_get_definition = record {
    name = "get_definition";
    description =
        "Look up a defined term in the contract. Returns the definition text or 'not found'.";
    schema = get_definition_schema;
    execute = get_definition p s contract_id;
  }

  new_get_contract_section : Tool W
  new_get_contract_section = record {
    name = "get_contract_section";
    description =
        "Retrieve a specific section or clause from the contract by reference (e.g. 'Section 7.2' or sequence number).";
    schema = get_contract_section_schema;
    execute = get_contract_section p s contract_id;
  }

  new_search_clause_library : Tool W
  new_search_clause_library = record {
    name = "search_clause_library";
    description =
        "Search the standard clause library for clauses matching a query. Returns type and excerpt of top matches.";
    schema = search_clause_library_schema;
    execute = search_clause_library p s;
  }

  new_lookup_standard_clause : Tool W
  new_lookup_standard_clause = record {
    name = "lookup_standard_clause";
    description =
        "Retrieve the full standard baseline text for a clause type (e.g. 'liability', 'indemnity') for comparison.";
    schema = lookup_standard_clause_schema;
    execute = lookup_standard_clause p s;
  }

  -- The tools of AnalyzeClauses and of analyze-clause
  unfoldable pub clause_registry : Registry W
  unfolding new_get_definition new_get_contract_section new_search_clause_library
      new_lookup_standard_clause
  clause_registry = new_registry (
      new_get_definition
      ∷ new_get_contract_section
      ∷ new_search_clause_library
      ∷ new_lookup_standard_clause
      ∷ new_submit_finding p none submission_schema
      ∷ [])
