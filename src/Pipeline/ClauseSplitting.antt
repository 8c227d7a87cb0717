-- ===== src/Pipeline/ClauseSplitting.antt =====
-- pipeline/clause_splitting.go: the model splits a contract's text into clauses, which are numbered
-- and saved.
pub mod Numbers
pub mod Saved
use contract_review_ai_agent.Common.{
  ℕ, zero, suc, String, ◌<>◌, Char, Bool, true, false, Option, none, some, List, [], ◌∷◌, drop,
  length, runes, from_runes, Result, ok, err, Error, plain, clause_parse, Go, pure, fail, ◌>>=◌,
  ◌>>◌, orelse, if◌then◌else◌,
}
use mathlib.Core.List.{reverse}
use contract_review_ai_agent.Domain.{
  ContractStatus, extracted, analyzing_clauses, clauses_extracted, status_text, Contract, Clause,
}
use contract_review_ai_agent.Llm.{Llm, user, message, CompletionRequest, CompletionResponse}
use contract_review_ai_agent.Platform.{Platform, trim_space, has_prefix}
use contract_review_ai_agent.Prompts.{render_extraction}
use contract_review_ai_agent.Store.{Store}

-- `strings.TrimPrefix`, `strings.TrimSuffix`
unfoldable pub trim_prefix : String → String → String
trim_prefix s t =
    if has_prefix (runes t) (runes s) then from_runes (drop (length (runes t)) (runes s)) else s

unfoldable pub trim_suffix : String → String → String
unfolding trim_prefix
trim_suffix s t = from_runes (
    reverse (runes (trim_prefix (from_runes (reverse (runes s))) (from_runes (reverse (runes t))))))

unfoldable pub not_empty : Result (List String) → Result (List String)
not_empty (ok []) = err (plain "model returned empty clause array")
not_empty r = r

unfoldable pub parse_clauses : Platform → String → Result (List String)
unfolding trim_prefix trim_suffix not_empty
parse_clauses p raw = not_empty (
    p.unmarshal_strings (
      trim_space p
        (trim_suffix (trim_prefix (trim_prefix (trim_space p raw) "```json") "```") "```")))

extraction_request : String → CompletionRequest
extraction_request text = record {
  messages = message user (render_extraction (record { contract_text = text })) ∷ [];
  tools = [];
  max_tokens = 8192;
  temperature = 2;
  force_tool_name = "";
  timeout = 300000000000;
}

-- The refusal of a contract whose status is not the one that a stage expects
unfoldable pub wrong_status : String → ContractStatus → ContractStatus → Error
wrong_status contract_id status expected = plain (
    "contract "
    <> contract_id
    <> " has status "
    <> status_text status
    <> ", expected "
    <> status_text expected)

module _ {W : Type 0} (p : Platform) (new_uuid : W → String × W) (client : Llm W)
    (s : Store W) where
  parsed : Go W (List String) → W → Result (List String) → Result (List String) × W
  parsed again w (ok clauses) = (ok clauses, w)
  parsed again w (err e) = again w

  answered : Go W (List String) → Result CompletionResponse × W → Result (List String) × W
  unfolding parsed
  answered again (err e, w) = (err e, w)
  answered again (ok resp, w) = parsed again w (parse_clauses p resp.content)

  -- `for attempt := 0; attempt < 3; attempt++`, by the attempts left
  unfoldable pub extract_clauses_from_llm : ℕ → String → Go W (List String)
  unfolding answered extraction_request
  extract_clauses_from_llm zero text w = (err clause_parse, w)
  extract_clauses_from_llm (suc left) text w =
      answered (extract_clauses_from_llm left text) (client (extraction_request text) w)

  -- The clauses of the texts behind the first `i`
  unfoldable pub number_clauses : String → ℕ → List String → W → List Clause × W
  number_clauses contract_id i [] w = ([], w)
  number_clauses contract_id i (t ∷ ts) w =
      let (id, w1) = new_uuid w in
      let (cs, w2) = number_clauses contract_id (suc i) ts w1 in
      (record { id = id; contract_id = contract_id; sequence_number = suc i; text = t } ∷ cs, w2)

  unfoldable pub numbered : String → List String → Go W (List Clause)
  unfolding number_clauses
  numbered contract_id texts w = let (cs, w') = number_clauses contract_id 0 texts w in (ok cs, w')

  unfoldable pub split_contract : String → Contract → Go W (Unit {0})
  split_contract contract_id contract = do
    orelse "update status to analyzing_clauses"
        (s.update_contract_status contract_id analyzing_clauses)
    texts ← orelse "extract clauses from llm" (extract_clauses_from_llm 3 contract.raw_text)
    clauses ← numbered contract_id texts
    orelse "save clauses" (s.save_clauses contract_id clauses)
    orelse "update status to clauses_extracted"
        (s.update_contract_status contract_id clauses_extracted)

  -- The guards: done already, not ready, or ready.
  unfoldable pub split_found : String → Contract → ContractStatus → Go W (Unit {0})
  split_found contract_id contract clauses_extracted = pure tt
  split_found contract_id contract extracted = split_contract contract_id contract
  split_found contract_id contract status = fail (wrong_status contract_id status extracted)

  unfoldable pub extract_clauses : String → Go W (Unit {0})
  extract_clauses contract_id = do
    contract ← orelse "get contract" (s.get_contract contract_id)
    split_found contract_id contract contract.status
