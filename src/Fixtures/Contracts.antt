-- ===== src/Fixtures/Contracts.antt =====
-- Data for the tests of the pipeline: a store with one contract of one clause, and an agent over it.
use contract_review_ai_agent.Common.{pos, String, none, [], ◌∷◌, ok, true, false, length, runes}
use contract_review_ai_agent.Domain.{ContractStatus, Contract, Clause}
use contract_review_ai_agent.Llm.{Llm}
use contract_review_ai_agent.Store.Fake.{FakeStore}
use contract_review_ai_agent.Tool.{new_registry}
use contract_review_ai_agent.Tool.Submit.{new_submit_finding}
use contract_review_ai_agent.Agent.State.{Runtime, Agent}
use contract_review_ai_agent.Pipeline.Summarize.{Output}
use contract_review_ai_agent.Command.Stages.{RunSettings}
use contract_review_ai_agent.Command.Dispatch.{Outside, accepted}
use contract_review_ai_agent.Fixtures.{ascii, rune_tokens, response, call}

abbrev pub contract : ContractStatus → Contract
contract status = record {
  id = "c1";
  filename = "nda.pdf";
  raw_text = "Liability is unlimited.";
  status = status;
  requires_review = true;
}

abbrev pub clause : Clause
clause = record {
  id = "cl-1";
  contract_id = "c1";
  sequence_number = 1;
  text = "Liability is unlimited.";
}

abbrev pub holding : ContractStatus → FakeStore
holding status = record {
  contracts = record { key = "c1"; value = contract status } ∷ [];
  clauses = record { key = "c1"; value = clause ∷ [] } ∷ [];
  analyses = [];
  reviews = [];
  summaries = [];
  uuids = λ n. "id";
  issued = 0;
}

-- A provider that always submits the complete finding
abbrev pub model : Llm FakeStore
model req w = (ok (response (call "submit_finding" "good" ∷ [])), w)

abbrev pub new_id : FakeStore → String × FakeStore
new_id w = ("id", w)

abbrev pub run_time : Runtime FakeStore
run_time = record {
  platform = ascii;
  tiktoken = rune_tokens;
  ctx_err = λ w. none;
  new_uuid = new_id;
}

abbrev pub clause_agent : Agent FakeStore
clause_agent = record {
  llm = model;
  tools = new_registry (new_submit_finding ascii none "{}" ∷ []);
  max_steps = 3;
  ctx_mgr = none;
  store = none;
}

abbrev pub run_settings : RunSettings
run_settings = record {
  llm_provider = "openai";
  llm_model = "gpt-4o-mini";
  context_window = 100000;
  compact_ratio = 75;
  keep_recent = pos 6;
  run_max_tokens = 2000000;
  run_max_cost_usd = 5000000000;
  run_max_steps = 100;
  analysis_concurrency = 5;
}

abbrev pub output : Output FakeStore
output = record {
  sort_by_number = λ cs. cs;
  tokens = λ s. length (runes s);
  write_file = λ name content w. (ok tt, w);
  clause_token_budget = 200;
}

-- A PDF with one line of text, and an empty standard input
abbrev pub outside : Outside FakeStore
outside = record {
  base = λ path. path;
  extract = λ path w. (ok "Liability is unlimited.", w);
  stdin = [];
  rounds = 0;
  stdout = λ text w. (ok tt, w);
  cents = λ amount. "5.00";
  fourths = λ amount. "0.0000";
  parse_process = λ args. accepted false args;
}
