-- ===== src/Tests/Starts.antt =====
-- Tests of main.go: the whole program, asked for the status of a contract without clauses.
use contract_review_ai_agent.Common.{ℕ, String, ◌≡◌, refl, false, none, List, [], ◌∷◌, ok, pure}
use contract_review_ai_agent.Config.{
  Config, settings, load, new_llm, base_delay_of, positive_or, inner_llm,
}
use contract_review_ai_agent.Config.Keys.{HasKey}
use contract_review_ai_agent.Llm.{Llm}
use contract_review_ai_agent.Llm.Fake.{FakeLlm, complete}
use contract_review_ai_agent.Llm.Retry.{new_retrying_llm}
use contract_review_ai_agent.Store.Rows.{contract_status, to_domain_contract}
use contract_review_ai_agent.Store.Queries.{Queries}
use contract_review_ai_agent.Store.Postgres.{new_pool, postgres_store}
use contract_review_ai_agent.Command.Counts.{run_status, count_runs}
use contract_review_ai_agent.Command.Dispatch.{
  Outside, finished, refused, take_dry_run, run_command, main_with,
}
use contract_review_ai_agent.Command.Start.{Services, main}
use contract_review_ai_agent.Command.Start.Keyed.{main-HasKey}
use contract_review_ai_agent.Fixtures.{runtime, scripted}
use contract_review_ai_agent.Fixtures.Databases.{refusing}
use contract_review_ai_agent.Fixtures.Settings.{shell}

abbrev one_contract : Queries FakeLlm
one_contract = record refusing {
  get_contract = λ id. pure (record {
    id = id;
    filename = "nda.pdf";
    raw_text = "";
    status = "uploaded";
    requires_review = false;
  });
}

abbrev inner : String → String → ℕ → Llm FakeLlm
inner key model timeout = complete

abbrev services : Services String FakeLlm String
services = record {
  connect = λ url. pure url;
  ping = λ pool. pure tt;
  close = λ pool w. w;
  queries = λ pool. one_contract;
  new_openai = inner;
  new_anthropic = inner;
  clock = record { ctx_err = λ w. none; int63n = λ n w. (0, w); wait = λ d w. (none, w) };
  hundredths = λ s. 80;
  nanodollars = λ s. 5000000000;
  output = λ tokens. record {
    sort_by_number = λ cs. cs;
    tokens = λ s. 0;
    write_file = λ name content. pure tt;
    clause_token_budget = tokens;
  };
}

abbrev outside : Outside FakeLlm
outside = record {
  base = λ path. path;
  extract = λ path. pure "";
  stdin = [];
  rounds = 0;
  stdout = λ text. pure tt;
  cents = λ amount. "5.00";
  fourths = λ amount. "0.0000";
  parse_process = λ args. refused 2;
}

abbrev args : List String
args = "status" ∷ "c1" ∷ []

main_test : main shell services runtime outside args (scripted []) ≡ (finished, scripted [])
unfolding main load settings new_pool new_llm base_delay_of positive_or inner_llm new_retrying_llm
    main_with take_dry_run run_command run_status count_runs postgres_store to_domain_contract
    contract_status
main_test = refl

main-HasKey_example : (cfg : Config String) × (load shell ≡ ok cfg) × HasKey cfg
main-HasKey_example =
    main-HasKey shell services runtime outside args (scripted []) (scripted []) main_test
