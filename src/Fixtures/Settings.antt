-- ===== src/Fixtures/Settings.antt =====
-- Data for the tests of the settings: an environment with a database and an OpenAI key.
use contract_review_ai_agent.Common.{none, String, str_eq, if◌then◌else◌}
use contract_review_ai_agent.Config.{Environment}

abbrev pub shell : Environment String
shell = record {
  getenv = λ name.
      if str_eq name "DATABASE_URL"
      then "postgres://"
      else if str_eq name "OPENAI_API_KEY"
      then "sk-1"
      else "";
  atoi = λ s. none;
  parse_float = λ s. none;
  literal = λ s. s;
}
