-- ===== src/Command/Dispatch.antt =====
-- main.go: `main` behind its set-up, from the arguments to the end of the process. What a command
-- prints is left out but for the dry run and the trace.
pub mod DryRuns
use contract_review_ai_agent.Common.{
  ℕ, String, ◌<>◌, Bool, true, false, none, some, ◌||◌, List, [], ◌∷◌, length, Result, ok, err,
  Error, plain, Go, ◌==◌, str_eq, byte_length, if◌then◌else◌,
}
use contract_review_ai_agent.Domain.{Contract, Clause}
use contract_review_ai_agent.Llm.{Llm}
use contract_review_ai_agent.Store.{Store}
use contract_review_ai_agent.Agent.State.{Runtime, AgentResult}
use contract_review_ai_agent.Pipeline.Extract.{run_extract}
use contract_review_ai_agent.Pipeline.ClauseSplitting.{extract_clauses}
use contract_review_ai_agent.Pipeline.Review.{run_review, run_resume}
use contract_review_ai_agent.Pipeline.Summarize.{Output, run_summarize}
use contract_review_ai_agent.Pipeline.Output.{Writer}
use contract_review_ai_agent.Pipeline.DryRun.{DryRunPlan, print_dry_run_plan}
use contract_review_ai_agent.Command.Counts.{RunCounts, run_status}
use contract_review_ai_agent.Command.Stages.{
  RunSettings, default_max_steps, client_report, run_analyze, run_process,
}
use contract_review_ai_agent.Command.OneClause.{run_analyze_clause, run_trace, report_lines}

-- How the process ends: with status 0; with status 1; with the status of package flag; with a panic; or
-- not, where the review still waits for a line when the fuel is out.
pub data Ending : Type 0 where
  finished : Ending
  failed : Error → Ending
  exits : ℕ → Ending
  panics : Ending
  waits : Ending

-- What package flag makes of the arguments of `process`
pub data ProcessFlags : Type 0 where
  refused : ℕ → ProcessFlags
  accepted : Bool → List String → ProcessFlags

-- What `main` takes from outside: filepath.Base, the reader of a PDF, the lines of standard input with
-- the rounds to read them in, standard output, `%.2f` and `%.4f` of an amount, and package flag.
pub record Outside (W : Type 0) : Type 0 where
  pub base : String → String
  pub extract : String → Go W String
  pub stdin : List String
  pub rounds : ℕ
  pub stdout : Writer W
  pub cents : ℕ → String
  pub fourths : ℕ → String
  pub parse_process : List String → ProcessFlags

-- The flag is taken out of the arguments wherever it stands.
unfoldable pub take_dry_run : List String → Bool × List String
take_dry_run [] = (false, [])
take_dry_run (a ∷ as_given) =
    let (dry_run, filtered) = take_dry_run as_given in
    if str_eq a "--dry-run" || str_eq a "-dry-run"
    then (true, filtered)
    else (dry_run, a ∷ filtered)

-- An error of GetClauses is dropped: there are then no clauses.
clause_count : Result (List Clause) → ℕ
clause_count (ok cs) = length cs
clause_count (err e) = 0

module _ {W : Type 0} where
  ending : {A : Type 0} → Result A × W → Ending × W
  ending (ok a, w) = (finished, w)
  ending (err e, w) = (failed e, w)

  wants : String → W → Ending × W
  wants form w = (failed (plain ("usage: " <> form)), w)

  -- A command that wants an argument
  given_argument : String → (String → W → Ending × W) → List String → W → Ending × W
  unfolding wants
  given_argument form command [] = wants form
  given_argument form command (a ∷ rest) = command a

  after_review : Result Bool × W → Ending × W
  after_review (ok true, w) = (finished, w)
  after_review (ok false, w) = (waits, w)
  after_review (err e, w) = (failed e, w)

  after_extract : (String × Result (Unit {0})) × W → Ending × W
  after_extract ((id, ok u), w) = (finished, w)
  after_extract ((id, err e), w) = (failed e, w)

  reported : Result AgentResult × W → Ending × W
  reported (err e, w) = (failed e, w)
  reported (ok r, w) = (elim (report_lines r) [ none ↦ panics | some lines ↦ finished ], w)

module _ {W : Type 0} (s : Store W) (rt : Runtime W) (cfg : RunSettings) (client : Llm W)
    (out : Output W) (world : Outside W) where
  plan : String → Contract → ℕ → DryRunPlan
  plan id contract n = record {
    contract_id = id;
    input_chars = byte_length contract.raw_text;
    est_clauses = if n == 0 then 12 else n;
    concurrency = cfg.analysis_concurrency;
    per_agent_max_steps = default_max_steps;
    budget_cap_usd = cfg.run_max_cost_usd;
    budget_cap_tokens = cfg.run_max_tokens;
  }

  -- `analyze --dry-run`, behind the read of the contract
  dry_run_found : String → Result Contract × W → Ending × W
  unfolding plan clause_count
  dry_run_found id (err e, w) = (failed e, w)
  dry_run_found id (ok contract, w) =
      let (clauses, w') = s.get_clauses id w in
      (
        finished,
        print_dry_run_plan world.stdout world.cents (plan id contract (clause_count clauses)) w',
      )

  analyze : Bool → String → W → Ending × W
  unfolding dry_run_found ending
  analyze true id w = dry_run_found id (s.get_contract id w)
  analyze false id w = ending (run_analyze s rt cfg client out id w)

  process : ProcessFlags → W → Ending × W
  unfolding wants ending
  process (refused status) w = (exits status, w)
  process (accepted requires_review []) w = wants "process <path/to/contract.pdf> [--review]" w
  process (accepted requires_review (path ∷ rest)) w =
      ending (run_process s rt cfg client out world.base world.extract path requires_review w)

  report_on : String → Go W (Unit {0})
  report_on id = run_summarize rt.platform s client out client_report id

  analyze_clause : List String → W → Ending × W
  unfolding wants reported
  analyze_clause (id ∷ clause_id ∷ rest) w =
      reported (run_analyze_clause s rt cfg client id clause_id w)
  analyze_clause _ w = wants "analyze-clause <contract_id> <clause_id>" w

  unfoldable pub run_command : Bool → String → List String → W → Ending × W
  unfolding given_argument ending after_review after_extract process analyze analyze_clause
      report_on
  run_command dry_run name args =
      if str_eq name "process"
      then process (world.parse_process args)
      else if str_eq name "review"
      then given_argument "review <contract_id>"
          (λ id w.
            after_review (run_review rt.platform rt.new_uuid s world.rounds id world.stdin w))
          args
      else if str_eq name "resume"
      then given_argument "resume <contract_id>"
          (λ id w. ending (run_resume rt.platform rt.new_uuid s report_on id w)) args
      else if str_eq name "extract"
      then given_argument "extract <path/to/contract.pdf>"
          (λ path w. after_extract (run_extract s world.base world.extract path false w)) args
      else if str_eq name "extract-clauses"
      then given_argument "extract-clauses <contract_id>"
          (λ id w. ending (extract_clauses rt.platform rt.new_uuid client s id w)) args
      else if str_eq name "analyze"
      then given_argument "analyze <contract_id>" (analyze dry_run) args
      else if str_eq name "analyze-clause"
      then analyze_clause args
      else if str_eq name "status"
      then given_argument "status <contract_id>" (λ id w. ending (run_status s id w)) args
      else if str_eq name "summarize"
      then given_argument "summarize <contract_id>" (λ id w. ending (report_on id w)) args
      else if str_eq name "trace"
      then given_argument "trace <clause_id>"
          (λ id w. ending (run_trace s rt world.stdout world.fourths id w)) args
      else (λ w. (failed (plain ("unknown command: " <> name)), w))

  chosen : Bool × List String → W → Ending × W
  chosen (dry_run, []) w = (failed (plain "usage: contract-review-ai-agent <command> [args]"), w)
  chosen (dry_run, name ∷ args) w = run_command dry_run name args w

  -- `main`, given `os.Args[1:]`
  unfoldable pub main_with : List String → W → Ending × W
  unfolding chosen
  main_with args = chosen (take_dry_run args)
