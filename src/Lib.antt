-- ===== src/Lib.antt =====
-- The contract review agent: a command that reads a contract from a file, has a language model split it
-- into clauses, lets one agent analyse each clause in a loop of calls to the model, asks a human for a
-- decision on each clause, and writes a report. The Go code is modelled as functions on a world `W` that
-- stands for the database, the provider and the clock: a Go function that returns `(T, error)` is a
-- `Go W T`, which gives a result or an error together with the world that it leaves.
--
-- Which file models what:
--   Common     lists, texts, maps, errors, and the chains of calls that stop at an error
--   Domain     domain/domain.go: statuses, risk levels, records
--   Cost       cost/pricing.go: rates, in nanodollars
--   Llm        llm/llm.go: messages and the provider interface; Llm.Fake: llm/fake.go; Llm.Retry:
--              llm/retry.go, with its attempts (Chains, Attempts) and its waits (Delays); Llm.OpenAi and
--              Llm.Anthropic: llm/openai.go and llm/anthropic.go, with what they keep (Keeps) and drop (Drops);
--              Llm.Failures: how they fail behind the retries
--   Tokens     tokens/count.go
--   Platform   what the code takes from fmt, unicode and encoding/json
--   Budget     agent/budget.go; Laws: its totals over time; Shared: several agents on one budget
--   Context    agent/context.go; Split, Truncate and Prepare: what its parts keep
--   Store      store/store.go as a record of calls; Laws: what the pipeline relies on; Fake: store/fake.go;
--              Postgres: store/postgres.go over Queries (the calls of the database) and Rows (the rows of
--              store/db/models.go and their conversions), with the agent's part in AgentRuns; Db: the
--              queries of store/db/*.sql.go with their Statements and Scan; Db.Stored: what is read back
--   Tool       tool/tool.go; Submit: tool/submit_finding.go; Lookup: tool/contract_tools.go, with its
--              look-up by number (Sections); Catalog: the schemas of the five tools and the registry of them
--   Prompts    prompts/clause_analysis_agent.go, prompts/clause_extraction.go
--   Agent      agent/agent.go: State (its records), Validate (parseAndValidateFinding), Calls (the answers
--              to tool calls), Step (one pass of the loop), Run (what comes before, between and after the
--              passes); Effect, Findings, Accounting, Resume, Recovery and Saves: what holds of a run
--   Pipeline   pipeline/*.go: Extract, ClauseSplitting (Saved: what it leaves in the store), Analyze,
--              Review, Summarize (with the prompt of
--              prompts/summarization.go), Output and DryRun (pipeline/dryrun.go), Trace; Status: where a
--              stage leaves a contract
--   Config     config/config.go and llm/factory.go; Keys: what they give to the rest
--   Command    main.go: Start (the set-up), Dispatch (the choice of a command), Counts (status), Stages
--              (process, analyze and what follows), OneClause (analyze-clause, trace); Outcomes, Start.Keyed,
--              Dispatch.DryRuns and OneClause.Reports: what they come to
--   Pdf        pdf/extract.go; Extracted: what it returns
--   LogFmt     logfmt/handler.go; Attrs: its attributes
--   Fixtures, Tests   concrete data, runs of the models, and the theorems at inputs that meet their
--              hypotheses
--
-- How they interact: Pipeline calls Agent.Run for each clause; Agent.Run calls Context before each
-- call of the provider, Budget before and after it, Tool for each tool call, and the agent's part of
-- Store at each step; Tool.Lookup and Pipeline read and write the Store. The provider behind all of
-- them may be Llm.Retry. A client takes an interface (Llm, Store, KeepsStatus, KeepsClauses, Tool) as
-- a parameter, and Llm.Fake and Store.Fake are instances.
--
-- Loops: the agent's loop and the retry loop recurse on the rounds that are left, which their own
-- bounds give (max_steps, max_retries), so no fuel is chosen. The review loop reads lines until it has
-- a decision and has no bound of its own: it takes fuel, and one round for each line read is enough.
--
-- Parameters, for code that is not in the repository: the connection to the database, the JSON codec,
-- `%q`, case mappings and white space (Platform), the tokenizer (Tokens), the context, identifiers,
-- clock and random numbers, the readers of a file, the sort of a list, the write of a file, standard
-- output, the formatting of an amount, and the package flag.
--
-- Choices: integers are natural numbers where the code keeps them from being negative, or reads them
-- only in tests that take every negative number alike; AGENT_KEEP_RECENT is an integer. A negative one
-- panics in Context.split, which is the error `panicked` there: in Go it ends the process, while in
-- Agent.Run and above it ends the run as a failed Prepare does, so what is modelled there is the code
-- without that panic. The waits of the retry loop have int64's wrap-around written out; dollar amounts
-- are whole nanodollars, where the code uses float64; time stamps, log lines and printed reports are
-- left out. The goroutines of the analysis run one after another in Pipeline.Analyze, and in every
-- interleaving on their budget in Budget.Shared.
--
-- Not modelled: what the database does with a statement; the SDKs of the providers and the readers of a
-- PDF; the signals; and what status, process and review print.
pub mod Common
pub mod Domain
pub mod Cost
pub mod Llm
pub mod Platform
pub mod Tokens
pub mod Budget
pub mod Context
pub mod Store
pub mod Tool
pub mod Prompts
pub mod Config
pub mod Pipeline
pub mod Agent
pub mod Command
pub mod LogFmt
pub mod Pdf
mod Fixtures
mod Tests
