-- ===== src/Store/Postgres.antt =====
-- store/postgres.go: the store over PostgreSQL, whose queries, pool and transactions are parameters, as
-- is uuid.New.
use contract_review_ai_agent.Common.{
  String, ◌<>◌, Bool, false, List, [], ◌∷◌, map, Result, ok, err, wrap, not_found, is_no_rows, Go,
  pure, ◌>>=◌, ◌>>◌, orelse, ignoring, if◌then◌else◌,
}
use contract_review_ai_agent.Domain.{
  ContractStatus, uploaded, status_text, Contract, Clause, ClauseAnalysis, Review, Summary,
  LibraryClause,
}
use contract_review_ai_agent.Store.{Store}
use contract_review_ai_agent.Store.Queries.{Queries, Rows, collect}
use contract_review_ai_agent.Store.AgentRuns.{agent_store}
use contract_review_ai_agent.Store.Rows.{
  to_domain_contract, to_domain_clause, to_domain_analysis, to_domain_review, to_domain_summary,
  clause_row, analysis_row, review_row,
}

-- `NewPool`: a pool that does not answer is closed again.
module _ {W Pool : Type 0} (connect : String → Go W Pool) (ping : Pool → Go W (Unit {0}))
    (close : Pool → W → W) where
  checked_pool : Pool → Result (Unit {0}) × W → Result Pool × W
  checked_pool pool (ok u, w) = (ok pool, w)
  checked_pool pool (err e, w) = (err (wrap "ping postgres" e), close pool w)

  unfoldable pub new_pool : String → Go W Pool
  unfolding checked_pool
  new_pool url = do pool ← orelse "create pool" (connect url); λ w. checked_pool pool (ping pool w)

module _ {W : Type 0} (q : Queries W) (new_uuid : W → String × W) where
  create_contract_with_options : String → String → Bool → Go W Contract
  create_contract_with_options filename raw_text requires_review w =
      let (id, w') = new_uuid w in
      (orelse "create contract" (
            q.create_contract_with_options (record {
              id = id;
              filename = filename;
              raw_text = raw_text;
              status = status_text uploaded;
              requires_review = requires_review;
            }))
          >>= λ row. pure (to_domain_contract row))
        w'

  create_contract : String → String → Go W Contract
  unfolding create_contract_with_options
  create_contract filename raw_text = create_contract_with_options filename raw_text false

  update_contract_status : String → ContractStatus → Go W (Unit {0})
  update_contract_status id status =
      orelse "update contract status" (q.update_contract_status id (status_text status))

  update_contract_text : String → String → Go W (Unit {0})
  update_contract_text id raw_text =
      orelse "update contract text" (q.update_contract_text id raw_text)

  start_run : String → String → Go W (Unit {0})
  start_run id contract_id = orelse "start run" (q.insert_run id contract_id)

  finish_run : String → String → Go W (Unit {0})
  finish_run id status = orelse "finish run" (q.update_run id status)

  get_contract : String → Go W Contract
  get_contract id = do
    row ← orelse "get contract" (q.get_contract id)
    pure (to_domain_contract row)

  create_clauses : String → List Clause → Go W (Unit {0})
  create_clauses contract_id [] = pure tt
  create_clauses contract_id (c ∷ cs) = do
    row ← orelse "create clause" (q.create_clause (clause_row contract_id c))
    create_clauses contract_id cs

  -- The rollback is deferred: it follows the commit too, and its error is dropped.
  in_transaction : Go W (Unit {0}) → Go W (Unit {0})
  in_transaction act w =
      let (r, w') = (act >> orelse "commit clauses" q.commit) w in (r, ignoring q.rollback w')

  save_clauses : String → List Clause → Go W (Unit {0})
  unfolding create_clauses in_transaction
  save_clauses contract_id clauses = do
    orelse "begin tx" q.begin
    in_transaction (create_clauses contract_id clauses)

  get_clauses : String → Go W (List Clause)
  get_clauses contract_id = do
    rows ← orelse "get clauses" (q.get_clauses_by_contract contract_id)
    pure (map to_domain_clause rows)

  unfoldable pub save_analysis : ClauseAnalysis → Go W (Unit {0})
  save_analysis a = do
    row ← orelse "save analysis" (q.create_clause_analysis (analysis_row a))
    pure tt

  unfoldable pub get_analyses : String → Go W (List ClauseAnalysis)
  get_analyses contract_id = do
    rows ← orelse "get analyses" (q.get_analyses_by_contract contract_id)
    pure (map to_domain_analysis rows)

  save_review : Review → Go W (Unit {0})
  save_review r = do row ← orelse "save review" (q.create_review (review_row r)); pure tt

  get_reviews : String → Go W (List Review)
  get_reviews contract_id = do
    rows ← orelse "get reviews" (q.get_reviews_by_contract contract_id)
    pure (map to_domain_review rows)

  save_summary : String → String → Go W (Unit {0})
  save_summary contract_id content w =
      let (id, w') = new_uuid w in
      (orelse "save summary"
            (q.upsert_summary (record { id = id; contract_id = contract_id; content = content }))
          >> pure tt)
        w'

  get_summary : String → Go W Summary
  get_summary contract_id = do
    row ← orelse "get summary" (q.get_summary_by_contract contract_id)
    pure (to_domain_summary row)

  standard_clause : Result LibraryClause → Result LibraryClause
  standard_clause (ok c) = ok c
  standard_clause (err e) =
      if is_no_rows e
      then err (wrap "get standard clause" not_found)
      else err (wrap "get standard clause" e)

  get_standard_clause : String → Go W LibraryClause
  unfolding standard_clause
  get_standard_clause clause_type w =
      let (r, w') = q.query_standard_clause clause_type w in (standard_clause r, w')

  library_clauses : Rows LibraryClause → Go W (List LibraryClause)
  unfolding collect
  library_clauses rows w =
      (collect "scan clause library row" "search clause library rows" rows.scanned rows.failure, w)

  search_clause_library : String → Go W (List LibraryClause)
  unfolding library_clauses
  search_clause_library query = do
    rows ← orelse "search clause library" (q.query_library ("%" <> query <> "%"))
    library_clauses rows

  unfoldable pub postgres_store : Store W
  unfolding create_contract update_contract_status update_contract_text start_run finish_run
      create_contract_with_options get_contract save_clauses get_clauses save_analysis get_analyses
      save_review get_reviews save_summary get_summary search_clause_library get_standard_clause
  postgres_store = record {
    create_contract = create_contract;
    create_contract_with_options = create_contract_with_options;
    get_contract = get_contract;
    update_contract_status = update_contract_status;
    update_contract_text = update_contract_text;
    save_clauses = save_clauses;
    get_clauses = get_clauses;
    save_analysis = save_analysis;
    get_analyses = get_analyses;
    save_review = save_review;
    get_reviews = get_reviews;
    save_summary = save_summary;
    get_summary = get_summary;
    search_clause_library = search_clause_library;
    get_standard_clause = get_standard_clause;
    start_run = start_run;
    finish_run = finish_run;
    agent_runs = agent_store q new_uuid;
  }
