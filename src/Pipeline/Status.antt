-- ===== src/Pipeline/Status.antt =====
-- Where the stages of pipeline/*.go leave a contract, over any store that keeps statuses.
use contract_review_ai_agent.Common.{
  String, ◌≡◌, Option, some, ok, orelse, Ends, >>=-Ends, orelse-Ends, orelse-ok, >>=-first, subst,
  ap, sym,
}
use contract_review_ai_agent.Domain.{
  ContractStatus, extracted, analyzing_clauses, clauses_extracted, analyzing, analyzed, Contract,
}
use contract_review_ai_agent.Llm.{Llm}
use contract_review_ai_agent.Platform.{Platform}
use contract_review_ai_agent.Budget.{Budget}
use contract_review_ai_agent.Agent.State.{Runtime, Agent}
use contract_review_ai_agent.Store.{Store}
use contract_review_ai_agent.Store.Laws.{KeepsStatus}
use contract_review_ai_agent.Pipeline.ClauseSplitting.{
  split_contract, split_found, extract_clauses, extract_clauses_from_llm, numbered,
}
use contract_review_ai_agent.Pipeline.Analyze.{
  analyze_clauses, analyze_contract, analyze_found, clauses_needing_analysis, analyze_all,
}

module _ {W : Type 0} (s : Store W) (k : KeepsStatus s) where
  -- The worlds in which the contract has a status
  abbrev At : String → ContractStatus → W → Type 0
  At id status w = k.status_of w id ≡ some status

  update-Ends :
      (id prefix : String) (status : ContractStatus)
      → Ends (At id status) (orelse prefix (s.update_contract_status id status))
  update-Ends id prefix status =
      orelse-Ends (At id status) prefix (s.update_contract_status id status)
        (λ w w' u h. k.writes id status w w' u h)

  module _ (p : Platform) (new_uuid : W → String × W) (client : Llm W) (id : String) where
    split_contract-Ends :
        (c : Contract) → Ends (At id clauses_extracted) (split_contract p new_uuid client s id c)
    unfolding split_contract
    split_contract-Ends c =
        >>=-Ends (At id clauses_extracted)
          (orelse "update status to analyzing_clauses"
            (s.update_contract_status id analyzing_clauses))
          _
          λ u.
            >>=-Ends (At id clauses_extracted)
              (orelse "extract clauses from llm"
                (extract_clauses_from_llm p new_uuid client s 3 c.raw_text))
              _
              λ texts.
                >>=-Ends (At id clauses_extracted) (numbered p new_uuid client s id texts) _
                  λ clauses.
                    >>=-Ends (At id clauses_extracted)
                      (orelse "save clauses" (s.save_clauses id clauses)) _
                      λ u. update-Ends id "update status to clauses_extracted" clauses_extracted

    split_found-status :
        (c : Contract) (status : ContractStatus) (w w' : W) (u : Unit {0})
        → At id status w
        → split_found p new_uuid client s id c status w ≡ (ok u, w')
        → At id clauses_extracted w'
    unfolding split_found
    split_found-status c clauses_extracted w w' u now h =
        subst (At id clauses_extracted) (ap (λ x. x.1) h) now
    split_found-status c extracted w w' u now h = split_contract-Ends c w w' u h
    split_found-status c status w w' u now h = absurd cc

    -- Wherever ExtractClauses reports success, the contract has the status of extracted clauses.
    pub extract_clauses-status :
        (w w' : W) (u : Unit {0})
        → extract_clauses p new_uuid client s id w ≡ (ok u, w')
        → k.status_of w' id ≡ some clauses_extracted
    unfolding extract_clauses
    extract_clauses-status w w' u =
        >>=-first (At id clauses_extracted w') (orelse "get contract" (s.get_contract id)) _ w w' u
          λ c v read rest.
            let (same, now) =
              k.reads id w v c (orelse-ok "get contract" (s.get_contract id) w v c read) in
            split_found-status c c.status v w' u (subst (At id c.status) (sym same) now) rest

  module _ (rt : Runtime W) (ag : Agent W) (provider model id : String) (b : Option Budget) where
    analyze_contract-Ends : Ends (At id analyzed) (analyze_contract s rt ag provider model id b)
    unfolding analyze_contract
    analyze_contract-Ends =
        >>=-Ends (At id analyzed) (orelse "get clauses" (s.get_clauses id)) _ λ clauses.
          >>=-Ends (At id analyzed)
            (orelse "update status to analyzing" (s.update_contract_status id analyzing)) _
            λ u.
              >>=-Ends (At id analyzed)
                (orelse "filter clauses needing analysis" (clauses_needing_analysis s clauses)) _
                λ to_analyze.
                  >>=-Ends (At id analyzed) (analyze_all s rt ag provider model id b to_analyze) _
                    λ totals. update-Ends id "update status to analyzed" analyzed

    analyze_found-status :
        (status : ContractStatus) (w w' : W) (u : Unit {0})
        → At id status w
        → analyze_found s rt ag provider model id b status w ≡ (ok u, w')
        → At id analyzed w'
    unfolding analyze_found
    analyze_found-status analyzed w w' u now h = subst (At id analyzed) (ap (λ x. x.1) h) now
    analyze_found-status clauses_extracted w w' u now h = analyze_contract-Ends w w' u h
    analyze_found-status analyzing w w' u now h = analyze_contract-Ends w w' u h
    analyze_found-status status w w' u now h = absurd cc

    -- Wherever AnalyzeClauses reports success, the contract is analysed.
    pub analyze_clauses-status :
        (w w' : W) (u : Unit {0})
        → analyze_clauses s rt ag provider model id b w ≡ (ok u, w')
        → k.status_of w' id ≡ some analyzed
    unfolding analyze_clauses
    analyze_clauses-status w w' u =
        >>=-first (At id analyzed w') (orelse "get contract" (s.get_contract id)) _ w w' u
          λ c v read rest.
            let (same, now) =
              k.reads id w v c (orelse-ok "get contract" (s.get_contract id) w v c read) in
            analyze_found-status c.status v w' u (subst (At id c.status) (sym same) now) rest
