-- ===== src/Pipeline/ClauseSplitting/Saved.antt =====
-- What ExtractClauses of pipeline/clause_splitting.go leaves in the store, over any store that keeps
-- statuses and clauses.
use mathlib.Core.List.{Subset}
use contract_review_ai_agent.Common.{
  String, ◌≡◌, refl, ◌⊎◌, inl, inr, some, ok, List, orelse, orelse-ok, >>=-first, subst, sym, ap,
}
use contract_review_ai_agent.Domain.{
  ContractStatus, extracted, analyzing_clauses, clauses_extracted, Contract, Clause,
}
use contract_review_ai_agent.Llm.{Llm}
use contract_review_ai_agent.Platform.{Platform}
use contract_review_ai_agent.Store.{Store}
use contract_review_ai_agent.Store.Laws.{KeepsStatus, KeepsClauses}
use contract_review_ai_agent.Pipeline.ClauseSplitting.{
  split_contract, split_found, extract_clauses, extract_clauses_from_llm, numbered, number_clauses,
}
use contract_review_ai_agent.Pipeline.ClauseSplitting.Numbers.{
  AreNumbered, number_clauses-AreNumbered,
}
use contract_review_ai_agent.Pipeline.Status.{extract_clauses-status}

module _ {W : Type 0} (s : Store W) (k : KeepsClauses s) (p : Platform) (new_uuid : W → String × W)
    (client : Llm W) (id : String) where
  -- The provider's answer to a contract's text was read as a list of texts, and the contract has the
  -- clauses of those texts, numbered from 1 in their order.
  pub record Saved (raw_text : String) (w : W) : Type 0 where
    pub texts : List String
    pub clauses : List Clause
    pub before : W
    pub after : W
    pub answer : extract_clauses_from_llm p new_uuid client s 3 raw_text before ≡ (ok texts, after)
    pub in_order : AreNumbered id 0 texts clauses
    pub there : Subset clauses (k.clauses_of w id)

  numbered-AreNumbered :
      (texts : List String) (clauses : List Clause) (v w : W)
      → numbered p new_uuid client s id texts v ≡ (ok clauses, w)
      → AreNumbered id 0 texts clauses
  unfolding numbered
  numbered-AreNumbered texts clauses v w h =
      let same : (number_clauses p new_uuid client s id 0 texts v).0 ≡ clauses = cc in
      subst (AreNumbered id 0 texts) same
        (number_clauses-AreNumbered p new_uuid client s id 0 texts v)

  split_contract-Saved :
      (c : Contract) (w w' : W) (u : Unit {0})
      → split_contract p new_uuid client s id c w ≡ (ok u, w')
      → Saved c.raw_text w'
  unfolding split_contract
  split_contract-Saved c w w' u =
      >>=-first (Saved c.raw_text w')
        (orelse "update status to analyzing_clauses"
          (s.update_contract_status id analyzing_clauses))
        _ w w' u
        λ u1 v1 h1.
          >>=-first (Saved c.raw_text w')
            (orelse "extract clauses from llm"
              (extract_clauses_from_llm p new_uuid client s 3 c.raw_text))
            _ v1 w' u
            λ texts v2 h2.
              >>=-first (Saved c.raw_text w') (numbered p new_uuid client s id texts) _ v2 w' u
                λ clauses v3 h3.
                  >>=-first (Saved c.raw_text w')
                    (orelse "save clauses" (s.save_clauses id clauses)) _ v3 w' u
                    λ u4 v4 h4 last. record {
                      texts = texts;
                      clauses = clauses;
                      before = v1;
                      after = v2;
                      answer =
                          orelse-ok "extract clauses from llm"
                            (extract_clauses_from_llm p new_uuid client s 3 c.raw_text) v1 v2 texts
                            h2;
                      in_order = numbered-AreNumbered texts clauses v2 v3 h3;
                      there =
                          subst (Subset clauses)
                            (sym (
                              k.keeps id id clauses_extracted v4 w' u (
                                orelse-ok "update status to clauses_extracted"
                                  (s.update_contract_status id clauses_extracted) v4 w' u last)))
                            (k.saves id clauses v3 v4 u4
                              (orelse-ok "save clauses" (s.save_clauses id clauses) v3 v4 u4 h4));
                    }

  -- A success is one of a contract that was split before, and nothing is done, or one that has saved.
  abbrev Split : Contract → W → W → Type 0
  Split c w w' =
      ((c.status ≡ clauses_extracted) × (w' ≡ w)) ⊎ ((c.status ≡ extracted) × Saved c.raw_text w')

  split_found-Split :
      (c : Contract) (status : ContractStatus) (w w' : W) (u : Unit {0})
      → c.status ≡ status
      → split_found p new_uuid client s id c status w ≡ (ok u, w')
      → Split c w w'
  unfolding split_found
  split_found-Split c clauses_extracted w w' u is h = inl (is, sym (ap (λ x. x.1) h))
  split_found-Split c extracted w w' u is h = inr (is, split_contract-Saved c w w' u h)
  split_found-Split c status w w' u is h = absurd cc

  -- The same, for the contract that the store gives
  abbrev pub SplitFrom : W → W → Type 0
  SplitFrom w w' = (c : Contract) × (s.get_contract id w ≡ (ok c, w)) × Split c w w'

  extract_clauses-SplitFrom :
      (ks : KeepsStatus s) (w w' : W) (u : Unit {0})
      → extract_clauses p new_uuid client s id w ≡ (ok u, w')
      → SplitFrom w w'
  unfolding extract_clauses
  extract_clauses-SplitFrom ks w w' u =
      >>=-first (SplitFrom w w') (orelse "get contract" (s.get_contract id)) _ w w' u
        λ c v read rest.
          let got : s.get_contract id w ≡ (ok c, v) =
            orelse-ok "get contract" (s.get_contract id) w v c read in
          let same = (ks.reads id w v c got).0 in
          (
            c,
            subst (λ t. s.get_contract id w ≡ (ok c, t)) same got,
            subst (λ t. Split c t w') same (split_found-Split c c.status v w' u refl rest),
          )

  -- Wherever ExtractClauses reports success, the contract has the status of extracted clauses. Either the
  -- store gave it under that status, and the world is the one before; or it gave it as extracted, the
  -- provider's answer to its text was read as a list of texts, and the store has the clauses of those
  -- texts for it, numbered from 1 in their order.
  pub extract_clauses-Saved :
      (ks : KeepsStatus s) (w w' : W) (u : Unit {0})
      → extract_clauses p new_uuid client s id w ≡ (ok u, w')
      → (ks.status_of w' id ≡ some clauses_extracted) × SplitFrom w w'
  extract_clauses-Saved ks w w' u h = (
    extract_clauses-status s ks p new_uuid client id w w' u h,
    extract_clauses-SplitFrom ks w w' u h,
  )
