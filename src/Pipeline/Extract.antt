-- ===== src/Pipeline/Extract.antt =====
-- pipeline/extract.go: a contract is created, or found, and its text read from a file. The reader of
-- the file (pdf.ExtractText) and filepath.Base are parameters. Go returns an identifier together with
-- an error, so a stage here gives a pair.
use contract_review_ai_agent.Common.{
  ℤ, pos, negsuc, leb_ℤ, String, Bool, Result, ok, err, wrap, Go, ◌>>=◌, ◌>>◌, orelse,
  if◌then◌else◌,
}
use contract_review_ai_agent.Domain.{
  ContractStatus, uploaded, extracting, extracted, other, Contract,
}
use contract_review_ai_agent.Store.{Store}

unfoldable pub status_rank : ContractStatus → ℤ
status_rank uploaded = pos 0
status_rank extracting = pos 1
status_rank extracted = pos 2
status_rank (other s) = negsuc 0
status_rank _ = pos 3

module _ {W : Type 0} (s : Store W) (base : String → String) (extract : String → Go W String) where
  unfoldable pub run_extract_stages : String → String → Go W (Unit {0})
  run_extract_stages id path = do
    orelse "set extracting" (s.update_contract_status id extracting)
    text ← orelse "extract text" (extract path)
    orelse "persist text" (s.update_contract_text id text)
    orelse "set extracted" (s.update_contract_status id extracted)

  with_id : String → Result (Unit {0}) × W → (String × Result (Unit {0})) × W
  with_id id (r, w) = ((id, r), w)

  created : String → Result Contract × W → (String × Result (Unit {0})) × W
  unfolding with_id
  created path (err e, w) = (("", err (wrap "create contract" e)), w)
  created path (ok c, w) = with_id c.id (run_extract_stages c.id path w)

  unfoldable pub run_extract : String → Bool → W → (String × Result (Unit {0})) × W
  unfolding created
  run_extract path requires_review w =
      created path (s.create_contract_with_options (base path) "" requires_review w)

  found : String → String → Result Contract × W → (String × Result (Unit {0})) × W
  unfolding with_id status_rank
  found id path (err e, w) = (("", err (wrap "get contract" e)), w)
  found id path (ok c, w) =
      if leb_ℤ (status_rank extracted) (status_rank c.status)
      then ((id, ok tt), w)
      else with_id id (run_extract_stages id path w)

  unfoldable pub run_extract_contract : String → String → W → (String × Result (Unit {0})) × W
  unfolding found
  run_extract_contract id path w = found id path (s.get_contract id w)
