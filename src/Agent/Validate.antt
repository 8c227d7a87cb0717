-- ===== src/Agent/Validate.antt =====
-- parseAndValidateFinding of agent/agent.go: what ends an agent's run.
use contract_review_ai_agent.Common.{
  String, some, ◌≡◌, ◌≢◌, Result, ok, err, plain, wrap, str_eq, eq_iff, arith, if◌then◌else◌,
}
use contract_review_ai_agent.Domain.{RiskLevel, ClauseAnalysis, parse_risk_level}
use contract_review_ai_agent.Agent.State.{AnalyzeClauseTask}
use contract_review_ai_agent.Platform.{Platform, SubmitFindingArgs}

unfoldable pub finding : AnalyzeClauseTask → SubmitFindingArgs → RiskLevel → ClauseAnalysis
finding task args risk = record {
  id = "";
  clause_id = task.clause_id;
  risk_level = some risk;
  explanation = args.explanation;
  ambiguous_language = args.ambiguous_language;
  recommendations = args.recommendations;
  status = "analyzed";
}

-- The checks behind the one of the risk level
unfoldable pub check_texts :
    AnalyzeClauseTask → SubmitFindingArgs → RiskLevel → Result ClauseAnalysis
unfolding finding
check_texts task args risk =
    if str_eq args.explanation ""
    then err (plain "explanation is required")
    else if str_eq args.recommendations ""
    then err (plain "recommendations is required")
    else ok (finding task args risk)

unfoldable pub check_risk :
    AnalyzeClauseTask → SubmitFindingArgs → Result RiskLevel → Result ClauseAnalysis
unfolding check_texts
check_risk task args (err e) = err (wrap "risk_level" e)
check_risk task args (ok risk) = check_texts task args risk

unfoldable pub check_args :
    (String → String) → AnalyzeClauseTask → Result SubmitFindingArgs → Result ClauseAnalysis
unfolding check_risk
check_args quote task (err e) = err (wrap "unmarshal finding args" e)
check_args quote task (ok args) = check_risk task args (parse_risk_level quote args.risk_level)

unfoldable pub parse_and_validate_finding :
    Platform → AnalyzeClauseTask → String → Result ClauseAnalysis
unfolding check_args
parse_and_validate_finding p task raw = check_args p.quote task (p.unmarshal_submit raw)

-- A complete finding for a task: it names the task's clause, has a risk level, an explanation and
-- recommendations, and is marked as analyzed.
pub record IsComplete (task : AnalyzeClauseTask) (f : ClauseAnalysis) : Type 0 where
  pub clause : f.clause_id ≡ task.clause_id
  pub risk : (r : RiskLevel) × (f.risk_level ≡ some r)
  pub explained : f.explanation ≢ ""
  pub recommended : f.recommendations ≢ ""
  pub analyzed : f.status ≡ "analyzed"

check_texts-IsComplete :
    (task : AnalyzeClauseTask) (args : SubmitFindingArgs) (risk : RiskLevel) (f : ClauseAnalysis)
    → check_texts task args risk ≡ ok f
    → IsComplete task f
unfolding check_texts
check_texts-IsComplete task args risk f h = record {
  clause = ground arith;
  risk = (risk, ground arith);
  explained = ground (arith, eq_iff args.explanation "");
  recommended = ground (arith, eq_iff args.recommendations "");
  analyzed = ground arith;
}

check_risk-IsComplete :
    (task : AnalyzeClauseTask) (args : SubmitFindingArgs) (risk : Result RiskLevel)
    (f : ClauseAnalysis)
    → check_risk task args risk ≡ ok f
    → IsComplete task f
unfolding check_risk
check_risk-IsComplete task args (err e) f h = cc
check_risk-IsComplete task args (ok risk) f h = check_texts-IsComplete task args risk f h

check_args-IsComplete :
    (quote : String → String) (task : AnalyzeClauseTask) (r : Result SubmitFindingArgs)
    (f : ClauseAnalysis)
    → check_args quote task r ≡ ok f
    → IsComplete task f
unfolding check_args
check_args-IsComplete quote task (err e) f h = cc
check_args-IsComplete quote task (ok args) f h =
    check_risk-IsComplete task args (parse_risk_level quote args.risk_level) f h

-- A finding that the validation accepts is complete.
pub parse_and_validate_finding-IsComplete :
    (p : Platform) (task : AnalyzeClauseTask) (raw : String) (f : ClauseAnalysis)
    → parse_and_validate_finding p task raw ≡ ok f
    → IsComplete task f
unfolding parse_and_validate_finding
parse_and_validate_finding-IsComplete p task raw f h =
    check_args-IsComplete p.quote task (p.unmarshal_submit raw) f h
