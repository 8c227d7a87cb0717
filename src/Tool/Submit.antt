-- ===== src/Tool/Submit.antt =====
-- tool/submit_finding.go: the tool that ends an analysis. Its callback is `none` where the source
-- passes nil. The schema's text is a literal for the provider and is a parameter of the tool here.
pub mod Accept
use contract_review_ai_agent.Common.{
  String, ◌<>◌, Option, none, some, ◌||◌, Result, ok, err, error_text, Go, str_eq, if◌then◌else◌,
}
use contract_review_ai_agent.Platform.{Platform, SubmitFindingArgs}
use contract_review_ai_agent.Tool.{Tool}

pub record Finding : Type 0 where
  pub risk_level : String
  pub explanation : String
  pub ambiguous_language : String
  pub recommendations : String

abbrev pub description : String
description =
    "Submit the final structured finding for this clause. Call this when analysis is complete. risk_level must be 'high', 'medium', or 'low'."

module _ {W : Type 0} where
  notify : Option (Finding → W → W) → Finding → W → W
  notify none f w = w
  notify (some on_finding) f w = on_finding f w

  module _ (p : Platform) (on_finding : Option (Finding → W → W)) where
    submit : Result SubmitFindingArgs → Go W String
    unfolding notify
    submit (err e) w = (ok ("invalid args: " <> error_text e), w)
    submit (ok req) w =
        if str_eq req.risk_level "high"
          || str_eq req.risk_level "medium"
          || str_eq req.risk_level "low"
        then (if str_eq req.explanation ""
            then (ok "invalid args: explanation is required", w)
            else if str_eq req.recommendations ""
            then (ok "invalid args: recommendations is required", w)
            else (let f : Finding = record {
              risk_level = req.risk_level;
              explanation = req.explanation;
              ambiguous_language = req.ambiguous_language;
              recommendations = req.recommendations;
            } in
                (ok "finding submitted", notify on_finding f w)))
        else (
          ok (
              "invalid risk_level "
              <> p.quote req.risk_level
              <> ": must be 'high', 'medium', or 'low'"),
          w,
        )

    unfoldable pub execute : String → Go W String
    unfolding submit
    execute args = submit (p.unmarshal_submit args)

    unfoldable pub new_submit_finding : String → Tool W
    unfolding execute
    new_submit_finding schema = record {
      name = "submit_finding";
      description = description;
      schema = schema;
      execute = execute;
    }
