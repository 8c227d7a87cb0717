-- ===== src/Tests/Logs.antt =====
-- Tests of logfmt/handler.go over a world that is the text written so far.
use contract_review_ai_agent.Common.{pos, String, ◌<>◌, ◌≡◌, refl, List, [], ◌∷◌, ◌++◌, ok}
use contract_review_ai_agent.LogFmt.{
  Attr, LogRecord, Handler, level_warn, with_attrs, handle, enabled,
}
use contract_review_ai_agent.LogFmt.Attrs.{handle-with_attrs}

abbrev attr : String → String → Attr
attr key value = record { key = key; value = value }

abbrev logger : Handler String
logger = record { write = λ s w. (ok tt, w <> s); level = pos 0; pre_attrs = [] }

abbrev line : LogRecord
line = record { level = level_warn; message = "slow"; attrs = attr "ms" "12" ∷ [] }

abbrev of_run : List Attr
of_run = attr "run" "r1" ∷ []

handle_test : handle (with_attrs of_run logger) line "" ≡ (ok tt, "WARN  slow   run=r1   ms=12\n")
unfolding handle with_attrs
handle_test = refl

handle-with_attrs_example :
    (handle (with_attrs of_run logger) line ""
      ≡ handle logger (record line { attrs = of_run ++ line.attrs }) "")
    × (enabled (with_attrs of_run logger) (pos 0) ≡ enabled logger (pos 0))
handle-with_attrs_example = handle-with_attrs logger of_run line (pos 0) ""
