-- ===== src/Pipeline/Output.antt =====
-- `errWriter` of pipeline/dryrun.go: writes that stop at the first error. The destination is a call on
-- the world.
pub mod Stops
use contract_review_ai_agent.Common.{
  String, Option, none, some, List, [], ◌∷◌, Result, ok, err, Error, Go,
}

-- `io.Writer`, for one formatted text
abbrev pub Writer : Type 0 → Type 0
Writer W = String → Go W (Unit {0})

-- The writer's error, and the world
abbrev pub Written : Type 0 → Type 0
Written W = Option Error × W

module _ {W : Type 0} (write : Writer W) where
  written : Result (Unit {0}) × W → Written W
  written (ok u, w) = (none, w)
  written (err e, w) = (some e, w)

  -- `printf` and `println`, behind the formatting
  print : String → Written W → Written W
  unfolding written
  print s (some e, w) = (some e, w)
  print s (none, w) = written (write s w)

  print_each : List String → Written W → Written W
  unfolding print
  print_each [] t = t
  print_each (s ∷ ss) t = print_each ss (print s t)

  -- The calls on one new writer, in order; the error is dropped with the writer.
  unfoldable pub print_all : List String → W → W
  unfolding print_each
  print_all ss w = (print_each ss (none, w)).1
