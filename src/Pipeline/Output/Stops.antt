-- ===== src/Pipeline/Output/Stops.antt =====
-- What the `errWriter` of pipeline/dryrun.go writes.
use contract_review_ai_agent.Common.{
  String, ◌≡◌, refl, ap, ◌∙◌, none, some, List, [], ◌∷◌, Result, ok, err, Error, Go, pure, ◌>>◌,
  continue,
}
use contract_review_ai_agent.Pipeline.Output.{
  Writer, Written, written, print, print_each, print_all,
}

module _ {W : Type 0} (write : Writer W) where
  -- The texts one after another, up to the first error
  unfoldable pub write_each : List String → Go W (Unit {0})
  write_each [] = pure tt
  write_each (s ∷ ss) = write s >> write_each ss

  print_each-some :
      (ss : List String) (e : Error) (w : W) → print_each write ss (some e, w) ≡ (some e, w)
  unfolding print_each print
  print_each-some [] e w = refl
  print_each-some (s ∷ ss) e w = print_each-some ss e w

  print_each-written :
      (ss : List String) (r : Result (Unit {0})) (v : W)
      → print_each write ss (none, v) ≡ written write (write_each ss v)
      → print_each write ss (written write (r, v))
        ≡ written write (continue r (λ _. write_each ss) v)
  unfolding written
  print_each-written ss (ok u) v h = h
  print_each-written ss (err e) v h = print_each-some ss e v

  print_each-none :
      (ss : List String) (w : W) → print_each write ss (none, w) ≡ written write (write_each ss w)
  unfolding print_each print written write_each
  print_each-none [] w = refl
  print_each-none (s ∷ ss) w =
      print_each-written ss ((write s w).0) ((write s w).1) (print_each-none ss ((write s w).1))

  written-world : (r : Result (Unit {0})) (w : W) → (written write (r, w)).1 ≡ w
  unfolding written
  written-world (ok u) w = refl
  written-world (err e) w = refl

  -- The calls on one writer leave the world of the writes one after another up to the first error.
  pub print_all-write_each : (ss : List String) (w : W) → print_all write ss w ≡ (write_each ss w).1
  unfolding print_all
  print_all-write_each ss w =
      ap (λ t. t.1) (print_each-none ss w)
      ∙ written-world ((write_each ss w).0) ((write_each ss w).1)

module _ {W D : Type 0} (view : W → D) (write : Writer W)
    (quiet : (text : String) (w : W) → view ((write text w).1) ≡ view w) where
  written-view : (r : Result (Unit {0}) × W) → view ((written write r).1) ≡ view (r.1)
  unfolding written
  written-view (ok u, w) = refl
  written-view (err e, w) = refl

  print-view : (text : String) (t : Written W) → view ((print write text t).1) ≡ view (t.1)
  unfolding print
  print-view text (none, w) = written-view (write text w) ∙ quiet text w
  print-view text (some e, w) = refl

  print_each-view :
      (ss : List String) (t : Written W) → view ((print_each write ss t).1) ≡ view (t.1)
  unfolding print_each
  print_each-view [] t = refl
  print_each-view (s ∷ ss) t = print_each-view ss (print write s t) ∙ print-view s t

  -- What every write leaves, the calls on one writer leave.
  pub print_all-view : (ss : List String) (w : W) → view (print_all write ss w) ≡ view w
  unfolding print_all
  print_all-view ss w = print_each-view ss (none, w)
