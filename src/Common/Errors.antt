-- ===== src/Common/Errors.antt =====
-- Go's `error` values, and functions of type `(T, error)` that act on the world around the program:
-- the database, the model provider, the clock. What was done before an error stays done.
use Prim.Native.Nat.{ℕ}
use Prim.Native.String.{String, ◌++◌ as ◌<>◌}
use mathlib.Core.Path.{◌≡◌, refl, ◌∙◌}
use mathlib.Core.Bool.{Bool, true, false}
use mathlib.Core.Logic.{◌⊎◌, inl, inr}
use contract_review_ai_agent.Common.Text.{decimal}

pub data Error : Type 0 where
  -- `errors.New`, and `fmt.Errorf` without `%w`
  plain : String → Error
  -- `fmt.Errorf("prefix: %w", err)`
  wrap : String → Error → Error
  -- `store.ErrNotFound`, `pdf.ErrNotPDF`, `pipeline.ErrClauseParse`
  not_found not_pdf clause_parse : Error
  -- `pgx.ErrNoRows`
  no_rows : Error
  -- `context.Canceled`, `context.DeadlineExceeded`
  canceled deadline_exceeded : Error
  -- A panic in the place of a result: no error of Go, which no caller sees
  panicked : Error
  -- `*llm.TransientError`, `*llm.PermanentError`
  transient permanent : ℕ → String → Error

-- `err.Error()`
unfoldable pub error_text : Error → String
error_text (plain s) = s
error_text (wrap prefix e) = prefix <> ": " <> error_text e
error_text not_found = "not found"
error_text not_pdf = "not a PDF file"
error_text clause_parse = "clause extraction: could not parse JSON after retries"
error_text no_rows = "no rows in result set"
error_text panicked = "panic: slice bounds out of range"
error_text canceled = "context canceled"
error_text deadline_exceeded = "context deadline exceeded"
error_text (transient c m) = "transient " <> decimal c <> ": " <> m
error_text (permanent c m) = "permanent " <> decimal c <> ": " <> m

-- `errors.Is(err, store.ErrNotFound)`
unfoldable pub is_not_found : Error → Bool
is_not_found not_found = true
is_not_found (wrap prefix e) = is_not_found e
is_not_found _ = false

-- `errors.Is(err, pgx.ErrNoRows)`
unfoldable pub is_no_rows : Error → Bool
is_no_rows no_rows = true
is_no_rows (wrap prefix e) = is_no_rows e
is_no_rows _ = false

pub data Result {ℓ} (A : Type ℓ) : Type ℓ where
  ok : A → Result A
  err : Error → Result A

-- To split on what a call returned and keep the equation.
pub Result-cases {ℓ} :
    {A : Type ℓ} (outcome : Result A)
    → ((value : A) × (outcome ≡ ok value)) ⊎ ((failure : Error) × (outcome ≡ err failure))
Result-cases (err failure) = inr (failure, refl)
Result-cases (ok value) = inl (value, refl)

-- `if err != nil { return fmt.Errorf("prefix: %w", err) }`
abbrev pub wrapping : {A : Type 0} → String → Result A → Result A
wrapping prefix (ok a) = ok a
wrapping prefix (err e) = err (wrap prefix e)

-- A call that reads and changes a world `W`.
abbrev pub Go : Type 0 → Type 0 → Type 0
Go W A = W → Result A × W

module _ {W : Type 0} where
  abbrev pub pure : {A : Type 0} → A → Go W A
  pure a w = (ok a, w)

  abbrev pub fail : {A : Type 0} → Error → Go W A
  fail e w = (err e, w)

  abbrev pub continue : {A B : Type 0} → Result A → (A → Go W B) → Go W B
  continue (ok a) f w = f a w
  continue (err e) f w = (err e, w)

  infixl 5 ◌>>=◌ ◌>>◌
  -- `if err != nil { return err }`
  abbrev pub ◌>>=◌ : {A B : Type 0} → Go W A → (A → Go W B) → Go W B
  ◌>>=◌ m f w = let (r, w') = m w in continue r f w'

  abbrev pub ◌>>◌ : {A B : Type 0} → Go W A → Go W B → Go W B
  m >> n = m >>= λ _. n

  abbrev pub orelse : {A : Type 0} → String → Go W A → Go W A
  orelse prefix m w = let (r, w') = m w in (wrapping prefix r, w')

  -- `_ = f()`: the error is dropped, what was done stays.
  abbrev pub ignoring : {A : Type 0} → Go W A → W → W
  ignoring m w = (m w).1

  -- Wherever a call ends well, the world is one of `P`.
  abbrev pub Ends : {A : Type 0} → (W → Type 0) → Go W A → Type 0
  Ends {A = A} P m = (w w' : W) (a : A) → m w ≡ (ok a, w') → P w'

  -- The last call of a chain decides where the chain ends.
  pub >>=-Ends :
      {A B : Type 0} (P : W → Type 0) (m : Go W A) (f : A → Go W B)
      → ((a : A) → Ends P (f a))
      → Ends P (m >>= f)
  >>=-Ends {A = A} {B = B} P m f last w w' b = go ((m w).0) ((m w).1)
    where
      go : (r : Result A) (v : W) → ◌≡◌ {A = Result B × W} (continue r f v) (ok b, w') → P w'
      go (ok a) v h = last a v w' b h
      go (err x) v h = absurd cc

  -- The prefix of an error does not touch a good end.
  pub orelse-Ends :
      {A : Type 0} (P : W → Type 0) (prefix : String) (m : Go W A)
      → Ends P m
      → Ends P (orelse prefix m)
  orelse-Ends {A = A} P prefix m well w w' a = go ((m w).0) ((m w).1) refl
    where
      go :
          (r : Result A) (v : W)
          → ◌≡◌ {A = Result A × W} (m w) (r, v)
          → ◌≡◌ {A = Result A × W} (wrapping prefix r, v) (ok a, w')
          → P w'
      go (ok x) v e h = well w w' a (e ∙ h)
      go (err x) v e h = absurd cc

  pub orelse-ok :
      {A : Type 0} (prefix : String) (m : Go W A) (w w1 : W) (a : A)
      → ◌≡◌ {A = Result A × W} (orelse prefix m w) (ok a, w1)
      → ◌≡◌ {A = Result A × W} (m w) (ok a, w1)
  orelse-ok {A = A} prefix m w w1 a = go ((m w).0) ((m w).1) refl
    where
      go :
          (r : Result A) (v : W)
          → ◌≡◌ {A = Result A × W} (m w) (r, v)
          → ◌≡◌ {A = Result A × W} (wrapping prefix r, v) (ok a, w1)
          → ◌≡◌ {A = Result A × W} (m w) (ok a, w1)
      go (ok x) v e h = e ∙ h
      go (err x) v e h = absurd cc

  -- What a chain's first call gave, where the chain ends well.
  pub >>=-first :
      {A B : Type 0} (P : Type 0) (m : Go W A) (f : A → Go W B) (w w' : W) (b : B)
      → ((a : A) (v : W) → m w ≡ (ok a, v) → f a v ≡ (ok b, w') → P)
      → (m >>= f) w ≡ (ok b, w')
      → P
  >>=-first {A = A} {B = B} P m f w w' b then = go ((m w).0) ((m w).1) refl
    where
      go :
          (r : Result A) (v : W)
          → ◌≡◌ {A = Result A × W} (m w) (r, v)
          → ◌≡◌ {A = Result B × W} (continue r f v) (ok b, w')
          → P
      go (ok a) v e h = then a v e h
      go (err x) v e h = absurd cc
