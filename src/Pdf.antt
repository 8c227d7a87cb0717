-- ===== src/Pdf.antt =====
-- pdf/extract.go: the text of a PDF, by the Go library or by the program pdftotext. The files, the
-- library, the program and strings.EqualFold are parameters; a byte is its number.
pub mod Extracted
use contract_review_ai_agent.Common.{
  ℕ, zero, suc, String, ◌<>◌, Bool, true, false, not, ◌&&◌, Option, none, some, List, [], ◌∷◌,
  Result, ok, err, Error, plain, wrap, not_pdf, Go, pure, fail, ◌>>=◌, ◌>>◌, orelse, ◌==◌, str_eq,
  if◌then◌else◌,
}
use contract_review_ai_agent.Platform.{Platform, trim_space}

pub record PdfSystem (W File Document Reader : Type 0) : Type 0 where
  pub ext : String → String
  pub equal_fold : String → String → Bool
  pub open_file : String → Go W File
  -- at most so many bytes
  pub read : File → ℕ → Go W (List ℕ)
  pub close : File → W → W
  pub open_pdf : String → Go W Document
  pub plain_text : Document → Go W Reader
  pub read_from : Reader → Go W String
  pub close_pdf : Document → W → W
  pub look_path : String → Go W String
  -- the standard output of `bin -layout path -`
  pub run_layout : String → String → Go W String

-- "%PDF-"
abbrev pub pdf_magic : List ℕ
pdf_magic = 37 ∷ 80 ∷ 68 ∷ 70 ∷ 45 ∷ []

-- A buffer of `n` zeros, with the bytes that were read in front
filled : ℕ → List ℕ → List ℕ
filled zero bs = []
filled (suc n) [] = 0 ∷ filled n []
filled (suc n) (b ∷ bs) = b ∷ filled n bs

equal_bytes : List ℕ → List ℕ → Bool
equal_bytes [] [] = true
equal_bytes (a ∷ xs) (b ∷ ys) = a == b && equal_bytes xs ys
equal_bytes _ _ = false

unfoldable pub has_magic : List ℕ → Bool
unfolding filled equal_bytes
has_magic bs = equal_bytes (filled 5 bs) pdf_magic

-- A call with a deferred one behind it
abbrev deferring : {W A : Type 0} → (W → W) → Go W A → Go W A
deferring close m w = let (r, w') = m w in (r, close w')

module _ {W File Document Reader : Type 0} (p : Platform)
    (sys : PdfSystem W File Document Reader) where
  unfoldable pub is_blank : String → Bool
  is_blank text = str_eq (trim_space p text) ""

  check_magic : String → List ℕ → Go W (Unit {0})
  check_magic path header = if has_magic header then pure tt else fail (wrap path not_pdf)

  check_header : String → File → Go W (Unit {0})
  unfolding check_magic
  check_header path f =
      deferring (sys.close f) (orelse ("read header " <> path) (sys.read f 5) >>= check_magic path)

  unfoldable pub validate_pdf : String → Go W (Unit {0})
  unfolding check_header
  validate_pdf path =
      if not (sys.equal_fold (sys.ext path) ".pdf")
      then fail (wrap path not_pdf)
      else (orelse ("open " <> path) (sys.open_file path) >>= check_header path)

  read_document : Document → Go W String
  read_document d =
      deferring (sys.close_pdf d)
        (orelse "pdf plain text" (sys.plain_text d) >>= λ r. orelse "pdf read" (sys.read_from r))

  extract_with_library : String → Go W String
  unfolding read_document
  extract_with_library path = do d ← orelse "pdf open" (sys.open_pdf path); read_document d

  succeeded : Result String × W → Option String × W
  succeeded (ok text, w) = (some text, w)
  succeeded (err e, w) = (none, w)

  extract_with_pdftotext : String → W → Option String × W
  unfolding succeeded
  extract_with_pdftotext path w =
      succeeded ((do bin ← sys.look_path "pdftotext"; sys.run_layout bin path) w)

  unfoldable pub fallback : Error → Option String × W → Result String × W
  unfolding is_blank
  fallback failure (none, w) = (err failure, w)
  fallback failure (some text, w) = if is_blank text then (err failure, w) else (ok text, w)

  unfoldable pub choose_text : String → Result String × W → Result String × W
  unfolding extract_with_pdftotext is_blank
  choose_text path (err e, w) =
      fallback (wrap ("extract " <> path) e) (extract_with_pdftotext path w)
  choose_text path (ok text, w) =
      if is_blank text
      then fallback (plain ("extract " <> path <> ": no text found"))
          (extract_with_pdftotext path w)
      else (ok text, w)

  unfoldable pub extract_text : String → Go W String
  unfolding extract_with_library
  extract_text path =
      validate_pdf path >>= λ valid w. choose_text path (extract_with_library path w)
