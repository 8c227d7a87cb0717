-- ===== src/Tests/Files.antt =====
-- Tests of pdf/extract.go over a file that the library reads as empty and pdftotext as one line.
use contract_review_ai_agent.Common.{ℕ, ◌+◌, ◌-◌, String, ◌≡◌, refl, true, false, ok, str_eq}
use contract_review_ai_agent.Platform.{trim_space}
use contract_review_ai_agent.Pdf.{
  PdfSystem, pdf_magic, has_magic, is_blank, validate_pdf, fallback, choose_text, extract_text,
}
use contract_review_ai_agent.Pdf.Extracted.{StartsAsPdf, extract_text-Validated}
use contract_review_ai_agent.Fixtures.{ascii}

-- The world counts the files that are open.
abbrev files : PdfSystem ℕ String String String
files = record {
  ext = λ path. ".pdf";
  equal_fold = str_eq;
  open_file = λ path w. (ok path, w + 1);
  read = λ f n w. (ok pdf_magic, w);
  close = λ f w. w - 1;
  open_pdf = λ path w. (ok path, w + 1);
  plain_text = λ d w. (ok d, w);
  read_from = λ r w. (ok " ", w);
  close_pdf = λ d w. w - 1;
  look_path = λ name w. (ok name, w);
  run_layout = λ bin path w. (ok "Liability is unlimited.", w);
}

extracted_test : extract_text ascii files "nda.pdf" 0 ≡ (ok "Liability is unlimited.", 0)
unfolding extract_text validate_pdf choose_text fallback is_blank has_magic trim_space
extracted_test = refl

extract_text-Validated_example :
    (is_blank ascii files "Liability is unlimited." ≡ false)
    × (str_eq ".pdf" ".pdf" ≡ true)
    × StartsAsPdf ascii files "nda.pdf" 0
extract_text-Validated_example =
    extract_text-Validated ascii files "nda.pdf" "Liability is unlimited." 0 0 extracted_test
