-- ===== src/Pdf/Extracted.antt =====
-- What ExtractText of pdf/extract.go returns.
use contract_review_ai_agent.Common.{
  ℕ, String, ◌≡◌, refl, ap, true, false, Option, none, some, List, [], ◌∷◌, take, arith, Result, ok,
  err, Error, Bool-cases, inl, inr, Go, orelse, ◌<>◌, ◌>>=◌, >>=-first, orelse-ok,
}
use contract_review_ai_agent.Platform.{Platform}
use contract_review_ai_agent.Pdf.{
  PdfSystem, filled, equal_bytes, pdf_magic, has_magic, is_blank, check_magic, check_header,
  validate_pdf, extract_with_library, extract_with_pdftotext, fallback, choose_text, extract_text,
}

has_magic-take : (bs : List ℕ) → has_magic bs ≡ true → take 5 bs ≡ pdf_magic
unfolding has_magic equal_bytes filled
has_magic-take [] h = absurd cc
has_magic-take (a ∷ []) h = ground arith
has_magic-take (a ∷ b ∷ []) h = ground arith
has_magic-take (a ∷ b ∷ c ∷ []) h = ground arith
has_magic-take (a ∷ b ∷ c ∷ d ∷ []) h = ground arith
has_magic-take (a ∷ b ∷ c ∷ d ∷ e ∷ bs) h = ground arith

module _ {W File Document Reader : Type 0} (p : Platform)
    (sys : PdfSystem W File Document Reader) where
  fallback-is_blank :
      (failure : Error) (o : Option String) (v w : W) (text : String)
      → fallback p sys failure (o, v) ≡ (ok text, w)
      → is_blank p sys text ≡ false
  unfolding fallback
  fallback-is_blank failure none v w text = λ h. absurd cc
  fallback-is_blank failure (some t) v w text = elim (Bool-cases (is_blank p sys t)) [
    | inl blank ↦ rw blank (λ h. absurd cc)
    | inr not_blank ↦ rw not_blank (λ h. let same : t ≡ text = cc in rw (← same) not_blank)
  ]

  choose_text-is_blank :
      (path : String) (r : Result String) (v w : W) (text : String)
      → choose_text p sys path (r, v) ≡ (ok text, w)
      → is_blank p sys text ≡ false
  unfolding choose_text
  choose_text-is_blank path (err e) v w text =
      let (o, v') = extract_with_pdftotext p sys path v in fallback-is_blank _ o v' w text
  choose_text-is_blank path (ok t) v w text = elim (Bool-cases (is_blank p sys t)) [
    | inl blank ↦
        rw blank
          (let (o, v') = extract_with_pdftotext p sys path v in fallback-is_blank _ o v' w text)
    | inr not_blank ↦ rw not_blank (λ h. let same : t ≡ text = cc in rw (← same) not_blank)
  ]

  -- The file at the path was opened in the world `w`, and the read right behind that gave the five bytes
  -- "%PDF-".
  pub record StartsAsPdf (path : String) (w : W) : Type 0 where
    pub file : File
    pub bytes : List ℕ
    pub opened : W
    pub after : W
    pub opens : sys.open_file path w ≡ (ok file, opened)
    pub reads : sys.read file 5 opened ≡ (ok bytes, after)
    pub magic : take 5 bytes ≡ pdf_magic

  check_magic-has_magic :
      (path : String) (bs : List ℕ) (v w : W) (u : Unit {0})
      → check_magic p sys path bs v ≡ (ok u, w)
      → has_magic bs ≡ true
  unfolding check_magic
  check_magic-has_magic path bs v w u = elim (Bool-cases (has_magic bs)) [
    | inl magic ↦ λ h. magic
    | inr other ↦ rw other (λ h. absurd cc)
  ]

  check_header-StartsAsPdf :
      (path : String) (f : File) (w0 v w : W) (u : Unit {0})
      → sys.open_file path w0 ≡ (ok f, v)
      → check_header p sys path f v ≡ (ok u, w)
      → StartsAsPdf path w0
  unfolding check_header
  check_header-StartsAsPdf path f w0 v w u opened h =
      let read : Go W (List ℕ) = orelse ("read header " <> path) (sys.read f 5) in
      let checked : Go W (Unit {0}) = read >>= check_magic p sys path in
      let end : W = (checked v).1 in
      >>=-first (StartsAsPdf path w0) read (check_magic p sys path) v end u
        (λ bs v1 got rest. record {
          file = f;
          bytes = bs;
          opened = v;
          after = v1;
          opens = opened;
          reads = orelse-ok ("read header " <> path) (sys.read f 5) v v1 bs got;
          magic = has_magic-take bs (check_magic-has_magic path bs v1 end u rest);
        })
        (ap (λ x. (x.0, end)) h)

  -- The checks that a file has passed before its text is read: its name and its first bytes
  abbrev pub Validated : String → W → Type 0
  Validated path w = (sys.equal_fold (sys.ext path) ".pdf" ≡ true) × StartsAsPdf path w

  validate_pdf-Validated :
      (path : String) (w w1 : W) (u : Unit {0})
      → validate_pdf p sys path w ≡ (ok u, w1)
      → Validated path w
  unfolding validate_pdf
  validate_pdf-Validated path w w1 u = elim (Bool-cases (sys.equal_fold (sys.ext path) ".pdf")) [
    | inr other ↦ rw other (λ h. absurd cc)
    | inl named ↦ rw named (λ h. (
      refl,
      >>=-first (StartsAsPdf path w) (orelse ("open " <> path) (sys.open_file path))
          (check_header p sys path) w w1 u
          (λ f v opened rest.
            check_header-StartsAsPdf path f w v w1 u
              (orelse-ok ("open " <> path) (sys.open_file path) w v f opened) rest)
          h,
    ))
  ]

  -- Where a text is returned it is not blank, the path ends as a PDF's does, and before all else the file
  -- at that path was opened and the five bytes "%PDF-" were read from it.
  pub extract_text-Validated :
      (path text : String) (w w' : W)
      → extract_text p sys path w ≡ (ok text, w')
      → (is_blank p sys text ≡ false)
        × (sys.equal_fold (sys.ext path) ".pdf" ≡ true)
        × StartsAsPdf path w
  unfolding extract_text
  extract_text-Validated path text w w' =
      >>=-first
        ((is_blank p sys text ≡ false)
          × (sys.equal_fold (sys.ext path) ".pdf" ≡ true)
          × StartsAsPdf path w)
        (validate_pdf p sys path)
        (λ valid v. choose_text p sys path (extract_with_library p sys path v)) w w' text
        (λ u v valid rest.
          let (r, v') = extract_with_library p sys path v in
          let (named, starts) = validate_pdf-Validated path w v u valid in
          (choose_text-is_blank path r v' w' text rest, named, starts))
