-- ===== src/Context/Prepare.antt =====
-- Prepare of agent/context.go: what survives a compaction, how large the list is left, and when the
-- summarizer is called.
use Prim.Native.Nat.{min}
use contract_review_ai_agent.Common.{
  ℕ, suc, pos, negsuc, panicked, false, ◌+◌, ◌<◌, ◌^◌, ◌-◌, ◌≤◌, ◌≡◌, refl, sym, ap, subst, ◌⊎◌,
  inl, inr, List, [], ◌∷◌, ◌++◌, length, take, Result, ok, err, Bool-cases, ltb, ltb→lt, arith,
}
use contract_review_ai_agent.Llm.{Message}
use contract_review_ai_agent.Tokens.{Tiktoken, count_messages}
use contract_review_ai_agent.Context.{
  ContextManager, split, flatten, truncate_tool_results, summarize, with_summary, compact, prepare,
}
use contract_review_ai_agent.Context.Split.{split_lem, split-panics}

module _ {W : Type 0} (t : Tiktoken) (cm : ContextManager W) where
  -- The list was built from the pinned part, some middle and the recent part.
  abbrev Built : List Message → List Message → Result (List Message) → Type 0
  Built pinned recent r = (middle : List Message) × (r ≡ ok (flatten pinned middle recent))

  with_summary-Built :
      (pinned recent : List Message) (r : Result Message)
      → Built pinned recent (ok (with_summary t cm pinned recent r))
  unfolding with_summary
  with_summary-Built pinned recent (err e) = ([], refl)
  with_summary-Built pinned recent (ok summary) =
      elim (Bool-cases
        (ltb cm.window_limit (count_messages t cm.model (flatten pinned (summary ∷ []) recent)))) [
          | inl over ↦ ([], rw over)
          | inr fits ↦ (summary ∷ [], rw fits)
        ]

  compact-Built :
      (pinned middle recent : List Message) (w : W)
      → Built pinned recent (compact t cm pinned middle recent w).0
  unfolding compact
  compact-Built pinned middle recent w =
      elim (Bool-cases
        (ltb (count_messages t cm.model (flatten pinned middle recent)) cm.compact_at)) [
          | inl fits ↦ (middle, rw fits)
          | inr over ↦ rw over (with_summary-Built pinned recent (summarize cm middle w).0)
        ]

  prepare-Built :
      (msgs pinned middle recent : List Message) (w : W)
      → split cm.keep_recent msgs ≡ ok (pinned, middle, recent)
      → pinned ++ (middle ++ recent) ≡ msgs
      → Built pinned recent (prepare t cm msgs w).0
  unfolding prepare flatten
  prepare-Built msgs pinned middle recent w cut whole =
      elim (Bool-cases (ltb (count_messages t cm.model msgs) cm.compact_at)) [
        | inl fits ↦ (middle, rw fits (ap ok (sym whole)))
        | inr over ↦ rw (over, cut) (compact-Built pinned (truncate_tool_results middle) recent w)
      ]

  -- Where `keep_recent` is not negative Prepare returns a list, which begins with the first message of the
  -- given one and ends with the last `keep_recent` of the others (with all the others, where there are
  -- fewer); only what stands between them changes.
  pub prepare-keeps :
      (k : ℕ) (msgs : List Message) (w : W)
      → cm.keep_recent ≡ pos k
      → (middle recent before : List Message) × ((prepare t cm msgs w).0
          ≡ ok (take 1 msgs ++ (middle ++ recent)))
        × (msgs ≡ take 1 msgs ++ (before ++ recent))
        × (length recent ≡ min k (length msgs - 1))
  unfolding flatten
  prepare-keeps k msgs w kept =
      let (pinned, before, recent, cut, parts, size) = split_lem k msgs in
      let (middle, built) = prepare-Built msgs pinned before recent w (rw kept cut) parts.whole in
      (
        middle,
        recent,
        before,
        subst (λ p. (prepare t cm msgs w).0 ≡ ok (p ++ (middle ++ recent))) parts.pins built,
        subst (λ p. msgs ≡ p ++ (before ++ recent)) parts.pins (sym parts.whole),
        size,
      )

  -- Where `keep_recent` is negative Prepare panics on a list that is not empty and has come to the size at
  -- which compaction starts, if the length less `keep_recent` is an int64.
  pub prepare-panics :
      (n : ℕ) (m : Message) (ms : List Message) (w : W)
      → cm.keep_recent ≡ negsuc n
      → length (m ∷ ms) + suc n < 2 ^ 63
      → cm.compact_at ≤ count_messages t cm.model (m ∷ ms)
      → prepare t cm (m ∷ ms) w ≡ (err panicked, w)
  unfolding prepare
  prepare-panics n m ms w negative short full =
      let over : ltb (count_messages t cm.model (m ∷ ms)) cm.compact_at ≡ false =
        ground (arith, full) in
      rw (over, negative, split-panics n m ms short) refl

  -- A list fits the window, or is the pinned and the recent messages alone.
  abbrev pub Fits : List Message → List Message → Result (List Message) → Type 0
  Fits pinned recent r =
      (msgs : List Message) × (r ≡ ok msgs)
      × ((count_messages t cm.model msgs ≤ cm.window_limit) ⊎ (msgs ≡ pinned ++ recent))

  with_summary-Fits :
      (pinned recent : List Message) (r : Result Message)
      → Fits pinned recent (ok (with_summary t cm pinned recent r))
  unfolding with_summary flatten
  with_summary-Fits pinned recent (err e) = (pinned ++ recent, refl, inr refl)
  with_summary-Fits pinned recent (ok summary) =
      let result = flatten pinned (summary ∷ []) recent in
      elim (Bool-cases (ltb cm.window_limit (count_messages t cm.model result))) [
        | inl over ↦ (pinned ++ recent, rw over, inr refl)
        | inr fits ↦ (result, rw fits, inl (ground arith))
      ]

  compact-Fits :
      (pinned middle recent : List Message) (w : W)
      → cm.compact_at ≤ cm.window_limit
      → Fits pinned recent (compact t cm pinned middle recent w).0
  unfolding compact
  compact-Fits pinned middle recent w h =
      let result = flatten pinned middle recent in
      elim (Bool-cases (ltb (count_messages t cm.model result) cm.compact_at)) [
        | inl fits ↦ (result, rw fits, inl (omega (arith, ltb→lt _ _ fits)))
        | inr over ↦ rw over (with_summary-Fits pinned recent (summarize cm middle w).0)
      ]

  prepare-Fits :
      (msgs pinned middle recent : List Message) (w : W)
      → cm.compact_at ≤ cm.window_limit
      → split cm.keep_recent msgs ≡ ok (pinned, middle, recent)
      → Fits pinned recent (prepare t cm msgs w).0
  unfolding prepare
  prepare-Fits msgs pinned middle recent w h cut =
      elim (Bool-cases (ltb (count_messages t cm.model msgs) cm.compact_at)) [
        | inl fits ↦ (msgs, rw fits, inl (omega (arith, ltb→lt _ _ fits)))
        | inr over ↦ rw (over, cut) (compact-Fits pinned (truncate_tool_results middle) recent w h)
      ]

  -- Where `keep_recent` is not negative and compaction starts within the window, the list that Prepare
  -- returns fits the window, or is the first message and the last `keep_recent` of the others alone.
  pub prepare-window :
      (k : ℕ) (msgs : List Message) (w : W)
      → cm.keep_recent ≡ pos k
      → cm.compact_at ≤ cm.window_limit
      → (recent before : List Message) × (msgs ≡ take 1 msgs ++ (before ++ recent))
        × (length recent ≡ min k (length msgs - 1))
        × Fits (take 1 msgs) recent (prepare t cm msgs w).0
  prepare-window k msgs w kept h =
      let (pinned, before, recent, cut, parts, size) = split_lem k msgs in
      (
        recent,
        before,
        subst (λ p. msgs ≡ p ++ (before ++ recent)) parts.pins (sym parts.whole),
        size,
        subst (λ p. Fits p recent (prepare t cm msgs w).0) parts.pins
            (prepare-Fits msgs pinned before recent w h (rw kept cut)),
      )
