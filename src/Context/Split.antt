-- ===== src/Context/Split.antt =====
-- split of agent/context.go.
use Prim.Native.Nat.{min}
use contract_review_ai_agent.Common.{
  ℕ, zero, suc, pos, negsuc, ok, err, panicked, ltb, false, ◌+◌, ◌^◌, ◌≤◌, ◌-◌, ◌<◌, ◌≡◌, refl, ap,
  List, [], ◌∷◌, ◌++◌, length, take, drop, take-append-drop, length-drop, arith,
}
use contract_review_ai_agent.Llm.{Message}
use contract_review_ai_agent.Context.{recent_start, split}

take-append-split :
    (n : ℕ) (m : Message) (ms : List Message)
    → 0 < n
    → take 1 (m ∷ ms) ++ (drop 1 (take n (m ∷ ms)) ++ drop n (m ∷ ms)) ≡ m ∷ ms
take-append-split zero m ms h = absurd (omega arith)
take-append-split (suc n) m ms h = ap (λ r. m ∷ r) (take-append-drop n ms)

recent_start_bounds :
    (k : ℕ) (m : Message) (ms : List Message)
    → (0 < recent_start (pos k) (m ∷ ms))
      × (recent_start (pos k) (m ∷ ms) ≤ length (m ∷ ms))
      × (length (m ∷ ms) - recent_start (pos k) (m ∷ ms) ≡ min k (length ms))
unfolding recent_start
recent_start_bounds k m ms = (ground arith, ground arith, ground arith)

-- The parts of a split: the pinned part is the first message; the three make up the list.
pub record Parts (msgs pinned middle recent : List Message) : Type 0 where
  pub pins : pinned ≡ take 1 msgs
  pub whole : pinned ++ (middle ++ recent) ≡ msgs

-- Where `keep_recent` is not negative the list is split, and the recent part has that many messages, or all
-- after the first where there are fewer.
pub split_lem :
    (k : ℕ) (msgs : List Message)
    → (pinned middle recent : List Message) × (split (pos k) msgs ≡ ok (pinned, middle, recent))
      × Parts msgs pinned middle recent
      × (length recent ≡ min k (length msgs - 1))
unfolding split
split_lem k [] = ([], [], [], refl, record { pins = refl; whole = refl }, omega arith)
split_lem k (m ∷ ms) =
    let start = recent_start (pos k) (m ∷ ms) in
    let (positive, within, size) = recent_start_bounds k m ms in
    let not_behind : ltb (length (m ∷ ms)) start ≡ false = ground (arith, within) in
    (
      take 1 (m ∷ ms),
      drop 1 (take start (m ∷ ms)),
      drop start (m ∷ ms),
      rw not_behind refl,
      record { pins = refl; whole = take-append-split start m ms positive },
      omega (arith, size, length-drop start (m ∷ ms)),
    )

-- Where `keep_recent` is negative, the split of a list that is not empty panics, if the length less
-- `keep_recent` is an int64.
pub split-panics :
    (n : ℕ) (m : Message) (ms : List Message)
    → length (m ∷ ms) + suc n < 2 ^ 63
    → split (negsuc n) (m ∷ ms) ≡ err panicked
unfolding split recent_start
split-panics n m ms h = ground arith
