-- ===== src/Common/Maps.antt =====
-- Go maps with text keys, as association lists. Where the source ranges over a map the order is the
-- runtime's choice; here it is the order of first insertion.
use Prim.Native.String.{String}
use mathlib.Core.Path.{◌≡◌, refl}
use mathlib.Core.Option.{Option, none, some}
use mathlib.Core.List.{List, [], ◌∷◌}
use native.Mathlib.Omega.{arith}
use text.Mathlib.TextEquality.{eq_iff}
use contract_review_ai_agent.Common.Tests.{str_eq, if◌then◌else◌}

pub record Entry {ℓ} (V : Type ℓ) : Type ℓ where
  pub key : String
  pub value : V

abbrev pub Assoc {ℓ} : Type ℓ → Type ℓ
Assoc V = List (Entry V)

module _ {ℓ} {V : Type ℓ} where
  -- `v, ok := m[k]`
  unfoldable pub lookup : String → Assoc V → Option V
  lookup k [] = none
  lookup k (e ∷ es) = let behind = lookup k es in if str_eq k e.key then some e.value else behind

  -- `m[k] = v`
  unfoldable pub insert : String → V → Assoc V → Assoc V
  insert k v [] = record { key = k; value = v } ∷ []
  insert k v (e ∷ es) =
      let behind = insert k v es in
      if str_eq k e.key then record e { value = v } ∷ es else e ∷ behind

  -- Writing a key changes what is found under it, and under no other.
  pub lookup-insert :
      (written asked : String) (v : V) (m : Assoc V)
      → lookup asked (insert written v m)
        ≡ (if str_eq asked written then some v else lookup asked m)
  unfolding lookup insert
  lookup-insert written asked v [] = refl
  lookup-insert written asked v (e ∷ es) = ground (
    arith,
    lookup-insert written asked v es,
    eq_iff asked written,
    eq_iff written e.key,
    eq_iff asked e.key,
  )
