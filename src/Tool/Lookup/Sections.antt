-- ===== src/Tool/Lookup/Sections.antt =====
-- The look-up of a clause by its number (GetContractSection of tool/contract_tools.go), among clauses
-- that were numbered as pipeline/clause_splitting.go numbers them.
use contract_review_ai_agent.Common.{
  ℕ, suc, ◌+◌, String, ◌≡◌, ◌≢◌, subst, refl, ap, true, false, some, List, [], ◌∷◌, ◌++◌, length,
  ok, Bool-cases, inl, inr, str_eq, eq_iff, eq_refl, find_first, decimal, decimal_injective,
  decimal-str_eq, arith,
}
use contract_review_ai_agent.Domain.{Clause}
use contract_review_ai_agent.Platform.{Platform}
use contract_review_ai_agent.Store.{Store}
use contract_review_ai_agent.Pipeline.ClauseSplitting.Numbers.{
  AreNumbered, one_more, number_clauses-AreNumbered,
}
use contract_review_ai_agent.Pipeline.ClauseSplitting.{number_clauses}
use contract_review_ai_agent.Llm.{Llm}
use contract_review_ai_agent.Tool.Lookup.{numbered, with_argument, section_in, get_contract_section}

-- Two numbers that differ are not taken for each other.
decimal-differs : (a b : ℕ) → a ≢ b → str_eq (decimal a) (decimal b) ≡ false
decimal-differs a b h = elim (Bool-cases (str_eq (decimal a) (decimal b))) [
  | inr other ↦ other
  | inl same ↦ absurd (h (decimal_injective a b ((eq_iff (decimal a) (decimal b)).0 same)))
]

-- The first clause with the number of a text is the clause of that text.
find_first-numbered :
    (p : Platform) (contract_id : String) (i : ℕ) (before : List String) (t : String)
    (after : List String) (cs : List Clause)
    → AreNumbered contract_id i (before ++ (t ∷ after)) cs
    → (c : Clause) × (find_first (numbered p (decimal (suc (i + length before)))) cs ≡ some c)
      × (c.text ≡ t)
find_first-numbered p contract_id i [] t after _ (one_more {c = c} text number contract others) =
    let same : c.sequence_number ≡ suc (i + 0) = omega (arith, number) in
    let hit : numbered p (decimal (suc (i + 0))) c ≡ true =
      rw same (eq_refl (decimal (suc (i + 0)))) in
    (c, rw hit refl, text)
find_first-numbered p contract_id i (b ∷ before) t after _
      (one_more {c = c} {cs = cs} text number contract others) =
    let n = suc (i + suc (length before)) in
    let miss : numbered p (decimal n) c ≡ false =
      decimal-differs c.sequence_number n (λ h. absurd (omega (arith, h, number))) in
    let (found, at, its) = find_first-numbered p contract_id (suc i) before t after cs others in
    let here : find_first (numbered p (decimal n)) cs ≡ some found =
      subst (λ m. find_first (numbered p (decimal m)) cs ≡ some found) (omega arith) at in
    (found, rw miss here, its)

-- Where the store gives the clauses that were made of a list of texts, numbered from 1, the tool answers
-- a reference that is the number of a text with that text, whatever the other texts say.
get_contract_section-numbered :
    {W : Type 0} (p : Platform) (s : Store W) (contract_id args : String) (before : List String)
    (t : String) (after : List String) (cs : List Clause) (w w' : W)
    → p.unmarshal_field "reference" args ≡ ok (decimal (suc (length before)))
    → s.get_clauses contract_id w ≡ (ok cs, w')
    → AreNumbered contract_id 0 (before ++ (t ∷ after)) cs
    → get_contract_section p s contract_id args w ≡ (ok t, w')
unfolding get_contract_section section_in
get_contract_section-numbered p s contract_id args before t after cs w w' decoded read
      are_numbered =
    let (c, found, its) = find_first-numbered p contract_id 0 before t after cs are_numbered in
    let here : find_first (numbered p (decimal (suc (length before)))) cs ≡ some c =
      subst (λ m. find_first (numbered p (decimal (suc m))) cs ≡ some c) (omega arith) found in
    rw (decoded, with_argument)
      (rw (decimal-str_eq (length before)) (rw read (rw here (ap (λ x. (ok x, w')) its))))

-- Where the store gives the clauses that the clause splitting made of a list of texts, the tool answers a
-- reference that is the number of a text, counted from 1, with that text, whatever the texts say.
pub get_contract_section-number_clauses :
    {W V : Type 0} (p q : Platform) (s : Store W) (new_uuid : V → String × V) (client : Llm V)
    (t : Store V) (contract_id args : String) (before : List String) (text : String)
    (after : List String) (v : V) (w w' : W)
    → p.unmarshal_field "reference" args ≡ ok (decimal (suc (length before)))
    → s.get_clauses contract_id w
      ≡ (ok (number_clauses q new_uuid client t contract_id 0 (before ++ (text ∷ after)) v).0, w')
    → get_contract_section p s contract_id args w ≡ (ok text, w')
get_contract_section-number_clauses p q s new_uuid client t contract_id args before text after v w
      w' decoded read =
    get_contract_section-numbered p s contract_id args before text after _ w w' decoded read
      (number_clauses-AreNumbered q new_uuid client t contract_id 0 (before ++ (text ∷ after)) v)
