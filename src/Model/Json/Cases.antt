-- ===== src/Model/Json/Cases.antt =====
-- What holds of every case of a choice that the parser of src/model/json_parser.cpp makes holds of it.
use market_sim.Prelude.{Bool, true, false}
use market_sim.Model.Json.{
  JsonValue, Outcome, Lead, ended, brace, bracket, quote, letter_t, letter_f, letter_n, other,
}

-- The branches behind `consume`.
pub either-cases {ℓ} :
    {A : Type ℓ} (P : A → Type 0) (test : Bool) (x y : A)
    → P x
    → P y
    → P (elim test [ true ↦ x | false ↦ y ])
either-cases P true x y h g = h
either-cases P false x y h g = g

-- The switch on a value's first byte.
pub lead-cases :
    (P : Outcome JsonValue → Type 0) (lead : Lead) (x₁ x₂ x₃ x₄ x₅ x₆ x₇ x₈ : Outcome JsonValue)
    → P x₁
    → P x₂
    → P x₃
    → P x₄
    → P x₅
    → P x₆
    → P x₇
    → P x₈
    → P (elim lead [
      | ended ↦ x₁
      | brace ↦ x₂
      | bracket ↦ x₃
      | quote ↦ x₄
      | letter_t ↦ x₅
      | letter_f ↦ x₆
      | letter_n ↦ x₇
      | other ↦ x₈
    ])
lead-cases P ended _ _ _ _ _ _ _ _ a _ _ _ _ _ _ _ = a
lead-cases P brace _ _ _ _ _ _ _ _ _ a _ _ _ _ _ _ = a
lead-cases P bracket _ _ _ _ _ _ _ _ _ _ a _ _ _ _ _ = a
lead-cases P quote _ _ _ _ _ _ _ _ _ _ _ a _ _ _ _ = a
lead-cases P letter_t _ _ _ _ _ _ _ _ _ _ _ _ a _ _ _ = a
lead-cases P letter_f _ _ _ _ _ _ _ _ _ _ _ _ _ a _ _ = a
lead-cases P letter_n _ _ _ _ _ _ _ _ _ _ _ _ _ _ a _ = a
lead-cases P other _ _ _ _ _ _ _ _ _ _ _ _ _ _ _ a = a
