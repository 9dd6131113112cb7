-- ===== src/RecordId/Temporary.antt =====
-- The three tests for a temporary record id: of an instance, of a text, of an object.
use orientjs.Text.Decimal.{IsSafe}
use orientjs.Prelude.{◌≡◌, some, ℤ, pos, negsuc, ltb_ℤ, refl, ◌≢◌, ◌↔◌, arith, zero, suc}
use orientjs.RecordId.Grammar.{to_string_groups}
use orientjs.RecordId.{text, rid, to_string, of_fields, input_is_temporary}

-- The text of a record id of safe integers counts as temporary exactly if the position is
-- negative, the instance exactly if the position is below -1.
pub temporary_text :
    (c p : ℤ)
    → IsSafe c
    → IsSafe p
    → let r = of_fields (some c) (some p) in
      (input_is_temporary (text (to_string r)) ≡ ltb_ℤ p (pos 0))
      × (input_is_temporary (rid r) ≡ ltb_ℤ p (negsuc 0))
unfolding input_is_temporary
temporary_text c p hc hp =
    let (_, _, e, _, _, signed) = to_string_groups c p hc hp in
    (rw (e, input_is_temporary) signed, refl)

-- For a record id of safe integers, RecordID.isTemporary answers differently on the text and on
-- the instance exactly if the position is -1.
pub temporary_disagree :
    (c p : ℤ)
    → IsSafe c
    → IsSafe p
    → let r = of_fields (some c) (some p) in
      (input_is_temporary (text (to_string r)) ≢ input_is_temporary (rid r)) ↔ (p ≡ negsuc 0)
temporary_disagree c p hc hp = let (s, i) = temporary_text c p hc hp in rw (s, i) (decide p)
  where
    decide : (z : ℤ) → (ltb_ℤ z (pos 0) ≢ ltb_ℤ z (negsuc 0)) ↔ (z ≡ negsuc 0)
    decide (pos n) = (λ h. absurd (h (ground arith)), λ e. absurd (cc e))
    decide (negsuc zero) = (λ _. refl, λ _ e. ground arith)
    decide (negsuc (suc n)) = (λ h. absurd (h (ground arith)), λ e. absurd (ground arith))
