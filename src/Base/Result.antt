-- ===== src/Base/Result.antt =====
-- Go's `(value, error)` results, one of which is nil.

pub data Result {ℓ κ} (E : Type κ) (A : Type ℓ) : Type (ℓ ⊔ κ) where
  ok : A → Result E A
  err : E → Result E A
