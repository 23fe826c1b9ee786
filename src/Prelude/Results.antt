-- ===== src/Prelude/Results.antt =====
-- Rust's `Result`, with the error first as in `Result E A`.

pub data Result {ℓ κ} (E : Type ℓ) (A : Type κ) : Type (ℓ ⊔ κ) where
  ok : A → Result E A
  err : E → Result E A
