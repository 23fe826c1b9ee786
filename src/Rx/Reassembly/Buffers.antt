-- ===== src/Rx/Reassembly/Buffers.antt =====
-- The hash map of the assembler, as an association list.
use js8rs.Prelude.{Bool, true, Option, none, some, List, [], ◌∷◌, if◌then◌else◌, ◌≡◌, arith, ◌↔◌}

abbrev pub BufferMap {ℓ κ} : Type ℓ → Type κ → Type (ℓ ⊔ κ)
BufferMap K V = List (K × V)

module _ {ℓ κ} {K : Type ℓ} {V : Type κ} (eq : K → K → Bool) where
  unfoldable pub get : K → BufferMap K V → Option V
  get k [] = none
  get k ((j, v) ∷ m) = let rest = get k m in if eq j k then some v else rest

  unfoldable pub remove : K → BufferMap K V → BufferMap K V
  remove k [] = []
  remove k ((j, v) ∷ m) = let rest = remove k m in if eq j k then rest else (j, v) ∷ rest

  -- The old entry is replaced.
  unfoldable pub insert : K → V → BufferMap K V → BufferMap K V
  insert k v m = (k, v) ∷ remove k m

module _ {ℓ κ} {K : Type ℓ} {V : Type κ} (eq : K → K → Bool)
    (eq_iff : (a b : K) → (eq a b ≡ true) ↔ (a ≡ b)) where
  pub get-remove :
      (k j : K) (m : BufferMap K V)
      → get eq j (remove eq k m) ≡ (if eq k j then none else get eq j m)
  unfolding get remove
  get-remove k j [] = ground arith
  get-remove k j ((i, v) ∷ m) = ground (arith, eq_iff i k, eq_iff k j, eq_iff i j, get-remove k j m)

  pub get-insert :
      (k j : K) (v : V) (m : BufferMap K V)
      → get eq j (insert eq k v m) ≡ (if eq k j then some v else get eq j m)
  unfolding get insert
  get-insert k j v m = ground (arith, get-remove k j m)
