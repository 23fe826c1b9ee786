-- ===== src/Varicode/Jsc/Lookup/Search.antt =====
-- The binary search finds the first of the ranks that have the needle.
use js8rs.Prelude.{
  ℕ, zero, suc, ◌+◌, ◌-◌, ◌/◌, ◌<◌, ◌≤◌, ◌≡◌, ◌≢◌, refl, sym, ap, ◌∙◌, subst, true, false, some,
  List, [], ◌∷◌, ltb, ltb→lt, ◌==◌, inl, inr, Bool-cases, arith, str_eq, str_eq_iff,
}
use js8rs.Varicode.Jsc.Tables.{LookupSpan}
use js8rs.Varicode.Jsc.Lookup.{Index, greater, key_at, search, find_rank}

-- Neither of two texts is greater only if they are the same.
greater-eq : (xs ys : List ℕ) → greater xs ys ≡ false → greater ys xs ≡ false → xs ≡ ys
unfolding greater
greater-eq [] [] h k = refl
greater-eq [] (y ∷ ys) h k = ground arith
greater-eq (x ∷ xs) [] h k = ground arith
greater-eq (x ∷ xs) (y ∷ ys) h k =
    let same : x ≡ y = ground arith in
    let here : (y == y) ≡ true = ground arith in
    let below : ltb y y ≡ false = ground arith in
    let rest : greater xs ys ≡ false = ground arith in
    let rest' : greater ys xs ≡ false = ground arith in
    let tails = greater-eq xs ys rest rest' in rw (same, tails)

greater_self : (xs : List ℕ) → greater xs xs ≡ false
unfolding greater
greater_self [] = refl
greater_self (x ∷ xs) = let rest = greater_self xs in ground arith

module _ (tables : Index) where
  -- Where the needle belongs at `place`, the search ends there.
  search-place :
      (rounds : ℕ) (needle : List ℕ) (low high place : ℕ) (key : ℕ → List ℕ × ℕ)
      → ((i : ℕ) → low ≤ i → i < high → key_at tables i ≡ some (key i))
      → ((i : ℕ) → low ≤ i → i < high → greater (key i).0 needle ≡ ltb i place)
      → low ≤ place
      → place ≤ high
      → high ≤ low + rounds
      → search tables rounds needle low high ≡ some place
  unfolding search
  search-place zero needle low high place key there order below above enough = ap some (omega arith)
  search-place (suc rounds) needle low high place key there order below above enough =
      elim (Bool-cases (ltb low high)) [
        | inr done ↦ rw done (ap some (ground arith))
        | inl more ↦
            let mid = low + (high - low) / 2 in
            let within : (low ≤ mid) × (mid < high) = ground arith in
            let found = there mid within.0 within.1 in
            let side = order mid within.0 within.1 in
            elim (Bool-cases (ltb mid place)) [
              | inl right ↦
                  let greater_there : greater (key mid).0 needle ≡ true = side ∙ right in
                  let later : mid + 1 ≤ place = ground arith in
                  rw (more, found, greater_there)
                    (search-place rounds needle (mid + 1) high place key
                      (λ i h. there i (omega arith)) (λ i h. order i (omega arith)) later above
                      (omega arith))
              | inr left ↦
                  let not_there : greater (key mid).0 needle ≡ false = side ∙ left in
                  let earlier : place ≤ mid = ground arith in
                  rw (more, found, not_there)
                    (search-place rounds needle low mid place key (λ i h k. there i h (omega arith))
                      (λ i h k. order i h (omega arith)) below earlier (omega arith))
            ]
      ]

  -- The span has keys in descending order.
  abbrev pub IsDescending : LookupSpan → (ℕ → List ℕ × ℕ) → Type 0
  IsDescending span key =
      ((i : ℕ) → span.start ≤ i → i < span.start + span.count → key_at tables i ≡ some (key i))
      × ((i j : ℕ)
          → span.start ≤ i
          → i ≤ j
          → j < span.start + span.count
          → greater (key j).0 (key i).0 ≡ false)

  order_of_keys :
      (span : LookupSpan) (key : ℕ → List ℕ × ℕ) (needle : List ℕ) (place : ℕ)
      → IsDescending span key
      → span.start ≤ place
      → place < span.start + span.count
      → (key place).0 ≡ needle
      → ((i : ℕ) → span.start ≤ i → i < place → (key i).0 ≢ needle)
      → (i : ℕ) → span.start ≤ i
      → i < span.start + span.count
      → greater (key i).0 needle ≡ ltb i place
  order_of_keys span key needle place sorted low inside here first i h k =
      elim (Bool-cases (ltb i place)) [
        | inr later ↦
            let behind : place ≤ i = ground arith in
            ap (λ t. greater (key i).0 t) (sym here) ∙ sorted.1 place i low behind k ∙ sym later
        | inl earlier ↦ elim (Bool-cases (greater (key i).0 needle)) [
          | inl e ↦ e ∙ sym earlier
          | inr e ↦
              let before = ltb→lt i place earlier in
              absurd (
                first i h before (
                  greater-eq (key i).0 needle e (
                    subst (λ t. greater t (key i).0 ≡ false) here
                      (sorted.1 i place h (omega arith) inside))))
        ]
      ]

  -- In a span whose keys are all there and in descending order, the binary search for a needle that
  -- is the key of some rank gives the first such rank, and its index.
  pub find_rank-first :
      (span : LookupSpan) (key : ℕ → List ℕ × ℕ) (needle : List ℕ) (place : ℕ)
      → IsDescending span key
      → span.start ≤ place
      → place < span.start + span.count
      → (key place).0 ≡ needle
      → ((i : ℕ) → span.start ≤ i → i < place → (key i).0 ≢ needle)
      → find_rank tables needle span ≡ some (place, (key place).1)
  unfolding find_rank
  find_rank-first span key needle place sorted low inside here first =
      let found =
        search-place span.count needle span.start (span.start + span.count) place key sorted.0
          (order_of_keys span key needle place sorted low inside here first) low (omega arith)
          (omega arith) in
      let same : str_eq (key place).0 needle ≡ true = (str_eq_iff (key place).0 needle).1 here in
      rw (found, sorted.0 place low inside, same)
