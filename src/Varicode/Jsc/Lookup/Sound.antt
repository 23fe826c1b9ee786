-- ===== src/Varicode/Jsc/Lookup/Sound.antt =====
-- What `lookup_bytes` finds starts the text.
use js8rs.Prelude.{
  ℕ, zero, suc, ◌+◌, ◌-◌, ◌≤◌, ◌≡◌, refl, sym, ap, ◌∙◌, subst, true, not, Option, none, some, List,
  ◌∷◌, length, take, ltb, ◌==◌, if◌then◌else◌, bit_and, low_mask, inl, inr, Bool-cases,
  Option-cases, ◌⊎◌, arith, str_eq, str_eq_iff,
}
use js8rs.Varicode.Jsc.Tables.{LookupSpan, index_bits, ◌>>=◌}
use js8rs.Varicode.Jsc.Lookup.{
  Index, no_rank, no_route, direct_route, trailing_zeros, key_at, search, find_rank, size_loop,
  span_loop, lookup_bytes,
}
use mathlib.Core.Option.{some-injective, none-ne-some}

module _ (tables : Index) where
  matched : List ℕ → ℕ → Option (List ℕ × ℕ) → Option (ℕ × ℕ)
  matched needle low found = found >>= λ f. if str_eq f.0 needle then some (low, f.1) else none

  matched_sound :
      (needle : List ℕ) (low : ℕ) (found : Option (List ℕ × ℕ)) (candidate : ℕ × ℕ)
      → matched needle low found ≡ some candidate
      → (candidate.0 ≡ low) × (found ≡ some (needle, candidate.1))
  unfolding matched
  matched_sound needle low none candidate h = absurd (none-ne-some _ h)
  matched_sound needle low (some (key, index)) candidate h = elim (Bool-cases (str_eq key needle)) [
    | inl e ↦
        let same = some-injective (low, index) candidate (rw e at h) in
        (
          ap (λ c. c.0) (sym same),
          ap some
              (ap (λ k. (k, index)) ((str_eq_iff key needle).0 e) ∙ ap (λ c. (needle, c.1)) same),
        )
    | inr e ↦ absurd (none-ne-some _ (rw e at h))
  ]

  find_rank_sound :
      (needle : List ℕ) (span : LookupSpan) (candidate : ℕ × ℕ)
      → find_rank tables needle span ≡ some candidate
      → key_at tables candidate.0 ≡ some (needle, candidate.1)
  unfolding find_rank matched
  find_rank_sound needle span candidate h =
      elim (Option-cases (search tables span.count needle span.start (span.start + span.count))) [
        | inl e ↦ absurd (none-ne-some _ (rw e at h))
        | inr (low, e) ↦
            let (place, key) = matched_sound needle low (key_at tables low) candidate (rw e at h) in
            ap (key_at tables) place ∙ key
      ]

  -- A rank whose key starts the text, if any.
  abbrev Starts : List ℕ → ℕ × ℕ → Type 0
  Starts b best =
      (best.0 ≡ no_rank)
      ⊎ ((n : ℕ) × (n ≤ length b) × (key_at tables best.0 ≡ some (take n b, best.1)))

  better : List ℕ → LookupSpan → ℕ → ℕ × ℕ → ℕ × ℕ
  better b span len best = elim (find_rank tables (take len b) span) [
    | none ↦ best
    | some candidate ↦ if ltb candidate.0 best.0 then candidate else best
  ]

  better-cases :
      (b : List ℕ) (span : LookupSpan) (len : ℕ) (best : ℕ × ℕ)
      → (better b span len best ≡ best)
        ⊎ ((candidate : ℕ × ℕ) × (find_rank tables (take len b) span ≡ some candidate)
            × (better b span len best ≡ candidate))
  unfolding better
  better-cases b span len best = elim (Option-cases (find_rank tables (take len b) span)) [
    | inl e ↦ inl (rw (better, e))
    | inr (candidate, e) ↦ elim (Bool-cases (ltb candidate.0 best.0)) [
      | inl lower ↦ inr (candidate, e, rw (better, e, lower))
      | inr other ↦ inl (rw (better, e, other))
    ]
  ]

  better-Starts :
      (b : List ℕ) (span : LookupSpan) (len : ℕ) (best : ℕ × ℕ)
      → len ≤ length b
      → Starts b best
      → Starts b (better b span len best)
  better-Starts b span len best h k = elim (better-cases b span len best) [
    | inl same ↦ subst (Starts b) (sym same) k
    | inr (candidate, found, same) ↦
        subst (Starts b) (sym same)
          (inr (len, h, find_rank_sound (take len b) span candidate found))
  ]

  size_loop-Starts :
      (rounds : ℕ) (b : List ℕ) (span : LookupSpan) (sizes : ℕ) (best : ℕ × ℕ)
      → Starts b best
      → Starts b (size_loop tables rounds b span sizes best)
  unfolding size_loop better
  size_loop-Starts zero b span sizes best h = h
  size_loop-Starts (suc rounds) b span sizes best h = elim (Bool-cases (sizes == 0)) [
    | inl e ↦ rw e h
    | inr e ↦ elim (Bool-cases (ltb (length b) (trailing_zeros 32 sizes))) [
      | inl long ↦ rw (e, long) h
      | inr fits ↦
          rw (e, fits)
            (size_loop-Starts rounds b span (bit_and sizes (sizes - 1)) _
              (better-Starts b span (trailing_zeros 32 sizes) best (ground arith) h))
    ]
  ]

  span_result : List ℕ → ℕ × ℕ → Option ℕ → Option ℕ
  span_result b best more = if best.0 == no_rank then more else some best.1

  -- The index of a key that starts the text.
  abbrev pub StartsWord : List ℕ → ℕ → Type 0
  StartsWord b index =
      (place : ℕ) × ((n : ℕ) × (n ≤ length b) × (key_at tables place ≡ some (take n b, index)))

  span_result_sound :
      (b : List ℕ) (best : ℕ × ℕ) (more : Option ℕ) (index : ℕ)
      → Starts b best
      → (more ≡ some index → StartsWord b index)
      → span_result b best more ≡ some index
      → StartsWord b index
  unfolding span_result
  span_result_sound b best more index (inl nothing) k h =
      let e : (best.0 == no_rank) ≡ true = ground arith in k (rw e at h)
  span_result_sound b best more index (inr (n, fits, key)) k h =
      elim (Bool-cases (best.0 == no_rank)) [
        | inl e ↦ k (rw e at h)
        | inr e ↦
            let same = some-injective best.1 index (rw e at h) in
            (best.0, (n, fits, key ∙ ap (λ i. some (take n b, i)) same))
      ]

  span_loop_sound :
      (span_count span_index : ℕ) (b : List ℕ) (index : ℕ)
      → span_loop tables span_count span_index b ≡ some index
      → StartsWord b index
  unfolding span_loop span_result
  span_loop_sound zero span_index b index h = absurd (none-ne-some _ h)
  span_loop_sound (suc span_count) span_index b index h =
      elim (Option-cases (tables.span span_index)) [
        | inl e ↦ absurd (none-ne-some _ (rw (span_loop, e) at h))
        | inr (span, e) ↦
            span_result_sound b _ _ index
              (size_loop-Starts span.sizes b span span.sizes (no_rank, 0) (inl refl))
              (span_loop_sound span_count (span_index + 1) b index) (rw (span_loop, e) at h)
      ]

  -- Whatever the tables hold, an index that the lookup of a text gives is the one that the route of
  -- its first byte gives directly, or that of a rank whose key starts the text.
  pub lookup_bytes_sound :
      (first : ℕ) (rest : List ℕ) (index : ℕ)
      → lookup_bytes tables (first ∷ rest) ≡ some index
      → ((not (bit_and (tables.route first) direct_route == 0) ≡ true)
          × (index ≡ bit_and (tables.route first) (low_mask index_bits)))
        ⊎ StartsWord (first ∷ rest) index
  unfolding lookup_bytes
  lookup_bytes_sound first rest index h = elim (Bool-cases (tables.route first == no_route)) [
    | inl e ↦ absurd (none-ne-some _ (rw e at h))
    | inr e ↦ elim (Bool-cases (not (bit_and (tables.route first) direct_route == 0))) [
      | inl direct ↦ inl (direct, sym (some-injective _ index (rw (e, direct) at h)))
      | inr other ↦ inr (span_loop_sound _ _ (first ∷ rest) index (rw (e, other) at h))
    ]
  ]
