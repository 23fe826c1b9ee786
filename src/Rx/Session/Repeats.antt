-- ===== src/Rx/Session/Repeats.antt =====
-- What a pass reports: no frame twice, and every frame that is no repeat.
use js8rs.Prelude.{
  ℕ, ◌+◌, ◌-◌, ◌*◌, ◌/◌, ◌≤◌, ◌<◌, true, false, List, [], ◌∷◌, ◌++◌, leb, str_eq, ◌≡◌, refl, sym,
  arith, All, Bool-cases, inl, inr, subst,
}
use js8rs.Prelude.Int.{ℤ}
use js8rs.Protocol.{Submode, normal}
use js8rs.Submodes.{samples_per_period}
use js8rs.Rx.Session.{
  Decoded, Event, decode_started, sync_start, sync_state, decoded, decode_finished, SeenEntry,
  entry_of, repeats, remember, start_of, on_event, event_loop,
}
use js8rs.Rx.Session.Memory.{
  any, retain, any-append, Holds, Holds-retain, Holds-append_left, append-Holds, Within,
  Within-retain, Within-append,
}
use mathlib.Core.Option
use mathlib.Core.List.{append_assoc}

module _ {ℓ} {Time Sync : Type ℓ} where
  -- The entries of the frames among events that carry their position.
  unfoldable pub reported : List (Event Time Sync) → List SeenEntry
  reported [] = []
  reported (decoded frame ∷ es) =
      let rest = reported es in entry_of frame (Option.get_or frame.sample_position 0) ∷ rest
  reported (e ∷ es) = reported es

  pub reported-append :
      (xs ys : List (Event Time Sync)) → reported (xs ++ ys) ≡ reported xs ++ reported ys
  unfolding reported
  reported-append [] ys = refl
  reported-append (decoded frame ∷ xs) ys = rw (reported-append xs ys) refl
  reported-append (decode_started m ∷ xs) ys = reported-append xs ys
  reported-append (sync_start a b ∷ xs) ys = reported-append xs ys
  reported-append (sync_state t ∷ xs) ys = reported-append xs ys
  reported-append (decode_finished n ∷ xs) ys = reported-append xs ys

-- The entries of the frames that a search found, at their places in the stream.
unfoldable pub found {ℓ} :
    {Time Sync : Type ℓ} → (Time → Submode → ℤ) → List ℕ → List (Event Time Sync) → List SeenEntry
found rounded window_starts [] = []
found rounded window_starts (decoded frame ∷ es) =
    let rest = found rounded window_starts es in
    entry_of frame (start_of rounded window_starts frame) ∷ rest
found rounded window_starts (e ∷ es) = found rounded window_starts es

-- No entry repeats an earlier one.
abbrev pub Distinct : List SeenEntry → Type 0
Distinct [] = Unit {0}
Distinct (x ∷ xs) = All (λ y. repeats y x ≡ false) xs × Distinct xs

str_eq_self : (s : List ℕ) → str_eq s s ≡ true
unfolding str_eq
str_eq_self [] = refl
str_eq_self (x ∷ s) = ground (arith, str_eq_self s)

slot_pos : (m : Submode) → 0 < samples_per_period m / 2
unfolding samples_per_period
slot_pos normal = omega arith
slot_pos m = omega arith

repeats_self : (x : SeenEntry) → repeats x x ≡ true
unfolding repeats
repeats_self x = ground (arith, str_eq_self x.encoded, slot_pos x.submode)

-- Thirty seconds of samples, beyond which an entry is forgotten.
abbrev span : ℕ
span = 360000

-- Each of the entries is a repeat of an earlier one, or of one that is reported, maybe itself.
abbrev pub Covers : List SeenEntry → List SeenEntry → List SeenEntry → Type 0
Covers earlier xs out = All (λ x. any (repeats x) (earlier ++ out) ≡ true) xs

abbrev kept : ℕ → List SeenEntry → List SeenEntry
kept start seen = retain (λ e. leb (start - 30 * 12000) e.start) seen

module _ {ℓ} {Time : Type ℓ} (rounded : Time → Submode → ℤ) (window_starts : List ℕ) where
  abbrev new_entry : Decoded Time → SeenEntry
  new_entry frame = entry_of frame (start_of rounded window_starts frame)

  abbrev kept_at : Decoded Time → List SeenEntry → List SeenEntry
  kept_at frame seen = kept (start_of rounded window_starts frame) seen

module _ {ℓ} {Time Sync : Type ℓ} (rounded : Time → Submode → ℤ) (window_starts : List ℕ) where
  abbrev outputs : List (Event Time Sync) → List SeenEntry → ℕ → List SeenEntry
  outputs es seen count = reported (event_loop rounded window_starts es seen count).0

  outputs-repeat :
      (frame : Decoded Time) (es : List (Event Time Sync)) (seen : List SeenEntry) (count : ℕ)
      → any
          (repeats (new_entry rounded window_starts frame))
          (kept_at rounded window_starts frame seen)
        ≡ true
      → outputs (decoded frame ∷ es) seen count
        ≡ outputs es (kept_at rounded window_starts frame seen) count
  unfolding event_loop on_event remember reported entry_of
  outputs-repeat frame es seen count e = rw e refl

  outputs-fresh :
      (frame : Decoded Time) (es : List (Event Time Sync)) (seen : List SeenEntry) (count : ℕ)
      → any
          (repeats (new_entry rounded window_starts frame))
          (kept_at rounded window_starts frame seen)
        ≡ false
      → outputs (decoded frame ∷ es) seen count
        ≡ new_entry rounded window_starts frame
          ∷ outputs es
              (kept_at rounded window_starts frame seen
                ++ new_entry rounded window_starts frame ∷ [])
              (count + 1)
  unfolding event_loop on_event remember reported entry_of
  outputs-fresh frame es seen count e = rw e refl

Holds-kept :
    (start least : ℕ) (y : SeenEntry) (seen : List SeenEntry)
    → start ≤ least + span
    → least ≤ y.start
    → Holds y seen
    → Holds y (kept start seen)
Holds-kept start least y seen near late h = Holds-retain _ y seen (ground arith) h

module _ {ℓ} {Time Sync : Type ℓ} (rounded : Time → Submode → ℤ) (window_starts : List ℕ)
    (least : ℕ) (not_before : (frame : Decoded Time) → least ≤ start_of rounded window_starts frame)
    (not_behind : (frame : Decoded Time)
      → start_of rounded window_starts frame ≤ least + span) where
  not-repeated :
      (y : SeenEntry) (es : List (Event Time Sync)) (seen : List SeenEntry) (count : ℕ)
      → least ≤ y.start
      → Holds y seen
      → All (λ x. repeats x y ≡ false) (outputs rounded window_starts es seen count)
  unfolding event_loop on_event reported
  not-repeated y [] seen count late h = tt
  not-repeated y (decoded frame ∷ es) seen count late h =
      let new = new_entry rounded window_starts frame in
      let kept' = kept_at rounded window_starts frame seen in
      let here = Holds-kept _ least y seen (not_behind frame) late h in
      elim (Bool-cases (any (repeats new) kept')) [
        | inl e ↦
            rw (outputs-repeat rounded window_starts frame es seen count e)
              (not-repeated y es kept' count late here)
        | inr e ↦
            let other = here (repeats new) in
            rw (outputs-fresh rounded window_starts frame es seen count e) (
              ground (arith, other),
              not-repeated y es (kept' ++ new ∷ []) (count + 1) late (Holds-append_left y _ _ here),
            )
      ]
  not-repeated y (decode_started m ∷ es) seen count late h = not-repeated y es seen count late h
  not-repeated y (sync_start a b ∷ es) seen count late h = not-repeated y es seen count late h
  not-repeated y (sync_state s ∷ es) seen count late h = not-repeated y es seen count late h
  not-repeated y (decode_finished n ∷ es) seen count late h = not-repeated y es seen count late h

  pub Distinct-outputs :
      (es : List (Event Time Sync)) (seen : List SeenEntry) (count : ℕ)
      → Distinct (outputs rounded window_starts es seen count)
  unfolding event_loop on_event reported
  Distinct-outputs [] seen count = tt
  Distinct-outputs (decoded frame ∷ es) seen count =
      let new = new_entry rounded window_starts frame in
      let kept' = kept_at rounded window_starts frame seen in
      elim (Bool-cases (any (repeats new) kept')) [
        | inl e ↦
            rw (outputs-repeat rounded window_starts frame es seen count e)
              (Distinct-outputs es kept' count)
        | inr e ↦ rw (outputs-fresh rounded window_starts frame es seen count e) (
          not-repeated new es (kept' ++ new ∷ []) (count + 1) (unfold entry_of in not_before frame)
              (append-Holds new kept'),
          Distinct-outputs es (kept' ++ new ∷ []) (count + 1),
        )
      ]
  Distinct-outputs (decode_started m ∷ es) seen count = Distinct-outputs es seen count
  Distinct-outputs (sync_start a b ∷ es) seen count = Distinct-outputs es seen count
  Distinct-outputs (sync_state s ∷ es) seen count = Distinct-outputs es seen count
  Distinct-outputs (decode_finished n ∷ es) seen count = Distinct-outputs es seen count

module _ {ℓ} {Time Sync : Type ℓ} (rounded : Time → Submode → ℤ) (window_starts : List ℕ) where
  pub Covered-outputs :
      (es : List (Event Time Sync)) (earlier seen : List SeenEntry) (count : ℕ)
      → Within seen earlier
      → Covers earlier
          (found rounded window_starts es)
          (outputs rounded window_starts es seen count)
  unfolding event_loop on_event reported found
  Covered-outputs [] earlier seen count h = tt
  Covered-outputs (decoded frame ∷ es) earlier seen count h =
      let new = new_entry rounded window_starts frame in
      let kept' = kept_at rounded window_starts frame seen in
      let inside : Within kept' earlier = λ p e. h p (Within-retain _ seen p e) in
      elim (Bool-cases (any (repeats new) kept')) [
        | inl e ↦
            let tail = outputs rounded window_starts es kept' count in
            subst (Covers earlier (new ∷ found rounded window_starts es))
              (sym (outputs-repeat rounded window_starts frame es seen count e))
              (
                ground (arith, any-append (repeats new) earlier tail, inside (repeats new) e),
                Covered-outputs es earlier kept' count inside,
              )
        | inr e ↦
            let tail = outputs rounded window_starts es (kept' ++ new ∷ []) (count + 1) in
            subst (Covers earlier (new ∷ found rounded window_starts es))
              (sym (outputs-fresh rounded window_starts frame es seen count e))
              (
                ground (arith, any-append (repeats new) earlier (new ∷ tail), repeats_self new),
                subst
                    (λ all. All (λ x. any (repeats x) all ≡ true) (found rounded window_starts es))
                    (append_assoc earlier (new ∷ []) tail)
                    (Covered-outputs es (earlier ++ new ∷ []) (kept' ++ new ∷ []) (count + 1)
                      (Within-append kept' earlier (new ∷ []) inside)),
              )
      ]
  Covered-outputs (decode_started m ∷ es) earlier seen count h =
      Covered-outputs es earlier seen count h
  Covered-outputs (sync_start a b ∷ es) earlier seen count h =
      Covered-outputs es earlier seen count h
  Covered-outputs (sync_state s ∷ es) earlier seen count h = Covered-outputs es earlier seen count h
  Covered-outputs (decode_finished n ∷ es) earlier seen count h =
      Covered-outputs es earlier seen count h
