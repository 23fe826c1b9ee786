-- ===== src/Varicode/Callsign/Bounds.antt =====
-- A packed callsign fits its 28 bits.
use js8rs.Prelude.{
  ℕ, zero, suc, ◌+◌, ◌-◌, ◌^◌, ◌<◌, ◌≡◌, refl, some, List, [], ◌∷◌, length, get_elem?, ltb, ltb→lt,
  arith, Option-cases, Bool-cases, inl, inr, trim, as_bytes, ◌||◌, not, is_ascii,
}
use js8rs.Varicode.Callsign.{nbasecall, basecall, basecall_names, pack_plain, pack_callsign}
use js8rs.Varicode.Callsign.Places.{pack_call-word, nothing_below}
use js8rs.Varicode.Callsign.Special.{basecall-named}
use js8rs.Varicode.Callsign.RoundTrip.{
  pack_callsign-special, pack_callsign-plain, stem, laid, laid-IsUpper,
}
use mathlib.Core.Option.{none-ne-some}

get_elem?-lt {ℓ} :
    {A : Type ℓ} (xs : List A) (i : ℕ) (x : A) → get_elem? xs i ≡ some x → i < length xs
get_elem?-lt [] i x e = absurd (none-ne-some x e)
get_elem?-lt (y ∷ xs) zero x e = omega arith
get_elem?-lt (y ∷ xs) (suc i) x e = let below = get_elem?-lt xs i x e in omega arith

fifty_four : length basecall_names ≡ 54
unfolding basecall_names
fifty_four = refl

special-lt : (bytes : List ℕ) (n : ℕ) → basecall bytes ≡ some n → n < 2 ^ 28
special-lt bytes n e =
    let (above, name) = basecall-named bytes n e in
    let inside = get_elem?-lt basecall_names (n - (nbasecall + 1)) _ name in
    omega (arith, inside, fifty_four)

plain-lt : (bytes : List ℕ) → 0 < pack_plain bytes → pack_plain bytes < nbasecall
unfolding pack_plain
plain-lt bytes positive = elim (Bool-cases (ltb 7 (length bytes) || not (is_ascii bytes))) [
  | inl e ↦ absurd (nothing_below (rw e at positive))
  | inr e ↦ elim (Option-cases (laid bytes)) [
    | inl f ↦ absurd (nothing_below (rw (e, f) at positive))
    | inr (word, f) ↦
        rw (e, f) (pack_call-word word (laid-IsUpper bytes word f) (rw (e, f) at positive)).0
  ]
]

plain_fits : (bytes : List ℕ) → pack_plain bytes < 2 ^ 28
plain_fits bytes = elim (Bool-cases (ltb 0 (pack_plain bytes))) [
  | inl e ↦ omega (arith, plain-lt bytes (ltb→lt 0 (pack_plain bytes) e))
  | inr e ↦ ground (arith, e)
]

pub pack_callsign-lt : (value : List ℕ) → (pack_callsign value).0 < 2 ^ 28
pack_callsign-lt value = elim (Option-cases (basecall (as_bytes (trim value)))) [
  | inr (n, e) ↦ rw (pack_callsign-special value n e) (special-lt _ n e)
  | inl e ↦ rw (pack_callsign-plain value e) (plain_fits (stem (as_bytes (trim value))))
]
