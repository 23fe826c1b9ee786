-- ===== src/Varicode/Messages/Heartbeat/RoundTrip.antt =====
-- Heartbeats and CQ calls are read back as they were packed.
use js8rs.Prelude.{
  ℕ, ◌+◌, ◌*◌, ◌^◌, ◌≤◌, ◌<◌, ◌≡◌, ◌≢◌, refl, sym, ◌∙◌, ◌⊎◌, inl, inr, true, false, not, ◌&&◌, some,
  List, [], ◌∷◌, length, map, take, drop, bit_and, bit_or, u8, ◌<<<◌, low_mask, bit_and_mask,
  bit_or_low, bit_and_bit, All, arith, to_ascii_uppercase, Bool-cases, Option-cases, str_eq, ltb,
  if◌then◌else◌, ◌==◌, length-take, codes, trim_start, is_ascii_digit, subst,
}
use js8rs.Prelude.Int.{pos}
use js8rs.Command.Kind.{is_empty}
use js8rs.Varicode.Callsign.{starts_with}
use js8rs.Varicode.Grid.{is_grid, pack_grid, unpack_grid, nmaxgrid}
use js8rs.Varicode.Grid.Shape.{is_grid-Square}
use js8rs.Varicode.Grid.RoundTrip.{unpack_grid-pack_grid}
use js8rs.Varicode.Alnum50.{alnum_word, strip_spaces, pack_alpha_numeric50}
use js8rs.Varicode.Alnum50.RoundTrip.{AtFirstOnly}
use js8rs.Varicode.Compound.{pack_compound_frame}
use js8rs.Varicode.Compound.RoundTrip.{unpack-pack_compound_frame}
use js8rs.Varicode.Messages.{
  HeartbeatMessage, unpack_heartbeat_message, heartbeat_message, cq_string,
}
use js8rs.Varicode.Messages.Heartbeat.{
  HeartbeatParts, heartbeat_parts, heartbeat_grid, heartbeat_types, find_type, skip_group,
  is_alt_type, heartbeat_extra, heartbeat_cq, cqs_key_by_value, skip_space, has_space,
  pack_heartbeat_message, at_word_end,
}
use mathlib.Core.Option.{some-injective, none-ne-some}

-- The key of the type of a CQ call gives back the call.
abbrev pub CallsBack : List ℕ → Type 0
CallsBack ty =
    (is_alt_type ty ≡ false)
    ⊎ ((cq_string (pos (cqs_key_by_value ty 0)) ≡ ty) × (ltb (cqs_key_by_value ty 0) 8 ≡ true))

find_type-All :
    (P : List ℕ → Type 0) (types : List (List ℕ)) (text ty : List ℕ)
    → All P types
    → find_type types text ≡ some ty
    → P ty
unfolding find_type
find_type-All P [] text ty h e = absurd (none-ne-some ty e)
find_type-All P (t ∷ types) text ty (p, h) e =
    elim (Bool-cases (starts_with t text && at_word_end (drop (length t) text))) [
      | inl hit ↦ let here : some t ≡ some ty = rw hit at e in subst P (some-injective t ty here) p
      | inr miss ↦ let later = rw miss at e in find_type-All P types text ty h later
    ]

types-CallsBack : All CallsBack heartbeat_types
unfolding cqs_key_by_value cq_string starts_with str_eq
types-CallsBack = (
  inr (refl, refl),
  (
    inr (refl, refl),
    (
      inr (refl, refl),
      (
        inr (refl, refl),
        (
          inr (refl, refl),
          (inr (refl, refl), (inr (refl, refl), (inr (refl, refl), (inl refl, (inl refl, tt))))),
        ),
      ),
    ),
  ),
)

-- A locator, or nothing.
abbrev pub IsLocator : List ℕ → Type 0
IsLocator grid = (grid ≡ []) ⊎ ((length grid ≤ 4) × (is_grid grid ≡ true))

heartbeat_grid_lem :
    (ty behind : List ℕ)
    → ((heartbeat_grid ty behind).ty ≡ ty) × IsLocator (heartbeat_grid ty behind).grid
unfolding heartbeat_grid
heartbeat_grid_lem ty behind =
    let from = skip_space behind in
    elim (Bool-cases (has_space behind && (is_grid (take 4 from) && at_word_end (drop 4 from)))) [
      | inl e ↦ rw e (refl, inr (omega (arith, length-take 4 from), ground (arith, e)))
      | inr e ↦ rw e (refl, inl refl)
    ]

pub heartbeat_parts_lem :
    (text : List ℕ) (parts : HeartbeatParts)
    → heartbeat_parts text ≡ some parts
    → CallsBack parts.ty × IsLocator parts.grid
unfolding heartbeat_parts
heartbeat_parts_lem text parts e =
    elim (Option-cases (skip_group (codes "@ALLCALL" ∷ codes "@HB" ∷ []) (trim_start text))) [
      | inl none_behind ↦ absurd (none-ne-some parts (rw (heartbeat_parts, none_behind) at e))
      | inr (from, behind_group) ↦ elim (Option-cases (find_type heartbeat_types from)) [
        | inl no_type ↦
            absurd (none-ne-some parts (rw (heartbeat_parts, behind_group, no_type) at e))
        | inr (ty, found) ↦
            let behind = drop (length ty) from in
            let (same, locator) = heartbeat_grid_lem ty behind in
            elim (Bool-cases
              (str_eq ty (codes "HEARTBEAT") && starts_with (codes "SNR") (trim_start behind))) [
                | inl report ↦
                    absurd
                      (none-ne-some parts (rw (heartbeat_parts, behind_group, found, report) at e))
                | inr other ↦
                    let parsed =
                      some-injective _ _ (rw (heartbeat_parts, behind_group, found, other) at e) in
                    let listed =
                      find_type-All CallsBack heartbeat_types from ty types-CallsBack found in
                    subst (λ p. CallsBack p.ty × IsLocator p.grid) parsed
                      (subst CallsBack (sym same) listed, locator)
              ]
      ]
    ]

digit-upper : (z : ℕ) → is_ascii_digit z ≡ true → to_ascii_uppercase z ≡ z
unfolding is_ascii_digit to_ascii_uppercase
digit-upper z h = ground arith

unpacked-small : (v b : ℕ) (bytes : List ℕ) → unpack_grid v ≡ b ∷ bytes → v < 2 ^ 15
unfolding unpack_grid
unpacked-small v b bytes h = ground arith

-- The locator's number and what is read for it.
locator :
    (grid : List ℕ)
    → IsLocator grid
    → let packed = if is_empty grid then nmaxgrid else pack_grid grid in
      (packed < 2 ^ 15) × (unpack_grid packed ≡ map to_ascii_uppercase grid)
unfolding is_empty
locator grid (inl e) = rw e (unfold unpack_grid in (omega arith, refl))
locator grid (inr (n, h)) =
    let (x, y, z, w, same, q) = is_grid-Square grid n h in
    let back = unpack_grid-pack_grid x y z w [] q.east q.north q.east_digit q.north_digit in
    rw same (
      unpacked-small (pack_grid (x ∷ y ∷ z ∷ w ∷ [])) _ _ back,
      back ∙ rw (digit-upper z q.east_digit, digit-upper w q.north_digit) refl,
    )

no_high_bit : (p : ℕ) → p < 2 ^ 15 → bit_and p (1 <<< 15) ≡ 0
no_high_bit p h =
    let same : p + 0 * 2 ^ 15 ≡ p = omega arith in
    subst (λ t. bit_and t (1 <<< 15) ≡ 0) same (bit_and_bit 15 p 0 h)

-- The two fields of a frame.
pub heartbeat_extra_lem :
    (parts : HeartbeatParts)
    → IsLocator parts.grid
    → (heartbeat_extra parts < 2 ^ 16)
      × (unpack_grid (bit_and (heartbeat_extra parts) (low_mask 15))
          ≡ map to_ascii_uppercase parts.grid)
      × (not (bit_and (heartbeat_extra parts) (1 <<< 15) == 0) ≡ is_alt_type parts.ty)
unfolding heartbeat_extra
heartbeat_extra_lem parts h =
    let packed = if is_empty parts.grid then nmaxgrid else pack_grid parts.grid in
    let (fits, back) = locator parts.grid h in
    let low0 : bit_and packed (low_mask 15) ≡ packed = omega (arith, bit_and_mask 15 packed) in
    let low1 : bit_and (packed + 1 * 2 ^ 15) (low_mask 15) ≡ packed =
      omega (arith, bit_and_mask 15 (packed + 1 * 2 ^ 15)) in
    let high0 : bit_and packed (1 <<< 15) ≡ 0 = no_high_bit packed fits in
    let high1 : bit_and (packed + 1 * 2 ^ 15) (1 <<< 15) ≡ 2 ^ 15 = bit_and_bit 15 packed 1 fits in
    let joined : bit_or packed (1 <<< 15) ≡ packed + 1 * 2 ^ 15 = bit_or_low 15 packed 1 fits in
    elim (Bool-cases (is_alt_type parts.ty)) [
      | inl e ↦ rw e (rw joined (omega arith, rw low1 back, rw high1 refl))
      | inr e ↦ rw e (omega arith, rw low0 back, rw high0 refl)
    ]

heartbeat_cq_lem :
    (parts : HeartbeatParts)
    → CallsBack parts.ty
    → (heartbeat_cq parts < 8)
      × ((is_alt_type parts.ty ≡ false) ⊎ (cq_string (pos (heartbeat_cq parts)) ≡ parts.ty))
unfolding heartbeat_cq
heartbeat_cq_lem parts (inl e) = rw e (omega arith, inl refl)
heartbeat_cq_lem parts (inr (back, small)) = elim (Bool-cases (is_alt_type parts.ty)) [
  | inl e ↦
      let fits : cqs_key_by_value parts.ty 0 < 8 = ground arith in
      let byte : u8 (cqs_key_by_value parts.ty 0) ≡ cqs_key_by_value parts.ty 0 = omega arith in
      rw e (rw byte (fits, inr back))
  | inr e ↦ rw e (omega arith, inl refl)
]

-- What a heartbeat message is read back as.
abbrev pub heard : HeartbeatParts → List ℕ → HeartbeatMessage
heard parts callsign = record {
  parts = strip_spaces (alnum_word callsign) ∷ [] ∷ map to_ascii_uppercase parts.grid ∷ [];
  ty = 0;
  is_alt = is_alt_type parts.ty;
  bits3 = heartbeat_cq parts;
}

empty-nil {ℓ} : {A : Type ℓ} (xs : List A) → is_empty xs ≡ true → xs ≡ []
unfolding is_empty
empty-nil [] h = refl
empty-nil (x ∷ xs) h = ground arith

pub packed_heartbeat :
    (text callsign : List ℕ) (parts : HeartbeatParts)
    → heartbeat_parts text ≡ some parts
    → is_empty callsign ≡ false
    → (pack_heartbeat_message text callsign).0
      ≡ pack_compound_frame callsign 0 (heartbeat_extra parts) (heartbeat_cq parts)
unfolding pack_heartbeat_message pack_compound_frame
packed_heartbeat text callsign parts e some_call =
    let frame = pack_compound_frame callsign 0 (heartbeat_extra parts) (heartbeat_cq parts) in
    elim (Bool-cases (is_empty frame)) [
      | inl nothing ↦
          rw (pack_heartbeat_message, e, some_call, nothing) (sym (empty-nil frame nothing))
      | inr something ↦ rw (pack_heartbeat_message, e, some_call, something) refl
    ]

-- A heartbeat or CQ text whose parts are found, packed for a callsign that packs to another number
-- than 0 and has no @ but in the first place, is read back with the callsign as the 50-bit field
-- lays it out, the locator in capitals, and the mark of a CQ call; and the number of a CQ call
-- stands for the call that was sent.
pub unpack-pack_heartbeat_message :
    (text callsign : List ℕ) (parts : HeartbeatParts)
    → heartbeat_parts text ≡ some parts
    → is_empty callsign ≡ false
    → AtFirstOnly callsign
    → pack_alpha_numeric50 callsign ≢ 0
    → (unpack_heartbeat_message (pack_heartbeat_message text callsign).0
        ≡ some (heard parts callsign))
      × ((is_alt_type parts.ty ≡ false) ⊎ (cq_string (pos (heartbeat_cq parts)) ≡ parts.ty))
unfolding unpack_heartbeat_message heartbeat_message
unpack-pack_heartbeat_message text callsign parts e some_call ats packs =
    let (listed, locator) = heartbeat_parts_lem text parts e in
    let (fits, grid, alt) = heartbeat_extra_lem parts locator in
    let (small, calls) = heartbeat_cq_lem parts listed in
    let frame =
      unpack-pack_compound_frame callsign 0 (heartbeat_extra parts) (heartbeat_cq parts) ats packs
        (omega arith, omega arith, omega arith) fits small in
    (
      rw
          (
            packed_heartbeat text callsign parts e some_call,
            unpack_heartbeat_message,
            frame,
            heartbeat_message,
            grid,
            alt,
          )
          refl,
      calls,
    )
