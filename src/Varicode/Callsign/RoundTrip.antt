-- ===== src/Varicode/Callsign/RoundTrip.antt =====
-- Callsigns unpacked again.
use js8rs.Prelude.{
  ℕ, ◌+◌, ◌-◌, ◌<◌, ◌≡◌, refl, sym, ap, subst, Bool, true, false, not, ◌&&◌, ◌||◌, Option, none,
  some, List, length, map, take, replicate, All, All-append, All-drop, get_or, get_elem?, ltb, leb,
  if◌then◌else◌, is_ascii, is_ascii_digit, is_ascii_uppercase, is_ascii_lowercase,
  to_ascii_uppercase, arith, inl, inr, Bool-cases, Option-cases, codes, ◌⊎◌, as_bytes, trim,
}
use js8rs.Varicode.Callsign.{
  nbasecall, basecall_names, basecall, is_portable, pack_callsign, lay_call, with_q, without_a,
  starts_with, pack_call, pack_plain, show_call, unpack_callsign,
}
use mathlib.Core.Option.{some-injective, none-ne-some}
use js8rs.Varicode.Callsign.Places.{
  IsUpper, nothing_below, pack_call-word, map-IsUpper, replicate-IsUpper,
}
use js8rs.Varicode.Callsign.Special.{basecall-named}

without_a-IsUpper : (call : List ℕ) → All IsUpper call → All IsUpper (without_a call)
unfolding without_a is_ascii_lowercase
without_a-IsUpper call h = elim (Bool-cases (starts_with (codes "3DA0") call)) [
  | inl e ↦ rw e (refl, (refl, (refl, All-drop IsUpper 4 call h)))
  | inr e ↦ rw e h
]

with_q-IsUpper : (call : List ℕ) → All IsUpper call → All IsUpper (with_q call)
unfolding with_q is_ascii_lowercase
with_q-IsUpper call h =
    elim (Bool-cases (
      leb 3 (length call)
      && (starts_with (codes "3X") call && is_ascii_uppercase (get_or call 2 0)))) [
        | inl e ↦ rw e (refl, All-drop IsUpper 2 call h)
        | inr e ↦ rw e h
      ]

space-IsUpper : IsUpper b' '
unfolding is_ascii_lowercase
space-IsUpper = refl

lay_call-IsUpper :
    (call word : List ℕ) → All IsUpper call → lay_call call ≡ some word → All IsUpper word
unfolding lay_call
lay_call-IsUpper call word h e =
    let behind =
      All-append IsUpper call (replicate (6 - length call) b' ') h
        (replicate-IsUpper (6 - length call)) in
    let shifted =
      All-append IsUpper call (replicate (5 - length call) b' ') h
        (replicate-IsUpper (5 - length call)) in
    elim (Bool-cases (not (leb 2 (length call) && leb (length call) 6))) [
      | inl a ↦ absurd (none-ne-some word (rw a at e))
      | inr a ↦ elim (Bool-cases (leb 3 (length call) && is_ascii_digit (get_or call 2 0))) [
        | inl b ↦ subst (All IsUpper) (some-injective _ word (rw (a, b) at e)) behind
        | inr b ↦ elim (Bool-cases (leb (length call) 5 && is_ascii_digit (get_or call 1 0))) [
          | inl c ↦
              subst (All IsUpper) (some-injective _ word (rw (a, b, c) at e))
                (space-IsUpper, shifted)
          | inr c ↦ absurd (none-ne-some word (rw (a, b, c) at e))
        ]
      ]
    ]

unpack_callsign-word :
    (word : List ℕ) (portable : Bool)
    → All IsUpper word
    → 0 < pack_call word
    → unpack_callsign (pack_call word) portable ≡ show_call word portable
unfolding unpack_callsign
unpack_callsign-word word portable h pos =
    let (small, same) = pack_call-word word h pos in
    let plain : ltb nbasecall (pack_call word) ≡ false = ground arith in
    rw plain (ap (λ t. show_call t portable) same)

-- The six characters that are laid out for these bytes.
abbrev pub laid : List ℕ → Option (List ℕ)
laid bytes = lay_call (with_q (without_a (map to_ascii_uppercase bytes)))

pub laid-IsUpper : (bytes word : List ℕ) → laid bytes ≡ some word → All IsUpper word
laid-IsUpper bytes word f =
    lay_call-IsUpper _ word (with_q-IsUpper _ (without_a-IsUpper _ (map-IsUpper bytes))) f

pack_plain-word :
    (bytes : List ℕ) (portable : Bool)
    → 0 < pack_plain bytes
    → (word : List ℕ) × (laid bytes ≡ some word)
      × (unpack_callsign (pack_plain bytes) portable ≡ show_call word portable)
unfolding pack_plain
pack_plain-word bytes portable pos =
    elim (Bool-cases (ltb 7 (length bytes) || not (is_ascii bytes))) [
      | inl e ↦ absurd (nothing_below (rw e at pos))
      | inr e ↦ elim (Option-cases (laid bytes)) [
        | inl f ↦ absurd (nothing_below (rw (e, f) at pos))
        | inr (word, f) ↦
            let upper = laid-IsUpper bytes word f in
            rw (e, f) (word, refl, unpack_callsign-word word portable upper (rw (e, f) at pos))
      ]
    ]

unpack_callsign-name :
    (n : ℕ) (portable : Bool) (name : List ℕ)
    → ltb nbasecall n ≡ true
    → get_elem? basecall_names (n - (nbasecall + 1)) ≡ some name
    → unpack_callsign n portable ≡ name
unfolding unpack_callsign
unpack_callsign-name n portable name above e = rw (unpack_callsign, above, e)

-- The bytes without a portable mark.
abbrev pub stem : List ℕ → List ℕ
stem bytes = if is_portable bytes then take (length bytes - 2) bytes else bytes

pub pack_callsign-special :
    (value : List ℕ) (n : ℕ)
    → basecall (as_bytes (trim value)) ≡ some n
    → pack_callsign value ≡ (n, false)
unfolding pack_callsign
pack_callsign-special value n e = rw (pack_callsign, e)

pub pack_callsign-plain :
    (value : List ℕ)
    → basecall (as_bytes (trim value)) ≡ none
    → pack_callsign value
      ≡ (pack_plain (stem (as_bytes (trim value))), is_portable (as_bytes (trim value)))
unfolding pack_callsign
pack_callsign-plain value e = elim (Bool-cases (is_portable (as_bytes (trim value)))) [
  | inl mark ↦ rw (pack_callsign, e, mark)
  | inr mark ↦ rw (pack_callsign, e, mark)
]

-- What a callsign may be packed to.
abbrev pub Reads : List ℕ → ℕ × Bool → Type 0
Reads bytes packed =
    ((basecall bytes ≡ some packed.0)
      × (unpack_callsign packed.0 packed.1 ≡ map to_ascii_uppercase bytes))
    ⊎ ((word : List ℕ) × (laid (stem bytes) ≡ some word)
        × (packed.1 ≡ is_portable bytes)
        × (unpack_callsign packed.0 packed.1 ≡ show_call word (is_portable bytes)))

-- A text that is packed to a number other than 0 is either a special call, whose number is unpacked
-- to the text in capitals without the spaces around it, or one for which the packer lays out six
-- characters, and the number and the portable mark are unpacked to the text of those characters and
-- that mark.
pub unpack_callsign-pack_callsign :
    (value : List ℕ)
    → 0 < (pack_callsign value).0
    → Reads (as_bytes (trim value)) (pack_callsign value)
unpack_callsign-pack_callsign value pos =
    let bytes = as_bytes (trim value) in
    elim (Option-cases (basecall bytes)) [
      | inr (n, e) ↦
          let (above, name) = basecall-named bytes n e in
          subst (Reads bytes) (sym (pack_callsign-special value n e))
            (inl (e, unpack_callsign-name n false (map to_ascii_uppercase bytes) above name))
      | inl e ↦
          let plain = pack_callsign-plain value e in
          let (word, l, shown) =
            pack_plain-word (stem bytes) (is_portable bytes) (subst (λ r. 0 < r.0) plain pos) in
          subst (Reads bytes) (sym plain) (inr (word, l, refl, shown))
    ]
