-- ===== src/Protocol/Laws.antt =====
-- What the wire types of src/protocol.rs promise.
use js8rs.Prelude.{
  ℕ, ◌<◌, ◌≡◌, refl, Bool, true, false, ◌||◌, ◌&&◌, List, [], ◌∷◌, bit_or, arith, ◌==◌, ◌↔◌, ok,
  if◌then◌else◌, all_below, all_below_sound, ltb, ltb→lt,
}
use js8rs.Prelude.Int.{ℤ, pos}
use js8rs.Protocol.{
  Submode, normal, fast, turbo, slow, ultra, discriminant, submode_try_from, FrameType, frame_code,
  frame_type_try_from, DecodeModes, modes_from, modes_contains, modes_bitor, modes_none, code_time,
  decode_time, frame_unknown,
}

-- An integer parses as a submode exactly when it is that submode's discriminant.
pub submode_try_from_iff :
    (v : ℤ) (m : Submode) → (submode_try_from v ≡ ok m) ↔ (v ≡ pos (discriminant m))
unfolding submode_try_from discriminant
submode_try_from_iff v normal = ground arith
submode_try_from_iff v m = ground arith

-- A byte parses as a frame type exactly when it is that type's code.
pub frame_type_try_from_iff :
    (v : ℕ) (t : FrameType) → (frame_type_try_from v ≡ ok t) ↔ (v ≡ frame_code t)
unfolding frame_type_try_from frame_code
frame_type_try_from_iff v frame_unknown = ground arith
frame_type_try_from_iff v t = ground arith

-- Reading a packed time gives back its two-digit fields.
pub decode_time-code_time :
    (h m s : ℕ)
    → h < 100
    → m < 100
    → s < 100
    → decode_time (code_time h m s) ≡ record { hour = h; minute = m; second = s }
unfolding decode_time code_time
decode_time-code_time h m s hh hm hs = ground arith

same_mode : Submode → Submode → Bool
same_mode m n = discriminant m == discriminant n

abbrev with_mode : ℕ → Submode → ℕ
with_mode b n = bit_or b (modes_from n).bits

agree : Bool → Bool → Bool
agree true b = b
agree false b = if b then false else true

agree→eq : (a b : Bool) → agree a b ≡ true → a ≡ b
unfolding agree
agree→eq a b h = ground arith

-- One more submode, at each of the 32 sets.
bitor_table :
    (m n : Submode)
    → all_below 32 (λ b.
      ltb (with_mode b n) 32
      && agree
          (modes_contains (record { bits = with_mode b n }) (modes_from m))
          (same_mode n m || modes_contains (record { bits = b }) (modes_from m)))
      ≡ true
unfolding all_below agree modes_contains modes_from same_mode discriminant
bitor_table normal normal = refl
bitor_table fast normal = refl
bitor_table turbo normal = refl
bitor_table slow normal = refl
bitor_table ultra normal = refl
bitor_table m n = refl

-- The set that `|` builds of a list of submodes, as in `modes |= m.into()`.
unfoldable pub modes_of : List Submode → DecodeModes
modes_of [] = modes_none
modes_of (m ∷ ms) = modes_bitor (modes_of ms) (modes_from m)

pub selected : Submode → List Submode → Bool
selected m [] = false
selected m (n ∷ ms) = same_mode n m || selected m ms

and_parts : (a b : Bool) → a && b ≡ true → (a ≡ true) × (b ≡ true)
and_parts a b h = ground arith

modes_of_lem :
    (m : Submode) (ms : List Submode)
    → ((modes_of ms).bits < 32) × (modes_contains (modes_of ms) (modes_from m) ≡ selected m ms)
unfolding modes_of modes_bitor selected
modes_of_lem normal [] = unfold modes_contains modes_from in (omega arith, refl)
modes_of_lem m [] = unfold modes_contains modes_from in (omega arith, refl)
modes_of_lem m (n ∷ ms) =
    let (fits, ih) = modes_of_lem m ms in
    let (l, r) = and_parts _ _ (all_below_sound 32 _ (modes_of ms).bits (bitor_table m n) fits) in
    (ltb→lt _ _ l, rw (agree→eq _ _ r) rw ih refl)

-- The set built of a list of submodes contains exactly the listed submodes.
pub modes_contains-modes_of :
    (m : Submode) (ms : List Submode) → modes_contains (modes_of ms) (modes_from m) ≡ selected m ms
modes_contains-modes_of m ms = (modes_of_lem m ms).1
