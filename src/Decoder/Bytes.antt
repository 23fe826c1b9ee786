-- ===== src/Decoder/Bytes.antt =====
-- The bytes that `check_crc12` collects.
use js8rs.Prelude.{
  ℕ, suc, ◌+◌, ◌-◌, ◌*◌, ◌/◌, ◌%◌, ◌^◌, ◌<◌, ◌≤◌, ◌≡◌, refl, sym, ap, ◌∙◌, Bool, true, false, List,
  [], ◌∷◌, ◌++◌, length, length-append, length-map, map, get_or, set, replicate, All, All-append,
  leb, ◌==◌, if◌then◌else◌, all_below, all_below_sound, bit_and, bit_or, bit_and_mask,
  bit_or_fields, u8, u16, ◌<<<◌, ◌>>>◌, inl, inr, Bool-cases, arith,
}
use js8rs.Varicode.Bits.{bit_value}
use js8rs.Varicode.Bits.Laws.{bits_of, bits_before, bits_of-fields, length-bits_of}
use js8rs.Decoder.{set_bit, or_bits, check_crc12}
use js8rs.Encoder.Crc12.{crc12, crc12-lt}
use mathlib.Core.List.{append_assoc, append-nil}

set-append :
    (done : List ℕ) (x v : ℕ) (zs : List ℕ)
    → set (done ++ (x ∷ zs)) (length done) v ≡ done ++ (v ∷ zs)
set-append [] x v zs = refl
set-append (d ∷ done) x v zs = ap (λ t. d ∷ t) (set-append done x v zs)

get_or-append :
    (done : List ℕ) (x : ℕ) (zs : List ℕ) → get_or (done ++ (x ∷ zs)) (length done) 0 ≡ x
get_or-append [] x zs = refl
get_or-append (d ∷ done) x zs = get_or-append done x zs

-- One bit in a byte.
abbrev or_bit : ℕ → ℕ → ℕ → ℕ
or_bit j x b = if b == 0 then x else bit_or x (u8 (1 <<< (7 - j)))

or_bits-step :
    (i j b x : ℕ) (bits done zs : List ℕ)
    → i ≡ 8 * length done + j
    → j < 8
    → or_bits i (b ∷ bits) (done ++ (x ∷ zs)) ≡ or_bits (i + 1) bits (done ++ (or_bit j x b ∷ zs))
unfolding or_bits set_bit
or_bits-step i j b x bits done zs e h =
    let place : i / 8 ≡ length done = omega (arith, e) in
    let bit : i % 8 ≡ j = omega (arith, e) in
    let room : leb (length (done ++ (x ∷ zs))) (length done) ≡ false =
      let size = length-append done (x ∷ zs) in ground arith in
    elim (Bool-cases (b == 0)) [
      | inl clear ↦ rw clear refl
      | inr here ↦ rw (
        here,
        place,
        bit,
        room,
        get_or-append done x zs,
        set-append done x (bit_or x (u8 (1 <<< (7 - j)))) zs,
      )
    ]

-- Some bits in a byte, from the place `j` on.
unfoldable or_all : ℕ → ℕ → List ℕ → ℕ
or_all j x [] = x
or_all j x (b ∷ bits) = or_all (j + 1) (or_bit j x b) bits

or_bits-all :
    (bits : List ℕ) (i j x : ℕ) (rest done zs : List ℕ)
    → i ≡ 8 * length done + j
    → j + length bits ≤ 8
    → or_bits i (bits ++ rest) (done ++ (x ∷ zs))
      ≡ or_bits (i + length bits) rest (done ++ (or_all j x bits ∷ zs))
unfolding or_all
or_bits-all [] i j x rest done zs e h =
    ap (λ t. or_bits t rest (done ++ (x ∷ zs))) {x = i} {y = i + 0} (omega arith)
or_bits-all (b ∷ bits) i j x rest done zs e h =
    or_bits-step i j b x (bits ++ rest) done zs e (omega arith)
    ∙ or_bits-all bits (i + 1) (j + 1) (or_bit j x b) rest done zs (omega (arith, e)) (omega arith)
    ∙ ap (λ t. or_bits t rest (done ++ (or_all (j + 1) (or_bit j x b) bits ∷ zs)))
        {x = i + 1 + length bits} {y = i + suc (length bits)} (omega arith)

abbrev pub bits_nat : ℕ → ℕ → List ℕ
bits_nat n x = map bit_value (bits_of n x)

byte_table : all_below 256 (λ b. or_all 0 0 (bits_nat 8 b) == b) ≡ true
unfolding all_below or_all bits_of bits_before
byte_table = refl

seven_table : all_below 128 (λ c. or_all 0 0 (bits_nat 7 c) == c * 2) ≡ true
unfolding all_below or_all bits_of bits_before
seven_table = refl

eq_of : (a b : ℕ) → (a == b) ≡ true → a ≡ b
eq_of a b h = ground arith

-- The bits of the bytes, one behind the other.
unfoldable pub chunks : ℕ → List ℕ → List Bool
chunks w [] = []
chunks w (d ∷ ds) = bits_of w d ++ chunks w ds

length-bits_nat : (n x : ℕ) → length (bits_nat n x) ≡ n
length-bits_nat n x = length-map (bits_of n x) bit_value ∙ length-bits_of n x

or_bits-byte :
    (i b : ℕ) (rest done zs : List ℕ)
    → i ≡ 8 * length done
    → b < 256
    → or_bits i (bits_nat 8 b ++ rest) (done ++ (0 ∷ zs)) ≡ or_bits (i + 8) rest (done ++ (b ∷ zs))
or_bits-byte i b rest done zs e h =
    let size = length-bits_nat 8 b in
    or_bits-all (bits_nat 8 b) i 0 0 rest done zs (omega (arith, e)) (omega (arith, size))
    ∙ ap (λ t. or_bits (i + t) rest (done ++ (or_all 0 0 (bits_nat 8 b) ∷ zs))) size
    ∙ ap (λ t. or_bits (i + 8) rest (done ++ (t ∷ zs)))
        (eq_of (or_all 0 0 (bits_nat 8 b)) b
          (all_below_sound 256 (λ b. or_all 0 0 (bits_nat 8 b) == b) b byte_table h))

pub or_bits-seven :
    (i c : ℕ) (done : List ℕ)
    → i ≡ 8 * length done
    → c < 128
    → or_bits i (bits_nat 7 c) (done ++ (0 ∷ [])) ≡ done ++ (c * 2 ∷ [])
unfolding or_bits
or_bits-seven i c done e h =
    ap (λ t. or_bits i t (done ++ (0 ∷ []))) (sym (append-nil (bits_nat 7 c)))
    ∙ or_bits-all (bits_nat 7 c) i 0 0 [] done [] (omega (arith, e))
        (omega (arith, length-bits_nat 7 c))
    ∙ ap (λ t. done ++ (t ∷ []))
        (eq_of (or_all 0 0 (bits_nat 7 c)) (c * 2)
          (all_below_sound 128 (λ c. or_all 0 0 (bits_nat 7 c) == c * 2) c seven_table h))

pub map-append :
    (xs ys : List Bool) → map bit_value (xs ++ ys) ≡ map bit_value xs ++ map bit_value ys
map-append [] ys = refl
map-append (x ∷ xs) ys = ap (λ t. bit_value x ∷ t) (map-append xs ys)

pub or_bits-chunks :
    (bs : List ℕ) (i : ℕ) (rest done zs : List ℕ)
    → i ≡ 8 * length done
    → All (λ b. b < 256) bs
    → or_bits i (map bit_value (chunks 8 bs) ++ rest) (done ++ (replicate (length bs) 0 ++ zs))
      ≡ or_bits (i + 8 * length bs) rest (done ++ (bs ++ zs))
unfolding chunks
or_bits-chunks [] i rest done zs e h =
    ap (λ t. or_bits t rest (done ++ zs)) {x = i} {y = i + 8 * 0} (omega arith)
or_bits-chunks (b ∷ bs) i rest done zs e (hb, h) =
    let more = replicate (length bs) 0 ++ zs in
    let later = map bit_value (chunks 8 bs) ++ rest in
    let size = length-append done (b ∷ []) in
    rw (map-append (bits_of 8 b) (chunks 8 bs), append_assoc)
      (or_bits-byte i b later done more e hb
        ∙ ap (λ t. or_bits (i + 8) later t) (sym (append_assoc done (b ∷ []) more))
        ∙ or_bits-chunks bs (i + 8) rest (done ++ (b ∷ [])) zs (omega (arith, e, size)) h
        ∙ ap (λ t. or_bits t rest ((done ++ (b ∷ [])) ++ (bs ++ zs))) {x = i + 8 + 8 * length bs}
            {y = i + 8 * suc (length bs)} (omega arith)
        ∙ ap (λ t. or_bits (i + 8 * suc (length bs)) rest t)
            (append_assoc done (b ∷ []) (bs ++ zs)))

get_or-at :
    (done : List ℕ) (x k : ℕ) (zs : List ℕ) → k ≡ length done → get_or (done ++ (x ∷ zs)) k 0 ≡ x
get_or-at done x k zs e = ap (λ t. get_or (done ++ (x ∷ zs)) t 0) e ∙ get_or-append done x zs

set-at :
    (done : List ℕ) (x v k : ℕ) (zs : List ℕ)
    → k ≡ length done
    → set (done ++ (x ∷ zs)) k v ≡ done ++ (v ∷ zs)
set-at done x v k zs e = ap (λ t. set (done ++ (x ∷ zs)) t v) e ∙ set-append done x v zs

chunks-append : (w : ℕ) (xs ys : List ℕ) → chunks w (xs ++ ys) ≡ chunks w xs ++ chunks w ys
unfolding chunks
chunks-append w [] ys = refl
chunks-append w (x ∷ xs) ys = rw (chunks-append w xs ys, append_assoc)

-- The eleven bytes of nine bytes, three bits and twelve bits.
pub or_bits-frame :
    (packed : List ℕ) (ty c : ℕ)
    → All (λ b. b < 256) packed
    → length packed ≡ 9
    → ty < 8
    → c < 2 ^ 12
    → or_bits 0 (map bit_value (chunks 8 packed ++ (bits_of 3 ty ++ bits_of 12 c))) (replicate 11 0)
      ≡ packed ++ ((ty * 32 + c / 128) ∷ (c % 128 * 2) ∷ [])
or_bits-frame packed ty c h n ht hc =
    let b9 = ty * 32 + c / 128 in
    let bs = packed ++ (b9 ∷ []) in
    let size : length bs ≡ 10 = omega (arith, n, length-append packed (b9 ∷ [])) in
    let last : chunks 8 (b9 ∷ []) ≡ bits_of 8 b9 = unfold chunks in append-nil (bits_of 8 b9) in
    let fields : bits_of 3 ty ++ bits_of 12 c ≡ bits_of 8 b9 ++ bits_of 7 (c % 128) =
      sym (bits_of-fields 3 12 ty c hc)
      ∙ ap (λ t. bits_of 15 t) {x = ty * 2 ^ 12 + c} {y = b9 * 2 ^ 7 + c % 128} (omega arith)
      ∙ bits_of-fields 8 7 b9 (c % 128) (omega arith) in
    let bits : map bit_value (chunks 8 packed ++ (bits_of 3 ty ++ bits_of 12 c))
        ≡ map bit_value (chunks 8 bs) ++ bits_nat 7 (c % 128) =
      ap (λ t. map bit_value (chunks 8 packed ++ t)) fields
      ∙ ap (map bit_value)
          (sym (append_assoc (chunks 8 packed) (bits_of 8 b9) (bits_of 7 (c % 128))))
      ∙ ap (λ t. map bit_value ((chunks 8 packed ++ t) ++ bits_of 7 (c % 128))) (sym last)
      ∙ ap (λ t. map bit_value (t ++ bits_of 7 (c % 128))) (sym (chunks-append 8 packed (b9 ∷ [])))
      ∙ map-append (chunks 8 bs) (bits_of 7 (c % 128)) in
    let room : replicate 11 0 ≡ replicate (length bs) 0 ++ (0 ∷ []) =
      ap (λ k. replicate k 0 ++ (0 ∷ [])) {x = 10} {y = length bs} (sym size) in
    ap (λ t. or_bits 0 t (replicate 11 0)) bits
    ∙ ap (λ t. or_bits 0 (map bit_value (chunks 8 bs) ++ bits_nat 7 (c % 128)) t) room
    ∙ or_bits-chunks bs 0 (bits_nat 7 (c % 128)) [] (0 ∷ []) (omega arith)
        (All-append (λ b. b < 256) packed (b9 ∷ []) h (omega arith, tt))
    ∙ or_bits-seven (0 + 8 * length bs) (c % 128) bs (omega arith) (omega arith)
    ∙ append_assoc packed (b9 ∷ []) (c % 128 * 2 ∷ [])

high_table : all_below 256 (λ b. bit_and b 0xe0 == b / 32 * 32) ≡ true
unfolding all_below
high_table = refl

-- The bits of a frame pass the test of their CRC.
pub check_crc12-frame :
    (packed : List ℕ) (ty : ℕ)
    → All (λ b. b < 256) packed
    → length packed ≡ 9
    → ty < 8
    → let c = crc12 (packed ++ (ty * 32 ∷ 0 ∷ [])) in
      check_crc12 (map bit_value (chunks 8 packed ++ (bits_of 3 ty ++ bits_of 12 c))) ≡ true
unfolding check_crc12
check_crc12-frame packed ty h n ht =
    let c = crc12 (packed ++ (ty * 32 ∷ 0 ∷ [])) in
    let fits = crc12-lt (packed ++ (ty * 32 ∷ 0 ∷ [])) in
    let b9 = ty * 32 + c / 128 in
    let b10 = c % 128 * 2 in
    let bytes = packed ++ (b9 ∷ b10 ∷ []) in
    let ninth = get_or-at packed b9 9 (b10 ∷ []) (sym n) in
    let tenth : get_or bytes 10 0 ≡ b10 =
      ap (λ t. get_or t 10 0) (sym (append_assoc packed (b9 ∷ []) (b10 ∷ [])))
      ∙ get_or-at (packed ++ (b9 ∷ [])) b10 10 []
          (omega (arith, n, length-append packed (b9 ∷ []))) in
    let high : bit_and b9 0xe0 ≡ ty * 32 =
      eq_of (bit_and b9 0xe0) (b9 / 32 * 32) (
        all_below_sound 256 (λ b. bit_and b 0xe0 == b / 32 * 32) b9 high_table
          (omega (arith, fits)))
      ∙ omega (arith, fits) in
    let low : bit_and b9 0x1f ≡ c / 128 = bit_and_mask 5 b9 ∙ omega (arith, fits) in
    let received : bit_or (u16 (bit_and b9 0x1f <<< 7)) (b10 >>> 1) ≡ c =
      ap (λ t. bit_or t (b10 >>> 1)) {x = u16 (bit_and b9 0x1f <<< 7)} {y = c / 128 * 2 ^ 7}
        (omega (arith, low, fits))
      ∙ ap (λ t. bit_or (c / 128 * 2 ^ 7) t) {x = b10 >>> 1} {y = c % 128} (omega arith)
      ∙ bit_or_fields 7 (c / 128) (c % 128) (omega arith)
      ∙ omega arith in
    let cleared : set (set bytes 9 (ty * 32)) 10 0 ≡ packed ++ (ty * 32 ∷ 0 ∷ []) =
      ap (λ t. set t 10 0) (set-at packed b9 (ty * 32) 9 (b10 ∷ []) (sym n))
      ∙ ap (λ t. set t 10 0) (sym (append_assoc packed (ty * 32 ∷ []) (b10 ∷ [])))
      ∙ set-at (packed ++ (ty * 32 ∷ [])) b10 0 10 []
          (omega (arith, n, length-append packed (ty * 32 ∷ [])))
      ∙ append_assoc packed (ty * 32 ∷ []) (0 ∷ []) in
    let same : (c == c) ≡ true = ground arith in
    rw (or_bits-frame packed ty c h n ht fits, ninth, tenth, high, received, cleared) same
