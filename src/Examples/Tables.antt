-- ===== src/Examples/Tables.antt =====
-- Concrete tables of words.
use js8rs.Prelude.{
  ℕ, zero, suc, ◌<◌, ◌≤◌, ◌≡◌, ◌≢◌, refl, Bool, true, false, not, ◌||◌, none, some, List, [], ◌∷◌,
  length, get_or, ltb, leb, ◌==◌, codes, all_below, all_below_sound, bit_and, low_mask, str_eq,
  str_eq_iff, if◌then◌else◌, ◌⊎◌, arith,
}
use js8rs.Varicode.Jsc.{Entry}
use js8rs.Varicode.Jsc.Tables.{
  BinTable, LookupSpan, index_bits, slice, from_le_bytes, u32_at, assert, bin_table_new,
  bin_table_get,
}
use js8rs.Varicode.Jsc.Tables.Bounds.{bin_table_get-in_bounds}
use js8rs.Varicode.Jsc.Lookup.{
  Index, greater, get_prefix, direct_route, trailing_zeros, key_at, search, find_rank, size_loop,
  span_loop, lookup_bytes,
}
use js8rs.Varicode.Jsc.Lookup.Search.{IsDescending, find_rank-first}
use js8rs.Varicode.Jsc.Lookup.Sound.{StartsWord, lookup_bytes_sound}

-- A map of one record: `CQ`, of size 2.
abbrev one_record : List ℕ
one_record = 1 ∷ 0 ∷ 0 ∷ 0 ∷ 2 ∷ 0 ∷ 0 ∷ 0 ∷ 2 ∷ 0 ∷ 0 ∷ 0 ∷ 0 ∷ 0 ∷ 0 ∷ 0 ∷ b'C' ∷ b'Q' ∷ []

abbrev one_table : BinTable
one_table = record { bytes = one_record; count = 1; max_len = 2; rec_size = 10; data_off = 8 }

one_table_new : bin_table_new one_record ≡ some one_table
unfolding bin_table_new u32_at slice from_le_bytes assert
one_table_new = refl

bin_table_get-in_bounds_example :
    (entry : Entry) × (bin_table_get one_table 0 ≡ some (some entry))
    × (length entry.text ≡ one_table.max_len)
bin_table_get-in_bounds_example =
    bin_table_get-in_bounds one_record one_table 0 one_table_new (omega arith)

-- Keys in descending order.
abbrev keys : List (List ℕ)
keys = codes "QRZ" ∷ codes "E" ∷ codes "DE" ∷ codes "CQ" ∷ []

abbrev key : ℕ → List ℕ × ℕ
key i = (get_or keys i [], i)

unfoldable four_keys : Index
four_keys = record {
  rank = λ i. if ltb i 4 then some (record { size = length (key i).0; index = i }) else none;
  entry =
      λ i. if ltb i 4 then some (record { text = (key i).0; size = length (key i).0 }) else none;
  route = λ byte. if byte == b'D' then 65536 else 0xffffffff;
  span = λ i. if i == 0 then some (record { start = 0; count = 4; sizes = 14 }) else none;
}

abbrev whole : LookupSpan
whole = record { start = 0; count = 4; sizes = 14 }

four_keys-key_at : (i : ℕ) → 0 ≤ i → i < 4 → key_at four_keys i ≡ some (key i)
unfolding key_at four_keys get_prefix
four_keys-key_at zero h k = refl
four_keys-key_at (suc zero) h k = refl
four_keys-key_at (suc (suc zero)) h k = refl
four_keys-key_at (suc (suc (suc zero))) h k = refl
four_keys-key_at (suc (suc (suc (suc i)))) h k = absurd (omega arith)

order_table :
    all_below 4 (λ i. all_below 4 (λ j. not (leb i j) || not (greater (key j).0 (key i).0))) ≡ true
unfolding all_below greater
order_table = refl

in_order : (i j : ℕ) (b : Bool) → i ≤ j → (not (leb i j) || not b) ≡ true → b ≡ false
in_order i j b h e = ground arith

whole-IsDescending : IsDescending four_keys whole key
whole-IsDescending = (
  four_keys-key_at,
  λ i j h k l. in_order i j (greater (key j).0 (key i).0) k (
      all_below_sound 4 (λ j. not (leb i j) || not (greater (key j).0 (key i).0)) j
        (all_below_sound 4
          (λ i. all_below 4 (λ j. not (leb i j) || not (greater (key j).0 (key i).0))) i order_table
          (omega arith))
        l),
)

differ : (xs ys : List ℕ) → str_eq xs ys ≡ false → xs ≢ ys
differ xs ys h e = let same = (str_eq_iff xs ys).1 e in ground arith

earlier : (i : ℕ) → 0 ≤ i → i < 2 → (key i).0 ≢ codes "DE"
unfolding str_eq
earlier zero h k = differ (codes "QRZ") (codes "DE") refl
earlier (suc zero) h k = differ (codes "E") (codes "DE") refl
earlier (suc (suc i)) h k = absurd (omega arith)

find_rank-first_example : find_rank four_keys (codes "DE") whole ≡ some (2, 2)
find_rank-first_example =
    find_rank-first four_keys whole key (codes "DE") 2 whole-IsDescending (omega arith)
      (omega arith) refl earlier

lookup_de : lookup_bytes four_keys (codes "DEX") ≡ some 2
unfolding lookup_bytes span_loop size_loop find_rank search key_at get_prefix four_keys greater
    trailing_zeros str_eq
lookup_de = refl

lookup_bytes-sound_example :
    ((not (bit_and (four_keys.route b'D') direct_route == 0) ≡ true)
      × (2 ≡ bit_and (four_keys.route b'D') (low_mask index_bits)))
    ⊎ StartsWord four_keys (codes "DEX") 2
lookup_bytes-sound_example = lookup_bytes_sound four_keys b'D' (codes "EX") 2 lookup_de
