-- ===== src/Varicode/Jsc/Tables.antt =====
-- src/varicode/jsc_tables.rs: the readers of the tables. The bytes of a table are a parameter: the
-- files under assets are no code. The outer `none` is a panic: an assertion, or a slice out of range.
pub mod Bounds
use js8rs.Prelude.{
  ℕ, zero, suc, ◌+◌, ◌-◌, ◌*◌, ◌/◌, ◌%◌, ◌^◌, Bool, true, false, not, Option, none, some, List, [],
  ◌∷◌, ◌++◌, length, take, drop, leb, ltb, ◌==◌, if◌then◌else◌, bit_and, ◌<<<◌, ◌>>>◌, low_mask,
  codes, str_eq,
}
use js8rs.Varicode.Jsc.{Entry}

abbrev pub index_bits : ℕ
index_bits = 18

-- `bytes[start..start + size]`
unfoldable pub slice : List ℕ → ℕ → ℕ → Option (List ℕ)
slice bytes start size =
    if leb (start + size) (length bytes) then some (take size (drop start bytes)) else none

-- `u32::from_le_bytes`
unfoldable pub from_le_bytes : List ℕ → ℕ
from_le_bytes [] = 0
from_le_bytes (b ∷ bs) = b + 256 * from_le_bytes bs

unfoldable pub u32_at : List ℕ → ℕ → Option ℕ
u32_at bytes start = elim (slice bytes start 4) [ none ↦ none | some b ↦ some (from_le_bytes b) ]

pub record BinTable : Type 0 where
  pub bytes : List ℕ
  pub count : ℕ
  pub max_len : ℕ
  pub rec_size : ℕ
  pub data_off : ℕ

pub record RankRef : Type 0 where
  pub size : ℕ
  pub index : ℕ

pub record LookupSpan : Type 0 where
  pub start : ℕ
  pub count : ℕ
  pub sizes : ℕ

pub record RankTable : Type 0 where
  pub bytes : List ℕ
  pub count : ℕ

pub record LookupTable : Type 0 where
  pub bytes : List ℕ
  pub span_count : ℕ

infixl 5 ◌>>=◌ ◌>>◌
abbrev pub ◌>>=◌ {ℓ κ} : {A : Type ℓ} {B : Type κ} → Option A → (A → Option B) → Option B
none >>= f = none
some a >>= f = f a

abbrev pub ◌>>◌ {ℓ} : {B : Type ℓ} → Option (Unit {0}) → Option B → Option B
m >> k = m >>= λ _. k

-- `assert!`
unfoldable pub assert : Bool → Option (Unit {0})
assert test = if test then some tt else none

unfoldable pub bin_table_new : List ℕ → Option BinTable
bin_table_new bytes = do
  assert (leb 8 (length bytes))
  count ← u32_at bytes 0
  max_len ← u32_at bytes 4
  assert (leb (8 + count * (8 + max_len)) (length bytes))
  some (record {
    bytes = bytes;
    count = count;
    max_len = max_len;
    rec_size = 8 + max_len;
    data_off = 8;
  })

-- `i32::from_le_bytes(..).max(0) as u32`
unfoldable pub size_field : ℕ → ℕ
size_field raw = if ltb raw (2 ^ 31) then raw else 0

unfoldable pub bin_table_get : BinTable → ℕ → Option (Option Entry)
bin_table_get table i = if leb table.count i then some none else do
  rec_bytes ← slice table.bytes (table.data_off + i * table.rec_size) table.rec_size
  raw ← u32_at rec_bytes 0
  text ← slice rec_bytes 8 table.max_len
  some (some (record { text = text; size = size_field raw }))

unfoldable pub text_trimmed : List ℕ → List ℕ
text_trimmed [] = []
text_trimmed (c ∷ cs) =
    let rest = text_trimmed cs in
    elim rest [ [] ↦ if c == 0 then [] else c ∷ [] | r ∷ rs ↦ c ∷ r ∷ rs ]

unfoldable pub rank_table_new : List ℕ → Option RankTable
rank_table_new bytes =
    if length bytes % 4 == 0
    then some (record { bytes = bytes; count = length bytes / 4 })
    else none

unfoldable pub rank_table_get : RankTable → ℕ → Option (Option RankRef)
rank_table_get table rank = if leb table.count rank then some none else do
  packed ← u32_at table.bytes (rank * 4)
  some
      (some (record { size = packed >>> index_bits; index = bit_and packed (low_mask index_bits) }))

unfoldable pub lookup_table_new : List ℕ → Option LookupTable
lookup_table_new bytes = do
  assert (leb 12 (length bytes))
  assert (str_eq (take 4 bytes) (codes "JSCI"))
  routes ← u32_at bytes 4
  span_count ← u32_at bytes 8
  assert (routes == 256)
  assert (length bytes == 12 + routes * 4 + span_count * 12)
  some (record { bytes = bytes; span_count = span_count })

unfoldable pub lookup_table_route : LookupTable → ℕ → Option ℕ
unfolding u32_at
lookup_table_route table byte = u32_at table.bytes (12 + byte * 4)

unfoldable pub lookup_table_span : LookupTable → ℕ → Option (Option LookupSpan)
lookup_table_span table index = if leb table.span_count index then some none else do
  bytes ← slice table.bytes (12 + 256 * 4 + index * 12) 12
  start ← u32_at bytes 0
  count ← u32_at bytes 4
  sizes ← u32_at bytes 8
  some (some (record { start = start; count = count; sizes = sizes }))
