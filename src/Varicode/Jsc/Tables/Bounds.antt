-- ===== src/Varicode/Jsc/Tables/Bounds.antt =====
-- A table that passes the assertions of its constructor is never read out of its bytes.
use js8rs.Prelude.{
  ℕ, suc, ◌+◌, ◌*◌, ◌<◌, ◌≤◌, ◌≡◌, refl, subst, Bool, true, false, Option, none, some, List, length,
  length-take, length-drop, take, drop, leb, leb→le, arith,
}
use js8rs.Varicode.Jsc.{Entry}
use js8rs.Varicode.Jsc.Tables.{
  slice, from_le_bytes, u32_at, BinTable, assert, bin_table_new, bin_table_get, size_field, ◌>>=◌,
  ◌>>◌,
}
use native.Mathlib.Nat.{mul-le-mul_right}
use mathlib.Core.Option.{some-injective, none-ne-some}

-- The parts of a chain that succeeds.
bind-some {ℓ κ} :
    {A : Type ℓ} {B : Type κ} (m : Option A) (f : A → Option B) (b : B)
    → (m >>= f) ≡ some b
    → (a : A) × (m ≡ some a) × (f a ≡ some b)
bind-some none f b h = absurd (none-ne-some _ h)
bind-some (some a) f b h = (a, refl, h)

assert-some : (test : Bool) (u : Unit {0}) → assert test ≡ some u → test ≡ true
unfolding assert
assert-some true u h = refl
assert-some false u h = absurd (none-ne-some _ h)

slice-some :
    (bytes : List ℕ) (start size : ℕ)
    → start + size ≤ length bytes
    → (part : List ℕ) × (slice bytes start size ≡ some part) × (length part ≡ size)
unfolding slice
slice-some bytes start size h =
    let inside : leb (start + size) (length bytes) ≡ true = ground arith in
    (
      take size (drop start bytes),
      rw inside,
      omega (arith, length-take size (drop start bytes), length-drop start bytes),
    )

u32_at-some :
    (bytes : List ℕ) (start : ℕ)
    → start + 4 ≤ length bytes
    → (v : ℕ) × (u32_at bytes start ≡ some v)
unfolding u32_at
u32_at-some bytes start h =
    let (part, e, size) = slice-some bytes start 4 h in (from_le_bytes part, rw (u32_at, e))

abbrev checked : List ℕ → ℕ → ℕ → Option BinTable
checked bytes count max_len = do
  assert (leb (8 + count * (8 + max_len)) (length bytes))
  some (record {
    bytes = bytes;
    count = count;
    max_len = max_len;
    rec_size = 8 + max_len;
    data_off = 8;
  })

bin_table_new-fits :
    (bytes : List ℕ) (table : BinTable)
    → bin_table_new bytes ≡ some table
    → (table.rec_size ≡ 8 + table.max_len)
      × (table.data_off ≡ 8)
      × (8 + table.count * (8 + table.max_len) ≤ length table.bytes)
unfolding bin_table_new
bin_table_new-fits bytes table h =
    let (u, e, h0) =
      bind-some (assert (leb 8 (length bytes)))
        (λ u. u32_at bytes 0 >>= λ count. u32_at bytes 4 >>= λ max_len. checked bytes count max_len)
        table h in
    let (count, e0, h1) =
      bind-some (u32_at bytes 0)
        (λ count. u32_at bytes 4 >>= λ max_len. checked bytes count max_len) table h0 in
    let (max_len, e1, h2) =
      bind-some (u32_at bytes 4) (λ max_len. checked bytes count max_len) table h1 in
    let made : BinTable = record {
      bytes = bytes;
      count = count;
      max_len = max_len;
      rec_size = 8 + max_len;
      data_off = 8;
    } in
    let (v, e2, h3) =
      bind-some (assert (leb (8 + count * (8 + max_len)) (length bytes))) (λ v. some made) table
        h2 in
    let fits = leb→le (8 + count * (8 + max_len)) (length bytes) (assert-some _ v e2) in
    subst
      (λ t.
        (t.rec_size ≡ 8 + t.max_len)
        × (t.data_off ≡ 8)
        × (8 + t.count * (8 + t.max_len) ≤ length t.bytes))
      (some-injective made table h3) (refl, refl, fits)

-- A record of the table lies within its bytes.
record_fits : (n i count size : ℕ) → 8 + count * size ≤ n → i < count → 8 + i * size + size ≤ n
record_fits n i count size h hi =
    omega (arith, mul-le-mul_right {m = suc i} {n = count} size (omega arith))

-- In a table whose bytes pass the assertions, every index below the count has a record, read within
-- the bytes, whose text has the full length.
pub bin_table_get-in_bounds :
    (bytes : List ℕ) (table : BinTable) (i : ℕ)
    → bin_table_new bytes ≡ some table
    → i < table.count
    → (entry : Entry) × (bin_table_get table i ≡ some (some entry))
      × (length entry.text ≡ table.max_len)
unfolding bin_table_get
bin_table_get-in_bounds bytes table i h hi =
    let (size, off, fits) = bin_table_new-fits bytes table h in
    let within : leb table.count i ≡ false = ground arith in
    let room : table.data_off + i * table.rec_size + table.rec_size ≤ length table.bytes =
      rw (size, off) (record_fits (length table.bytes) i table.count (8 + table.max_len) fits hi) in
    let (part, e, whole) =
      slice-some table.bytes (table.data_off + i * table.rec_size) table.rec_size room in
    let (raw, e') = u32_at-some part 0 (omega (arith, whole, size)) in
    let (text, e'', letters) = slice-some part 8 table.max_len (omega (arith, whole, size)) in
    (record { text = text; size = size_field raw }, rw (bin_table_get, within, e, e', e''), letters)
