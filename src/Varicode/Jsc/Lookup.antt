-- ===== src/Varicode/Jsc/Lookup.antt =====
-- src/varicode/jsc.rs: `find_rank` and `lookup_bytes`, on what the readers of the tables return.
pub mod Search
pub mod Sound
use js8rs.Prelude.{
  ℕ, zero, suc, ◌+◌, ◌-◌, ◌*◌, ◌/◌, ◌%◌, ◌^◌, Bool, true, false, not, ◌&&◌, Option, none, some,
  List, [], ◌∷◌, ◌++◌, length, take, leb, ltb, ◌==◌, if◌then◌else◌, bit_and, ◌>>>◌, low_mask,
  str_eq,
}
use js8rs.Varicode.Jsc.{Entry, Dictionary}
use js8rs.Varicode.Jsc.Tables.{RankRef, LookupSpan, index_bits, text_trimmed, ◌>>=◌}

-- `rank_table()`, `map_table()` and `lookup_table()` by their readers.
pub record Index : Type 0 where
  pub rank : ℕ → Option RankRef
  pub entry : ℕ → Option Entry
  pub route : ℕ → ℕ
  pub span : ℕ → Option LookupSpan

-- `key.cmp(needle) == Ordering::Greater`
unfoldable pub greater : List ℕ → List ℕ → Bool
greater [] needle = false
greater (x ∷ xs) [] = true
greater (x ∷ xs) (y ∷ ys) = if ltb y x then true else (x == y) && greater xs ys

-- `text.get(..size)`
unfoldable pub get_prefix : List ℕ → ℕ → Option (List ℕ)
get_prefix text size = if leb size (length text) then some (take size text) else none

-- `u32::MAX`
abbrev pub no_rank : ℕ
no_rank = 0xffffffff

abbrev pub no_route : ℕ
no_route = 0xffffffff

abbrev pub direct_route : ℕ
direct_route = 2 ^ 31

unfoldable pub trailing_zeros : ℕ → ℕ → ℕ
trailing_zeros zero x = 0
trailing_zeros (suc bits) x = if x % 2 == 1 then 0 else suc (trailing_zeros bits (x / 2))

module _ (tables : Index) where
  -- The key of a rank, and its index in the map.
  unfoldable pub key_at : ℕ → Option (List ℕ × ℕ)
  key_at place = do
    found ← tables.rank place
    entry ← tables.entry found.index
    key ← get_prefix entry.text found.size
    some (key, found.index)

  -- The loop, on as many rounds as there are ranks: each one drops a rank at least.
  unfoldable pub search : ℕ → List ℕ → ℕ → ℕ → Option ℕ
  search zero needle low high = some low
  search (suc rounds) needle low high =
      let mid = low + (high - low) / 2 in
      let right = search rounds needle (mid + 1) high in
      let left = search rounds needle low mid in
      if ltb low high
      then elim (key_at mid) [
        | none ↦ none
        | some found ↦ if greater found.0 needle then right else left
      ]
      else some low

  -- The rank and the index of the needle.
  unfoldable pub find_rank : List ℕ → LookupSpan → Option (ℕ × ℕ)
  unfolding key_at search
  find_rank needle span = do
    low ← search span.count needle span.start (span.start + span.count)
    found ← key_at low
    if str_eq found.0 needle then some (low, found.1) else none

  -- The loop over the bits of `sizes`, which each round makes smaller.
  unfoldable pub size_loop : ℕ → List ℕ → LookupSpan → ℕ → ℕ × ℕ → ℕ × ℕ
  unfolding find_rank
  size_loop zero b span sizes best = best
  size_loop (suc rounds) b span sizes best =
      let len = trailing_zeros 32 sizes in
      let better : ℕ × ℕ = elim (find_rank (take len b) span) [
        | none ↦ best
        | some candidate ↦ if ltb candidate.0 best.0 then candidate else best
      ] in
      let more = size_loop rounds b span (bit_and sizes (sizes - 1)) better in
      if sizes == 0 then best else if ltb (length b) len then best else more

  unfoldable pub span_loop : ℕ → ℕ → List ℕ → Option ℕ
  unfolding size_loop
  span_loop zero span_index b = none
  span_loop (suc span_count) span_index b =
      let more = span_loop span_count (span_index + 1) b in
      elim (tables.span span_index) [
        | none ↦ none
        | some span ↦
            let best = size_loop span.sizes b span span.sizes (no_rank, 0) in
            if best.0 == no_rank then more else some best.1
      ]

  unfoldable pub lookup_bytes : List ℕ → Option ℕ
  unfolding span_loop
  lookup_bytes [] = none
  lookup_bytes (first ∷ rest) =
      let route = tables.route first in
      if route == no_route
      then none
      else if not (bit_and route direct_route == 0)
      then some (bit_and route (low_mask index_bits))
      else span_loop (route >>> 16) (bit_and route 0xffff) (first ∷ rest)

-- The tables as `compress_frame` and `decompress` use them.
unfoldable pub dictionary_of : ℕ → Index → Dictionary
dictionary_of count tables = record {
  count = count;
  entry = λ index. elim (tables.entry index) [
    | none ↦ none
    | some entry ↦ some (record { text = text_trimmed entry.text; size = entry.size })
  ];
  lookup = lookup_bytes tables;
}
