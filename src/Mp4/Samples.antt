-- ===== src/Mp4/Samples.antt =====
-- The arithmetic of samples, chunks and times: the functions at the end of mp4_parse.rs. Numbers are
-- `u32`, or `u64` for times and offsets, and their sums and products wrap as in a release build.
use nozdormu.Prelude.{
  ℕ, zero, suc, ◌+◌, ◌-◌, ◌*◌, ◌/◌, ◌%◌, min, Bool, false, ◌&&◌, Option, none, some, List, [], ◌∷◌,
  ltb, leb, ◌==◌, if◌then◌else◌, length, get_elem?, last?, ◌>>=◌, unwrap_or,
}
use nozdormu.Mp4.{u32_mod, u64_mod, SttsEntry, StscEntry, SampleTable}

-- `u32::MAX`
abbrev pub u32_max : ℕ
u32_max = u32_mod - 1

-- `a - b` on `u32` values, and on `u64` values
abbrev pub sub_u32 : ℕ → ℕ → ℕ
sub_u32 a b = (a + (u32_mod - b)) % u32_mod

abbrev pub sub_u64 : ℕ → ℕ → ℕ
sub_u64 a b = (a + (u64_mod - b)) % u64_mod

-- The first chunk of the run after
abbrev pub next_first_chunk : List StscEntry → ℕ
next_first_chunk [] = u32_max
next_first_chunk (e ∷ es) = e.first_chunk

-- The loop of `sample_to_chunk`
unfoldable pub chunk_from : List StscEntry → ℕ → ℕ → Option (ℕ × ℕ)
chunk_from [] current sample_index = none
chunk_from (e ∷ es) current sample_index =
    let samples_in_run =
      min ((next_first_chunk es - e.first_chunk) * e.samples_per_chunk) u32_max in
    let next_sample = (current + samples_in_run) % u32_mod in
    let rest = chunk_from es next_sample sample_index in
    if ltb sample_index next_sample
    then (let offset_in_run = sub_u32 sample_index current in
        some (
          (sub_u32 e.first_chunk 1 + offset_in_run / e.samples_per_chunk) % u32_mod,
          offset_in_run % e.samples_per_chunk,
        ))
    else rest

unfoldable pub sample_to_chunk : List StscEntry → ℕ → Option (ℕ × ℕ)
unfolding chunk_from
sample_to_chunk stsc sample_index = chunk_from stsc 0 sample_index

-- The loop of `first_sample_of_chunk`
unfoldable pub first_from : List StscEntry → ℕ → ℕ → Option ℕ
first_from [] current chunk_1based = none
first_from (e ∷ es) current chunk_1based =
    let chunks_in_run = next_first_chunk es - e.first_chunk in
    let rest =
      first_from es ((current + (chunks_in_run * e.samples_per_chunk) % u32_mod) % u32_mod)
        chunk_1based in
    if leb e.first_chunk chunk_1based && ltb chunk_1based (next_first_chunk es)
    then some
        ((current + ((chunk_1based - e.first_chunk) * e.samples_per_chunk) % u32_mod) % u32_mod)
    else rest

unfoldable pub first_sample_of_chunk : List StscEntry → ℕ → Option ℕ
unfolding first_from
first_sample_of_chunk stsc chunk_index = first_from stsc 0 ((chunk_index + 1) % u32_mod)

-- The sizes of `count` samples from one on, those past the end left out
unfoldable pub sum_sizes : List ℕ → ℕ → ℕ → ℕ
sum_sizes stsz zero i = 0
sum_sizes stsz (suc count) i =
    (unwrap_or (get_elem? stsz i) 0 + sum_sizes stsz count (suc i)) % u64_mod

unfoldable pub get_sample_offset : SampleTable → ℕ → Option (ℕ × ℕ)
unfolding sample_to_chunk first_sample_of_chunk sum_sizes
get_sample_offset table sample_index = do
  size ← get_elem? table.stsz sample_index
  at ← sample_to_chunk table.stsc sample_index
  chunk_offset ← get_elem? table.stco at.0
  first ← first_sample_of_chunk table.stsc at.0
  some ((chunk_offset + sum_sizes table.stsz (sample_index - first) first) % u64_mod, size)

-- The loop of `sample_to_dts`
unfoldable pub dts_from : List SttsEntry → ℕ → ℕ → ℕ
dts_from [] dts remaining = dts
dts_from (e ∷ es) dts remaining =
    let rest =
      dts_from es ((dts + e.sample_count * e.sample_delta) % u64_mod)
        (remaining - e.sample_count) in
    if leb remaining e.sample_count then (dts + remaining * e.sample_delta) % u64_mod else rest

unfoldable pub sample_to_dts : List SttsEntry → ℕ → ℕ
unfolding dts_from
sample_to_dts stts sample_index = dts_from stts 0 sample_index

-- The loop of `dts_to_sample`
unfoldable pub sample_from : List SttsEntry → ℕ → ℕ → ℕ → ℕ
sample_from [] dts sample target = sample
sample_from (e ∷ es) dts sample target =
    let next_dts = (dts + e.sample_count * e.sample_delta) % u64_mod in
    let rest = sample_from es next_dts ((sample + e.sample_count) % u32_mod) target in
    if ltb target next_dts
    then if ltb 0 e.sample_delta
      then (sample + (sub_u64 target dts / e.sample_delta) % u32_mod) % u32_mod
      else sample
    else rest

unfoldable pub dts_to_sample : List SttsEntry → ℕ → ℕ
unfolding sample_from
dts_to_sample stts target_dts = sample_from stts 0 0 target_dts

-- The entries before the place that `binary_search` finds in a sorted list
unfoldable pub below : List ℕ → ℕ → List ℕ
below [] target = []
below (s ∷ ss) target = let rest = below ss target in if ltb s target then s ∷ rest else []

abbrev pub is_at : Option ℕ → ℕ → Bool
is_at none target = false
is_at (some s) target = s == target

-- The last entry below the target, as a 0-based sample
unfoldable pub before_place : Option ℕ → ℕ
before_place (some s) = sub_u32 s 1
before_place none = 0

unfoldable pub nearest_sync_sample : Option (List ℕ) → ℕ → ℕ
unfolding below before_place
nearest_sync_sample none sample_index = sample_index
nearest_sync_sample (some sync_samples) sample_index =
    let target = (sample_index + 1) % u32_mod in
    let smaller = below sync_samples target in
    if is_at (get_elem? sync_samples (length smaller)) target
    then sample_index
    else before_place (last? smaller)

unfoldable pub total_samples : List SttsEntry → ℕ
total_samples [] = 0
total_samples (e ∷ es) = (e.sample_count + total_samples es) % u32_mod
