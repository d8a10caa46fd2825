-- ===== src/Mp4/Chunks.antt =====
-- Samples and chunks: `sample_to_chunk` and `first_sample_of_chunk` of mp4_parse.rs on the runs of a
-- table.
use nozdormu.Prelude.{
  ℕ, ◌+◌, ◌-◌, ◌*◌, ◌/◌, ◌%◌, ◌≤◌, ◌<◌, min, ◌≡◌, refl, ap, true, false, none, some, List, [], ◌∷◌,
  ◌++◌, ltb, leb, if◌then◌else◌, arith, inl, inr, lt→ltb, ◌⊎◌, get_elem?, Option-cases,
}
use native.Mathlib.Nat.{mod-eq_of_lt, mod-lt, mul-le-mul_right, div-add-mod', div-lt_iff_lt-mul}
use nozdormu.Mp4.{u32_mod, StscEntry, SampleTable}
use nozdormu.Mp4.Samples.{
  u32_max, sub_u32, next_first_chunk, chunk_from, sample_to_chunk, first_from,
  first_sample_of_chunk, get_sample_offset,
}

-- The chunks of the first run, and the samples in them
abbrev pub chunks_of : StscEntry → List StscEntry → ℕ
chunks_of e es = next_first_chunk es - e.first_chunk

abbrev pub samples_of : StscEntry → List StscEntry → ℕ
samples_of e es = chunks_of e es * e.samples_per_chunk

-- Chunk numbers are positive `u32` values below the largest, and no chunk is empty.
abbrev pub IsEntry : StscEntry → Type 0
IsEntry e = (0 < e.first_chunk) × (e.first_chunk < u32_max) × (0 < e.samples_per_chunk)

-- The sample is in a run of the table, where the samples up to the end of that run number less than
-- 2 ^ 32; `current` is the first sample of the first run. The runs are in the order of their chunks.
abbrev pub IsInRun : List StscEntry → ℕ → ℕ → Type 0
IsInRun [] current s = ⊥
IsInRun (e ∷ es) current s =
    IsEntry e
    × (e.first_chunk < next_first_chunk es)
    × (next_first_chunk es ≤ u32_max)
    × ((s < current + min (samples_of e es) u32_max)
          × (current + min (samples_of e es) u32_max < u32_mod)
        ⊎ (current + samples_of e es ≤ s)
          × (current + samples_of e es < u32_mod)
          × IsInRun es (current + samples_of e es) s)

-- The samples in a chunk, counted from one
abbrev pub chunk_size : List StscEntry → ℕ → ℕ
chunk_size [] chunk = 0
chunk_size (e ∷ es) chunk =
    if ltb chunk (next_first_chunk es) then e.samples_per_chunk else chunk_size es chunk

-- The chunk and the place of a sample, next to what the other function says of that chunk
abbrev Agrees : List StscEntry → ℕ → ℕ → Type 0
Agrees es current s =
    (chunk : ℕ) × (place : ℕ) × (first : ℕ) × (chunk_from es current s ≡ some (chunk, place))
    × (first_from es current (chunk + 1) ≡ some first)
    × (first + place ≡ s)
    × (place < chunk_size es (chunk + 1))
    × (next_first_chunk es ≤ chunk + 1)
    × (chunk + 1 < u32_max)

sub_u32-exact : (a b : ℕ) → b ≤ a → a < u32_mod → sub_u32 a b ≡ a - b
sub_u32-exact a b h small = omega arith

-- A sample of the first run
first_run-Agrees :
    (e : StscEntry) (es : List StscEntry) (current s : ℕ)
    → IsEntry e
    → next_first_chunk es ≤ u32_max
    → current ≤ s
    → s < current + min (samples_of e es) u32_max
    → current + min (samples_of e es) u32_max < u32_mod
    → Agrees (e ∷ es) current s
unfolding chunk_from first_from
first_run-Agrees e es current s entry next le inside small =
    let off = s - current in
    let q = off / e.samples_per_chunk in
    let place = off % e.samples_per_chunk in
    let whole : q * e.samples_per_chunk + place ≡ off = div-add-mod' off e.samples_per_chunk in
    let below : q < chunks_of e es =
      (div-lt_iff_lt-mul {k = e.samples_per_chunk} {x = off} {y = chunks_of e es} entry.2).1
        (omega arith) in
    let fits : place < e.samples_per_chunk = mod-lt off entry.2 in
    let run : (current + min (samples_of e es) u32_max) % u32_mod
        ≡ current + min (samples_of e es) u32_max =
      mod-eq_of_lt small in
    let here = lt→ltb _ _ inside in
    let exact = sub_u32-exact s current le (omega arith) in
    let number : (sub_u32 e.first_chunk 1 + q) % u32_mod ≡ e.first_chunk - 1 + q = omega arith in
    let at : e.first_chunk - 1 + q + 1 ≡ e.first_chunk + q = omega arith in
    let low : leb e.first_chunk (e.first_chunk + q) ≡ true = ground arith in
    let high : ltb (e.first_chunk + q) (next_first_chunk es) ≡ true = ground arith in
    let gap : e.first_chunk + q - e.first_chunk ≡ q = omega arith in
    let part : (current + q * e.samples_per_chunk % u32_mod) % u32_mod
        ≡ current + q * e.samples_per_chunk =
      omega arith in
    (
      e.first_chunk - 1 + q,
      place,
      current + q * e.samples_per_chunk,
      rw (run, here, exact) (ap (λ c. some (c, place)) number),
      rw (at, low, high, gap) (ap some part),
      omega arith,
      rw (at, high) fits,
      omega arith,
      omega arith,
    )

chunk_from-Agrees :
    (es : List StscEntry) (current s : ℕ) → IsInRun es current s → current ≤ s → Agrees es current s
unfolding chunk_from first_from
chunk_from-Agrees [] current s h le = absurd h
chunk_from-Agrees (e ∷ es) current s (entry, order, next, inl (inside, small)) le =
    first_run-Agrees e es current s entry next le inside small
chunk_from-Agrees (e ∷ es) current s (entry, order, next, inr (late, small, rest)) le =
    let (chunk, place, first, to, from, sum, fits, above, below) =
      chunk_from-Agrees es (current + samples_of e es) s rest late in
    let run : (current + min (samples_of e es) u32_max) % u32_mod ≡ current + samples_of e es =
      omega arith in
    let after : ltb s (current + samples_of e es) ≡ false = ground arith in
    let start : (current + samples_of e es % u32_mod) % u32_mod ≡ current + samples_of e es =
      omega arith in
    let low : leb e.first_chunk (chunk + 1) ≡ true = ground arith in
    let high : ltb (chunk + 1) (next_first_chunk es) ≡ false = ground arith in
    (
      chunk,
      place,
      first,
      rw (run, after) to,
      rw (start, low, high) from,
      sum,
      rw high fits,
      omega arith,
      below,
    )

-- For a sample in a run that ends below 2 ^ 32 samples, of a table in order with no empty chunk,
-- the sample is found in a chunk, `first_sample_of_chunk` finds that chunk, and the sample is its
-- first sample plus the place, which is below the number of samples in the chunk.
pub sample_to_chunk-first_sample_of_chunk :
    (stsc : List StscEntry) (sample_index : ℕ)
    → IsInRun stsc 0 sample_index
    → (chunk : ℕ) × (place : ℕ) × (first : ℕ) × (sample_to_chunk stsc sample_index
        ≡ some (chunk, place))
      × (first_sample_of_chunk stsc chunk ≡ some first)
      × (first + place ≡ sample_index)
      × (place < chunk_size stsc (chunk + 1))
unfolding sample_to_chunk first_sample_of_chunk
sample_to_chunk-first_sample_of_chunk stsc s h =
    let (chunk, place, first, to, from, sum, fits, above, below) =
      chunk_from-Agrees stsc 0 s h (omega arith) in
    let number : (chunk + 1) % u32_mod ≡ chunk + 1 = mod-eq_of_lt (omega arith) in
    (chunk, place, first, to, rw number from, sum, fits)

-- The samples of the runs before the last
abbrev pub samples_before : List StscEntry → StscEntry → ℕ
samples_before [] last = 0
samples_before (e ∷ es) last = samples_of e (es ++ (last ∷ [])) + samples_before es last

chunk_from-last :
    (es : List StscEntry) (last : StscEntry) (current s : ℕ)
    → u32_max ≤ samples_of last []
    → 0 < current + samples_before es last
    → current + samples_before es last < u32_mod
    → current + samples_before es last ≤ s
    → chunk_from (es ++ (last ∷ [])) current s ≡ none
unfolding chunk_from
chunk_from-last [] last current s long some_sample small late =
    let run : (current + min (samples_of last []) u32_max) % u32_mod ≡ current - 1 = omega arith in
    let after : ltb s (current - 1) ≡ false = ground arith in rw (run, after) refl
chunk_from-last (e ∷ es) last current s long some_sample small late =
    let samples = samples_of e (es ++ (last ∷ [])) in
    let run : (current + min samples u32_max) % u32_mod ≡ current + samples = omega arith in
    let after : ltb s (current + samples) ≡ false = ground arith in
    rw (run, after)
      (chunk_from-last es last (current + samples) s long (omega arith) (omega arith) (omega arith))

-- Where the last run starts after at least one sample, has two or more samples in a chunk and starts
-- in the lower half of the chunk numbers, no sample of the last run is found.
pub get_sample_offset-last :
    (table : SampleTable) (es : List StscEntry) (last : StscEntry) (sample_index : ℕ)
    → table.stsc ≡ es ++ (last ∷ [])
    → 2 ≤ last.samples_per_chunk
    → last.first_chunk < 2147483648
    → 0 < samples_before es last
    → samples_before es last < u32_mod
    → samples_before es last ≤ sample_index
    → get_sample_offset table sample_index ≡ none
unfolding get_sample_offset sample_to_chunk
get_sample_offset-last table es last s runs two low some_sample small late =
    let long : u32_max ≤ samples_of last [] =
      grind (arith, mul-le-mul_right {m = 2} {n = last.samples_per_chunk} (chunks_of last [])) in
    let lost : chunk_from table.stsc 0 s ≡ none =
      rw runs (chunk_from-last es last 0 s long (omega arith) (omega arith) (omega arith)) in
    elim (Option-cases (get_elem? table.stsz s)) [
      | inl e ↦ rw e refl
      | inr (size, e) ↦ rw (e, lost) refl
    ]
