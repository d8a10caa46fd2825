-- ===== src/Mp4/Entries.antt =====
-- The tables of a track: `parse_stts`, `parse_stsc`, `parse_stsz`, `parse_stco`, `parse_stss` and
-- `parse_ctts` of mp4_parse.rs.
use nozdormu.Prelude.{
  ℕ, zero, suc, ◌+◌, ◌-◌, ◌/◌, min, Option, none, some, List, [], ◌∷◌, ltb, ◌==◌, if◌then◌else◌,
  length, replicate, unwrap_or,
}
use nozdormu.Prelude.Text.{codes}
use nozdormu.Mp4.{
  Bytes, truncated, Outcome, ok, fails, ◌>>=◌, as_i32, SttsEntry, StscEntry, CttsEntry, read_u32,
  read_u64, slice,
}
use nozdormu.Mp4.Atoms.{Atom, find_atom}

-- The loop over the entries: `off` counts up in steps of `width`.
unfoldable pub read_entries :
    {A : Type 0} → ℕ → (Bytes → ℕ → Outcome A) → ℕ → Bytes → ℕ → ℕ → Outcome (List A)
read_entries width read start d zero off = ok []
read_entries width read start d (suc n) off =
    if ltb (length d) (off + width) then fails (truncated (start + off)) else (do
      entry ← read d off
      rest ← read_entries width read start d n (off + width)
      ok (entry ∷ rest))

-- What follows the atom's header: four bytes, the count of the entries, and the entries
unfoldable pub parse_entries :
    {A : Type 0} → ℕ → (Bytes → ℕ → Outcome A) → Bytes → ℕ → Outcome (List A)
unfolding read_u32 read_entries
parse_entries width read d start = if ltb (length d) 8 then fails (truncated start) else (do
  count ← read_u32 d 4
  read_entries width read start d (min count ((length d - 8) / width)) 8)

-- The table in the first atom of its kind; `none` without one
unfoldable pub parse_table :
    {A : Type 0} → ℕ → (Bytes → ℕ → Outcome A) → Bytes → Bytes → Atom → Outcome (Option (List A))
unfolding find_atom slice parse_entries
parse_table width read kind buffer stbl =
    find_atom buffer stbl.data_start stbl.data_end kind >>= λ found. elim found [
      | none ↦ ok none
      | some atom ↦ (do
        d ← slice buffer atom.data_start atom.data_end
        entries ← parse_entries width read d atom.data_start
        ok (some entries))
    ]

unfoldable pub read_stts : Bytes → ℕ → Outcome SttsEntry
unfolding read_u32
read_stts d off = do
  count ← read_u32 d off
  delta ← read_u32 d (off + 4)
  ok (record { sample_count = count; sample_delta = delta })

unfoldable pub parse_stts : Bytes → Atom → Outcome (List SttsEntry)
unfolding parse_table read_stts
parse_stts buffer stbl =
    parse_table 8 read_stts (codes "stts") buffer stbl >>= λ found. ok (unwrap_or found [])

unfoldable pub read_stsc : Bytes → ℕ → Outcome StscEntry
unfolding read_u32
read_stsc d off = do
  first ← read_u32 d off
  samples ← read_u32 d (off + 4)
  index ← read_u32 d (off + 8)
  ok (record { first_chunk = first; samples_per_chunk = samples; sample_description_index = index })

unfoldable pub parse_stsc : Bytes → Atom → Outcome (List StscEntry)
unfolding parse_table read_stsc
parse_stsc buffer stbl =
    parse_table 12 read_stsc (codes "stsc") buffer stbl >>= λ found. ok (unwrap_or found [])

-- One size for all samples, of which there are at most ten million, or one for each
unfoldable pub parse_sizes : Bytes → ℕ → Outcome (List ℕ)
unfolding read_u32 read_entries
parse_sizes d start =
    if ltb (length d) 12
    then fails (truncated start)
    else (read_u32 d 4 >>= λ size. read_u32 d 8 >>= λ count.
        if size == 0
        then read_entries 4 read_u32 start d (min count ((length d - 12) / 4)) 12
        else ok (replicate (min count 10_000_000) size))

unfoldable pub parse_stsz : Bytes → Atom → Outcome (List ℕ)
unfolding find_atom slice parse_sizes
parse_stsz buffer stbl = find_atom buffer stbl.data_start stbl.data_end (codes "stsz") >>= λ found.
    elim found [
      | none ↦ ok []
      | some atom ↦ (do
        d ← slice buffer atom.data_start atom.data_end
        parse_sizes d atom.data_start)
    ]

-- The 64-bit offsets, or else the 32-bit ones
unfoldable pub parse_stco : Bytes → Atom → Outcome (List ℕ)
unfolding parse_table read_u64 read_u32
parse_stco buffer stbl = parse_table 8 read_u64 (codes "co64") buffer stbl >>= λ long. elim long [
  | some offsets ↦ ok offsets
  | none ↦ parse_table 4 read_u32 (codes "stco") buffer stbl >>= λ short. ok (unwrap_or short [])
]

unfoldable pub parse_stss : Bytes → Atom → Outcome (Option (List ℕ))
unfolding parse_table read_u32
parse_stss buffer stbl = parse_table 4 read_u32 (codes "stss") buffer stbl

unfoldable pub read_ctts : Bytes → ℕ → Outcome CttsEntry
unfolding read_u32 as_i32
read_ctts d off = do
  count ← read_u32 d off
  offset ← read_u32 d (off + 4)
  ok (record { sample_count = count; sample_offset = as_i32 offset })

unfoldable pub parse_ctts : Bytes → Atom → Outcome (Option (List CttsEntry))
unfolding parse_table read_ctts
parse_ctts buffer stbl = parse_table 8 read_ctts (codes "ctts") buffer stbl
