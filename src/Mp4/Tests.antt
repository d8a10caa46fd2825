-- ===== src/Mp4/Tests.antt =====
-- The theorems on mp4_parse.rs at concrete inputs.
use nozdormu.Prelude.{
  ℕ, ◌+◌, ◌≤◌, ◌<◌, ◌≡◌, ◌≢◌, refl, sym, ap, ◌∙◌, true, false, none, some, List, [], ◌∷◌, ◌++◌,
  length, replicate, arith, inl, inr, ◌⊎◌,
}
use nozdormu.Prelude.Text.{codes, text_eq_iff}
use nozdormu.Mp4.{Bytes, ok, panics, diverges, SttsEntry, StscEntry, SampleTable}
use nozdormu.Mp4.Atoms.{AtomIter, Atom, new, next, find_atom}
use nozdormu.Mp4.Movie.{Mp4Metadata, parse_mp4}
use nozdormu.Mp4.Samples.{
  sample_to_dts, dts_to_sample, sample_to_chunk, first_sample_of_chunk, get_sample_offset,
}
use nozdormu.Mp4.Boxes.{Box, print_box, print_boxes, Finds, find_atom-boxes}
use nozdormu.Mp4.Reach.{Returns, is_container, Reaches, HasRoom}
use nozdormu.Mp4.Total.{parse_mp4-total}
use nozdormu.Mp4.Timing.{dts_to_sample-last}
use nozdormu.Mp4.Chunks.{chunk_size, sample_to_chunk-first_sample_of_chunk, get_sample_offset-last}
use nozdormu.Mp4.Malformed.{zero_sized, short_header, parse_mp4-zero_sized, parse_mp4-short_header}

abbrev mdhd_box : Box
mdhd_box = record { kind = codes "mdhd"; body = 1 ∷ 2 ∷ [] }

abbrev hdlr_box : Box
hdlr_box = record { kind = codes "hdlr"; body = 3 ∷ [] }

abbrev two_boxes : List Box
two_boxes = mdhd_box ∷ hdlr_box ∷ []

find_atom-boxes_example :
    Finds
      ((7 ∷ 7 ∷ []) ++ (print_boxes two_boxes ++ (9 ∷ [])))
      (find_atom ((7 ∷ 7 ∷ []) ++ (print_boxes two_boxes ++ (9 ∷ []))) 2 (2 + 19) (codes "hdlr"))
      (some hdlr_box)
find_atom-boxes_example =
    find_atom-boxes (7 ∷ 7 ∷ []) (9 ∷ []) (codes "hdlr") two_boxes
      ((refl, omega arith), ((refl, omega arith), tt)) (omega arith)

abbrev movie : Bytes
movie = print_box (record {
  kind = codes "moov";
  body = print_box (record { kind = codes "mvhd"; body = replicate 20 0 });
})

abbrev at_start : AtomIter
at_start = record { offset = 0; end = 36 }

abbrev at_body : AtomIter
at_body = record { offset = 8; end = 36 }

abbrev at_end : AtomIter
at_end = record { offset = 36; end = 36 }

-- The places of the movie, and what stands there
abbrev Place : AtomIter → Type 0
Place it = (it ≡ at_start) ⊎ (it ≡ at_body) ⊎ (it ≡ at_end)

abbrev moov_atom : Atom
moov_atom = record { fourcc = codes "moov"; header_size = 8; data_start = 8; data_end = 36 }

abbrev mvhd_atom : Atom
mvhd_atom = record { fourcc = codes "mvhd"; header_size = 8; data_start = 16; data_end = 36 }

next-start : next movie at_start ≡ some (ok (moov_atom, at_end))
unfolding next
next-start = refl

next-body : next movie at_body ≡ some (ok (mvhd_atom, at_end))
unfolding next
next-body = refl

next-end : next movie at_end ≡ none
unfolding next
next-end = refl

-- What `next` gives at a place is the atom there, or nothing.
step_at :
    (it : AtomIter) (r : Atom × AtomIter)
    → Place it
    → next movie it ≡ some (ok r)
    → (r ≡ (moov_atom, at_end)) ⊎ (r ≡ (mvhd_atom, at_end))
step_at it r (inl e) n =
    let same : some (ok r) ≡ some (ok (moov_atom, at_end)) =
      sym n ∙ ap (next movie) e ∙ next-start in
    inl (cc same)
step_at it r (inr (inl e)) n =
    let same : some (ok r) ≡ some (ok (mvhd_atom, at_end)) =
      sym n ∙ ap (next movie) e ∙ next-body in
    inr (cc same)
step_at it r (inr (inr e)) n =
    let same : some (ok r) ≡ none = sym n ∙ ap (next movie) e ∙ next-end in cc same

later-Place :
    (r : Atom × AtomIter) → (r ≡ (moov_atom, at_end)) ⊎ (r ≡ (mvhd_atom, at_end)) → Place r.1
later-Place r (inl e) = inr (inr (ap (λ p. p.1) e))
later-Place r (inr e) = inr (inr (ap (λ p. p.1) e))

inside-Place :
    (r : Atom × AtomIter)
    → (r ≡ (moov_atom, at_end)) ⊎ (r ≡ (mvhd_atom, at_end))
    → is_container r.0.fourcc ≡ true
    → Place (new movie r.0.data_start r.0.data_end)
unfolding new is_container
inside-Place r (inl e) c = inr (inl (ap (λ p. new movie p.0.data_start p.0.data_end) e))
inside-Place r (inr e) c =
    let not_one : true ≡ false = sym c ∙ ap (λ p. is_container p.0.fourcc) e in cc not_one

Reaches-Place : (it : AtomIter) → Reaches movie it → Place it
unfolding new
Reaches-Place it Reaches.whole = inl refl
Reaches-Place it (Reaches.later {it = before} {r = r} reaches e) =
    later-Place r (step_at before r (Reaches-Place before reaches) e)
Reaches-Place it (Reaches.inside {it = before} {r = r} reaches e c) =
    inside-Place r (step_at before r (Reaches-Place before reaches) e) c

movie-HasRoom : HasRoom movie
movie-HasRoom it r reaches e = elim (step_at it r (Reaches-Place it reaches) e) [
  | inl same ↦ rw same (omega arith)
  | inr same ↦ rw same (omega arith)
]

parse_mp4-total_example :
    Returns
      (λ (found : Mp4Metadata ℕ 0 (λ a b. a)). 0 < length found.tracks)
      (parse_mp4 ℕ 0 (λ a b. a) movie)
parse_mp4-total_example = parse_mp4-total ℕ 0 (λ a b. a) movie movie-HasRoom

not_moov : codes "free" ≢ codes "moov"
not_moov e = let same : false ≡ true = (text_eq_iff (codes "free") (codes "moov")).1 e in cc same

parse_mp4-zero_sized_example :
    parse_mp4 ℕ 0 (λ a b. a) (zero_sized (codes "free") (5 ∷ [])) ≡ diverges
parse_mp4-zero_sized_example =
    parse_mp4-zero_sized (codes "free") (5 ∷ []) refl ℕ 0 (λ a b. a) not_moov

parse_mp4-short_header_example : parse_mp4 ℕ 0 (λ a b. a) (short_header 4 (5 ∷ [])) ≡ panics
parse_mp4-short_header_example =
    parse_mp4-short_header 4 (5 ∷ []) (omega arith) (omega arith) (omega arith) ℕ 0 (λ a b. a)

abbrev two_rates : List SttsEntry
two_rates =
    record { sample_count = 3; sample_delta = 100 }
    ∷ record { sample_count = 2; sample_delta = 50 }
    ∷ []

dts_to_sample-last_example :
    (dts_to_sample two_rates 320 ≤ 5)
    × (sample_to_dts two_rates (dts_to_sample two_rates 320) ≤ 320)
    × ((s : ℕ) → dts_to_sample two_rates 320 < s → s ≤ 5 → 320 < sample_to_dts two_rates s)
dts_to_sample-last_example =
    dts_to_sample-last two_rates 320 (omega arith) (omega arith) (omega arith)

abbrev runs : List StscEntry
runs =
    record { first_chunk = 1; samples_per_chunk = 10; sample_description_index = 1 }
    ∷ record { first_chunk = 5; samples_per_chunk = 3; sample_description_index = 1 }
    ∷ []

sample_to_chunk-first_sample_of_chunk_example :
    (chunk : ℕ) × (place : ℕ) × (first : ℕ) × (sample_to_chunk runs 25 ≡ some (chunk, place))
    × (first_sample_of_chunk runs chunk ≡ some first)
    × (first + place ≡ 25)
    × (place < chunk_size runs (chunk + 1))
sample_to_chunk-first_sample_of_chunk_example = sample_to_chunk-first_sample_of_chunk runs 25 (
  (omega arith, omega arith, omega arith),
  omega arith,
  omega arith,
  inl (omega arith, omega arith),
)

abbrev table : SampleTable
table = record {
  stts = two_rates;
  stsc = runs;
  stsz = replicate 43 100;
  stco = 1000 ∷ 2000 ∷ 3000 ∷ 4000 ∷ 5000 ∷ [];
  stss = none;
  ctts = none;
}

get_sample_offset-last_example : get_sample_offset table 41 ≡ none
get_sample_offset-last_example =
    get_sample_offset-last table
      (record { first_chunk = 1; samples_per_chunk = 10; sample_description_index = 1 } ∷ [])
      (record { first_chunk = 5; samples_per_chunk = 3; sample_description_index = 1 }) 41 refl
      (omega arith) (omega arith) (omega arith) (omega arith) (omega arith)

-- A sample before the last run is found.
get_sample_offset_runs : get_sample_offset table 25 ≡ some (3500, 100)
unfolding get_sample_offset
get_sample_offset_runs = refl
