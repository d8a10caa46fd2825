-- ===== src/Mp4/Tables.antt =====
-- The tables of a track on a buffer whose atoms have room for their headers (mp4_parse.rs): they are
-- read without a panic.
use nozdormu.Prelude.{ℕ, zero, suc, ◌+◌, Option, none, some, List, [], ltb, length, unwrap_or}
use nozdormu.Prelude.Text.{codes}
use nozdormu.Mp4.{Bytes, truncated, Outcome, ok, ◌>>=◌, read_u32, read_u64}
use nozdormu.Mp4.Atoms.{Atom, new}
use nozdormu.Mp4.Entries.{
  read_entries, parse_entries, parse_table, read_stts, read_stsc, read_ctts, parse_stts, parse_stsc,
  parse_sizes, parse_stsz, parse_stco, parse_stss, parse_ctts,
}
use nozdormu.Mp4.Movie.{parse_sample_table}
use nozdormu.Mp4.Reach.{
  Returns, Anything, Returns-if, >>=-Ends, reads_rules, read_u32-Returns, read_u64-Returns, Reaches,
  HasRoom,
}
use nozdormu.Mp4.Safety.{>>=-find_atom, slice-Returns}

module _ {A : Type 0} (read : Bytes → ℕ → Outcome A)
    (reads : (d : Bytes) (off : ℕ) → Returns Anything (read d off)) where
  read_entries-Returns :
      (width start : ℕ) (d : Bytes) (n off : ℕ)
      → Returns Anything (read_entries width read start d n off)
  unfolding read_entries
  read_entries-Returns width start d zero off = Returns.returned tt
  read_entries-Returns width start d (suc n) off =
      Returns-if _ (ltb (length d) (off + width)) _ _
        (λ t. Returns.failed {e = truncated (start + off)})
        (λ f. >>=-Ends _ _ _ (reads d off) (λ entry.
          >>=-Ends _ _ _ (read_entries-Returns width start d n (off + width))
            (λ rest. Returns.returned tt)))

  parse_entries-Returns :
      (width : ℕ) (d : Bytes) (start : ℕ) → Returns Anything (parse_entries width read d start)
  unfolding parse_entries
  parse_entries-Returns width d start = search (reads_rules, read_entries-Returns)

  parse_table-Returns :
      (width : ℕ) (kind buffer : Bytes) (room : HasRoom buffer) (stbl : Atom)
      → Reaches buffer (new buffer stbl.data_start stbl.data_end)
      → Returns Anything (parse_table width read kind buffer stbl)
  unfolding parse_table
  parse_table-Returns width kind buffer room stbl reaches =
      >>=-find_atom buffer room Anything kind stbl.data_start stbl.data_end _ reaches
        (Returns.returned tt)
        (λ atom o. >>=-Ends _ _ _ (slice-Returns buffer room kind atom o) (λ d.
          >>=-Ends _ _ _ (parse_entries-Returns width d atom.data_start)
            (λ entries. Returns.returned tt)))

read_stts-Returns : (d : Bytes) (off : ℕ) → Returns Anything (read_stts d off)
unfolding read_stts
read_stts-Returns d off = search reads_rules

read_stsc-Returns : (d : Bytes) (off : ℕ) → Returns Anything (read_stsc d off)
unfolding read_stsc
read_stsc-Returns d off = search reads_rules

read_ctts-Returns : (d : Bytes) (off : ℕ) → Returns Anything (read_ctts d off)
unfolding read_ctts
read_ctts-Returns d off = search reads_rules

parse_sizes-Returns : (d : Bytes) (start : ℕ) → Returns Anything (parse_sizes d start)
unfolding parse_sizes
parse_sizes-Returns d start =
    search (reads_rules, read_entries-Returns read_u32 read_u32-Returns) depth 8

module _ (buffer : Bytes) (room : HasRoom buffer) (stbl : Atom)
    (reaches : Reaches buffer (new buffer stbl.data_start stbl.data_end)) where
  parse_stts-Returns : Returns Anything (parse_stts buffer stbl)
  unfolding parse_stts
  parse_stts-Returns =
      >>=-Ends _ _ _ (parse_table-Returns read_stts read_stts-Returns 8 _ buffer room stbl reaches)
        (λ found. Returns.returned tt)

  parse_stsc-Returns : Returns Anything (parse_stsc buffer stbl)
  unfolding parse_stsc
  parse_stsc-Returns =
      >>=-Ends _ _ _ (parse_table-Returns read_stsc read_stsc-Returns 12 _ buffer room stbl reaches)
        (λ found. Returns.returned tt)

  parse_stsz-Returns : Returns Anything (parse_stsz buffer stbl)
  unfolding parse_stsz
  parse_stsz-Returns =
      >>=-find_atom buffer room Anything (codes "stsz") stbl.data_start stbl.data_end _ reaches
        (Returns.returned tt)
        (λ atom o.
          >>=-Ends _ _ _ (slice-Returns buffer room _ atom o)
            (λ d. parse_sizes-Returns d atom.data_start))

  parse_stco-Returns : Returns Anything (parse_stco buffer stbl)
  unfolding parse_stco
  parse_stco-Returns =
      >>=-Ends _ _ _ (parse_table-Returns read_u64 read_u64-Returns 8 _ buffer room stbl reaches)
        answer
    where
      short : Returns Anything (parse_table 4 read_u32 (codes "stco") buffer stbl)
      short = parse_table-Returns read_u32 read_u32-Returns 4 _ buffer room stbl reaches

      answer :
          (long : Option (List ℕ))
          → Returns Anything (elim long [
            | some offsets ↦ ok offsets
            | none ↦ parse_table 4 read_u32 (codes "stco") buffer stbl >>= λ s. ok (unwrap_or s [])
          ])
      answer (some offsets) = Returns.returned tt
      answer none = >>=-Ends _ _ _ short (λ s. Returns.returned tt)

  parse_stss-Returns : Returns Anything (parse_stss buffer stbl)
  unfolding parse_stss
  parse_stss-Returns = parse_table-Returns read_u32 read_u32-Returns 4 _ buffer room stbl reaches

  parse_ctts-Returns : Returns Anything (parse_ctts buffer stbl)
  unfolding parse_ctts
  parse_ctts-Returns = parse_table-Returns read_ctts read_ctts-Returns 8 _ buffer room stbl reaches

  pub parse_sample_table-Returns : Returns Anything (parse_sample_table buffer stbl)
  unfolding parse_sample_table
  parse_sample_table-Returns =
      search
        (
          reads_rules, parse_stts-Returns, parse_stsc-Returns, parse_stsz-Returns,
          parse_stco-Returns, parse_stss-Returns, parse_ctts-Returns,
        )
        depth 10
