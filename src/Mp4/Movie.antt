-- ===== src/Mp4/Movie.antt =====
-- A track and the movie: `parse_trak` and `parse_mp4` of mp4_parse.rs. Division of floating-point
-- numbers is a parameter.
use nozdormu.Prelude.{
  ℕ, zero, suc, Option, none, some, List, [], ◌∷◌, ltb, ◌==◌, if◌then◌else◌, length,
}
use nozdormu.Prelude.Text.{Text, codes, text_eq}
use nozdormu.Mp4.{
  Bytes, moov_not_found, no_tracks, invalid_atom, Outcome, ok, fails, diverges, ◌>>=◌, TrackType,
  video, audio, other, TrackInfo, SampleTable,
}
use nozdormu.Mp4.Atoms.{AtomIter, Atom, new, next, rounds, find_atom}
use nozdormu.Mp4.Entries.{parse_stts, parse_stsc, parse_stsz, parse_stco, parse_stss, parse_ctts}
use nozdormu.Mp4.Tracks.{
  require_atom, parse_mdhd, parse_mvhd, parse_tkhd, parse_hdlr, parse_stsd_raw, parse_stsd_codec,
  parse_audio_info,
}

-- `match find_atom(..)? { Some(a) => .., None => return Ok(None) }`
unfoldable pub or_none :
    {A : Type 0} → Bytes → Atom → Text → (Atom → Outcome (Option A)) → Outcome (Option A)
unfolding find_atom
or_none buffer parent kind body =
    find_atom buffer parent.data_start parent.data_end kind >>= λ found. elim found [
      | none ↦ ok none
      | some atom ↦ body atom
    ]

unfoldable pub parse_sample_table : Bytes → Atom → Outcome SampleTable
unfolding parse_stts parse_stsc parse_stsz parse_stco parse_stss parse_ctts
parse_sample_table buffer stbl = do
  stts ← parse_stts buffer stbl
  stsc ← parse_stsc buffer stbl
  stsz ← parse_stsz buffer stbl
  stco ← parse_stco buffer stbl
  stss ← parse_stss buffer stbl
  ctts ← parse_ctts buffer stbl
  ok (record { stts = stts; stsc = stsc; stsz = stsz; stco = stco; stss = stss; ctts = ctts })

-- Only an audio track has a sample rate and channels.
unfoldable pub audio_info : Bytes → Atom → TrackType → Outcome (Option ℕ × Option ℕ)
unfolding parse_audio_info
audio_info buffer stbl audio = parse_audio_info buffer stbl
audio_info buffer stbl video = ok (none, none)
audio_info buffer stbl other = ok (none, none)

abbrev pub some_positive : ℕ → Option ℕ
some_positive n = if ltb 0 n then some n else none

-- What the sample table box gives, after the header, the times and the type of the track
unfoldable pub parse_stbl :
    Bytes → Atom → ℕ × ℕ × ℕ → ℕ × ℕ → TrackType → Outcome (Option TrackInfo)
unfolding parse_stsd_raw parse_stsd_codec parse_sample_table audio_info
parse_stbl buffer stbl (track_id, width, height) (timescale, duration) track_type = do
  stsd_data ← parse_stsd_raw buffer stbl
  codec ← parse_stsd_codec buffer stbl
  sample_table ← parse_sample_table buffer stbl
  info ← audio_info buffer stbl track_type
  ok (
      some (record {
        track_id = track_id;
        track_type = track_type;
        codec = codec;
        timescale = timescale;
        duration = duration;
        sample_table = sample_table;
        width = some_positive width;
        height = some_positive height;
        sample_rate = info.0;
        channels = info.1;
        stsd_data = stsd_data;
      }))

-- What the media box gives
unfoldable pub parse_mdia : Bytes → Atom → ℕ × ℕ × ℕ → Outcome (Option TrackInfo)
unfolding require_atom parse_mdhd parse_hdlr or_none parse_stbl
parse_mdia buffer mdia head = do
  mdhd ← require_atom buffer mdia (codes "mdhd") (invalid_atom (codes "missing mdhd"))
  times ← parse_mdhd buffer mdhd
  hdlr ← require_atom buffer mdia (codes "hdlr") (invalid_atom (codes "missing hdlr"))
  track_type ← parse_hdlr buffer hdlr
  or_none buffer mdia (codes "minf") (λ minf.
      or_none buffer minf (codes "stbl") (λ stbl. parse_stbl buffer stbl head times track_type))

unfoldable pub parse_trak : Bytes → Atom → Outcome (Option TrackInfo)
unfolding require_atom parse_tkhd or_none parse_mdia
parse_trak buffer trak = do
  tkhd ← require_atom buffer trak (codes "tkhd") (invalid_atom (codes "missing tkhd"))
  head ← parse_tkhd buffer tkhd
  or_none buffer trak (codes "mdia") (λ mdia. parse_mdia buffer mdia head)

-- `tracks.push(track)`, for a track that there is
abbrev pub prepend : Option TrackInfo → List TrackInfo → List TrackInfo
prepend none tracks = tracks
prepend (some track) tracks = track ∷ tracks

unfoldable pub track_of : Bytes → Atom → Outcome (Option TrackInfo)
unfolding parse_trak
track_of buffer atom =
    if text_eq atom.fourcc (codes "trak") then parse_trak buffer atom else ok none

-- The loop over the atoms of the movie, with a bound on its rounds
unfoldable pub parse_tracks : ℕ → Bytes → AtomIter → Outcome (List TrackInfo)
unfolding next track_of
parse_tracks zero buffer it = diverges
parse_tracks (suc fuel) buffer it = elim (next buffer it) [
  | none ↦ ok []
  | some item ↦ item >>= λ r. track_of buffer r.0 >>= λ track.
      parse_tracks fuel buffer r.1 >>= λ tracks. ok (prepend track tracks)
]

module _ (F : Type 0) (zero_secs : F) (divide : ℕ → ℕ → F) where
  pub record Mp4Metadata : Type 0 where
    pub duration_secs : F
    pub timescale : ℕ
    pub tracks : List TrackInfo

  unfoldable pub metadata_of : ℕ × ℕ → List TrackInfo → Outcome Mp4Metadata
  metadata_of head tracks =
      if length tracks == 0
      then fails no_tracks
      else ok (record {
        duration_secs = if ltb 0 head.0 then divide head.1 head.0 else zero_secs;
        timescale = head.0;
        tracks = tracks;
      })

  unfoldable pub parse_mp4 : Bytes → Outcome Mp4Metadata
  unfolding find_atom parse_mvhd parse_tracks new rounds metadata_of
  parse_mp4 buffer = find_atom buffer 0 (length buffer) (codes "moov") >>= λ found. elim found [
    | none ↦ fails moov_not_found
    | some moov ↦ parse_mvhd buffer moov >>= λ head.
        parse_tracks (rounds buffer) buffer (new buffer moov.data_start moov.data_end) >>= λ tracks.
        metadata_of head tracks
  ]
