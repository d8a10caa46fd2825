-- ===== src/Mp4/Headers.antt =====
-- A track on a buffer whose atoms have room for their headers (mp4_parse.rs).
use nozdormu.Prelude.{ℕ, refl, Option, none, some, [], ◌∷◌}
use nozdormu.Prelude.Text.{Text, codes}
use nozdormu.Mp4.{Bytes, Mp4Error, Outcome, ◌>>=◌, TrackType, video, audio, other}
use nozdormu.Mp4.Atoms.{Atom, new, find_atom}
use nozdormu.Mp4.Tracks.{
  require_atom, times, parse_mdhd, parse_mvhd, track_header, parse_tkhd, parse_hdlr, parse_stsd_raw,
  parse_stsd_codec, parse_audio_info,
}
use nozdormu.Mp4.Movie.{or_none, audio_info, parse_stbl, parse_mdia, parse_trak}
use nozdormu.Mp4.Reach.{
  Returns, Anything, >>=-Returns, >>=-Ends, reads_rules, is_container, Reaches, HasRoom, IsOpen,
}
use nozdormu.Mp4.Safety.{>>=-find_atom, slice-Returns}
use nozdormu.Mp4.Tables.{parse_sample_table-Returns}

times-Returns : (d : Bytes) (start : ℕ) → Returns Anything (times d start)
unfolding times
times-Returns [] start = Returns.failed
times-Returns (version ∷ d) start = search reads_rules depth 8

track_header-Returns : (d : Bytes) (start : ℕ) → Returns Anything (track_header d start)
unfolding track_header
track_header-Returns [] start = Returns.failed
track_header-Returns (version ∷ d) start = search reads_rules depth 10

module _ (buffer : Bytes) (room : HasRoom buffer) where
  require_atom-Returns :
      (parent : Atom) (kind : Text) (error : Mp4Error)
      → Reaches buffer (new buffer parent.data_start parent.data_end)
      → Returns (IsOpen buffer kind) (require_atom buffer parent kind error)
  unfolding require_atom
  require_atom-Returns parent kind error reaches =
      >>=-find_atom buffer room _ kind _ _ _ reaches Returns.failed (λ atom o. Returns.returned o)

  -- The rule for a step that requires an atom
  >>=-require_atom :
      {B : Type 0} (parent : Atom) (kind : Text) (error : Mp4Error) (f : Atom → Outcome B)
      → Reaches buffer (new buffer parent.data_start parent.data_end)
      → ((atom : Atom) → IsOpen buffer kind atom → Returns Anything (f atom))
      → Returns Anything (require_atom buffer parent kind error >>= f)
  >>=-require_atom parent kind error f reaches h =
      >>=-Returns _ _ _ f (require_atom-Returns parent kind error reaches) (λ atom e o. h atom o)

  or_none-Returns :
      {A : Type 0} (parent : Atom) (kind : Text) (body : Atom → Outcome (Option A))
      → Reaches buffer (new buffer parent.data_start parent.data_end)
      → ((atom : Atom) → IsOpen buffer kind atom → Returns Anything (body atom))
      → Returns Anything (or_none buffer parent kind body)
  unfolding or_none
  or_none-Returns parent kind body reaches h =
      >>=-find_atom buffer room _ kind _ _ _ reaches (Returns.returned tt) h

  parse_mdhd-Returns :
      (kind : Bytes) (atom : Atom)
      → IsOpen buffer kind atom
      → Returns Anything (parse_mdhd buffer atom)
  unfolding parse_mdhd
  parse_mdhd-Returns kind atom o =
      >>=-Ends _ _ _ (slice-Returns buffer room kind atom o) (λ d. times-Returns d atom.data_start)

  parse_tkhd-Returns :
      (kind : Bytes) (atom : Atom)
      → IsOpen buffer kind atom
      → Returns Anything (parse_tkhd buffer atom)
  unfolding parse_tkhd
  parse_tkhd-Returns kind atom o =
      >>=-Ends _ _ _ (slice-Returns buffer room kind atom o)
        (λ d. track_header-Returns d atom.data_start)

  parse_hdlr-Returns :
      (kind : Bytes) (atom : Atom)
      → IsOpen buffer kind atom
      → Returns Anything (parse_hdlr buffer atom)
  unfolding parse_hdlr
  parse_hdlr-Returns kind atom o =
      >>=-Ends _ _ _ (slice-Returns buffer room kind atom o) (λ d. search reads_rules)

  pub parse_mvhd-Returns :
      (moov : Atom)
      → Reaches buffer (new buffer moov.data_start moov.data_end)
      → Returns Anything (parse_mvhd buffer moov)
  unfolding parse_mvhd
  parse_mvhd-Returns moov reaches =
      >>=-require_atom moov _ _ _ reaches (λ mvhd o. parse_mdhd-Returns _ mvhd o)

  module _ (stbl : Atom) (reaches : Reaches buffer (new buffer stbl.data_start stbl.data_end)) where
    stsd-Ends :
        {B : Type 0} (f : Option Atom → Outcome B)
        → Returns Anything (f none)
        → ((atom : Atom) → IsOpen buffer (codes "stsd") atom → Returns Anything (f (some atom)))
        → Returns Anything (find_atom buffer stbl.data_start stbl.data_end (codes "stsd") >>= f)
    stsd-Ends f h k = >>=-find_atom buffer room _ _ _ _ f reaches h k

    parse_stsd_raw-Returns : Returns Anything (parse_stsd_raw buffer stbl)
    unfolding parse_stsd_raw
    parse_stsd_raw-Returns =
        stsd-Ends _ (Returns.returned tt) (λ atom o. slice-Returns buffer room _ atom o)

    parse_stsd_codec-Returns : Returns Anything (parse_stsd_codec buffer stbl)
    unfolding parse_stsd_codec
    parse_stsd_codec-Returns =
        stsd-Ends _ (Returns.returned tt)
          (λ atom o. >>=-Ends _ _ _ (slice-Returns buffer room _ atom o) (λ d. search reads_rules))

    parse_audio_info-Returns : Returns Anything (parse_audio_info buffer stbl)
    unfolding parse_audio_info
    parse_audio_info-Returns = stsd-Ends _ (Returns.returned tt) (λ atom o.
        >>=-Ends _ _ _ (slice-Returns buffer room _ atom o) (λ d. search reads_rules depth 8))

    audio_info-Returns :
        (track_type : TrackType) → Returns Anything (audio_info buffer stbl track_type)
    unfolding audio_info
    audio_info-Returns audio = parse_audio_info-Returns
    audio_info-Returns video = Returns.returned tt
    audio_info-Returns other = Returns.returned tt

    parse_stbl-Returns :
        (head : ℕ × ℕ × ℕ) (duration : ℕ × ℕ) (track_type : TrackType)
        → Returns Anything (parse_stbl buffer stbl head duration track_type)
    unfolding parse_stbl
    parse_stbl-Returns head duration track_type =
        >>=-Ends _ _ _ parse_stsd_raw-Returns (λ stsd_data.
          >>=-Ends _ _ _ parse_stsd_codec-Returns (λ codec.
            >>=-Ends _ _ _ (parse_sample_table-Returns buffer room stbl reaches) (λ sample_table.
              >>=-Ends _ _ _ (audio_info-Returns track_type) (λ info. Returns.returned tt))))

  parse_mdia-Returns :
      (mdia : Atom) (head : ℕ × ℕ × ℕ)
      → Reaches buffer (new buffer mdia.data_start mdia.data_end)
      → Returns Anything (parse_mdia buffer mdia head)
  unfolding parse_mdia is_container
  parse_mdia-Returns mdia head reaches = >>=-require_atom mdia _ _ _ reaches (λ mdhd o.
      >>=-Ends _ _ _ (parse_mdhd-Returns (codes "mdhd") mdhd o) (λ duration.
        >>=-require_atom mdia _ _ _ reaches (λ hdlr o'.
          >>=-Ends _ _ _ (parse_hdlr-Returns (codes "hdlr") hdlr o') (λ track_type.
            or_none-Returns mdia _ _ reaches (λ minf p.
              or_none-Returns minf _ _ (p.2 refl)
                (λ stbl q. parse_stbl-Returns stbl (q.2 refl) head duration track_type))))))

  pub parse_trak-Returns :
      (trak : Atom)
      → Reaches buffer (new buffer trak.data_start trak.data_end)
      → Returns Anything (parse_trak buffer trak)
  unfolding parse_trak is_container
  parse_trak-Returns trak reaches = >>=-require_atom trak _ _ _ reaches (λ tkhd o.
      >>=-Ends _ _ _ (parse_tkhd-Returns (codes "tkhd") tkhd o) (λ head.
        or_none-Returns trak _ _ reaches (λ mdia p. parse_mdia-Returns mdia head (p.2 refl))))
