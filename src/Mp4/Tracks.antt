-- ===== src/Mp4/Tracks.antt =====
-- The boxes of a track: `parse_mvhd`, `parse_tkhd` to `parse_stsd_codec` and `parse_audio_info` of
-- mp4_parse.rs.
use nozdormu.Prelude.{
  ℕ, suc, ◌+◌, ◌-◌, ◌*◌, ◌/◌, Bool, ◌&&◌, Option, none, some, [], ◌∷◌, ◌++◌, ltb, leb, ◌==◌,
  if◌then◌else◌, length,
}
use nozdormu.Prelude.Text.{Text, codes, text_eq}
use nozdormu.Mp4.{
  Bytes, Mp4Error, truncated, invalid_atom, Outcome, ok, fails, ◌>>=◌, TrackType, video, audio,
  other, read_u16, read_u32, read_u64, read_fourcc, slice,
}
use nozdormu.Mp4.Atoms.{Atom, find_atom}

-- `find_atom(..)?.ok_or(error)?`
unfoldable pub require_atom : Bytes → Atom → Text → Mp4Error → Outcome Atom
unfolding find_atom
require_atom buffer parent kind error =
    find_atom buffer parent.data_start parent.data_end kind >>= λ found. elim found [
      | none ↦ fails error
      | some atom ↦ ok atom
    ]

-- The timescale and the duration of a header, by its version: the body of `parse_mdhd`, and that of
-- `parse_mvhd` after it has found its atom
unfoldable pub times : Bytes → ℕ → Outcome (ℕ × ℕ)
unfolding read_u32 read_u64
times [] start = fails (truncated start)
times (version ∷ d) start =
    if version == 1
    then if ltb (suc (length d)) 28
      then fails (truncated start)
      else (read_u32 (version ∷ d) 20 >>= λ timescale.
          read_u64 (version ∷ d) 24 >>= λ duration. ok (timescale, duration))
    else if ltb (suc (length d)) 20
    then fails (truncated start)
    else (read_u32 (version ∷ d) 12 >>= λ timescale.
        read_u32 (version ∷ d) 16 >>= λ duration. ok (timescale, duration))

unfoldable pub parse_mdhd : Bytes → Atom → Outcome (ℕ × ℕ)
unfolding slice times
parse_mdhd buffer mdhd = slice buffer mdhd.data_start mdhd.data_end >>= λ d. times d mdhd.data_start

unfoldable pub parse_mvhd : Bytes → Atom → Outcome (ℕ × ℕ)
unfolding require_atom parse_mdhd
parse_mvhd buffer moov =
    require_atom buffer moov (codes "mvhd") (invalid_atom (codes "missing mvhd")) >>= λ mvhd.
    parse_mdhd buffer mvhd

-- The identifier, the width and the height; the sizes are 16.16 fixed-point numbers.
unfoldable pub track_header : Bytes → ℕ → Outcome (ℕ × ℕ × ℕ)
unfolding read_u32
track_header [] start = fails (truncated start)
track_header (version ∷ d) start =
    if version == 1
    then if ltb (suc (length d)) 92
      then fails (truncated start)
      else (read_u32 (version ∷ d) 20 >>= λ track_id. read_u32 (version ∷ d) 84 >>= λ width.
          read_u32 (version ∷ d) 88 >>= λ height. ok (track_id, width / 65536, height / 65536))
    else if ltb (suc (length d)) 80
    then fails (truncated start)
    else (read_u32 (version ∷ d) 12 >>= λ track_id. read_u32 (version ∷ d) 72 >>= λ width.
        read_u32 (version ∷ d) 76 >>= λ height. ok (track_id, width / 65536, height / 65536))

unfoldable pub parse_tkhd : Bytes → Atom → Outcome (ℕ × ℕ × ℕ)
unfolding slice track_header
parse_tkhd buffer tkhd =
    slice buffer tkhd.data_start tkhd.data_end >>= λ d. track_header d tkhd.data_start

abbrev pub handler_type : Bytes → TrackType
handler_type handler =
    if text_eq handler (codes "vide")
    then video
    else if text_eq handler (codes "soun")
    then audio
    else other

unfoldable pub parse_hdlr : Bytes → Atom → Outcome TrackType
unfolding slice read_fourcc
parse_hdlr buffer hdlr = slice buffer hdlr.data_start hdlr.data_end >>= λ d.
    if ltb (length d) 12
    then fails (truncated hdlr.data_start)
    else (read_fourcc d 8 >>= λ handler. ok (handler_type handler))

unfoldable pub parse_stsd_raw : Bytes → Atom → Outcome Bytes
unfolding find_atom slice
parse_stsd_raw buffer stbl =
    find_atom buffer stbl.data_start stbl.data_end (codes "stsd") >>= λ found. elim found [
      | none ↦ ok []
      | some stsd ↦ slice buffer stsd.data_start stsd.data_end
    ]

-- A character that is being decoded: the bytes that it still needs, its value so far, and the bounds
-- of its next byte
pub record Pending : Type 0 where
  pub needed : ℕ
  pub value : ℕ
  pub low : ℕ
  pub high : ℕ

abbrev pub within : ℕ → ℕ → ℕ → Bool
within low high b = leb low b && leb b high

-- What a first byte makes: a character, the start of one, or a replacement character
unfoldable pub first_byte : ℕ → Text × Option Pending
first_byte b =
    if ltb b 0x80
    then (b ∷ [], none)
    else if within 0xc2 0xdf b
    then ([], some (record { needed = 1; value = b - 0xc0; low = 0x80; high = 0xbf }))
    else if within 0xe0 0xef b
    then (
      [],
      some (record {
        needed = 2;
        value = b - 0xe0;
        low = if b == 0xe0 then 0xa0 else 0x80;
        high = if b == 0xed then 0x9f else 0xbf;
      }),
    )
    else if within 0xf0 0xf4 b
    then (
      [],
      some (record {
        needed = 3;
        value = b - 0xf0;
        low = if b == 0xf0 then 0x90 else 0x80;
        high = if b == 0xf4 then 0x8f else 0xbf;
      }),
    )
    else (0xfffd ∷ [], none)

-- What a further byte makes; one that does not fit ends the character and is a first byte.
unfoldable pub next_byte : Option Pending → ℕ → Text × Option Pending
unfolding first_byte
next_byte none b = first_byte b
next_byte (some p) b =
    if within p.low p.high b
    then (let value = 64 * p.value + (b - 0x80) in
        if p.needed == 1
        then (value ∷ [], none)
        else ([], some (record { needed = p.needed - 1; value = value; low = 0x80; high = 0xbf })))
    else (let (made, pending) = first_byte b in (0xfffd ∷ made, pending))

-- `String::from_utf8_lossy`
unfoldable pub from_utf8_lossy : Option Pending → Bytes → Text
unfolding next_byte
from_utf8_lossy none [] = []
from_utf8_lossy (some p) [] = 0xfffd ∷ []
from_utf8_lossy state (b ∷ bs) =
    let (made, state') = next_byte state b in made ++ from_utf8_lossy state' bs

unfoldable pub fourcc_str : Bytes → Text
unfolding from_utf8_lossy
fourcc_str fourcc = from_utf8_lossy none fourcc

unfoldable pub parse_stsd_codec : Bytes → Atom → Outcome Text
unfolding find_atom slice read_fourcc fourcc_str
parse_stsd_codec buffer stbl =
    find_atom buffer stbl.data_start stbl.data_end (codes "stsd") >>= λ found. elim found [
      | none ↦ ok (codes "unknown")
      | some stsd ↦ slice buffer stsd.data_start stsd.data_end >>= λ d.
          if ltb (length d) 16
          then ok (codes "unknown")
          else (read_fourcc d 12 >>= λ codec. ok (fourcc_str codec))
    ]

-- The sample rate and the channels
unfoldable pub parse_audio_info : Bytes → Atom → Outcome (Option ℕ × Option ℕ)
unfolding find_atom slice read_u16 read_u32
parse_audio_info buffer stbl =
    find_atom buffer stbl.data_start stbl.data_end (codes "stsd") >>= λ found. elim found [
      | none ↦ ok (none, none)
      | some stsd ↦ slice buffer stsd.data_start stsd.data_end >>= λ d.
          if ltb (length d) 36
          then ok (none, none)
          else (read_u16 d 24 >>= λ channels.
              read_u32 d 32 >>= λ rate. ok (some (rate / 65536), some channels))
    ]
