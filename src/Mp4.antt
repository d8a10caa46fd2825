-- ===== src/Mp4.antt =====
-- The parser of MP4 metadata: cdn-streaming/src/packaging/mp4_parse.rs. Here its data and the reads
-- of big-endian numbers; the children have the iterator over atoms, the tables, the tracks and the
-- arithmetic of samples. A buffer is the list of its bytes.
mod Atoms
mod Entries
mod Tracks
mod Movie
mod Samples
mod Layout
mod Boxes
mod Reach
mod Safety
mod Tables
mod Headers
mod Malformed
mod Total
mod Timing
mod Chunks
mod Tests
use nozdormu.Prelude.{
  ℕ, ◌+◌, ◌-◌, ◌*◌, ◌^◌, Bool, Option, List, [], ◌∷◌, ltb, leb, if◌then◌else◌, length, take, drop,
}
use nozdormu.Prelude.Text.{Text}

abbrev pub Bytes : Type 0
Bytes = List ℕ

-- The numbers of `u32` and of `usize`
abbrev pub u32_mod : ℕ
u32_mod = 2 ^ 32

abbrev pub u64_mod : ℕ
u64_mod = 2 ^ 64

pub data Mp4Error : Type 0 where
  moov_not_found no_tracks : Mp4Error
  truncated : ℕ → Mp4Error
  invalid_atom unsupported : Text → Mp4Error

-- What a call comes to: a value, an error, a panic, or a loop that never ends.
pub data Outcome {ℓ} (A : Type ℓ) : Type ℓ where
  ok : A → Outcome A
  fails : Mp4Error → Outcome A
  panics diverges : Outcome A

infixl 5 ◌>>=◌
abbrev pub ◌>>=◌ {ℓ κ} : {A : Type ℓ} {B : Type κ} → Outcome A → (A → Outcome B) → Outcome B
ok a >>= f = f a
fails e >>= f = fails e
panics >>= f = panics
diverges >>= f = diverges

-- An `i32` by its value
pub data ℤ : Type 0 where
  pos : ℕ → ℤ
  negsuc : ℕ → ℤ

-- `n as i32`
unfoldable pub as_i32 : ℕ → ℤ
as_i32 n = if ltb n (2 ^ 31) then pos n else negsuc (u32_mod - 1 - n)

pub data TrackType : Type 0 where
  video audio other : TrackType

pub record SttsEntry : Type 0 where
  pub sample_count : ℕ
  pub sample_delta : ℕ

pub record StscEntry : Type 0 where
  pub first_chunk : ℕ
  pub samples_per_chunk : ℕ
  pub sample_description_index : ℕ

pub record CttsEntry : Type 0 where
  pub sample_count : ℕ
  pub sample_offset : ℤ

pub record SampleTable : Type 0 where
  pub stts : List SttsEntry
  pub stsc : List StscEntry
  pub stsz : List ℕ
  pub stco : List ℕ
  pub stss : Option (List ℕ)
  pub ctts : Option (List CttsEntry)

pub record TrackInfo : Type 0 where
  pub track_id : ℕ
  pub track_type : TrackType
  pub codec : Text
  pub timescale : ℕ
  pub duration : ℕ
  pub sample_table : SampleTable
  pub width : Option ℕ
  pub height : Option ℕ
  pub sample_rate : Option ℕ
  pub channels : Option ℕ
  pub stsd_data : Bytes

-- `from_be_bytes`, after the number that the bytes before make
abbrev pub from_be : ℕ → Bytes → ℕ
from_be n [] = n
from_be n (b ∷ bs) = from_be (256 * n + b) bs

-- The bytes at an offset, checked against the length; an offset and a width are far below the
-- largest `usize`, as a slice is at most half of the address space.
unfoldable pub read_bytes : ℕ → Bytes → ℕ → Outcome Bytes
read_bytes width buffer offset =
    if ltb (length buffer) (offset + width)
    then fails (truncated offset)
    else ok (take width (drop offset buffer))

unfoldable pub read_u16 : Bytes → ℕ → Outcome ℕ
unfolding read_bytes
read_u16 buffer offset = read_bytes 2 buffer offset >>= λ bs. ok (from_be 0 bs)

unfoldable pub read_u32 : Bytes → ℕ → Outcome ℕ
unfolding read_bytes
read_u32 buffer offset = read_bytes 4 buffer offset >>= λ bs. ok (from_be 0 bs)

unfoldable pub read_u64 : Bytes → ℕ → Outcome ℕ
unfolding read_bytes
read_u64 buffer offset = read_bytes 8 buffer offset >>= λ bs. ok (from_be 0 bs)

unfoldable pub read_fourcc : Bytes → ℕ → Outcome Bytes
unfolding read_bytes
read_fourcc buffer offset = read_bytes 4 buffer offset

-- `&data[start..end]`
unfoldable pub slice : Bytes → ℕ → ℕ → Outcome Bytes
slice buffer start end =
    if leb start end
    then if leb end (length buffer) then ok (take (end - start) (drop start buffer)) else panics
    else panics
