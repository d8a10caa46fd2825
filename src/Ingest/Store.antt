-- ===== src/Ingest/Store.antt =====
-- The store of live streams: store.rs, `LiveStreamStore`. An `Arc` is a handle, the index of its
-- stream in `heap`, so that a task may go on writing to a stream that was removed. Times are in
-- nanoseconds. A call is one step; in `create_stream` another task may act between the test of the
-- limit and the insertion, which this model leaves out.
use nozdormu.Prelude.{
  ℕ, ◌+◌, ◌-◌, ◌/◌, ◌^◌, max, min, Bool, true, false, ◌&&◌, ◌||◌, Option, none, some, List, [], ◌∷◌,
  ◌++◌, ltb, leb, if◌then◌else◌, length, get_elem?, is_some,
}
use nozdormu.Prelude.Text.{Text}
use nozdormu.Prelude.Map.{lookup, insert, remove}
use nozdormu.Ingest.{LiveStream}

pub record LiveStreamStore (F B : Type 0) : Type 0 where
  pub streams : List (Text × ℕ)
  pub heap : List (LiveStream F B)
  pub max_segments : ℕ
  pub max_streams : ℕ

-- The answer of `create_stream`: the handle, or `IngestError::MaxStreams` or `AlreadyExists`
pub data Created : Type 0 where
  created : ℕ → Created
  too_many_streams : ℕ → Created
  already_exists : Text → Created

unfoldable pub stream_key : Text → Text → Text
stream_key app stream_name = app ++ (b'/' ∷ stream_name)

-- The last loop, with the count
unfoldable pub remove_keys : List Text → List (Text × ℕ) → ℕ × List (Text × ℕ)
remove_keys [] m = (0, m)
remove_keys (key ∷ keys) m =
    let (removed, rest) = remove_keys keys (remove key m) in
    (if is_some (lookup key m) then removed + 1 else removed, rest)

module _ {F B : Type 0} where
  unfoldable pub new_stream : Text → Text → F → F → Bool → ℕ → F → ℕ → LiveStream F B
  new_stream app stream_name segment_duration part_duration ll_hls_enabled now zero_duration
        max_segments =
      record {
        app = app;
        stream_name = stream_name;
        started_at = now;
        last_frame_at = now;
        init_segment = none;
        segments = [];
        media_sequence = 0;
        next_sequence = 0;
        current_parts = [];
        current_part_sequence = 0;
        current_segment_duration = zero_duration;
        segment_duration = segment_duration;
        part_duration = part_duration;
        ll_hls_enabled = ll_hls_enabled;
        max_segments = max_segments;
        ended = false;
        video_width = 0;
        video_height = 0;
        audio_sample_rate = 0;
        audio_channels = 0;
        waiters = [];
      }

  -- The body of `create_stream`, for the stream that it builds
  unfoldable pub create :
      Text → LiveStream F B → LiveStreamStore F B → Created × LiveStreamStore F B
  create key stream s =
      if leb s.max_streams (length s.streams)
      then (too_many_streams s.max_streams, s)
      else if is_some (lookup key s.streams)
      then (already_exists key, s)
      else (
        created (length s.heap),
        record s { streams = insert key (length s.heap) s.streams; heap = s.heap ++ (stream ∷ []) },
      )

  unfoldable pub create_stream :
      Text → Text → F → F → Bool → ℕ → F → LiveStreamStore F B → Created × LiveStreamStore F B
  unfolding create new_stream stream_key
  create_stream app stream_name segment_duration part_duration ll_hls_enabled now zero_duration s =
      create (stream_key app stream_name)
        (new_stream app stream_name segment_duration part_duration ll_hls_enabled now zero_duration
          s.max_segments)
        s

  unfoldable pub remove_stream : Text → Text → LiveStreamStore F B → Bool × LiveStreamStore F B
  unfolding stream_key
  remove_stream app stream_name s =
      if is_some (lookup (stream_key app stream_name) s.streams)
      then (true, record s { streams = remove (stream_key app stream_name) s.streams })
      else (false, s)

  unfoldable pub get_stream : Text → Text → LiveStreamStore F B → Option ℕ
  unfolding stream_key
  get_stream app stream_name s = lookup (stream_key app stream_name) s.streams

  abbrev pub stream_count : LiveStreamStore F B → ℕ
  stream_count s = length s.streams

  -- No frame for longer than the timeout, or ended
  unfoldable pub is_stale : ℕ → ℕ → LiveStream F B → Bool
  is_stale now timeout_secs stream =
      let elapsed = (max now stream.last_frame_at - min now stream.last_frame_at) / 10 ^ 9 in
      ltb timeout_secs elapsed || stream.ended

  module _ (now timeout_secs : ℕ) (try_read : ℕ → Bool) where
    -- The entry is looked at only where its lock is free.
    unfoldable pub is_removable : List (LiveStream F B) → ℕ → Bool
    unfolding is_stale
    is_removable heap handle = elim (get_elem? heap handle) [
      | none ↦ false
      | some stream ↦ try_read handle && is_stale now timeout_secs stream
    ]

    -- The first two loops: the keys to remove
    unfoldable pub stale_keys : List (LiveStream F B) → List (Text × ℕ) → List Text
    stale_keys heap [] = []
    stale_keys heap ((key, handle) ∷ rest) =
        let keys = stale_keys heap rest in if is_removable heap handle then key ∷ keys else keys

    unfoldable pub remove_stale_streams : LiveStreamStore F B → ℕ × LiveStreamStore F B
    unfolding stale_keys remove_keys
    remove_stale_streams s =
        let (removed, left) = remove_keys (stale_keys s.heap s.streams) s.streams in
        (removed, record s { streams = left })
