-- ===== src/Ingest/Tests.antt =====
-- Runs of a live stream, and its theorems at inputs that meet their hypotheses. Durations and bytes
-- are numbers here.
use nozdormu.Prelude.{
  ℕ, ◌+◌, ◌<◌, ◌≡◌, ◌↔◌, ◌⊎◌, refl, true, false, none, some, List, [], ◌∷◌, length, arith,
}
use nozdormu.Prelude.Text.{codes}
use nozdormu.Ingest.{LivePart, LiveSegment, LiveStream, is_available, has_part, senders}
use nozdormu.Ingest.Ring.{push_all, push_parts, IsRing, push_all-IsRing}
use nozdormu.Ingest.Available.{is_available_iff}
use nozdormu.Prelude.Text.{Text}
use nozdormu.Prelude.Map.{lookup, insert}
use nozdormu.Ingest.Store.{LiveStreamStore, create_stream, get_stream}
use nozdormu.Ingest.Waiting.{
  Action, segment, part, wait, end, act_all, IsQuiet, count, calls, act_all-IsQuiet,
}

abbrev seg : ℕ → LiveSegment ℕ ℕ
seg n = record { sequence = n; duration = 6; payload = 0; parts = []; independent = true }

abbrev piece : LivePart ℕ ℕ
piece = record { index = 0; duration = 1; payload = 0; independent = true }

abbrev stream : LiveStream ℕ ℕ
stream = record {
  app = codes "live";
  stream_name = codes "a";
  started_at = 0;
  last_frame_at = 0;
  init_segment = none;
  segments = [];
  media_sequence = 0;
  next_sequence = 0;
  current_parts = [];
  current_part_sequence = 0;
  current_segment_duration = 0;
  segment_duration = 6;
  part_duration = 1;
  ll_hls_enabled = true;
  max_segments = 2;
  ended = false;
  video_width = 0;
  video_height = 0;
  audio_sample_rate = 0;
  audio_channels = 0;
  waiters = [];
}

abbrev three : List (LiveSegment ℕ ℕ)
three = seg 0 ∷ seg 1 ∷ seg 2 ∷ []

ring_run :
    ((push_all 0 three stream).segments ≡ seg 1 ∷ seg 2 ∷ [])
    × ((push_all 0 three stream).media_sequence ≡ 1)
unfolding push_all
ring_run = (refl, refl)

abbrev script : List (Action ℕ ℕ)
script = wait 0 none 7 ∷ wait 1 none 8 ∷ part piece ∷ segment (seg 0) ∷ wait 0 none 9 ∷ end ∷ []

woken : (act_all 0 script stream).1 ≡ 7 ∷ 9 ∷ 8 ∷ []
unfolding act_all
woken = refl

abbrev asked : ℕ
asked = 3

push_all-IsRing_example : IsRing 2 three (push_all 0 three stream)
push_all-IsRing_example =
    push_all-IsRing 0 2 three stream (ground arith) (refl, refl, refl, refl, refl)

is_available_iff_example :
    (is_available (push_parts (piece ∷ []) (push_all 0 three stream)) asked (some 0) ≡ true)
    ↔ ((asked < length three) ⊎ ((asked ≡ length three) × (has_part (piece ∷ []) (some 0) ≡ true)))
is_available_iff_example =
    is_available_iff 0 2 three (piece ∷ []) stream asked (some 0) (ground arith) (ground arith)
      (refl, refl, refl, refl, refl) refl (refl, (refl, (refl, tt)))

act_all-IsQuiet_example :
    IsQuiet (act_all 0 script stream).0
    × ((tx : ℕ)
        → count tx (senders (act_all 0 script stream).0.waiters)
            + count tx (act_all 0 script stream).1
          ≡ count tx (senders stream.waiters) + calls tx script)
act_all-IsQuiet_example = act_all-IsQuiet 0 script stream tt

abbrev store : LiveStreamStore ℕ ℕ
store = record {
  streams = (codes "live/a", 0) ∷ (codes "live/b", 1) ∷ [];
  heap = record stream { ended = true } ∷ stream ∷ [];
  max_segments = 2;
  max_streams = 3;
}

abbrev fresh : LiveStreamStore ℕ ℕ
fresh = (create_stream (codes "live") (codes "c") 6 1 true 0 0 store).1

found : get_stream (codes "live") (codes "c") fresh ≡ some 2
unfolding get_stream create_stream insert lookup
found = refl
