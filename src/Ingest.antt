-- ===== src/Ingest.antt =====
-- The live stream of the ingest server: crates/cdn-ingest/src/store.rs, `LiveStream`, and the waiting
-- of manifest/blocking.rs. The write lock makes each method one step. An f64 is a value of `F` with
-- the constant 0.0, a `Bytes` (field `payload`, for `data`) a value of `B`; the sending half of a waiter's channel is its number.

pub mod Store
pub mod Streams
pub mod Ring
pub mod Available
pub mod Waiting
mod Tests
use nozdormu.Prelude.{
  ℕ, ◌+◌, ◌%◌, Bool, true, false, ◌||◌, not, Option, none, some, List, [], ◌∷◌, ◌++◌, ltb, leb,
  ◌==◌, if◌then◌else◌, length, last?,
}
use nozdormu.Prelude.Text.{Text}
use nozdormu.Prelude.Decimal.{u64_mod}

pub record Waiter : Type 0 where
  pub target_msn : ℕ
  pub target_part : Option ℕ
  pub sender : ℕ

pub record LivePart (F B : Type 0) : Type 0 where
  pub index : ℕ
  pub duration : F
  pub payload : B
  pub independent : Bool

pub record LiveSegment (F B : Type 0) : Type 0 where
  pub sequence : ℕ
  pub duration : F
  pub payload : B
  pub parts : List (LivePart F B)
  pub independent : Bool

pub record LiveStream (F B : Type 0) : Type 0 where
  pub app : Text
  pub stream_name : Text
  pub started_at : ℕ
  pub last_frame_at : ℕ
  pub init_segment : Option B
  pub segments : List (LiveSegment F B)
  pub media_sequence : ℕ
  pub next_sequence : ℕ
  pub current_parts : List (LivePart F B)
  pub current_part_sequence : ℕ
  pub current_segment_duration : F
  pub segment_duration : F
  pub part_duration : F
  pub ll_hls_enabled : Bool
  pub max_segments : ℕ
  pub ended : Bool
  pub video_width : ℕ
  pub video_height : ℕ
  pub audio_sample_rate : ℕ
  pub audio_channels : ℕ
  pub waiters : List Waiter

abbrev pub senders : List Waiter → List ℕ
senders [] = []
senders (w ∷ ws) = w.sender ∷ senders ws

module _ {F B : Type 0} where
  -- The part of the segment in progress that is asked for is there.
  abbrev pub has_part : List (LivePart F B) → Option ℕ → Bool
  has_part parts none = not (length parts == 0)
  has_part parts (some p) = ltb p (length parts)

  -- The sequence number is that of the last segment, or before it.
  abbrev pub is_complete : Option (LiveSegment F B) → ℕ → Bool
  is_complete none target_msn = false
  is_complete (some last_seg) target_msn = leb target_msn last_seg.sequence

  unfoldable pub is_available : LiveStream F B → ℕ → Option ℕ → Bool
  is_available s target_msn target_part =
      if is_complete (last? s.segments) target_msn
      then true
      else if target_msn == s.current_part_sequence
      then has_part s.current_parts target_part
      else false

  -- The loop of `notify_waiters`: the waiters that remain, and the senders that were used
  unfoldable pub notify : LiveStream F B → List Waiter → List Waiter × List ℕ
  unfolding is_available
  notify s [] = ([], [])
  notify s (w ∷ ws) =
      let (remaining, sent) = notify s ws in
      if is_available s w.target_msn w.target_part || s.ended
      then (remaining, w.sender ∷ sent)
      else (w ∷ remaining, sent)

  unfoldable pub notify_waiters : LiveStream F B → LiveStream F B × List ℕ
  unfolding notify
  notify_waiters s =
      let (remaining, sent) = notify s s.waiters in (record s { waiters = remaining }, sent)

  unfoldable pub notify_all_waiters : LiveStream F B → LiveStream F B × List ℕ
  notify_all_waiters s = (record s { waiters = [] }, senders s.waiters)

  -- The loop that pops the oldest segments, with the media sequence
  unfoldable pub pop_oldest : ℕ → List (LiveSegment F B) → ℕ → List (LiveSegment F B) × ℕ
  pop_oldest max_segments [] media_sequence = ([], media_sequence)
  pop_oldest max_segments (seg ∷ segs) media_sequence =
      let rest = pop_oldest max_segments segs ((media_sequence + 1) % u64_mod) in
      if ltb max_segments (length (seg ∷ segs)) then rest else (seg ∷ segs, media_sequence)

  -- `push_segment` before its call of `notify_waiters`
  unfoldable pub append_segment : F → LiveSegment F B → LiveStream F B → LiveStream F B
  unfolding pop_oldest
  append_segment zero_duration segment s =
      let kept = pop_oldest s.max_segments (s.segments ++ (segment ∷ [])) s.media_sequence in
      let next = (s.next_sequence + 1) % u64_mod in
      record s {
        segments = kept.0;
        media_sequence = kept.1;
        current_parts = [];
        current_segment_duration = zero_duration;
        next_sequence = next;
        current_part_sequence = next;
      }

  unfoldable pub push_segment : F → LiveSegment F B → LiveStream F B → LiveStream F B × List ℕ
  unfolding append_segment notify_waiters
  push_segment zero_duration segment s = notify_waiters (append_segment zero_duration segment s)

  unfoldable pub push_part : LivePart F B → LiveStream F B → LiveStream F B × List ℕ
  unfolding notify_waiters
  push_part part s = notify_waiters (record s { current_parts = s.current_parts ++ (part ∷ []) })

  unfoldable pub set_init_segment : B → LiveStream F B → LiveStream F B
  set_init_segment payload s = record s { init_segment = some payload }

  unfoldable pub add_waiter : ℕ → Option ℕ → ℕ → LiveStream F B → LiveStream F B
  add_waiter target_msn target_part tx s =
      let w : Waiter = record { target_msn = target_msn; target_part = target_part; sender = tx } in
      record s { waiters = s.waiters ++ (w ∷ []) }

  -- The end of the stream, in the task that `end_stream` starts
  unfoldable pub end_stream : LiveStream F B → LiveStream F B × List ℕ
  unfolding notify_all_waiters
  end_stream s = notify_all_waiters (record s { ended = true })

  -- `wait_for_availability` under the write lock: `true` where it returns at once, else the waiter
  -- is registered
  unfoldable pub register : ℕ → Option ℕ → ℕ → LiveStream F B → Bool × LiveStream F B
  unfolding is_available add_waiter
  register target_msn target_part tx s =
      if is_available s target_msn target_part || s.ended
      then (true, s)
      else (false, add_waiter target_msn target_part tx s)
