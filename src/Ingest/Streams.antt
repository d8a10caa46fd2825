-- ===== src/Ingest/Streams.antt =====
-- The limit of the store and the removal of stale streams (store.rs, `LiveStreamStore`).
use nozdormu.Prelude.{
  ℕ, ◌≤◌, ◌<◌, ◌≡◌, ◌⊎◌, Bool, Option, none, some, List, if◌then◌else◌, length, get_elem?, any,
}
use nozdormu.Prelude.Text.{Text, text_eq}
use nozdormu.Prelude.Map.{lookup, IsMap}
use nozdormu.Ingest.{LiveStream}
use nozdormu.Ingest.Store.{
  LiveStreamStore, Created, created, too_many_streams, already_exists, stream_count,
}

abbrev is_among : Text → List Text → Bool
is_among k keys = any (λ j. text_eq j k) keys

-- An entry of the store stays where it is not removable.
abbrev pub keep : (ℕ → Bool) → Option ℕ → Option ℕ
keep removable none = none
keep removable (some handle) = if removable handle then none else some handle

module _ {F B : Type 0} where
  -- The entries are a map within the limit.
  abbrev pub IsWithin : LiveStreamStore F B → Type 0
  IsWithin s = IsMap s.streams × (stream_count s ≤ s.max_streams)

  -- What `create` answers, and what it leaves: the handle of the new stream, under a key that had
  -- none, or an error and the store as it was.
  abbrev pub IsCreated :
      Text → LiveStream F B → LiveStreamStore F B → Created × LiveStreamStore F B → Type 0
  IsCreated key stream s r =
      ((stream_count s < s.max_streams)
        × (lookup key s.streams ≡ none)
        × (r.0 ≡ created (length s.heap))
        × (get_elem? r.1.heap (length s.heap) ≡ some stream)
        × ((k : Text)
            → lookup k r.1.streams
              ≡ (if text_eq key k then some (length s.heap) else lookup k s.streams)))
      ⊎ (((s.max_streams ≤ stream_count s) × (r ≡ (too_many_streams s.max_streams, s)))
          ⊎ ((handle : ℕ) × (lookup key s.streams ≡ some handle) × (r ≡ (already_exists key, s))))
