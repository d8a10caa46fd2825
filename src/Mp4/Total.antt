-- ===== src/Mp4/Total.antt =====
-- The parser as a whole on a buffer whose atoms have room for their headers: `parse_mp4` of
-- mp4_parse.rs.
use nozdormu.Prelude.{
  ℕ, zero, suc, ◌+◌, ◌<◌, ◌≡◌, refl, ap, ◌∙◌, false, some, List, [], ◌∷◌, ◌==◌, length, arith,
  Bool-cases, Option-cases, inl, inr,
}
use nozdormu.Prelude.Text.{codes, text_eq, text_eq_iff}
use nozdormu.Mp4.{Bytes, ok, TrackInfo}
use nozdormu.Mp4.Atoms.{AtomIter, Atom, new, next, rounds}
use nozdormu.Mp4.Movie.{track_of, parse_tracks, Mp4Metadata, metadata_of, parse_mp4}
use nozdormu.Mp4.Reach.{
  Returns, Anything, >>=-Returns, >>=-Ends, IsStep, is_container, Reaches, HasRoom, IsOpen,
}
use nozdormu.Mp4.Safety.{next-Returns, >>=-find_atom}
use nozdormu.Mp4.Headers.{parse_mvhd-Returns, parse_trak-Returns}

module _ (buffer : Bytes) (room : HasRoom buffer) where
  track_of-Returns :
      (it : AtomIter) (r : Atom × AtomIter)
      → Reaches buffer it
      → next buffer it ≡ some (ok r)
      → Returns Anything (track_of buffer r.0)
  unfolding track_of is_container
  track_of-Returns it r reaches e = elim (Bool-cases (text_eq r.0.fourcc (codes "trak"))) [
    | inl t ↦
        let named = (text_eq_iff r.0.fourcc (codes "trak")).0 t in
        rw t (parse_trak-Returns buffer room r.0 (Reaches.inside reaches e (ap is_container named)))
    | inr n ↦ rw n (Returns.returned tt)
  ]

  parse_tracks-Returns :
      (fuel : ℕ) (it : AtomIter)
      → Reaches buffer it
      → 0 < fuel
      → it.end < it.offset + fuel
      → Returns Anything (parse_tracks fuel buffer it)
  unfolding parse_tracks
  parse_tracks-Returns zero it reaches f g = absurd (omega arith)
  parse_tracks-Returns (suc fuel) it reaches f g = elim (Option-cases (next buffer it)) [
    | inl e ↦ rw (e, parse_tracks) (Returns.returned tt)
    | inr (item, e) ↦
        rw (e, parse_tracks)
          (>>=-Returns (IsStep it) Anything item _ (next-Returns buffer it item e) (λ r e' step.
            let known = e ∙ ap some e' in
            let far = room it r reaches known in
            >>=-Ends _ _ _ (track_of-Returns it r reaches known) (λ track.
              >>=-Ends _ _ _
                (parse_tracks-Returns fuel r.1 (Reaches.later reaches known) (omega arith)
                  (omega arith))
                (λ tracks. Returns.returned tt))))
  ]

  movie-Returns :
      (moov : Atom)
      → IsOpen buffer (codes "moov") moov
      → Returns Anything
          (parse_tracks (rounds buffer) buffer (new buffer moov.data_start moov.data_end))
  unfolding rounds new is_container
  movie-Returns moov o = parse_tracks-Returns _ _ (o.2 refl) (omega arith) (omega arith)

module _ (F : Type 0) (zero_secs : F) (divide : ℕ → ℕ → F) where
  metadata_of-Returns :
      (head : ℕ × ℕ) (found : List TrackInfo)
      → Returns
          (λ (movie : Mp4Metadata F zero_secs divide). 0 < length movie.tracks)
          (metadata_of F zero_secs divide head found)
  unfolding metadata_of
  metadata_of-Returns head [] = Returns.failed
  metadata_of-Returns head (track ∷ tracks) =
      let found : suc (length tracks) == 0 ≡ false = ground arith in
      rw found (Returns.returned (omega arith))

  -- On a buffer in which every atom that the parser reaches is at least as long as its header, the
  -- parser answers with a movie that has a track, or with an error: no slice and no index panics,
  -- and no loop is endless.
  pub parse_mp4-total :
      (buffer : Bytes)
      → HasRoom buffer
      → Returns
          (λ (movie : Mp4Metadata F zero_secs divide). 0 < length movie.tracks)
          (parse_mp4 F zero_secs divide buffer)
  unfolding parse_mp4 is_container
  parse_mp4-total buffer room =
      >>=-find_atom buffer room _ (codes "moov") 0 (length buffer) _ Reaches.whole Returns.failed
        (λ moov o. >>=-Ends _ _ _ (parse_mvhd-Returns buffer room moov (o.2 refl)) (λ head.
          >>=-Ends _ _ _ (movie-Returns buffer room moov o)
            (λ found. metadata_of-Returns head found)))
