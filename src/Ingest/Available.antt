-- ===== src/Ingest/Available.antt =====
-- What a player may ask for (store.rs, `is_available`).
use nozdormu.Prelude.{
  ℕ, zero, suc, ◌+◌, ◌-◌, ◌≤◌, ◌<◌, ◌≡◌, ◌↔◌, ◌⊎◌, refl, sym, ap, subst, ◌∙◌, true, Option, List,
  [], ◌∷◌, ◌++◌, length, drop, last?, arith, append-nil, append_assoc, length-drop,
}
use nozdormu.Prelude.Decimal.{u64_mod}
use nozdormu.Ingest.Ring.{push_all, push_parts, IsFresh, push_all-IsRing}
use nozdormu.Balancer.Window.{last_n}
use nozdormu.Ingest.{
  LivePart, LiveSegment, LiveStream, push_segment, append_segment, notify_waiters, push_part,
  is_available, has_part, is_complete,
}

module _ {F B : Type 0} where
  -- Segments that are numbered from `n` on, as the segmenter numbers them
  abbrev pub IsNumbered : ℕ → List (LiveSegment F B) → Type 0
  IsNumbered n [] = Unit
  IsNumbered n (x ∷ xs) = (x.sequence ≡ n) × IsNumbered (n + 1) xs

  is_complete-IsNumbered :
      (n msn : ℕ) (xs : List (LiveSegment F B))
      → IsNumbered n xs
      → (is_complete (last? xs) msn ≡ true) ↔ ((0 < length xs) × (msn < n + length xs))
  is_complete-IsNumbered n msn [] h = ground arith
  is_complete-IsNumbered n msn (x ∷ []) h = ground (arith, h.0)
  is_complete-IsNumbered n msn (x ∷ y ∷ xs) h =
      ground (arith, is_complete-IsNumbered (n + 1) msn (y ∷ xs) h.1)

  IsNumbered-drop :
      (k n : ℕ) (xs : List (LiveSegment F B))
      → IsNumbered n xs
      → k ≤ length xs
      → IsNumbered (n + k) (drop k xs)
  IsNumbered-drop zero n xs h le = subst (λ j. IsNumbered j xs) {x = n} {y = n + 0} (omega arith) h
  IsNumbered-drop (suc k) n [] h le = tt
  IsNumbered-drop (suc k) n (x ∷ xs) h le =
      subst (λ j. IsNumbered j (drop k xs)) {x = n + 1 + k} {y = n + suc k} (omega arith)
        (IsNumbered-drop k (n + 1) xs h.1 (omega arith))

  -- Parts change the parts of the segment in progress, and no more that is asked for.
  push_parts-parts :
      (ps : List (LivePart F B)) (s : LiveStream F B)
      → ((push_parts ps s).current_parts ≡ s.current_parts ++ ps)
        × ((push_parts ps s).segments ≡ s.segments)
        × ((push_parts ps s).current_part_sequence ≡ s.current_part_sequence)
  unfolding push_parts push_part notify_waiters
  push_parts-parts [] s = (sym (append-nil s.current_parts), refl, refl)
  push_parts-parts (p ∷ ps) s =
      let (parts, segs, seq) = push_parts-parts ps (push_part p s).0 in
      (parts ∙ append_assoc s.current_parts (p ∷ []) ps, segs, seq)

  push_all-parts :
      (z : F) (xs : List (LiveSegment F B)) (s : LiveStream F B)
      → s.current_parts ≡ []
      → (push_all z xs s).current_parts ≡ []
  unfolding push_all push_segment append_segment notify_waiters
  push_all-parts z [] s h = h
  push_all-parts z (x ∷ xs) s h = push_all-parts z xs (push_segment z x s).0 refl

  -- After numbered segments on a fresh stream that keeps at least one, and then parts, a player's
  -- request is answered at once exactly when it is for an earlier segment, even one that was dropped,
  -- or for the segment in progress and a part that is there (any part, where none is named).
  pub is_available_iff :
      (z : F) (m : ℕ) (xs : List (LiveSegment F B)) (ps : List (LivePart F B)) (s : LiveStream F B)
      (msn : ℕ) (target : Option ℕ)
      → length xs < u64_mod
      → 0 < m
      → IsFresh m s
      → s.current_parts ≡ []
      → IsNumbered 0 xs
      → (is_available (push_parts ps (push_all z xs s)) msn target ≡ true)
        ↔ ((msn < length xs) ⊎ ((msn ≡ length xs) × (has_part ps target ≡ true)))
  unfolding is_available
  is_available_iff z m xs ps s msn target h some_kept fresh no_parts numbered =
      let t = push_all z xs s in
      let (limit, kept, first, next, part) = push_all-IsRing z m xs s h fresh in
      let (parts, segs, seq) = push_parts-parts ps t in
      let here : (push_parts ps t).current_parts ≡ ps =
        parts ∙ ap (λ q. q ++ ps) (push_all-parts z xs s no_parts) in
      let window : (push_parts ps t).segments ≡ last_n m xs = segs ∙ kept in
      let place : (push_parts ps t).current_part_sequence ≡ length xs = seq ∙ part in
      let last =
        is_complete-IsNumbered (0 + (length xs - m)) msn (last_n m xs)
          (IsNumbered-drop (length xs - m) 0 xs numbered (omega arith)) in
      let long = length-drop (length xs - m) xs in
      rw (here, window, place, is_available) (ground (arith, last, long, some_kept))
