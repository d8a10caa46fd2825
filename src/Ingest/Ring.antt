-- ===== src/Ingest/Ring.antt =====
-- The ring of a stream's segments and its numbers (store.rs, `push_segment` and `is_available`).
use nozdormu.Prelude.{
  ℕ, zero, suc, ◌+◌, ◌-◌, ◌%◌, ◌<◌, ◌≡◌, inl, inr, refl, sym, ap, ap₂, ◌∙◌, List, [], ◌∷◌, ◌++◌,
  ltb, length, drop, arith, Bool-cases, append-nil, append_assoc, length-append, length-drop,
  ltb→lt,
}
use nozdormu.Prelude.Decimal.{u64_mod}
use nozdormu.Balancer.Window.{last_n, drop-append, last_n-short}
use nozdormu.Ingest.{
  LivePart, LiveSegment, LiveStream, pop_oldest, push_segment, append_segment, notify_waiters,
  push_part,
}

drop-nil : {A : Type 0} (n : ℕ) → drop {A = A} n [] ≡ []
drop-nil zero = refl
drop-nil (suc n) = refl

drop-drop : {A : Type 0} (m n : ℕ) (xs : List A) → drop m (drop n xs) ≡ drop (n + m) xs
drop-drop m zero xs = ap (λ k. drop k xs) {x = m} {y = 0 + m} (omega arith)
drop-drop m (suc n) [] = drop-nil m ∙ sym (drop-nil (suc n + m))
drop-drop m (suc n) (x ∷ xs) =
    drop-drop m n xs ∙ ap (λ k. drop k (x ∷ xs)) {x = suc (n + m)} {y = suc n + m} (omega arith)

module _ {F B : Type 0} where
  pop_oldest-last_n :
      (m : ℕ) (segs : List (LiveSegment F B)) (q : ℕ)
      → q + length segs < u64_mod
      → pop_oldest m segs q ≡ (last_n m segs, q + (length segs - m))
  unfolding pop_oldest
  pop_oldest-last_n m [] q h =
      ap₂ (λ a b. (a, b)) (sym (last_n-short m [] (omega arith))) (omega arith)
  pop_oldest-last_n m (x ∷ segs) q h = elim (Bool-cases (ltb m (length (x ∷ segs)))) [
    | inr fits ↦
        rw fits
          (ap₂ (λ a b. (a, b)) (sym (last_n-short m (x ∷ segs) (ground arith))) (ground arith))
    | inl over ↦
        let more = ltb→lt m (length (x ∷ segs)) over in
        let next : (q + 1) % u64_mod ≡ q + 1 = omega arith in
        rw (over, next)
          (pop_oldest-last_n m segs (q + 1) (omega arith)
            ∙ ap₂ (λ a b. (a, b))
                (ap (λ k. drop k (x ∷ segs)) {x = suc (length segs - m)} {y = suc (length segs) - m}
                  (omega arith))
                (omega arith))
  ]

  -- The state of the ring after some segments
  abbrev pub IsRing : ℕ → List (LiveSegment F B) → LiveStream F B → Type 0
  IsRing m seen s =
      (s.max_segments ≡ m)
      × (s.segments ≡ last_n m seen)
      × (s.media_sequence ≡ length seen - m)
      × (s.next_sequence ≡ length seen)
      × (s.current_part_sequence ≡ length seen)

  last_n-append :
      (m : ℕ) (seen : List (LiveSegment F B)) (x : LiveSegment F B)
      → last_n m (last_n m seen ++ (x ∷ [])) ≡ last_n m (seen ++ (x ∷ []))
  last_n-append m seen x =
      let k = length seen - m in
      let joined : last_n m seen ++ (x ∷ []) ≡ drop k (seen ++ (x ∷ [])) =
        sym (drop-append k seen (x ∷ []) (omega arith)) in
      ap (last_n m) joined
      ∙ drop-drop (length (drop k (seen ++ (x ∷ []))) - m) k (seen ++ (x ∷ []))
      ∙ ap (λ j. drop j (seen ++ (x ∷ [])))
          (omega (arith, length-drop k (seen ++ (x ∷ [])), length-append seen (x ∷ [])))

  append_segment-IsRing :
      (z : F) (m : ℕ) (x : LiveSegment F B) (seen : List (LiveSegment F B)) (s : LiveStream F B)
      → length seen + 1 < u64_mod
      → IsRing m seen s
      → IsRing m (seen ++ (x ∷ [])) (append_segment z x s)
  unfolding append_segment
  append_segment-IsRing z m x seen s h (limit, kept, first, next, part) =
      let long : length (last_n m seen ++ (x ∷ [])) ≡ length seen - (length seen - m) + 1 =
        omega (arith, length-append (last_n m seen) (x ∷ []), length-drop (length seen - m) seen) in
      let popped : pop_oldest s.max_segments (s.segments ++ (x ∷ [])) s.media_sequence ≡ (
        last_n m (last_n m seen ++ (x ∷ [])),
        length seen - m + (length (last_n m seen ++ (x ∷ [])) - m),
      ) =
        simp (limit, kept, first)
          (pop_oldest-last_n m (last_n m seen ++ (x ∷ [])) (length seen - m)
            (omega (arith, long))) in
      (
        limit,
        ap (λ p. p.0) popped ∙ last_n-append m seen x,
        ap (λ p. p.1) popped ∙ omega (arith, long, length-append seen (x ∷ [])),
        omega (arith, next, length-append seen (x ∷ [])),
        omega (arith, next, length-append seen (x ∷ [])),
      )

  -- Segments, one after the other, and then parts of the next one
  unfoldable pub push_all : F → List (LiveSegment F B) → LiveStream F B → LiveStream F B
  unfolding push_segment
  push_all z [] s = s
  push_all z (x ∷ xs) s = push_all z xs (push_segment z x s).0

  unfoldable pub push_parts : List (LivePart F B) → LiveStream F B → LiveStream F B
  push_parts [] s = s
  push_parts (p ∷ ps) s = push_parts ps (push_part p s).0

  push_segment-IsRing :
      (z : F) (m : ℕ) (x : LiveSegment F B) (seen : List (LiveSegment F B)) (s : LiveStream F B)
      → length seen + 1 < u64_mod
      → IsRing m seen s
      → IsRing m (seen ++ (x ∷ [])) (push_segment z x s).0
  unfolding push_segment notify_waiters
  push_segment-IsRing z m x seen s h r = append_segment-IsRing z m x seen s h r

  push_all_from :
      (z : F) (m : ℕ) (xs seen : List (LiveSegment F B)) (s : LiveStream F B)
      → length seen + length xs < u64_mod
      → IsRing m seen s
      → IsRing m (seen ++ xs) (push_all z xs s)
  unfolding push_all
  push_all_from z m [] seen s h r = rw (append-nil seen) r
  push_all_from z m (x ∷ xs) seen s h r =
      let rest =
        push_all_from z m xs (seen ++ (x ∷ [])) (push_segment z x s).0
          (omega (arith, length-append seen (x ∷ [])))
          (push_segment-IsRing z m x seen s (omega arith) r) in
      rw (sym (append_assoc seen (x ∷ []) xs)) rest

  -- A stream with no segment yet
  abbrev pub IsFresh : ℕ → LiveStream F B → Type 0
  IsFresh m s =
      (s.max_segments ≡ m)
      × (s.segments ≡ [])
      × (s.media_sequence ≡ 0)
      × (s.next_sequence ≡ 0)
      × (s.current_part_sequence ≡ 0)

  -- After any segments on a fresh stream, fewer than 2^64, the stream holds the last of them, at most
  -- `max_segments`, in their order; the media sequence is the number of those that were dropped, and
  -- the next sequence and that of the part in progress are the number of all.
  pub push_all-IsRing :
      (z : F) (m : ℕ) (xs : List (LiveSegment F B)) (s : LiveStream F B)
      → length xs < u64_mod
      → IsFresh m s
      → IsRing m xs (push_all z xs s)
  push_all-IsRing z m xs s h (limit, none_yet, first, next, part) =
      push_all_from z m xs [] s (omega arith) (
        limit,
        none_yet ∙ sym (last_n-short m [] (omega arith)),
        omega (arith, first),
        omega (arith, next),
        omega (arith, part),
      )
