-- ===== src/Balancer/Window.antt =====
-- The sliding window of an origin's responses: balancer.rs, `record_response`.
use nozdormu.Prelude.{
  ℕ, zero, suc, ◌-◌, ◌≤◌, ◌<◌, max, ◌≡◌, refl, Bool, true, none, some, List, [], ◌∷◌, ◌++◌, ltb,
  leb, if◌then◌else◌, length, drop, arith, Bool-cases, inl, inr, unwrap_or, ap, sym, map,
  append-nil, append_assoc, length-drop, le→leb, ◌∙◌, length-append,
}
use nozdormu.Prelude.Text.{Text, text_eq_iff}
use nozdormu.Prelude.Map.{lookup, lookup-insert}
use nozdormu.Health.{make_key}
use nozdormu.Balancer.{Balancer, OriginStats, push_sample, record_response}

-- The last n of a list
abbrev pub last_n {ℓ} : {A : Type ℓ} → ℕ → List A → List A
last_n n xs = drop (length xs - n) xs

pub drop-append :
    {A : Type 0} (n : ℕ) (xs ys : List A) → n ≤ length xs → drop n (xs ++ ys) ≡ drop n xs ++ ys
drop-append zero xs ys h = refl
drop-append (suc n) [] ys h = absurd (omega arith)
drop-append (suc n) (x ∷ xs) ys h = drop-append n xs ys (omega arith)

drop-drop : {A : Type 0} (n : ℕ) (xs : List A) → drop 1 (drop n xs) ≡ drop (suc n) xs
drop-drop zero [] = refl
drop-drop (suc n) [] = refl
drop-drop zero (x ∷ xs) = refl
drop-drop (suc n) (x ∷ xs) = drop-drop n xs

-- The step of the ring buffer keeps the last of what it has seen.
keep-short :
    {A : Type 0} (w : ℕ) (xs : List A)
    → length xs < max 1 w
    → (if leb w (length xs) then drop 1 xs else xs) ≡ xs
keep-short w [] h = ground arith
keep-short w (x ∷ xs) h = ground arith

pub last_n-short : {A : Type 0} (n : ℕ) (xs : List A) → length xs ≤ n → last_n n xs ≡ xs
last_n-short n xs h = ap (λ k. drop k xs) {y = 0} (omega arith)

push-short :
    {A : Type 0} (w : ℕ) (seen : List A) (x : A)
    → length seen < max 1 w
    → (if leb w (length (last_n (max 1 w) seen))
          then drop 1 (last_n (max 1 w) seen)
          else last_n (max 1 w) seen)
        ++ (x ∷ [])
      ≡ last_n (max 1 w) (seen ++ (x ∷ []))
push-short w seen x h = rw (last_n-short (max 1 w) seen (omega arith)) (
    ap (λ t. t ++ (x ∷ [])) (keep-short w seen h)
    ∙ sym (last_n-short (max 1 w) (seen ++ (x ∷ [])) (omega (arith, length-append seen (x ∷ [])))))

push-full :
    {A : Type 0} (w : ℕ) (seen : List A) (x : A)
    → max 1 w ≤ length seen
    → (if leb w (length (last_n (max 1 w) seen))
          then drop 1 (last_n (max 1 w) seen)
          else last_n (max 1 w) seen)
        ++ (x ∷ [])
      ≡ last_n (max 1 w) (seen ++ (x ∷ []))
push-full w seen x h =
    let full : leb w (length (last_n (max 1 w) seen)) ≡ true =
      le→leb _ _ (omega (arith, length-drop (length seen - max 1 w) seen)) in
    let gap = length seen - max 1 w in
    rw full (
      ap (λ t. t ++ (x ∷ [])) (drop-drop gap seen)
      ∙ sym (drop-append (suc gap) seen (x ∷ []) (omega arith))
      ∙ ap (λ k. drop k (seen ++ (x ∷ []))) {x = suc gap}
          (omega (arith, length-append seen (x ∷ []))))

module _ {L : Type 0} where
  -- The samples of one origin, in order, with the time of each
  pub push_all : List (L × Bool × ℕ) → OriginStats L → OriginStats L
  push_all [] stats = stats
  push_all ((latency, is_error, now) ∷ rest) stats =
      push_all rest (push_sample latency is_error now stats)

  pub sample_of : L × Bool × ℕ → L × Bool
  sample_of (latency, is_error, now) = (latency, is_error)

  push_sample-last_n :
      (latency : L) (is_error : Bool) (now : ℕ) (stats : OriginStats L) (seen : List (L × Bool))
      → stats.samples ≡ last_n (max 1 stats.window_size) seen
      → (push_sample latency is_error now stats).samples
        ≡ last_n (max 1 stats.window_size) (seen ++ ((latency, is_error) ∷ []))
  unfolding push_sample
  push_sample-last_n latency is_error now stats seen h =
      let w = stats.window_size in
      let x : L × Bool = (latency, is_error) in
      ap (λ t. (if leb w (length t) then drop 1 t else t) ++ (x ∷ [])) h
      ∙ elim (Bool-cases (ltb (length seen) (max 1 w))) [
        | inl short ↦ push-short w seen x (ground arith)
        | inr full ↦ push-full w seen x (ground arith)
      ]

  push_all-last_n :
      (history : List (L × Bool × ℕ)) (stats : OriginStats L) (seen : List (L × Bool))
      → stats.samples ≡ last_n (max 1 stats.window_size) seen
      → (push_all history stats).samples
        ≡ last_n (max 1 stats.window_size) (seen ++ map sample_of history)
  unfolding push_all sample_of push_sample
  push_all-last_n [] stats seen h =
      h ∙ ap (last_n (max 1 stats.window_size)) (sym (append-nil seen))
  push_all-last_n ((latency, is_error, now) ∷ rest) stats seen h =
      let x : L × Bool = (latency, is_error) in
      push_all-last_n rest (push_sample latency is_error now stats) (seen ++ (x ∷ []))
        (push_sample-last_n latency is_error now stats seen h)
      ∙ ap (last_n (max 1 stats.window_size)) (append_assoc seen (x ∷ []) (map sample_of rest))

  length-last_n : (n : ℕ) (xs : List (L × Bool)) → length (last_n n xs) ≤ n
  length-last_n n xs = omega (arith, length-drop (length xs - n) xs)

  -- The responses of one origin, recorded one after the other
  pub record_all : Text → Text → ℕ → List (L × Bool × ℕ) → Balancer L → Balancer L
  record_all site_id origin_id window_size [] b = b
  record_all site_id origin_id window_size ((latency, is_error, now) ∷ rest) b =
      record_all site_id origin_id window_size rest
        (record_response site_id origin_id latency is_error window_size now b)

  module _ (s o : Text) (window_size : ℕ) where
    record_response-lookup :
        (latency : L) (is_error : Bool) (now : ℕ) (b : Balancer L) (stats : OriginStats L)
        → unwrap_or
            (lookup (make_key s o) b.origin_stats)
            (record { samples = []; window_size = window_size; last_update = now })
          ≡ stats
        → lookup
            (make_key s o)
            (record_response s o latency is_error window_size now b).origin_stats
          ≡ some (push_sample latency is_error now stats)
    unfolding record_response
    record_response-lookup latency is_error now b stats e =
        rw (lookup-insert, (text_eq_iff (make_key s o) (make_key s o)).1 refl)
          (ap (λ t. some (push_sample latency is_error now t)) e)

    record_all-lookup :
        (history : List (L × Bool × ℕ)) (b : Balancer L) (stats : OriginStats L)
        → lookup (make_key s o) b.origin_stats ≡ some stats
        → lookup (make_key s o) (record_all s o window_size history b).origin_stats
          ≡ some (push_all history stats)
    unfolding record_all push_all
    record_all-lookup [] b stats e = e
    record_all-lookup ((latency, is_error, now) ∷ rest) b stats e =
        record_all-lookup rest (record_response s o latency is_error window_size now b)
          (push_sample latency is_error now stats)
          (record_response-lookup latency is_error now b stats (rw e))

    -- However many responses of an origin are recorded, from a balancer that knows nothing of it,
    -- its window holds the last of them, in order: `max 1 window_size` at most, which is one also
    -- for a window size of zero.
    pub record_response-window :
        (first : L × Bool × ℕ) (history : List (L × Bool × ℕ)) (b : Balancer L)
        → lookup (make_key s o) b.origin_stats ≡ none
        → (stats : OriginStats L) × (lookup
              (make_key s o)
              (record_all s o window_size (first ∷ history) b).origin_stats
            ≡ some stats)
          × (stats.samples ≡ last_n (max 1 window_size) (map sample_of (first ∷ history)))
          × (length stats.samples ≤ max 1 window_size)
    unfolding record_all push_all
    record_response-window (latency, is_error, now) history b e =
        let fresh : OriginStats L = record {
          samples = [];
          window_size = window_size;
          last_update = now;
        } in
        let known = record_response-lookup latency is_error now b fresh (rw e) in
        let kept =
          push_all-last_n ((latency, is_error, now) ∷ history) fresh []
            (sym (last_n-short (max 1 window_size) [] (omega arith))) in
        (
          push_all history (push_sample latency is_error now fresh),
          record_all-lookup history (record_response s o latency is_error window_size now b)
              (push_sample latency is_error now fresh) known,
          kept,
          rw kept (
              length-last_n (max 1 window_size)
                (map sample_of ((latency, is_error, now) ∷ history))),
        )
