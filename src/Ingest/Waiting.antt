-- ===== src/Ingest/Waiting.antt =====
-- No player waits for what is there (store.rs and manifest/blocking.rs).
use nozdormu.Prelude.{
  ℕ, ◌≡◌, inl, inr, refl, ◌∙◌, false, ◌||◌, Option, List, [], ◌∷◌, ◌++◌, All, All-append, arith,
  Bool-cases, if◌then◌else◌, ◌==◌, ◌+◌,
}
use nozdormu.Ingest.{
  Waiter, senders, LivePart, LiveSegment, LiveStream, is_available, notify, notify_waiters,
  notify_all_waiters, append_segment, push_segment, push_part, set_init_segment, add_waiter,
  end_stream, register,
}

-- What can happen to a stream, one call at a time
pub data Action (F B : Type 0) : Type 0 where
  segment : LiveSegment F B → Action F B
  part : LivePart F B → Action F B
  init : B → Action F B
  wait : ℕ → Option ℕ → ℕ → Action F B
  end : Action F B

abbrev pub count : ℕ → List ℕ → ℕ
count tx [] = 0
count tx (n ∷ ns) = let rest = count tx ns in if n == tx then rest + 1 else rest

senders-append :
    (tx : ℕ) (ws : List Waiter) (w : Waiter)
    → count tx (senders (ws ++ (w ∷ []))) ≡ count tx (senders ws) + count tx (w.sender ∷ [])
senders-append tx [] w = omega arith
senders-append tx (v ∷ ws) w = ground (arith, senders-append tx ws w)

count-append : (tx : ℕ) (ms ns : List ℕ) → count tx (ms ++ ns) ≡ count tx ms + count tx ns
count-append tx [] ns = omega arith
count-append tx (m ∷ ms) ns = ground (arith, count-append tx ms ns)

module _ {F B : Type 0} where
  -- What a waiter waits for is not there, and the stream goes on.
  abbrev pub Waits : LiveStream F B → Waiter → Type 0
  Waits s w = (is_available s w.target_msn w.target_part ≡ false) × (s.ended ≡ false)

  -- Every waiter that is registered has reason to wait.
  abbrev pub IsQuiet : LiveStream F B → Type 0
  IsQuiet s = All (Waits s) s.waiters

  -- The stream after an action, the waiters that it woke, and those whose call returned at once
  unfoldable pub act : F → Action F B → LiveStream F B → LiveStream F B × List ℕ
  unfolding push_segment push_part set_init_segment register end_stream
  act z (segment s) stream = push_segment z s stream
  act z (part p) stream = push_part p stream
  act z (init b) stream = (set_init_segment b stream, [])
  act z (wait msn p tx) stream =
      let r = register msn p tx stream in (r.1, if r.0 then tx ∷ [] else [])
  act z end stream = end_stream stream

  unfoldable pub act_all : F → List (Action F B) → LiveStream F B → LiveStream F B × List ℕ
  unfolding act
  act_all z [] stream = (stream, [])
  act_all z (a ∷ rest) stream =
      let r = act z a stream in let q = act_all z rest r.0 in (q.0, r.1 ++ q.1)

  notify-Waits : (s : LiveStream F B) (ws : List Waiter) → All (Waits s) (notify s ws).0
  unfolding notify
  notify-Waits s [] = tt
  notify-Waits s (w ∷ ws) =
      elim (Bool-cases (is_available s w.target_msn w.target_part || s.ended)) [
        | inl wake ↦ rw wake (notify-Waits s ws)
        | inr asleep ↦
            rw asleep ((ground (arith, asleep), ground (arith, asleep)), notify-Waits s ws)
      ]

  notify_waiters-IsQuiet : (s : LiveStream F B) → IsQuiet (notify_waiters s).0
  unfolding notify_waiters is_available
  notify_waiters-IsQuiet s = notify-Waits s s.waiters

  act-IsQuiet : (z : F) (a : Action F B) (s : LiveStream F B) → IsQuiet s → IsQuiet (act z a s).0
  unfolding act push_segment push_part set_init_segment end_stream notify_all_waiters register
      add_waiter is_available
  act-IsQuiet z (segment g) s h = notify_waiters-IsQuiet (append_segment z g s)
  act-IsQuiet z (part p) s h =
      notify_waiters-IsQuiet (record s { current_parts = s.current_parts ++ (p ∷ []) })
  act-IsQuiet z (init b) s h = h
  act-IsQuiet z end s h = tt
  act-IsQuiet z (wait msn p tx) s h = elim (Bool-cases (is_available s msn p || s.ended)) [
    | inl now ↦ rw now h
    | inr later ↦ rw later (
        All-append (Waits s) s.waiters (_ ∷ []) h
          ((ground (arith, later), ground (arith, later)), tt))
  ]

  -- Every sender is used or stays, and just once.
  count-notify :
      (tx : ℕ) (s : LiveStream F B) (ws : List Waiter)
      → count tx (senders (notify s ws).0) + count tx (notify s ws).1 ≡ count tx (senders ws)
  unfolding notify
  count-notify tx s [] = refl
  count-notify tx s (w ∷ ws) =
      elim (Bool-cases (is_available s w.target_msn w.target_part || s.ended)) [
        | inl wake ↦ rw wake (ground (arith, count-notify tx s ws))
        | inr asleep ↦ rw asleep (ground (arith, count-notify tx s ws))
      ]

  count-notify_waiters :
      (tx : ℕ) (s : LiveStream F B)
      → count tx (senders (notify_waiters s).0.waiters) + count tx (notify_waiters s).1
        ≡ count tx (senders s.waiters)
  unfolding notify_waiters
  count-notify_waiters tx s = count-notify tx s s.waiters

  -- The calls that a list of actions makes with a sender
  unfoldable pub calls : ℕ → List (Action F B) → ℕ
  calls tx [] = 0
  calls tx (wait msn p n ∷ rest) = count tx (n ∷ []) + calls tx rest
  calls tx (a ∷ rest) = calls tx rest

  count-act :
      (tx : ℕ) (z : F) (a : Action F B) (s : LiveStream F B)
      → count tx (senders (act z a s).0.waiters) + count tx (act z a s).1
        ≡ count tx (senders s.waiters) + calls tx (a ∷ [])
  unfolding act calls push_segment push_part set_init_segment end_stream notify_all_waiters register
      add_waiter append_segment is_available
  count-act tx z (segment g) s = count-notify_waiters tx (append_segment z g s) ∙ omega arith
  count-act tx z (part p) s =
      count-notify_waiters tx (record s { current_parts = s.current_parts ++ (p ∷ []) })
      ∙ omega arith
  count-act tx z (init b) s = omega arith
  count-act tx z end s = omega arith
  count-act tx z (wait msn p n) s = elim (Bool-cases (is_available s msn p || s.ended)) [
    | inl now ↦ rw now (omega arith)
    | inr later ↦ rw later (
        omega (
          arith,
          senders-append tx s.waiters (record { target_msn = msn; target_part = p; sender = n }),
        ))
  ]

  calls-cons :
      (tx : ℕ) (a : Action F B) (rest : List (Action F B))
      → calls tx (a ∷ rest) ≡ calls tx (a ∷ []) + calls tx rest
  unfolding calls
  calls-cons tx (segment g) rest = omega arith
  calls-cons tx (part p) rest = omega arith
  calls-cons tx (init b) rest = omega arith
  calls-cons tx end rest = omega arith
  calls-cons tx (wait msn p n) rest = omega arith

  -- Whatever happens to a stream in which every waiter has reason to wait, in any order: this is so
  -- afterwards, so that no player waits for a part that is there or for a stream that has ended. And
  -- every waiter is accounted for: each sender is used as often as it was registered or called with,
  -- less the times that it still waits.
  pub act_all-IsQuiet :
      (z : F) (actions : List (Action F B)) (s : LiveStream F B)
      → IsQuiet s
      → let r = act_all z actions s in
        IsQuiet r.0
        × ((tx : ℕ)
            → count tx (senders r.0.waiters) + count tx r.1
              ≡ count tx (senders s.waiters) + calls tx actions)
  unfolding act_all calls
  act_all-IsQuiet z [] s h = (h, λ tx. omega arith)
  act_all-IsQuiet z (a ∷ rest) s h =
      let (quiet, counted) = act_all-IsQuiet z rest (act z a s).0 (act-IsQuiet z a s h) in
      (
        quiet,
        λ tx.
            let one = count-act tx z a s in
            let all = counted tx in
            let joined = count-append tx (act z a s).1 (act_all z rest (act z a s).0).1 in
            let split_calls = calls-cons tx a rest in omega (arith, one, all, joined, split_calls),
      )
