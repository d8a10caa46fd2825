-- ===== src/Cc/Limit.antt =====
-- The rate limit over a window (cc/mod.rs and state.rs).
use nozdormu.Prelude.{
  ℕ, zero, suc, ◌+◌, ◌-◌, ◌≤◌, ◌<◌, min, ◌≡◌, inl, inr, refl, ap, ◌∙◌, Bool, true, false, none,
  some, List, [], ◌∷◌, ◌++◌, leb, if◌then◌else◌, length, replicate, arith, Bool-cases,
}
use native.Mathlib.Numerals.{unary_clauses}
use nozdormu.Prelude.Text.{Text}
use nozdormu.Prelude.Decimal.{u64_mod}
use nozdormu.Cc.{block, CcConfig, make_counter_key, match_rule}
use nozdormu.Cc.State.{TtlCache, State, from_secs, block_key, increment, is_blocked, block_ip}
use nozdormu.Cc.Counting.{Counts, increment-fresh, increment-counting}
use nozdormu.Cc.Token.{Signing}
use nozdormu.Cc.Check.{
  CcActionResult, allow, CcEngine, Request, Terms, terms_of, apply_action, count_request,
  has_passed, check,
}

abbrev pub is_allowed : CcActionResult → Bool
is_allowed allow = true
is_allowed _ = false

-- Times, the first not before `t`, each not before the last, and all before `limit`; each has the
-- time of the other clock beside it.
abbrev pub Ascends : ℕ → ℕ → List (ℕ × ℕ) → Type 0
Ascends t limit [] = Unit
Ascends t limit ((now, wall) ∷ rest) = (t ≤ now) × (now < limit) × Ascends now limit rest

-- `left` requests pass, and no more.
pub limited : ℕ → ℕ → List Bool
limited left zero = []
limited zero (suc n) = false ∷ limited zero n
limited (suc left) (suc n) = true ∷ limited left n

limited-zero : (n : ℕ) → limited zero n ≡ replicate n false
unfolding limited
limited-zero zero = refl
limited-zero (suc n) = ap (λ t. false ∷ t) (limited-zero n)

limited_lem :
    (left n : ℕ) → limited left n ≡ replicate (min left n) true ++ replicate (n - left) false
unfolding limited
limited_lem zero n =
    limited-zero n
    ∙ ap (λ a. replicate a true ++ replicate n false) {x = 0} {y = min 0 n} (omega arith)
    ∙ ap (λ b. replicate (min 0 n) true ++ replicate b false) {x = n} {y = n - 0} (omega arith)
limited_lem (suc left) zero =
    ap (λ a. replicate a true ++ []) {x = 0} {y = min (suc left) 0} (omega arith)
    ∙ ap (λ b. replicate (min (suc left) 0) true ++ replicate b false) {x = 0} {y = 0 - suc left}
        (omega arith)
limited_lem (suc left) (suc n) = simp unary_clauses (ap (λ t. true ∷ t) (limited_lem left n))

module _ (bans : TtlCache (Unit {0})) (counts : TtlCache ℕ) (signing : Signing) (crc32 : Text → ℕ)
    (engine : CcEngine) (config : CcConfig) (r : Request) where
  -- What the request is held to, and its keys
  abbrev pub terms : Terms
  terms = terms_of engine config (match_rule r.path config.rules)

  abbrev pub counter_key : Text
  counter_key = make_counter_key crc32 r.site_id r.client_ip r.uri r.path terms.key_type

  abbrev pub ban_key : Text
  ban_key = block_key r.site_id r.client_ip

  -- Which of a client's requests, all alike, are allowed
  pub allowed_all : List (ℕ × ℕ) → State bans counts → List Bool
  allowed_all [] s = []
  allowed_all ((now, wall) ∷ rest) s =
      let o = check bans counts signing crc32 now wall engine config r s in
      is_allowed o.0 ∷ allowed_all rest o.2

  -- No ban from a time on; a ban between two times
  abbrev pub Free : ℕ → State bans counts → Type 0
  Free t s = (u : ℕ) → t ≤ u → bans.get u ban_key s.blocked ≡ none

  abbrev Banned : ℕ → ℕ → State bans counts → Type 0
  Banned t limit s = (u : ℕ) → t ≤ u → u < limit → bans.get u ban_key s.blocked ≡ some tt

  module _ (enabled : config.enabled ≡ true) (act : terms.action ≡ block) where
    check_free :
        (now wall : ℕ) (s : State bans counts)
        → bans.get now ban_key s.blocked ≡ none
        → check bans counts signing crc32 now wall engine config r s
          ≡ count_request bans counts signing crc32 now wall engine r terms s
    unfolding check is_blocked has_passed
    check_free now wall s e = simp (enabled, e, act) refl

    check_banned :
        (now wall : ℕ) (s : State bans counts)
        → bans.get now ban_key s.blocked ≡ some tt
        → (is_allowed (check bans counts signing crc32 now wall engine config r s).0 ≡ false)
          × ((check bans counts signing crc32 now wall engine config r s).2 ≡ s)
    unfolding check is_blocked
    check_banned now wall s e = simp (enabled, e) (refl, refl)

    allowed_all-Banned :
        (t limit : ℕ) (times : List (ℕ × ℕ)) (s : State bans counts)
        → Banned t limit s
        → Ascends t limit times
        → allowed_all times s ≡ limited 0 (length times)
    unfolding allowed_all limited
    allowed_all-Banned t limit [] s b a = refl
    allowed_all-Banned t limit ((now, wall) ∷ times) s b a =
        let (denied, same) = check_banned now wall s (b now a.0 a.1) in
        rw (denied, same)
          (ap (λ xs. false ∷ xs)
            (allowed_all-Banned now limit times s (λ u lo hi. b u (omega arith) hi) a.2))

    -- A request that was counted as the `n`th
    count_request-counted :
        (now wall n : ℕ) (s s' : State bans counts)
        → increment bans counts now counter_key (from_secs terms.window) s ≡ (n, s')
        → (is_allowed (count_request bans counts signing crc32 now wall engine r terms s).0
            ≡ leb n terms.rate)
          × ((count_request bans counts signing crc32 now wall engine r terms s).2 ≡ (
              if leb n terms.rate
              then s'
              else block_ip bans counts now r.site_id r.client_ip
                  (from_secs terms.block_duration)
                  s'))
    unfolding count_request apply_action
    count_request-counted now wall n s s' e = elim (Bool-cases (leb n terms.rate)) [
      | inl within ↦ simp (e, within) (refl, refl)
      | inr over ↦ simp (e, over, act) (refl, refl)
    ]

    -- A request of a client that is not banned, counted as the `n`th: the answer, and the rest
    step :
        (now wall limit n : ℕ) (rest : List (ℕ × ℕ)) (s s' : State bans counts)
        → Free now s
        → increment bans counts now counter_key (from_secs terms.window) s ≡ (n, s')
        → s'.blocked ≡ s.blocked
        → limit ≤ now + from_secs terms.block_duration
        → Ascends now limit rest
        → (n ≤ terms.rate → allowed_all rest s' ≡ limited (terms.rate - n) (length rest))
        → allowed_all ((now, wall) ∷ rest) s ≡ limited (terms.rate + 1 - n) (suc (length rest))
    unfolding allowed_all limited block_ip
    step now wall limit n rest s s' free e same lim asc more =
        let here = check bans counts signing crc32 now wall engine config r s in
        let open_door = check_free now wall s (free now (omega arith)) in
        let (answer, left) = count_request-counted now wall n s s' e in
        let first : is_allowed here.0 ≡ leb n terms.rate =
          ap (λ o. is_allowed o.0) open_door ∙ answer in
        let after = ap (λ o. o.2) open_door ∙ left in
        elim (Bool-cases (leb n terms.rate)) [
          | inl within ↦
              let passed : terms.rate + 1 - n ≡ suc (terms.rate - n) = ground (arith, within) in
              rw (first, after, within, passed) (ap (λ t. true ∷ t) (more (ground (arith, within))))
          | inr over ↦
              let spent : terms.rate + 1 - n ≡ 0 = ground (arith, over) in
              rw (first, after, over, spent)
                (ap (λ t. false ∷ t)
                  (allowed_all-Banned now limit rest _
                    (λ u lo hi.
                      bans.get-put_self now u (from_secs terms.block_duration) ban_key tt s'.blocked
                        (rw same (free now (omega arith))) lo (omega arith))
                    asc))
        ]

    allowed_all_counting :
        (t end limit k : ℕ) (times : List (ℕ × ℕ)) (s : State bans counts)
        → Counts bans counts counter_key t end k s
        → Free t s
        → k ≤ terms.rate
        → terms.rate + 1 < u64_mod
        → limit ≤ end
        → limit ≤ t + from_secs terms.block_duration
        → Ascends t limit times
        → allowed_all times s ≡ limited (terms.rate - k) (length times)
    unfolding allowed_all limited
    allowed_all_counting t end limit k [] s c free le small lim ban asc = refl
    allowed_all_counting t end limit k ((now, wall) ∷ rest) s c free le small lim ban asc =
        let (s', e, same, c') =
          increment-counting bans counts now t end (from_secs terms.window) k counter_key s c asc.0
            (omega arith) (omega arith) in
        let free' : Free now s' = λ u lo. rw same (free u (omega arith)) in
        step now wall limit (k + 1) rest s s' (λ u lo. free u (omega arith)) e same (omega arith)
          asc.2
          (λ more.
            allowed_all_counting now end limit (k + 1) rest s' c' free' more small lim (omega arith)
              asc.2)
        ∙ ap (λ left. limited left (suc (length rest))) {x = terms.rate + 1 - (k + 1)}
            {y = terms.rate - k} (omega arith)

    -- A client, not banned and not counted yet, sends like requests that are held to a rate with the
    -- action "block". Within the window of the first, and within the time of a ban from it, exactly
    -- the first `rate` of them are allowed, and every later one is denied.
    pub check_limits :
        (start wall : ℕ) (rest : List (ℕ × ℕ)) (s : State bans counts)
        → Free start s
        → counts.get start counter_key s.counters ≡ none
        → terms.rate + 1 < u64_mod
        → Ascends start
            (start + min (from_secs terms.window) (from_secs terms.block_duration))
            ((start, wall) ∷ rest)
        → allowed_all ((start, wall) ∷ rest) s
          ≡ replicate (min terms.rate (suc (length rest))) true
            ++ replicate (suc (length rest) - terms.rate) false
    check_limits start wall rest s free fresh small asc =
        let window = from_secs terms.window in
        let limit = start + min window (from_secs terms.block_duration) in
        let (s', e, same, c) =
          increment-fresh bans counts start window counter_key s fresh (omega arith) in
        let free' : Free start s' = λ u lo. rw same (free u lo) in
        step start wall limit 1 rest s s' free e same (omega arith) asc.2 (λ more.
          allowed_all_counting start (start + window) limit 1 rest s' c free' more small
            (omega arith) (omega arith) asc.2)
        ∙ ap (λ left. limited left (suc (length rest))) {x = terms.rate + 1 - 1} {y = terms.rate}
            (omega arith)
        ∙ limited_lem terms.rate (suc (length rest))
