-- ===== src/Mp4/Timing.antt =====
-- Times and samples: `sample_to_dts` and `dts_to_sample` of mp4_parse.rs undo each other.
use nozdormu.Prelude.{
  ℕ, zero, suc, ◌+◌, ◌-◌, ◌*◌, ◌/◌, ◌%◌, ◌≤◌, ◌<◌, ◌≡◌, refl, ◌∙◌, true, false, List, [], ◌∷◌, ltb,
  leb, if◌then◌else◌, arith, Bool-cases, inl, inr, lt→ltb, leb→le, ltb→lt, le→leb,
}
use native.Mathlib.Nat.{
  mod-eq_of_lt, mul-le-mul_right, div-mul-le_self, div-lt_iff_lt-mul, lt-div-mul-add,
}
use nozdormu.Mp4.{u32_mod, u64_mod, SttsEntry}
use nozdormu.Mp4.Samples.{sub_u64, dts_from, sample_to_dts, sample_from, dts_to_sample}

-- The samples of a table, and their time
abbrev pub count_all : List SttsEntry → ℕ
count_all [] = 0
count_all (e ∷ es) = e.sample_count + count_all es

abbrev pub time_all : List SttsEntry → ℕ
time_all [] = 0
time_all (e ∷ es) = e.sample_count * e.sample_delta + time_all es

-- The time of a sample, and the sample of a time, without a bound on numbers
abbrev time_of : List SttsEntry → ℕ → ℕ
time_of [] s = 0
time_of (e ∷ es) s =
    if leb s e.sample_count
    then s * e.sample_delta
    else e.sample_count * e.sample_delta + time_of es (s - e.sample_count)

abbrev sample_of : List SttsEntry → ℕ → ℕ
sample_of [] t = 0
sample_of (e ∷ es) t =
    if ltb t (e.sample_count * e.sample_delta)
    then t / e.sample_delta
    else e.sample_count + sample_of es (t - e.sample_count * e.sample_delta)

-- A quotient is below a bound on the number of parts, and its product is below the whole.
div-below :
    (t c d : ℕ) → t < c * d → (t / d < c) × (t / d * d ≤ t) × (t < suc (t / d) * d) × (0 < d)
div-below t c zero h = absurd (omega arith)
div-below t c (suc d) h =
    let below = lt-div-mul-add {a = t} {b = suc d} (omega arith) in
    let small = (div-lt_iff_lt-mul {k = suc d} {x = t} {y = c} (omega arith)).1 h in
    (small, div-mul-le_self t (suc d), omega arith, omega arith)

time_of-le : (es : List SttsEntry) (s : ℕ) → time_of es s ≤ time_all es
time_of-le [] s = omega arith
time_of-le (e ∷ es) s = elim (Bool-cases (leb s e.sample_count)) [
  | inl t ↦
      let most = mul-le-mul_right {m = s} {n = e.sample_count} e.sample_delta (leb→le _ _ t) in
      rw t (omega arith)
  | inr f ↦ let rest = time_of-le es (s - e.sample_count) in rw f (omega arith)
]

-- The loop in the program computes the time, where the times are `u64` values.
dts_from_lem :
    (es : List SttsEntry) (dts s : ℕ)
    → dts + time_all es < u64_mod
    → dts_from es dts s ≡ dts + time_of es s
unfolding dts_from
dts_from_lem [] dts s h = omega arith
dts_from_lem (e ∷ es) dts s h = elim (Bool-cases (leb s e.sample_count)) [
  | inl t ↦
      let most = mul-le-mul_right {m = s} {n = e.sample_count} e.sample_delta (leb→le _ _ t) in
      rw t (mod-eq_of_lt (omega arith))
  | inr f ↦
      let own : (dts + e.sample_count * e.sample_delta) % u64_mod
          ≡ dts + e.sample_count * e.sample_delta =
        mod-eq_of_lt (omega arith) in
      let rest =
        dts_from_lem es (dts + e.sample_count * e.sample_delta) (s - e.sample_count)
          (omega arith) in
      rw (f, own, rest) (omega arith)
]

sub_u64-exact : (a b : ℕ) → b ≤ a → a < u64_mod → sub_u64 a b ≡ a - b
sub_u64-exact a b h small = omega arith

-- The loop in the program computes the sample, where counts are `u32` and times `u64` values.
sample_from_lem :
    (es : List SttsEntry) (dts sample target : ℕ)
    → dts + time_all es < u64_mod
    → sample + count_all es < u32_mod
    → dts ≤ target
    → target < u64_mod
    → sample_from es dts sample target ≡ sample + sample_of es (target - dts)
unfolding sample_from
sample_from_lem [] dts sample target h k le small = omega arith
sample_from_lem (e ∷ es) dts sample target h k le small =
    let own : (dts + e.sample_count * e.sample_delta) % u64_mod
        ≡ dts + e.sample_count * e.sample_delta =
      mod-eq_of_lt (omega arith) in
    elim (Bool-cases (ltb target (dts + e.sample_count * e.sample_delta))) [
      | inl t ↦
          let inside : target - dts < e.sample_count * e.sample_delta = ground arith in
          let here = lt→ltb _ _ inside in
          let parts = div-below (target - dts) e.sample_count e.sample_delta inside in
          let positive = lt→ltb _ _ parts.3 in
          let exact = sub_u64-exact target dts le small in
          let part : (target - dts) / e.sample_delta % u32_mod ≡ (target - dts) / e.sample_delta =
            mod-eq_of_lt (omega (arith, parts.0)) in
          rw (own, t, positive, exact, part, here) (mod-eq_of_lt (omega (arith, parts.0)))
      | inr f ↦
          let after : ltb (target - dts) (e.sample_count * e.sample_delta) ≡ false = ground arith in
          let count : (sample + e.sample_count) % u32_mod ≡ sample + e.sample_count =
            mod-eq_of_lt (omega arith) in
          let late : dts + e.sample_count * e.sample_delta ≤ target = ground arith in
          let rest =
            sample_from_lem es (dts + e.sample_count * e.sample_delta) (sample + e.sample_count)
              target (omega arith) (omega arith) late small in
          let left : target - (dts + e.sample_count * e.sample_delta)
              ≡ target - dts - e.sample_count * e.sample_delta =
            omega arith in
          rw (own, f, count, rest, after, left) (omega arith)
    ]

sample_of-le : (es : List SttsEntry) (t : ℕ) → sample_of es t ≤ count_all es
sample_of-le [] t = omega arith
sample_of-le (e ∷ es) t = elim (Bool-cases (ltb t (e.sample_count * e.sample_delta))) [
  | inl b ↦
      let parts = div-below t e.sample_count e.sample_delta (ltb→lt _ _ b) in
      rw b (omega (arith, parts.0))
  | inr f ↦ let rest = sample_of-le es (t - e.sample_count * e.sample_delta) in rw f (omega arith)
]

time_of-zero : (es : List SttsEntry) → time_of es 0 ≡ 0
time_of-zero [] = refl
time_of-zero (e ∷ es) = let own : leb 0 e.sample_count ≡ true = ground arith in rw own (omega arith)

-- A sample after the entry's own
time_of-shift :
    (e : SttsEntry) (es : List SttsEntry) (i : ℕ)
    → time_of (e ∷ es) (e.sample_count + i) ≡ e.sample_count * e.sample_delta + time_of es i
time_of-shift e es zero =
    let own : leb (e.sample_count + 0) e.sample_count ≡ true = ground arith in
    let same : e.sample_count + 0 ≡ e.sample_count = omega arith in
    rw (own, time_of-zero es, same) (omega arith)
time_of-shift e es (suc i) =
    let after : leb (e.sample_count + suc i) e.sample_count ≡ false = ground arith in
    let left : e.sample_count + suc i - e.sample_count ≡ suc i = omega arith in
    rw (after, left) refl

-- The sample of a time starts at the time or before it.
time_of-sample_of : (es : List SttsEntry) (t : ℕ) → time_of es (sample_of es t) ≤ t
time_of-sample_of [] t = omega arith
time_of-sample_of (e ∷ es) t = elim (Bool-cases (ltb t (e.sample_count * e.sample_delta))) [
  | inl b ↦
      let parts = div-below t e.sample_count e.sample_delta (ltb→lt _ _ b) in
      let own : leb (t / e.sample_delta) e.sample_count ≡ true =
        le→leb _ _ (omega (arith, parts.0)) in
      rw (b, own) parts.1
  | inr f ↦
      let rest = time_of-sample_of es (t - e.sample_count * e.sample_delta) in
      let late : e.sample_count * e.sample_delta ≤ t = ground arith in
      let shift = time_of-shift e es (sample_of es (t - e.sample_count * e.sample_delta)) in
      rw (f, shift) (omega arith)
]

-- A later sample of the table starts after the time.
time_of-later :
    (es : List SttsEntry) (t s : ℕ) → sample_of es t < s → s ≤ count_all es → t < time_of es s
time_of-later [] t s h le = absurd (omega arith)
time_of-later (e ∷ es) t s h le = elim (Bool-cases (ltb t (e.sample_count * e.sample_delta))) [
  | inl b ↦
      let whole = ltb→lt _ _ b in
      let parts = div-below t e.sample_count e.sample_delta whole in
      let above : t / e.sample_delta < s = rw b at h in
      let most = mul-le-mul_right {m = suc (t / e.sample_delta)} {n = s} e.sample_delta above in
      elim (Bool-cases (leb s e.sample_count)) [
        | inl own ↦ rw own (omega (arith, parts.2))
        | inr n ↦ rw n (omega arith)
      ]
  | inr f ↦
      let above : e.sample_count + sample_of es (t - e.sample_count * e.sample_delta) < s =
        rw f at h in
      let late : e.sample_count * e.sample_delta ≤ t = ground arith in
      let rest =
        time_of-later es (t - e.sample_count * e.sample_delta) (s - e.sample_count) (omega arith)
          (omega arith) in
      let place : s ≡ e.sample_count + (s - e.sample_count) = omega arith in
      let shift = time_of-shift e es (s - e.sample_count) in rw (place, shift) (omega arith)
]

-- Of a table whose samples and times fit in `u32` and `u64`, the sample of a time is one of the table
-- or the number of its samples, its own time is not after the given time, and every later sample
-- up to the end of the table has a later time: it is the last sample at or before the time.
pub dts_to_sample-last :
    (stts : List SttsEntry) (target_dts : ℕ)
    → count_all stts < u32_mod
    → time_all stts < u64_mod
    → target_dts < u64_mod
    → (dts_to_sample stts target_dts ≤ count_all stts)
      × (sample_to_dts stts (dts_to_sample stts target_dts) ≤ target_dts)
      × ((s : ℕ)
          → dts_to_sample stts target_dts < s
          → s ≤ count_all stts
          → target_dts < sample_to_dts stts s)
unfolding dts_to_sample sample_to_dts
dts_to_sample-last stts target_dts counts times small =
    let whole : target_dts - 0 ≡ target_dts = omega arith in
    let sample : sample_from stts 0 0 target_dts ≡ sample_of stts target_dts =
      sample_from_lem stts 0 0 target_dts (omega arith) (omega arith) (omega arith) small
      ∙ rw whole (omega arith) in
    let at : (s : ℕ) → dts_from stts 0 s ≡ time_of stts s =
      λ s. dts_from_lem stts 0 s (omega arith) ∙ omega arith in
    rw (sample, at (sample_of stts target_dts))
      (
        sample_of-le stts target_dts,
        time_of-sample_of stts target_dts,
        λ s h le. rw (at s) (time_of-later stts target_dts s h le),
      )
