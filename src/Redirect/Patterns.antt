-- ===== src/Redirect/Patterns.antt =====
-- The cache of patterns of redirect/url.rs: its eviction ends.
use nozdormu.Prelude.{
  ◌≡◌, refl, ◌∙◌, Bool, true, ◌||◌, Option, none, some, List, [], ◌∷◌, ◌++◌, any, leb, length, All,
  arith, Bool-cases, Option-cases, inl, inr,
}
use nozdormu.Prelude.Text.{Text, text_eq, text_eq_iff}
use nozdormu.Prelude.Map.{lookup, insert, remove}
use nozdormu.Cache.Regexes.{RegexCache, capacity, evict, store}
use nozdormu.Redirect.Url.{promote, get_or_compile_promoted}

any-append : (p : Text → Bool) (xs ys : List Text) → any p (xs ++ ys) ≡ (any p xs || any p ys)
any-append p [] ys = refl
any-append p (x ∷ xs) ys = ground (arith, any-append p xs ys)

any-promote :
    (j p : Text) (order : List Text)
    → any (text_eq j) order ≡ true
    → any (text_eq j) (promote p order) ≡ true
unfolding promote
any-promote j p [] h = h
any-promote j p (k ∷ order) h = elim (Bool-cases (text_eq k p)) [
  | inl t ↦ rw t (
      any-append (text_eq j) order (p ∷ [])
      ∙ ground (arith, h, text_eq_iff k p, text_eq_iff j k, text_eq_iff j p))
  | inr f ↦ rw f (ground (arith, h, any-promote j p order))
]

module _ {Re : Type 0} where
  -- Every pattern of the map is in the queue.
  abbrev pub Covered : List (Text × Re) → List Text → Type 0
  Covered m order = All (λ e. any (text_eq e.0) order ≡ true) m

  Covered-remove :
      (k : Text) (m : List (Text × Re)) (order : List Text)
      → Covered m (k ∷ order)
      → Covered (remove k m) order
  unfolding remove
  Covered-remove k [] order h = tt
  Covered-remove k ((j, re) ∷ m) order h = elim (Bool-cases (text_eq j k)) [
    | inl t ↦ rw t (Covered-remove k m order h.1)
    | inr f ↦ rw f (rw f at h.0, Covered-remove k m order h.1)
  ]

  Covered-append :
      (m : List (Text × Re)) (order : List Text) (p : Text)
      → Covered m order
      → Covered m (order ++ (p ∷ []))
  Covered-append [] order p h = tt
  Covered-append ((j, re) ∷ m) order p h =
      (any-append (text_eq j) order (p ∷ []) ∙ rw h.0 refl, Covered-append m order p h.1)

  Covered-insert :
      (p : Text) (re : Re) (m : List (Text × Re)) (order : List Text)
      → Covered m order
      → Covered (insert p re m) (order ++ (p ∷ []))
  unfolding insert
  Covered-insert p re [] order h =
      let same = (text_eq_iff p p).1 refl in
      (any-append (text_eq p) order (p ∷ []) ∙ ground (arith, same), tt)
  Covered-insert p re ((j, r) ∷ m) order h = elim (Bool-cases (text_eq j p)) [
    | inl t ↦
        let same = (text_eq_iff p p).1 refl in
        rw t (
          any-append (text_eq p) order (p ∷ []) ∙ ground (arith, same),
          Covered-append m order p h.1,
        )
    | inr f ↦
        rw f (any-append (text_eq j) order (p ∷ []) ∙ rw h.0 refl, Covered-insert p re m order h.1)
  ]

  Covered-promote :
      (p : Text) (m : List (Text × Re)) (order : List Text)
      → Covered m order
      → Covered m (promote p order)
  Covered-promote p [] order h = tt
  Covered-promote p ((j, re) ∷ m) order h =
      (any-promote j p order h.0, Covered-promote p m order h.1)

  evict-Covered :
      (m : List (Text × Re)) (order : List Text)
      → Covered m order
      → (m' : List (Text × Re)) × (order' : List Text) × (evict m order ≡ some (m', order'))
        × Covered m' order'
  unfolding evict
  evict-Covered [] [] h = ([], [], refl, tt)
  evict-Covered (e ∷ m) [] h = absurd (cc h.0)
  evict-Covered m (k ∷ order) h = elim (Bool-cases (leb capacity (length m))) [
    | inl full ↦
        let (m', order', ends, covered) =
          evict-Covered (remove k m) order (Covered-remove k m order h) in
        (m', order', rw full ends, covered)
    | inr room ↦ (m, k ∷ order, rw room refl, h)
  ]

module _ {Re : Type 0} (compile : Text → Option Re) where
  -- The call returns, and the cache that it leaves is covered again.
  pub get_or_compile_promoted-Covered :
      (pattern : Text) (cache : RegexCache Re)
      → Covered cache.entries cache.order
      → (found : Option Re) × (cache' : RegexCache Re) × (get_or_compile_promoted compile pattern
            cache
          ≡ some (found, cache'))
        × Covered cache'.entries cache'.order
  unfolding get_or_compile_promoted store
  get_or_compile_promoted-Covered pattern cache h =
      elim (Option-cases (lookup pattern cache.entries)) [
        | inr (re, hit) ↦ (
          some re,
          record cache { order = promote pattern cache.order },
          rw (hit, get_or_compile_promoted) refl,
          Covered-promote pattern cache.entries cache.order h,
        )
        | inl miss ↦ elim (Option-cases (compile pattern)) [
          | inl bad ↦ (none, cache, rw (miss, get_or_compile_promoted, bad) refl, h)
          | inr (re, good) ↦
              let (m, order, ends, covered) = evict-Covered cache.entries cache.order h in
              (
                some re,
                record { entries = insert pattern re m; order = order ++ (pattern ∷ []) },
                rw (miss, get_or_compile_promoted, good, ends) refl,
                Covered-insert pattern re m order covered,
              )
        ]
      ]
