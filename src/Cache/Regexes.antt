-- ===== src/Cache/Regexes.antt =====
-- The cache of compiled patterns: strategy.rs, `get_or_compile_regex`. The regex crate's compiler
-- is the parameter `compile`. `none` is a loop that never ends.
use nozdormu.Prelude.{
  ℕ, suc, ◌≤◌, ◌≡◌, inl, inr, refl, sym, ap, true, false, Option, none, some, List, [], ◌∷◌, ◌++◌,
  leb, if◌then◌else◌, length, All, All-append, arith, Bool-cases, Option-cases,
}
use nozdormu.Prelude.Text.{Text, text_eq, text_eq_iff}
use nozdormu.Prelude.Map.{lookup, insert, remove}

abbrev pub capacity : ℕ
capacity = 256

pub record RegexCache (Re : Type 0) : Type 0 where
  pub entries : List (Text × Re)
  pub order : List Text

module _ {Re : Type 0} where
  -- The loop `while map.len() >= 256`: an empty queue leaves the map as it is, for ever.
  unfoldable pub evict : List (Text × Re) → List Text → Option (List (Text × Re) × List Text)
  evict m [] = if leb capacity (length m) then none else some (m, [])
  evict m (oldest ∷ order) =
      let rest = evict (remove oldest m) order in
      if leb capacity (length m) then rest else some (m, oldest ∷ order)

  -- `push_back` and `insert`, after the loop
  unfoldable pub store :
      Text → Re → Option (List (Text × Re) × List Text) → Option (Option Re × RegexCache Re)
  store pattern re none = none
  store pattern re (some (m, order)) =
      some (some re, record { entries = insert pattern re m; order = order ++ (pattern ∷ []) })

module _ {Re : Type 0} (compile : Text → Option Re) where
  unfoldable pub get_or_compile_regex : Text → RegexCache Re → Option (Option Re × RegexCache Re)
  unfolding evict store lookup insert
  get_or_compile_regex pattern cache = elim (lookup pattern cache.entries) [
    | some re ↦ some (some re, cache)
    | none ↦ elim (compile pattern) [
      | some re ↦ store pattern re (evict cache.entries cache.order)
      | none ↦ some (none, cache)
    ]
  ]

  -- The entries and the queue name the same patterns, each once and in the same order, within the
  -- capacity, and every entry is what its pattern compiles to.
  abbrev Names : List (Text × Re) → List Text → Type 0
  Names [] [] = Unit
  Names ((k, re) ∷ m) (j ∷ order) =
      (k ≡ j) × (compile k ≡ some re) × All (λ i. text_eq i k ≡ false) order × Names m order
  Names _ _ = ⊥

  abbrev pub IsValid : RegexCache Re → Type 0
  IsValid cache = Names cache.entries cache.order × (length cache.entries ≤ capacity)

  lookup-Names :
      (p : Text) (re : Re) (m : List (Text × Re)) (order : List Text)
      → Names m order
      → lookup p m ≡ some re
      → compile p ≡ some re
  unfolding lookup
  lookup-Names p re [] order h e = ground arith
  lookup-Names p re ((k, r) ∷ m) [] h e = absurd h
  lookup-Names p re ((k, r) ∷ m) (j ∷ order) h e =
      ground (arith, text_eq_iff k p, lookup-Names p re m order h.3)

  remove-Names :
      (k : Text) (m : List (Text × Re)) (order : List Text)
      → Names m order
      → All (λ i. text_eq i k ≡ false) order
      → remove k m ≡ m
  unfolding remove
  remove-Names k [] order h a = refl
  remove-Names k ((j, r) ∷ m) [] h a = absurd h
  remove-Names k ((j, r) ∷ m) (i ∷ order) h a = ground (arith, remove-Names k m order h.3 a.1)

  Names-insert :
      (p : Text) (re : Re) (m : List (Text × Re)) (order : List Text)
      → Names m order
      → lookup p m ≡ none
      → compile p ≡ some re
      → Names (insert p re m) (order ++ (p ∷ [])) × (length (insert p re m) ≡ suc (length m))
  unfolding lookup insert
  Names-insert p re [] [] h e c = ((refl, c, tt, tt), refl)
  Names-insert p re [] (j ∷ order) h e c = absurd h
  Names-insert p re ((k, r) ∷ m) [] h e c = absurd h
  Names-insert p re ((k, r) ∷ m) (j ∷ order) h e c = elim (Bool-cases (text_eq k p)) [
    | inl same ↦ absurd (ground (arith, same, e))
    | inr other ↦
        let absent : lookup p m ≡ none = ground (arith, other, e) in
        let (named, long) = Names-insert p re m order h.3 absent c in
        let fresh : text_eq p k ≡ false = ground (arith, text_eq_iff p k, text_eq_iff k p) in
        rw other ((h.0, h.1, All-append _ order (p ∷ []) h.2 (fresh, tt), named), ap suc long)
  ]

  evict_of_room :
      (m : List (Text × Re)) (order : List Text)
      → leb capacity (length m) ≡ false
      → evict m order ≡ some (m, order)
  unfolding evict
  evict_of_room m [] e = rw e
  evict_of_room m (j ∷ order) e = rw e

  -- What the loop leaves: room for one more entry, and the other patterns as they were.
  abbrev Evicted : Text → List (Text × Re) → List Text → Type 0
  Evicted p m order = Names m order × (leb capacity (length m) ≡ false) × (lookup p m ≡ none)

  evict-Evicted :
      (p : Text) (m : List (Text × Re)) (order : List Text)
      → Names m order
      → length m ≤ capacity
      → lookup p m ≡ none
      → (m' : List (Text × Re)) × (order' : List Text) × (evict m order ≡ some (m', order'))
        × Evicted p m' order'
  unfolding evict remove lookup
  evict-Evicted p [] [] h l e = ([], [], refl, (h, refl, refl))
  evict-Evicted p [] (j ∷ order) h l e = absurd h
  evict-Evicted p ((k, r) ∷ m) [] h l e = absurd h
  evict-Evicted p ((k, r) ∷ m) (j ∷ order) h l e =
      elim (Bool-cases (leb capacity (length ((k, r) ∷ m)))) [
        | inr room ↦
            ((k, r) ∷ m, j ∷ order, evict_of_room ((k, r) ∷ m) (j ∷ order) room, (h, room, e))
        | inl full ↦
            let less : leb capacity (length m) ≡ false = ground (arith, l) in
            let same : text_eq k j ≡ true = (text_eq_iff k j).1 h.0 in
            let rest : remove j m ≡ m = rw (sym h.0) (remove-Names k m order h.3 h.2) in
            (
              m,
              order,
              rw (full, same, rest) (evict_of_room m order less),
              (h.3, less, ground (arith, e)),
            )
      ]

  -- From a valid cache the call returns, its answer is what the pattern compiles to, and the cache
  -- that it leaves is valid: the cache changes no answer, never holds more than 256 patterns, and the
  -- loop of the eviction ends.
  pub get_or_compile_regex-transparent :
      (pattern : Text) (cache : RegexCache Re)
      → IsValid cache
      → (cache' : RegexCache Re) × (get_or_compile_regex pattern cache
          ≡ some (compile pattern, cache'))
        × IsValid cache'
  unfolding get_or_compile_regex store
  get_or_compile_regex-transparent pattern cache (named, bound) =
      elim (Option-cases (lookup pattern cache.entries)) [
        | inr (re, found) ↦ (
          cache,
          rw
              (
                found,
                get_or_compile_regex,
                lookup-Names pattern re cache.entries cache.order named found,
              )
              refl,
          (named, bound),
        )
        | inl absent ↦ elim (Option-cases (compile pattern)) [
          | inl bad ↦ (cache, rw (absent, get_or_compile_regex, bad) refl, (named, bound))
          | inr (re, good) ↦
              let (m, order, left, (named', room, absent')) =
                evict-Evicted pattern cache.entries cache.order named bound absent in
              let (named'', long) = Names-insert pattern re m order named' absent' good in
              (
                record { entries = insert pattern re m; order = order ++ (pattern ∷ []) },
                rw (absent, get_or_compile_regex, good, left) refl,
                (named'', ground (arith, long, room)),
              )
        ]
      ]
