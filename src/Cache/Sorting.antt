-- ===== src/Cache/Sorting.antt =====
-- The sorted query string is canonical (key.rs, `sort_query`).
use nozdormu.Prelude.{
  ℕ, ◌≡◌, ◌≢◌, ◌↔◌, inl, inr, refl, sym, ap, ap₂, ◌∙◌, subst, true, false, ◌==◌, List, [], ◌∷◌,
  ◌++◌, All, arith, Bool-cases,
}
use mathlib.Core.List.{Permᴰ}
use mathlib.Core.List.Permᴰ
use nozdormu.Prelude.Text.{Text, split, join, push_head, Lacks, split-ne-nil}
use nozdormu.Cache.Key.{text_leb, insert_param, sort_params, sort_query}

text_leb_total : (s t : Text) → text_leb s t ≡ false → text_leb t s ≡ true
unfolding text_leb
text_leb_total [] t h = ground arith
text_leb_total (a ∷ s) [] h = refl
text_leb_total (a ∷ s) (b ∷ t) h = ground (arith, text_leb_total s t)

text_leb_antisym : (s t : Text) → text_leb s t ≡ true → text_leb t s ≡ true → s ≡ t
unfolding text_leb
text_leb_antisym [] [] h k = refl
text_leb_antisym [] (b ∷ t) h k = ground arith
text_leb_antisym (a ∷ s) [] h k = ground arith
text_leb_antisym (a ∷ s) (b ∷ t) h k = ground (arith, text_leb_antisym s t)

text_leb_trans : (s t u : Text) → text_leb s t ≡ true → text_leb t u ≡ true → text_leb s u ≡ true
unfolding text_leb
text_leb_trans [] t u h k = refl
text_leb_trans (a ∷ s) [] u h k = ground arith
text_leb_trans (a ∷ s) (b ∷ t) [] h k = ground arith
text_leb_trans (a ∷ s) (b ∷ t) (c ∷ u) h k = ground (arith, text_leb_trans s t u)

insert_sorted_comm :
    (a b : Text) (ps : List Text)
    → insert_param a (insert_param b ps) ≡ insert_param b (insert_param a ps)
unfolding insert_param
insert_sorted_comm a b [] =
    ground (arith, text_leb_total a b, text_leb_total b a, text_leb_antisym a b)
insert_sorted_comm a b (c ∷ ps) = ground (
  arith,
  text_leb_total a b,
  text_leb_total b a,
  text_leb_antisym a b,
  text_leb_trans a b c,
  text_leb_trans b a c,
  insert_sorted_comm a b ps,
)

-- Sorting forgets the order of what it sorts.
sort_params-perm : {ps qs : List Text} → Permᴰ ps qs → sort_params ps ≡ sort_params qs
unfolding sort_params
sort_params-perm Permᴰ.nil = refl
sort_params-perm (Permᴰ.cons e d) = ap₂ insert_param e (sort_params-perm d)
sort_params-perm (Permᴰ.swap {a = a} {b = b} {l = l} e f) =
    insert_sorted_comm a b (sort_params l)
    ∙ ap₂ (λ x y. insert_param x (insert_param y (sort_params l))) f e
sort_params-perm (Permᴰ.trans d d') = sort_params-perm d ∙ sort_params-perm d'

insert_param-perm : (p : Text) (qs : List Text) → Permᴰ (p ∷ qs) (insert_param p qs)
unfolding insert_param
insert_param-perm p [] = Permᴰ.refl (p ∷ [])
insert_param-perm p (q ∷ qs) = elim (Bool-cases (text_leb p q)) [
  | inl le ↦ rw le (Permᴰ.refl (p ∷ q ∷ qs))
  | inr gt ↦ rw gt (Permᴰ.trans (Permᴰ.swap refl refl) (Permᴰ.cons refl (insert_param-perm p qs)))
]

sort_params-permutes : (ps : List Text) → Permᴰ ps (sort_params ps)
unfolding sort_params
sort_params-permutes [] = Permᴰ.nil
sort_params-permutes (p ∷ ps) =
    Permᴰ.trans (Permᴰ.cons refl (sort_params-permutes ps)) (insert_param-perm p (sort_params ps))

push_head-Lacks :
    (sep c : ℕ) (ps : List Text) → c ≢ sep → All (Lacks sep) ps → All (Lacks sep) (push_head c ps)
push_head-Lacks sep c [] h a = ((h, tt), tt)
push_head-Lacks sep c (p ∷ ps) h a = ((h, a.0), a.1)

-- The parts of a text have no separator.
split-Lacks : (sep : ℕ) (s : Text) → All (Lacks sep) (split sep s)
unfolding split
split-Lacks sep [] = (tt, tt)
split-Lacks sep (c ∷ s) = elim (Bool-cases (c == sep)) [
  | inl cut ↦ rw cut (tt, split-Lacks sep s)
  | inr other ↦ rw other (push_head-Lacks sep c (split sep s) (ground arith) (split-Lacks sep s))
]

pub split_of_Lacks : (sep : ℕ) (p : Text) → Lacks sep p → split sep p ≡ p ∷ []
unfolding split
split_of_Lacks sep [] h = refl
split_of_Lacks sep (c ∷ p) h = ground (arith, split_of_Lacks sep p)

pub split-append :
    (sep : ℕ) (p s : Text) → Lacks sep p → split sep (p ++ (sep ∷ s)) ≡ p ∷ split sep s
unfolding split
split-append sep [] s h = ground arith
split-append sep (c ∷ p) s h = ground (arith, split-append sep p s)

-- Splitting undoes joining.
split-join :
    (sep : ℕ) (p : Text) (ps : List Text)
    → All (Lacks sep) (p ∷ ps)
    → split sep (join sep (p ∷ ps)) ≡ p ∷ ps
unfolding join
split-join sep p [] h = split_of_Lacks sep p h.0
split-join sep p (q ∷ ps) h =
    split-append sep p (join sep (q ∷ ps)) h.0 ∙ ap (λ t. p ∷ t) (split-join sep q ps h.1)

split-join_of_ne :
    (sep : ℕ) (ps : List Text) → ps ≢ [] → All (Lacks sep) ps → split sep (join sep ps) ≡ ps
split-join_of_ne sep [] h a = absurd (h refl)
split-join_of_ne sep (p ∷ ps) h a = split-join sep p ps a

insert_param-All :
    (P : Text → Type 0) (p : Text) (qs : List Text) → P p → All P qs → All P (insert_param p qs)
unfolding insert_param
insert_param-All P p [] h a = (h, tt)
insert_param-All P p (q ∷ qs) h a = elim (Bool-cases (text_leb p q)) [
  | inl le ↦ rw le (h, a)
  | inr gt ↦ rw gt (a.0, insert_param-All P p qs h a.1)
]

sort_params-All : (P : Text → Type 0) (ps : List Text) → All P ps → All P (sort_params ps)
unfolding sort_params
sort_params-All P [] a = tt
sort_params-All P (p ∷ ps) a = insert_param-All P p (sort_params ps) a.0 (sort_params-All P ps a.1)

insert_param-ne-nil : (p : Text) (qs : List Text) → insert_param p qs ≢ []
unfolding insert_param
insert_param-ne-nil p [] = ground arith
insert_param-ne-nil p (q ∷ qs) = ground arith

sort_params-ne-nil : (ps : List Text) → ps ≢ [] → sort_params ps ≢ []
unfolding sort_params insert_param
sort_params-ne-nil [] h = λ e. h refl
sort_params-ne-nil (p ∷ ps) h = insert_param-ne-nil p (sort_params ps)

-- The parts of a sorted query are the sorted parts of the query.
split-sort_query : (q : Text) → split b'&' (sort_query q) ≡ sort_params (split b'&' q)
unfolding sort_query
split-sort_query q =
    split-join_of_ne b'&' (sort_params (split b'&' q))
      (sort_params-ne-nil (split b'&' q) (split-ne-nil b'&' q))
      (sort_params-All (Lacks b'&') (split b'&' q) (split-Lacks b'&' q))

-- Two query strings are sorted to the same text exactly when they have the same parameters, each as
-- many times, in whatever order.
pub sort_query-canonical :
    (q r : Text) → (sort_query q ≡ sort_query r) ↔ Permᴰ (split b'&' q) (split b'&' r)
unfolding sort_query
sort_query-canonical q r = (
  λ e.
      let same : sort_params (split b'&' q) ≡ sort_params (split b'&' r) =
        sym (split-sort_query q) ∙ ap (split b'&') e ∙ split-sort_query r in
      Permᴰ.trans (sort_params-permutes (split b'&' q)) (
        subst (λ t. Permᴰ t (split b'&' r)) (sym same)
          (Permᴰ.symm (sort_params-permutes (split b'&' r)))),
  λ d. ap (join b'&') (sort_params-perm d),
)
