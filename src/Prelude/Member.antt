-- ===== src/Prelude/Member.antt =====
-- Membership in the results of the list functions.
use Prim.Native.Nat.{ℕ, zero, suc, ◌<◌}
use mathlib.Core.Path.{◌≡◌, refl, ap, ◌∙◌}
use mathlib.Core.Bool.{Bool, true}
use mathlib.Core.Option.{some}
use mathlib.Core.Logic.{inl, inr}
use mathlib.Core.List.{List, [], ◌∷◌, Memᴰ}
use native.Mathlib.Omega.{arith}
use nozdormu.Prelude.Tests.{Bool-cases}
use nozdormu.Prelude.Lists.{get_elem?, filter, last?, length}

module _ {A : Type 0} where
  pub mem-get_elem? : (xs : List A) (i : ℕ) (x : A) → get_elem? xs i ≡ some x → Memᴰ x xs
  mem-get_elem? [] i x e = cc
  mem-get_elem? (y ∷ ys) zero x e = Memᴰ.head (ground arith)
  mem-get_elem? (y ∷ ys) (suc i) x e = Memᴰ.tail (mem-get_elem? ys i x e)

  pub mem-last? : (xs : List A) (x : A) → last? xs ≡ some x → Memᴰ x xs
  mem-last? [] x e = cc
  mem-last? (y ∷ []) x e = Memᴰ.head (ground arith)
  mem-last? (y ∷ z ∷ ys) x e = Memᴰ.tail (mem-last? (z ∷ ys) x e)

  kept_or_later :
      (p : A → Bool) (y x : A) (kept ys : List A)
      → p y ≡ true
      → (Memᴰ x kept → Memᴰ x ys × (p x ≡ true))
      → Memᴰ x (y ∷ kept)
      → Memᴰ x (y ∷ ys) × (p x ≡ true)
  kept_or_later p y x kept ys t ih (Memᴰ.head e) = (Memᴰ.head e, ap p e ∙ t)
  kept_or_later p y x kept ys t ih (Memᴰ.tail m) = (Memᴰ.tail (ih m).0, (ih m).1)

  pub mem-filter :
      (p : A → Bool) (xs : List A) (x : A) → Memᴰ x (filter p xs) → Memᴰ x xs × (p x ≡ true)
  mem-filter p [] x m = elim m [ ]
  mem-filter p (y ∷ ys) x m = elim (Bool-cases (p y)) [
    | inl t ↦ kept_or_later p y x (filter p ys) ys t (mem-filter p ys x) (rw t at m)
    | inr f ↦ let later = mem-filter p ys x (rw f at m) in (Memᴰ.tail later.0, later.1)
  ]

  pub get_elem?-lt : (xs : List A) (i : ℕ) → i < length xs → (x : A) × (get_elem? xs i ≡ some x)
  get_elem?-lt [] i h = absurd (omega arith)
  get_elem?-lt (y ∷ ys) zero h = (y, refl)
  get_elem?-lt (y ∷ ys) (suc i) h = get_elem?-lt ys i (omega arith)
