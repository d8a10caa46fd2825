-- ===== src/Health/Key.antt =====
-- The keys of the health map: `make_key` (health.rs).
use nozdormu.Prelude.{◌≡◌, [], ◌∷◌, arith}
use nozdormu.Prelude.Text.{Text, Lacks}
use nozdormu.Health.{make_key}

-- Two origins share an entry only if they are the same origin of the same site, as long as no site
-- id holds a NUL character.
pub make_key-injective :
    (s s' o o' : Text)
    → Lacks 0 s
    → Lacks 0 s'
    → make_key s o ≡ make_key s' o'
    → (s ≡ s') × (o ≡ o')
unfolding make_key
make_key-injective [] [] o o' h h' e = ground arith
make_key-injective [] (c ∷ s') o o' h h' e = ground arith
make_key-injective (c ∷ s) [] o o' h h' e = ground arith
make_key-injective (c ∷ s) (d ∷ s') o o' h h' e =
    ground (arith, make_key-injective s s' o o' h.1 h'.1)
