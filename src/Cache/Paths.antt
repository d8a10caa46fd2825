-- ===== src/Cache/Paths.antt =====
-- What a cache key tells apart, and where an object is stored (key.rs).
use nozdormu.Prelude.{
  ℕ, zero, suc, if◌then◌else◌, ◌||◌, ◌+◌, ◌<◌, ◌≡◌, ◌≢◌, inl, inr, refl, ap, ◌∙◌, Bool, true, false,
  Option, some, List, [], ◌∷◌, ◌++◌, All, take, arith, leb, Bool-cases,
}
use nozdormu.Prelude.Text.{
  Text, codes, text_eq, text_eq_iff, contains_char, contains_char_iff, contains, split, split_once,
  char_len, byte_len, Lacks, split_once-append,
}
use nozdormu.Cache.Key.{
  args_part, vary_part, key_material, byte_prefix, safe_site_id, cache_object_path,
}
use nozdormu.Cache.Sorting.{split-append, split_of_Lacks}

cut-injective :
    (sep : ℕ) (a b s t : Text)
    → Lacks sep a
    → Lacks sep b
    → a ++ (sep ∷ s) ≡ b ++ (sep ∷ t)
    → (a ≡ b) × (s ≡ t)
cut-injective sep a b s t h k e =
    let cuts = ap (split_once sep) e in
    let left = split_once-append sep a s h in let right = split_once-append sep b t k in (cc, cc)

-- Equal hashed texts come from the same site, host and path, where these have no colon, and from the
-- same arguments and headers taken together.
pub key_material-injective :
    (site site' host host' path path' : Text) (query query' : Option Text) (sorted sorted' : Bool)
    (vary vary' : List (Text × Text))
    → Lacks b':' site
    → Lacks b':' site'
    → Lacks b':' host
    → Lacks b':' host'
    → Lacks b':' path
    → Lacks b':' path'
    → key_material site host path query sorted vary
      ≡ key_material site' host' path' query' sorted' vary'
    → (site ≡ site')
      × (host ≡ host')
      × (path ≡ path')
      × (args_part query sorted ++ (b':' ∷ vary_part vary)
          ≡ args_part query' sorted' ++ (b':' ∷ vary_part vary'))
unfolding key_material
key_material-injective site site' host host' path path' query query' sorted sorted' vary vary' s s'
      h h' p p' e =
    let (same_site, e1) = cut-injective b':' site site' _ _ s s' e in
    let (same_host, e2) = cut-injective b':' host host' _ _ h h' e1 in
    let (same_path, e3) = cut-injective b':' path path' _ _ p p' e2 in
    (same_site, same_host, same_path, e3)

-- A site id that can stand as a folder: not empty, with no separator and no `..`.
abbrev pub IsSafe : Text → Type 0
IsSafe t = (t ≢ []) × Lacks b'/' t × Lacks b'\\' t × (contains (codes "..") t ≡ false)

safe_site_id-IsSafe : (site_id : Text) → IsSafe (safe_site_id site_id)
unfolding safe_site_id
safe_site_id-IsSafe site_id =
    elim (Bool-cases (
      contains_char b'/' site_id
      || contains_char b'\\' site_id
      || contains (codes "..") site_id
      || text_eq site_id [])) [
        | inl bad ↦ rw bad (ground arith, ground arith, ground arith, refl)
        | inr good ↦ rw good (
          ground (arith, good),
          (contains_char_iff b'/' site_id).0 (ground (arith, good)),
          (contains_char_iff b'\\' site_id).0 (ground (arith, good)),
          ground (arith, good),
        )
      ]

safe_site_id_of_IsSafe : (site_id : Text) → IsSafe site_id → safe_site_id site_id ≡ site_id
unfolding safe_site_id
safe_site_id_of_IsSafe site_id (filled, slash, backslash, dots) =
    let e = (contains_char_iff b'/' site_id).1 slash in
    let f = (contains_char_iff b'\\' site_id).1 backslash in
    ground (arith, e, f, dots, filled, text_eq_iff site_id [])

byte_prefix_zero : (s : Text) → byte_prefix 0 s ≡ some []
unfolding byte_prefix
byte_prefix_zero [] = refl
byte_prefix_zero (c ∷ s) = refl

prefix-take :
    (key : Text)
    → All (λ c. c < 128) key
    → (if leb 2 (byte_len key) then byte_prefix 2 key else some key) ≡ some (take 2 key)
unfolding byte_prefix
prefix-take [] h = refl
prefix-take (c ∷ []) h = ground arith
prefix-take (c ∷ d ∷ key) h =
    let one : char_len c ≡ 1 = ground (arith, h.0) in
    let two : char_len d ≡ 1 = ground (arith, h.1.0) in
    let le : leb 2 (1 + (1 + byte_len key)) ≡ true = ground arith in
    rw (one, two, le, byte_prefix_zero key) refl

Lacks-take : (sep : ℕ) (n : ℕ) (s : Text) → Lacks sep s → Lacks sep (take n s)
Lacks-take sep zero s h = tt
Lacks-take sep (suc n) [] h = tt
Lacks-take sep (suc n) (c ∷ s) h = (h.0, Lacks-take sep n s h.1)

-- The path of an ASCII key with no slash, as a hexadecimal digest is, is found for every site id, and
-- has just four parts: `cache`, a safe folder for the site (the site id itself where that is safe),
-- the first two characters of the key, and the key. So no site id leads out of the cache's folder.
pub cache_object_path-IsSafe :
    (site_id key : Text)
    → All (λ c. c < 128) key
    → Lacks b'/' key
    → (p : Text) × (cache_object_path site_id key ≡ some p)
      × (split b'/' p ≡ codes "cache" ∷ safe_site_id site_id ∷ take 2 key ∷ key ∷ [])
      × IsSafe (safe_site_id site_id)
      × (IsSafe site_id → safe_site_id site_id ≡ site_id)
unfolding cache_object_path
cache_object_path-IsSafe site_id key ascii clean =
    let safe = safe_site_id-IsSafe site_id in
    (
      codes "cache/" ++ (safe_site_id site_id ++ (b'/' ∷ (take 2 key ++ (b'/' ∷ key)))),
      rw (prefix-take key ascii) refl,
      split-append b'/' (codes "cache") _ (ground arith)
          ∙ ap (λ t. codes "cache" ∷ t) (split-append b'/' (safe_site_id site_id) _ safe.1)
          ∙ ap (λ t. codes "cache" ∷ safe_site_id site_id ∷ t)
              (split-append b'/' (take 2 key) key (Lacks-take b'/' 2 key clean))
          ∙ ap (λ t. codes "cache" ∷ safe_site_id site_id ∷ take 2 key ∷ t)
              (split_of_Lacks b'/' key clean),
      safe,
      safe_site_id_of_IsSafe site_id,
    )
