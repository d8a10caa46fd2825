-- ===== src/Cache/Key.antt =====
-- The cache key and the object path: key.rs. The parameter `md5_hex` is the printed MD5 digest of the
-- md-5 crate; the updates of the hasher are the pieces of one text.
use nozdormu.Prelude.{
  ℕ, ◌-◌, Bool, true, false, ◌&&◌, ◌||◌, Option, none, some, List, [], ◌∷◌, ◌++◌, map, ltb, leb,
  ◌==◌, if◌then◌else◌, ◌>>=◌,
}
use nozdormu.Prelude.Text.{
  Text, codes, text_eq, contains_char, contains, lower, split, join, char_len, byte_len,
}

-- The order of `str`: that of its bytes is that of its code points.
unfoldable pub text_leb : Text → Text → Bool
text_leb [] t = true
text_leb (a ∷ s) [] = false
text_leb (a ∷ s) (b ∷ t) = ltb a b || (a == b && text_leb s t)

unfoldable pub insert_param : Text → List Text → List Text
insert_param p [] = p ∷ []
insert_param p (q ∷ qs) =
    let rest = insert_param p qs in if text_leb p q then p ∷ q ∷ qs else q ∷ rest

-- `params.sort()`, a stable sort
unfoldable pub sort_params : List Text → List Text
unfolding insert_param
sort_params [] = []
sort_params (p ∷ ps) = insert_param p (sort_params ps)

unfoldable pub sort_query : Text → Text
unfolding sort_params text_leb split join
sort_query qs = join b'&' (sort_params (split b'&' qs))

-- The arguments' part of the hashed text
unfoldable pub args_part : Option Text → Bool → Text
unfolding sort_query
args_part none sort_query_string = []
args_part (some qs) sort_query_string =
    if text_eq qs [] then [] else if sort_query_string then sort_query qs else qs

-- The part of the headers that the response varies on: `name=value`, joined by `&`
unfoldable pub vary_part : List (Text × Text) → Text
unfolding join
vary_part vary_headers = join b'&' (map (λ h. lower h.0 ++ (b'=' ∷ h.1)) vary_headers)

-- The text that is hashed
unfoldable pub key_material : Text → Text → Text → Option Text → Bool → List (Text × Text) → Text
unfolding args_part vary_part
key_material site_id host path query_string sort_query_string vary_headers =
    site_id
    ++ (b':'
        ∷ (host
            ++ (b':'
                ∷ (path
                    ++ (b':'
                        ∷ (args_part query_string sort_query_string
                            ++ (b':' ∷ vary_part vary_headers)))))))

unfoldable pub generate_cache_key :
    (Text → Text) → Text → Text → Text → Option Text → Bool → List (Text × Text) → Text
unfolding key_material
generate_cache_key md5_hex site_id host path query_string sort_query_string vary_headers =
    md5_hex (key_material site_id host path query_string sort_query_string vary_headers)

-- `&s[..n]`; `none` is the panic inside a character, or past the end.
unfoldable pub byte_prefix : ℕ → Text → Option Text
byte_prefix n [] = if n == 0 then some [] else none
byte_prefix n (c ∷ s) =
    let rest = byte_prefix (n - char_len c) s in
    if n == 0 then some [] else if ltb n (char_len c) then none else (rest >>= λ p. some (c ∷ p))

unfoldable pub safe_site_id : Text → Text
safe_site_id site_id =
    if contains_char b'/' site_id
      || contains_char b'\\' site_id
      || contains (codes "..") site_id
      || text_eq site_id []
    then codes "_invalid_"
    else site_id

-- `none` is a panic.
unfoldable pub cache_object_path : Text → Text → Option Text
unfolding safe_site_id byte_prefix
cache_object_path site_id key =
    (if leb 2 (byte_len key) then byte_prefix 2 key else some key) >>= λ prefix.
    some (codes "cache/" ++ (safe_site_id site_id ++ (b'/' ∷ (prefix ++ (b'/' ∷ key)))))
