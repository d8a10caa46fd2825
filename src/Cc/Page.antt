-- ===== src/Cc/Page.antt =====
-- The page of the JS challenge: action.rs, `challenge_html`. The reader of a JavaScript string
-- literal, in double quotes, is this file's own: it is what a browser does with the page.
use nozdormu.Prelude.{
  ℕ, ◌+◌, ◌-◌, ◌*◌, ◌≡◌, ◌≢◌, refl, ap, ◌∙◌, Option, none, some, [], ◌∷◌, ◌++◌, leb, ◌==◌,
  if◌then◌else◌, All, All-append, arith, append_assoc, sym,
}
use nozdormu.Prelude.Text.{Text, codes, Lacks}
use nozdormu.Prelude.Decimal.{format}
use nozdormu.Cc.Token.{challenge_validity_secs}

abbrev pub cookie_name : Text
cookie_name = codes "__cc_challenge"

unfoldable pub escape_char : ℕ → Text
escape_char c =
    if c == b'\\'
    then b'\\' ∷ b'\\' ∷ []
    else if c == b'"'
    then b'\\' ∷ b'"' ∷ []
    else if c == b'\''
    then b'\\' ∷ b'\'' ∷ []
    else if c == b'<'
    then b'\\' ∷ b'x' ∷ b'3' ∷ b'c' ∷ []
    else if c == b'>'
    then b'\\' ∷ b'x' ∷ b'3' ∷ b'e' ∷ []
    else if c == 10
    then b'\\' ∷ b'n' ∷ []
    else if c == 13
    then b'\\' ∷ b'r' ∷ []
    else if c == b'/'
    then b'\\' ∷ b'/' ∷ []
    else c ∷ []

-- `flat_map` over the characters
unfoldable pub escape : Text → Text
unfolding escape_char
escape [] = []
escape (c ∷ s) = escape_char c ++ escape s

-- The page up to the literal that is assigned to the cookie
abbrev pub page_opening : Text
page_opening =
    codes "<!DOCTYPE html>"
    ++ (10 ∷ codes "<html>"
        ++ (10 ∷ codes "<head><title>Security Check</title></head>"
            ++ (10 ∷ codes "<body>"
                ++ (10 ∷ codes "<noscript><p>Please enable JavaScript to continue.</p></noscript>"
                    ++ (10 ∷ codes "<script>" ++ (10 ∷ codes "document.cookie="))))))

-- The cookie's attributes
abbrev pub attributes : Text
attributes =
    codes "; path=/; max-age=" ++ (format challenge_validity_secs ++ codes "; SameSite=Lax")

-- The page after the literal
abbrev pub page_script : Text
page_script =
    59 ∷ 10 ∷ codes "location.reload();"
    ++ (10 ∷ codes "</script>" ++ (10 ∷ codes "</body>" ++ (10 ∷ codes "</html>")))

-- The literal, between its quotes
unfoldable pub literal : Text → Text
unfolding escape
literal cookie_value = cookie_name ++ (codes "=" ++ (escape cookie_value ++ attributes))

unfoldable pub challenge_html : Text → Text
unfolding literal
challenge_html cookie_value =
    page_opening ++ (b'"' ∷ (literal cookie_value ++ (b'"' ∷ page_script)))

-- Where a reader of a literal stands: between characters, or inside an escape
pub data Mode : Type 0 where
  plain escaped hex_first : Mode
  hex_second : ℕ → Mode

abbrev hex_value : ℕ → ℕ
hex_value c = if leb c b'9' then c - b'0' else c - b'a' + 10

abbrev push_char : ℕ → Option (Text × Text) → Option (Text × Text)
push_char c none = none
push_char c (some (s, rest)) = some (c ∷ s, rest)

-- The value of a literal whose opening quote was read, and what follows its closing quote
pub read_literal : Mode → Text → Option (Text × Text)
read_literal mode [] = none
read_literal plain (c ∷ s) =
    let after = read_literal escaped s in
    let more = push_char c (read_literal plain s) in
    if c == b'"'
    then some ([], s)
    else if c == b'\\'
    then after
    else if c == 10
    then none
    else if c == 13
    then none
    else more
read_literal escaped (c ∷ s) =
    let hexadecimal = read_literal hex_first s in
    let next = read_literal plain s in
    if c == b'x'
    then hexadecimal
    else push_char (if c == b'n' then 10 else if c == b'r' then 13 else c) next
read_literal hex_first (c ∷ s) = read_literal (hex_second (hex_value c)) s
read_literal (hex_second h) (c ∷ s) = push_char (h * 16 + hex_value c) (read_literal plain s)

read_literal-escape_char :
    (c : ℕ) (s : Text)
    → read_literal plain (escape_char c ++ s) ≡ push_char c (read_literal plain s)
unfolding read_literal escape_char
read_literal-escape_char c s = ground arith

read_literal_plain :
    (c : ℕ) (s : Text)
    → (c ≢ b'"') × (c ≢ b'\\') × (c ≢ 10) × (c ≢ 13)
    → read_literal plain (c ∷ s) ≡ push_char c (read_literal plain s)
unfolding read_literal
read_literal_plain c s h = ground arith

-- A text in front of the value
abbrev push_text : Text → Option (Text × Text) → Option (Text × Text)
push_text t none = none
push_text t (some (s, rest)) = some (t ++ s, rest)

push_char-push_text :
    (c : ℕ) (s : Text) (r : Option (Text × Text))
    → push_char c (push_text s r) ≡ push_text (c ∷ s) r
push_char-push_text c s none = refl
push_char-push_text c s (some (t, rest)) = refl

push_text_nil : (r : Option (Text × Text)) → push_text [] r ≡ r
push_text_nil none = refl
push_text_nil (some (t, rest)) = refl

read_literal-escape :
    (s t : Text) → read_literal plain (escape s ++ t) ≡ push_text s (read_literal plain t)
unfolding escape
read_literal-escape [] t = sym (push_text_nil (read_literal plain t))
read_literal-escape (c ∷ s) t =
    rw (append_assoc (escape_char c) (escape s) t, read_literal-escape_char c (escape s ++ t))
      (ap (push_char c) (read_literal-escape s t) ∙ push_char-push_text c s (read_literal plain t))

escape_char-Lacks : (c : ℕ) → Lacks b'<' (escape_char c)
unfolding escape_char
escape_char-Lacks c = ground arith

escape-Lacks : (s : Text) → Lacks b'<' (escape s)
unfolding escape
escape-Lacks [] = tt
escape-Lacks (c ∷ s) =
    All-append _ (escape_char c) (escape s) (escape_char-Lacks c) (escape-Lacks s)

-- A text that a literal holds as it is
abbrev IsPlain : ℕ → Type 0
IsPlain c = (c ≢ b'"') × (c ≢ b'\\') × (c ≢ 10) × (c ≢ 13)

read_literal-append :
    (p t : Text) → All IsPlain p → read_literal plain (p ++ t) ≡ push_text p (read_literal plain t)
read_literal-append [] t h = sym (push_text_nil (read_literal plain t))
read_literal-append (c ∷ p) t h =
    read_literal_plain c (p ++ t) h.0
    ∙ ap (push_char c) (read_literal-append p t h.1)
    ∙ push_char-push_text c p (read_literal plain t)

read_literal_end :
    read_literal plain (attributes ++ (b'"' ∷ page_script)) ≡ some (attributes, page_script)
unfolding read_literal format
read_literal_end = refl

-- For every cookie value, the page goes on after its opening with one string literal, which the
-- script assigns to `document.cookie`. Its value is the cookie's name and value as they are, with
-- the fixed attributes, and just the fixed end of the page follows it. What the value is written as
-- has no `<`, so that it cannot close the script.
pub challenge_html-literal :
    (cookie_value : Text)
    → (body : Text) × (challenge_html cookie_value ≡ page_opening ++ (b'"' ∷ body))
      × (read_literal plain body
          ≡ some (cookie_name ++ (codes "=" ++ (cookie_value ++ attributes)), page_script))
      × Lacks b'<' (escape cookie_value)
unfolding literal challenge_html
challenge_html-literal cookie_value =
    let after = attributes ++ (b'"' ∷ page_script) in
    let start : Text = cookie_name ++ codes "=" in
    (
      literal cookie_value ++ (b'"' ∷ page_script),
      refl,
      ap (λ t. read_literal plain (start ++ t)) (append_assoc (escape cookie_value) attributes _)
          ∙ read_literal-append start (escape cookie_value ++ after) (ground arith)
          ∙ ap (push_text start) (
              read_literal-escape cookie_value after
              ∙ ap (push_text cookie_value) read_literal_end),
      escape-Lacks cookie_value,
    )
