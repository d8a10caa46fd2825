-- ===== src/Cc/Tests.antt =====
-- Runs of the rate limiter, and its theorems at inputs that meet their hypotheses. The cache is a
-- function from keys to values with their ends, and a tag is the length of what it signs.
use nozdormu.Prelude.{
  ℕ, zero, suc, ◌+◌, ◌-◌, ◌≤◌, ◌<◌, ◌≡◌, ◌≢◌, ◌↔◌, refl, ap, true, false, Option, none, some, [],
  ◌∷◌, ◌++◌, ltb, ◌==◌, if◌then◌else◌, length, replicate, length-replicate, min, arith,
}
use nozdormu.Prelude.Text.{Text, codes, text_eq, text_eq_iff, byte_len, Lacks}
use nozdormu.Cc.{block, ip_path, CcConfig, make_counter_key, match_rule}
use nozdormu.Cc.State.{TtlCache, new}
use nozdormu.Cc.Token.{Signing, payload, issue, verify, verify-issue_iff, challenge_validity_secs}
use nozdormu.Cc.Page.{
  challenge_html-literal, read_literal, plain, challenge_html, page_opening, escape, page_script,
  cookie_name, attributes,
}
use nozdormu.Cc.Check.{CcEngine, Request, terms_of, extract_challenge_cookie}
use nozdormu.Cc.Limit.{allowed_all, check_limits}

module _ (V : Type 0) where
  abbrev Entries : Type 0
  Entries = Text → Option (ℕ × V)

module _ {V : Type 0} where
  abbrev alive : ℕ → Option (ℕ × V) → Option V
  alive t none = none
  alive t (some (end, v)) = if ltb t end then some v else none

  abbrev write : Text → Option (ℕ × V) → Entries V → Entries V
  write k e c = λ j. if text_eq k j then e else c j

  get_self :
      (now t ttl : ℕ) (k : Text) (v : V) (c : Entries V)
      → t < now + ttl
      → alive t (write k (some (now + ttl, v)) c k) ≡ some v
  get_self now t ttl k v c h = ground (arith, text_eq_iff k k)

  get_expired :
      (now t ttl : ℕ) (k : Text) (v : V) (c : Entries V)
      → now + ttl ≤ t
      → alive t (write k (some (now + ttl, v)) c k) ≡ none
  get_expired now t ttl k v c h = ground (arith, text_eq_iff k k)

  get_other :
      (t : ℕ) (k j : Text) (e : Option (ℕ × V)) (c : Entries V)
      → k ≢ j
      → alive t (write k e c j) ≡ alive t (c j)
  get_other t k j e c h = ground (arith, text_eq_iff k j)

  get_deleted : (t : ℕ) (k : Text) (c : Entries V) → alive t (write k none c k) ≡ none
  get_deleted t k c = ground (arith, text_eq_iff k k)

  abbrev cache : TtlCache V
  cache = record {
    Cache = Entries V;
    empty = λ k. none;
    get = λ t k c. alive t (c k);
    put = λ now k ttl v c. write k (some (now + ttl, v)) c;
    delete = λ k c. write k none c;
    get-empty = λ t k. refl;
    get-put_self = λ now t ttl k v c _ _ h. get_self now t ttl k v c h;
    get-put_expired = λ now t ttl k v c _ h. get_expired now t ttl k v c h;
    get-put_other = λ now t ttl k j v c h. get_other t k j (some (now + ttl, v)) c h;
    get-delete = get_deleted;
  }

replicate-Lacks : (n : ℕ) → Lacks b'|' (replicate n b'a')
replicate-Lacks zero = tt
replicate-Lacks (suc n) = (ground arith, replicate-Lacks n)

verify_length : (p : Text) (n : ℕ) → ((n == byte_len p) ≡ true) ↔ (n ≡ byte_len p)
verify_length p n = ground arith

abbrev signing : Signing
signing = record {
  Tag = ℕ;
  sign = byte_len;
  verify = λ p n. n == byte_len p;
  encode = λ n. replicate n b'a';
  decode = λ t. some (length t);
  verify_iff = verify_length;
  decode-encode = λ n. ap some (length-replicate n b'a');
  encode-Lacks = replicate-Lacks;
}

abbrev checksum : Text → ℕ
checksum t = 0xab

abbrev engine : CcEngine
engine = record {
  default_rate = 5;
  default_window = 60;
  default_block_duration = 600;
  redis = false;
}

abbrev config : CcConfig
config = record {
  enabled = true;
  default_rate = 0;
  default_window = 0;
  default_block_duration = 0;
  default_action = block;
  rules =
      record {
        path = codes "/api";
        rate = 2;
        window = 60;
        block_duration = 600;
        action = block;
        key_type = ip_path;
      }
      ∷ [];
}

abbrev request : Request
request = record {
  client_ip = codes "1.2.3.4";
  uri = codes "/api?q=1";
  path = codes "/api";
  cookie_header = none;
  site_id = codes "s";
}

key :
    make_counter_key checksum (codes "s") (codes "1.2.3.4") [] [] ip_path
    ≡ codes "nozdormu:cc:counter:s:1.2.3.4:000000ab"
unfolding make_counter_key
key = refl

cookie :
    extract_challenge_cookie (some (codes "a=1; __cc_challenge=tok|5; b=2")) ≡ some (codes "tok|5")
unfolding extract_challenge_cookie
cookie = refl

check_limits_example :
    allowed_all cache cache signing checksum engine config request
      ((7, 0) ∷ (8, 0) ∷ (8, 1) ∷ (9, 1) ∷ [])
      (new cache cache)
    ≡ replicate (min 2 4) true ++ replicate (4 - 2) false
unfolding match_rule terms_of
check_limits_example =
    check_limits cache cache signing checksum engine config request refl refl 7 0
      ((8, 0) ∷ (8, 1) ∷ (9, 1) ∷ []) (new cache cache) (λ u lo. refl) refl (ground arith)
      (ground arith)

verify-issue_iff_example :
    (verify signing 200 (codes "1.2.3.4") (issue signing 100 (codes "1.2.3.4")) ≡ true) ↔ (
      (200 - 100 ≤ challenge_validity_secs)
      × (byte_len (payload (codes "1.2.3.4") 100) ≡ byte_len (payload (codes "1.2.3.4") 100)))
verify-issue_iff_example =
    verify-issue_iff signing 100 200 (codes "1.2.3.4") (codes "1.2.3.4") (ground arith)

challenge_html-literal_example :
    (body : Text) × (challenge_html (codes "a\"</script>") ≡ page_opening ++ (b'"' ∷ body))
    × (read_literal plain body
        ≡ some (cookie_name ++ (codes "=" ++ (codes "a\"</script>" ++ attributes)), page_script))
    × Lacks b'<' (escape (codes "a\"</script>"))
challenge_html-literal_example = challenge_html-literal (codes "a\"</script>")
