-- ===== src/Cc/Token.antt =====
-- The challenge cookie: action.rs, `ChallengeManager`. The HMAC of ring and the base64 engine are the
-- interface `Signing`, for one secret; `now` is the system's clock, in seconds.
use nozdormu.Prelude.{
  ℕ, ◌-◌, ◌≤◌, ◌<◌, ◌≡◌, ◌↔◌, Bool, true, false, Option, none, some, ◌∷◌, ◌++◌, ltb, if◌then◌else◌,
  arith,
}
use nozdormu.Prelude.Text.{Text, split_once, split_once-append, Lacks}
use nozdormu.Prelude.Decimal.{u64_mod, parse_u64, format, parse_u64-format}

pub record Signing : Type 1 where
  pub Tag : Type 0
  pub sign : Text → Tag
  pub verify : Text → Tag → Bool
  pub encode : Tag → Text
  pub decode : Text → Option Tag
  -- A tag verifies exactly when it is the one that signing gives.
  pub verify_iff : (payload : Text) (tag : Tag) → (verify payload tag ≡ true) ↔ (tag ≡ sign payload)
  pub decode-encode : (tag : Tag) → decode (encode tag) ≡ some tag
  -- The URL-safe alphabet has no vertical bar.
  pub encode-Lacks : (tag : Tag) → Lacks b'|' (encode tag)

abbrev pub challenge_validity_secs : ℕ
challenge_validity_secs = 300

-- The text that is signed: `{ip}|{timestamp}`
unfoldable pub payload : Text → ℕ → Text
payload client_ip timestamp = client_ip ++ (b'|' ∷ format timestamp)

module _ (s : Signing) where
  unfoldable pub issue : ℕ → Text → Text
  unfolding payload
  issue now client_ip = s.encode (s.sign (payload client_ip now)) ++ (b'|' ∷ format now)

  -- What follows the time stamp's parse
  unfoldable pub verify_token : ℕ → Text → Text → Option ℕ → Bool
  unfolding payload
  verify_token now client_ip token_b64 none = false
  verify_token now client_ip token_b64 (some timestamp) =
      if ltb challenge_validity_secs (now - timestamp) then false else elim (s.decode token_b64) [
        | none ↦ false
        | some token ↦ s.verify (payload client_ip timestamp) token
      ]

  unfoldable pub verify : ℕ → Text → Text → Bool
  unfolding verify_token split_once parse_u64
  verify now client_ip cookie_value = elim (split_once b'|' cookie_value) [
    | none ↦ false
    | some parts ↦ verify_token now client_ip parts.0 (parse_u64 parts.1)
  ]

  -- A cookie that was issued at one time for one address is accepted at another time, and for another
  -- address, exactly when it is not older than five minutes and the two addresses have the same tag:
  -- in particular for its own address for five minutes, and never after them.
  pub verify-issue_iff :
      (issued now : ℕ) (client_ip other_ip : Text)
      → issued < u64_mod
      → (verify now other_ip (issue issued client_ip) ≡ true) ↔ (
          (now - issued ≤ challenge_validity_secs)
          × (s.sign (payload client_ip issued) ≡ s.sign (payload other_ip issued)))
  unfolding verify issue verify_token
  verify-issue_iff issued now client_ip other_ip h =
      let tag = s.sign (payload client_ip issued) in
      let cut = split_once-append b'|' (s.encode tag) (format issued) (s.encode-Lacks tag) in
      rw (verify, cut, parse_u64-format issued h, verify_token, s.decode-encode tag)
        (ground (arith, s.verify_iff (payload other_ip issued) tag))
