-- ===== src/Identity/Gateway.antt =====
-- `verify_trusted_identity`, `_trusted_identity_actor`, the sessions and the signed headers of
-- scripts/company_postgres_dev_gateway.py.
use Prim.Native.String.{◌++◌ as ◌◂◌}
use moonproj.Base.{
  ℕ, ◌+◌, String, Bool, false, not, ◌&&◌, ◌||◌, Option, none, some, ◌==◌, eqb, leb, if◌then◌else◌,
  Json, field_of, is_dict, is_true, ℤ, ◌-ℤ◌, pos_part, neg_part, strip, is_identifier, parse_int,
  chars, lower, all_chars,
}

-- What the scripts take from Python's libraries: HMAC with SHA-256, in hexadecimal, of a text under a
-- secret, and SHA-256.
pub record Digest : Type 0 where
  pub hmac : String → String → String
  pub sha256 : String → String

-- The headers of a request.
abbrev pub Headers : Type 0
Headers = String → Option String

-- `headers.get(name, "")`
abbrev pub header : Headers → String → String
header headers name = elim (headers name) [ none ↦ "" | some value ↦ value ]

unfoldable pub hex_character : ℕ → Bool
hex_character c = (leb b'0' c && leb c b'9') || (leb b'a' c && leb c b'f')

abbrev digit : ℕ → Bool
digit c = leb b'0' c && leb c b'9'

-- `re.fullmatch(r"[0-9a-f]{64}", s)`
unfoldable pub is_digest : String → Bool
unfolding hex_character
is_digest s = eqb (chars s) 64 && all_chars hex_character s

-- `re.fullmatch(r"[0-9]{1,20}", s)`
unfoldable pub is_timestamp : String → Bool
is_timestamp s = leb 1 (chars s) && leb (chars s) 20 && all_chars digit s

-- `abs(current - issued_at) > TRUSTED_IDENTITY_MAX_SKEW_SECONDS`
abbrev pub is_stale : ℤ → ℤ → Bool
is_stale now issued_at =
    let skew : ℤ = now -ℤ issued_at in not (leb (pos_part skew + neg_part skew) 60)

abbrev pub fresh : ℤ → Option ℤ → Bool
fresh now none = false
fresh now (some issued_at) = not (is_stale now issued_at)

module _ (digest : Digest) where
  -- The two texts are ASCII, on which `hmac.compare_digest` is equality.
  unfoldable pub verify_trusted_identity : String → String → String → String → ℤ → Bool
  verify_trusted_identity user_code timestamp signature secret now =
      is_identifier user_code
      && is_timestamp timestamp
      && is_digest signature
      && fresh now (parse_int timestamp)
      && (signature == digest.hmac secret (user_code ◂ ":" ◂ timestamp))

  abbrev profile_of : Json → Json
  profile_of payload = field_of "data" payload

  -- The service's answer about a user, its status and its payload; `none` is a failed request or a
  -- body that is no JSON.
  abbrev is_enabled : Option (ℕ × Json) → Bool
  is_enabled none = false
  is_enabled (some (status, payload)) =
      eqb status 200
      && is_dict (profile_of payload)
      && is_true (field_of "enabled" (profile_of payload))

  -- `_trusted_identity_actor`
  unfoldable pub trusted_identity_actor :
      Option String → ℤ → (String → Option (ℕ × Json)) → Headers → Option String
  trusted_identity_actor none now auth_me headers = none
  trusted_identity_actor (some secret) now auth_me headers =
      let user_code : String = strip (header headers "X-Moonproj-Identity") in
      let timestamp : String = strip (header headers "X-Moonproj-Identity-Timestamp") in
      let signature : String = lower (strip (header headers "X-Moonproj-Identity-Signature")) in
      if verify_trusted_identity user_code timestamp signature secret now
        && is_enabled (auth_me user_code)
      then some user_code
      else none

  -- The headers that `proxy_request` adds for a session's actor, besides those of the body and the key.
  unfoldable pub signed_headers : String → String → String → Headers
  signed_headers token secret actor_id name =
      if name == "Authorization"
      then some ("Bearer " ◂ token)
      else if name == "X-Forwarded-Proto"
      then some "https"
      else if name == "X-Moonproj-Actor"
      then some actor_id
      else if name == "X-Moonproj-Actor-Signature"
      then some (digest.hmac secret actor_id)
      else none
