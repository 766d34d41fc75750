-- ===== src/Identity/Roundtrip.antt =====
-- The headers that the gateway signs, as the service reads them.
use moonproj.Base.{
  ℕ, String, ◌≡◌, refl, ◌≢◌, true, false, some, arith, eq_refl, ok, strip, is_identifier, leb, eqb,
  length, is_nil,
}
use moonproj.Base.{
  and-eq-true, chars, all_chars, all_chars_mono, identifier_char, identifier-chars,
  strip-identifier,
}
use moonproj.Identity.Gateway.{Digest, signed_headers, is_digest, hex_character}
use moonproj.Identity.Handler.{Config, request_actor_id}

hex-identifier : (c : ℕ) → hex_character c ≡ true → identifier_char c ≡ true
unfolding hex_character identifier_char
hex-identifier c h = ground arith

is_digest-identifier : (s : String) → is_digest s ≡ true → is_identifier s ≡ true
unfolding is_digest is_identifier
is_digest-identifier s h =
    let (length, hex) = and-eq-true (eqb (chars s) 64) _ h in
    let each = all_chars_mono hex_character identifier_char s hex-identifier hex in ground arith

identifier-ascii : (c : ℕ) → identifier_char c ≡ true → leb c 127 ≡ true
unfolding identifier_char
identifier-ascii c h = ground arith

digest_nil : is_digest "" ≢ true
unfolding is_digest
digest_nil h = cc

-- What is left to read of a signature that is a digest.
is_digest-read :
    (s : String)
    → is_digest s ≡ true
    → (strip s ≡ s) × (is_nil s ≡ false) × (all_chars (λ c. leb c 127) s ≡ true)
is_digest-read s h = (
  strip-identifier s (is_digest-identifier s h),
  some_text s h,
  all_chars_mono identifier_char (λ c. leb c 127) s identifier-ascii
      (identifier-chars s (is_digest-identifier s h)),
)
  where
    some_text : (s : String) → is_digest s ≡ true → is_nil s ≡ false
    some_text String.[] h = absurd (digest_nil h)
    some_text (String.◌∷◌ c s) h = refl

module _ (digest : Digest) (config : Config) (token secret : String) where
  -- The service, with the gateway's signing secret, reads from the gateway's headers the actor that
  -- they were signed for, if HMAC gives 64 hexadecimal digits, as it does.
  pub request_actor_id-signed_headers :
      (actor : String)
      → ((key message : String) → is_digest (digest.hmac key message) ≡ true)
      → config.actor_signing_secret ≡ some secret
      → is_identifier actor ≡ true
      → request_actor_id digest config (signed_headers digest token secret actor) ≡ ok actor
  unfolding request_actor_id signed_headers
  request_actor_id-signed_headers actor hex shared valid =
      let (visible, some_text, ascii) =
        is_digest-read (digest.hmac secret actor) (hex secret actor) in
      rw (
        shared,
        strip-identifier actor valid,
        visible,
        valid,
        some_text,
        ascii,
        eq_refl (digest.hmac secret actor),
      )
