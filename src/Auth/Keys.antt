-- ===== src/Auth/Keys.antt =====
-- How a token is read and verified before its claims count: `validateHandshake` of
-- src/modules/realtime/guards/ws-jwt-auth.guard.ts and the options of src/modules/auth/strategies/jwt.strategy.ts.
-- jsonwebtoken is a parameter; tokens, keys and their ids are numbers.
use be_distribution_system_a.Prelude.{
  ℕ, Bool, true, false, not, Option, none, some, ◌==◌, if◌then◌else◌,
}
use be_distribution_system_a.Auth.Tokens.{
  AuthTables, JwtPayload, Claims, Lookup, Verdict, refused, validate, incomplete_claims,
  access_token_expired, token_required, invalid_token_format, invalid_token_algorithm,
  invalid_issuer, invalid_audience, invalid_signature,
}
use be_distribution_system_a.Auth.Sockets.{complete, validate_handshake}

-- `alg` and `kid` of a token's header
pub record TokenHeader : Type 0 where
  pub is_hs256 : Bool
  pub kid : Option ℕ

-- What `jwt.verify` returns or throws, for HS256, the configured issuer and the configured audience.
pub data Verification : Type 0 where
  verified : Claims → Verification
  expired other_issuer other_audience other_signature : Verification

-- jsonwebtoken: `decode` of a token, and `verify` of a token with a secret at a time.
pub record TokenLibrary : Type 0 where
  pub decode : ℕ → Option TokenHeader
  pub verify : ℕ → ℕ → ℕ → Verification

-- `jwtSecret`, `previousSecret` and `previousKeyId`
pub record HandshakeKeys : Type 0 where
  pub secret : ℕ
  pub previous_secret : Option ℕ
  pub previous_key_id : Option ℕ

abbrev pub names_key : Option ℕ → Option ℕ → Bool
names_key (some a) (some b) = a == b
names_key _ _ = false

abbrev pub previous_or : ℕ → Bool → Option ℕ → ℕ
previous_or current true (some s) = s
previous_or current _ _ = current

-- `secretToUse`
abbrev pub secret_for : HandshakeKeys → TokenHeader → ℕ
secret_for keys h =
    previous_or keys.secret (names_key h.kid keys.previous_key_id) keys.previous_secret

-- Both guards refuse a token that is not verified, and go on with the claims of one that is.
abbrev pub on_verified : (Claims → Verdict) → Verification → Verdict
on_verified f (verified c) = f c
on_verified f expired = refused access_token_expired
on_verified f other_issuer = refused invalid_issuer
on_verified f other_audience = refused invalid_audience
on_verified f other_signature = refused invalid_signature

-- `validateHandshake` once the token is decoded.
unfoldable pub handshake_decoded :
    TokenLibrary → HandshakeKeys → Lookup → AuthTables → ℕ → ℕ → Option TokenHeader → Verdict
handshake_decoded lib keys lookup t now token none = refused invalid_token_format
handshake_decoded lib keys lookup t now token (some h) =
    if not h.is_hs256
    then refused invalid_token_algorithm
    else on_verified (validate_handshake lookup t now) (lib.verify token (secret_for keys h) now)

-- WsJwtAuthGuard.validateHandshake, at the token that `extractToken` finds
unfoldable pub open_handshake :
    TokenLibrary → HandshakeKeys → Lookup → AuthTables → ℕ → Option ℕ → Verdict
open_handshake lib keys lookup t now none = refused token_required
open_handshake lib keys lookup t now (some token) =
    handshake_decoded lib keys lookup t now token (lib.decode token)

abbrev pub or_zero : Option ℕ → ℕ
or_zero none = 0
or_zero (some n) = n

abbrev pub validate_read : Lookup → AuthTables → ℕ → Option JwtPayload → Verdict
validate_read lookup t now none = refused incomplete_claims
validate_read lookup t now (some p) = validate lookup t now p

-- `validate` at the claims of a verified token. It does not read `exp`, whose absence jsonwebtoken lets
-- pass; without `sub` or `sessionId` a query throws, and without `deviceId` no session is the token's:
-- whatever such claims are refused with is `incomplete_claims` here.
unfoldable pub validate_claims : Lookup → AuthTables → ℕ → Claims → Verdict
validate_claims lookup t now c =
    validate_read lookup t now (complete (record c { exp = some (or_zero c.exp) }))

-- JwtStrategy, at the bearer token of a request: only the current secret is configured.
unfoldable pub authenticate_token : TokenLibrary → ℕ → Lookup → AuthTables → ℕ → Option ℕ → Verdict
authenticate_token lib secret lookup t now none = refused token_required
authenticate_token lib secret lookup t now (some token) =
    on_verified (validate_claims lookup t now) (lib.verify token secret now)
