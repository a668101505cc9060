-- ===== src/Auth/Grace.antt =====
-- The REST guard and the handshake, compared at a token and the key that it names.
use be_distribution_system_a.Prelude.{
  ℕ, ◌≡◌, refl, ◌∙◌, sym, ap, Bool, true, false, ◌&&◌, Option, none, some, arith, Option-cases, inl,
  inr, ◌⊎◌,
}
use be_distribution_system_a.Auth.Tokens.{AuthTables, Claims, Lookup, is_accepted}
use be_distribution_system_a.Auth.Sockets.{complete, validate_handshake}
use be_distribution_system_a.Auth.Verdicts.{same_claims_verdict}
use be_distribution_system_a.Auth.Keys.{
  TokenHeader, Verification, verified, expired, other_issuer, other_audience, other_signature,
  TokenLibrary, HandshakeKeys, names_key, previous_or, secret_for, on_verified, handshake_decoded,
  open_handshake, validate_claims, validate_read, or_zero, authenticate_token,
}

abbrev pub is_given : Option ℕ → Bool
is_given none = false
is_given (some n) = true

-- The claims of a token that is verified name a time at which it ends.
abbrev pub has_exp : Verification → Bool
has_exp (verified c) = is_given c.exp
has_exp _ = false

without_exp :
    (lookup : Lookup) (t : AuthTables) (now : ℕ) (c : Claims)
    → c.exp ≡ none
    → is_accepted (validate_handshake lookup t now c) ≡ false
unfolding validate_handshake complete
without_exp lookup t now c e = ground arith

without_ids :
    (lookup : Lookup) (t : AuthTables) (now : ℕ) (c : Claims)
    → complete c ≡ none
    → is_accepted (validate_handshake lookup t now c) ≡ false
unfolding validate_handshake
without_ids lookup t now c e = ground arith

complete-exp :
    (exp : ℕ) (c : Claims)
    → c.exp ≡ some exp
    → complete (record c { exp = some (or_zero c.exp) }) ≡ complete c
complete-exp exp c e =
    ap (λ o. complete (record c { exp = some (or_zero o) })) e
    ∙ ap (λ o. complete (record c { exp = o })) (sym e)

with_exp :
    (lookup : Lookup) (t : AuthTables) (now exp : ℕ) (c : Claims)
    → c.exp ≡ some exp
    → is_accepted (validate_handshake lookup t now c) ≡ is_accepted (validate_claims lookup t now c)
unfolding validate_claims
with_exp lookup t now exp c e =
    let same = complete-exp exp c e in
    elim (Option-cases (complete c)) [
      | inl n ↦
          without_ids lookup t now c n
          ∙ sym (ap (λ o. is_accepted (validate_read lookup t now o)) (same ∙ n))
      | inr (p, s) ↦
          same_claims_verdict lookup t now c p s
          ∙ sym (ap (λ o. is_accepted (validate_read lookup t now o)) (same ∙ s))
    ]

same_verdict_verified :
    (lookup : Lookup) (t : AuthTables) (now : ℕ) (v : Verification)
    → is_accepted (on_verified (validate_handshake lookup t now) v)
      ≡ (is_accepted (on_verified (validate_claims lookup t now) v) && has_exp v)
same_verdict_verified lookup t now (verified c) = elim (Option-cases c.exp) [
  | inl e ↦ ground (arith, without_exp lookup t now c e)
  | inr (exp, e) ↦ ground (arith, with_exp lookup t now exp c e)
]
same_verdict_verified lookup t now expired = refl
same_verdict_verified lookup t now other_issuer = refl
same_verdict_verified lookup t now other_audience = refl
same_verdict_verified lookup t now other_signature = refl

selected :
    (b : Bool) (o : Option ℕ) (current : ℕ)
    → (previous_or current b o ≡ current) ⊎ ((b ≡ true) × (o ≡ some (previous_or current b o)))
selected false none current = inl refl
selected false (some p) current = inl refl
selected true none current = inl refl
selected true (some p) current = inr (refl, refl)

-- The handshake of a socket accepts an HS256 token exactly when its claims have an expiry and the REST
-- guard, configured with the secret that the token's key id selects in the handshake, would accept it, at
-- the same answers of Redis, the same tables and the same time. That secret is the current one, with
-- which the REST guard is configured, unless a previous secret is there and the token names its key.
pub same_verdict :
    (lib : TokenLibrary) (keys : HandshakeKeys) (lookup : Lookup) (t : AuthTables) (now token : ℕ)
    (h : TokenHeader)
    → lib.decode token ≡ some h
    → h.is_hs256 ≡ true
    → (is_accepted (open_handshake lib keys lookup t now (some token)) ≡ (
        is_accepted (authenticate_token lib (secret_for keys h) lookup t now (some token))
        && has_exp (lib.verify token (secret_for keys h) now)))
      × ((secret_for keys h ≡ keys.secret)
          ⊎ ((names_key h.kid keys.previous_key_id ≡ true)
              × (keys.previous_secret ≡ some (secret_for keys h))))
unfolding open_handshake handshake_decoded authenticate_token
same_verdict lib keys lookup t now token h decoded hs = (
  rw (decoded, hs) (same_verdict_verified lookup t now (lib.verify token (secret_for keys h) now)),
  selected (names_key h.kid keys.previous_key_id) keys.previous_secret keys.secret,
)
