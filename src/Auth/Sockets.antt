-- ===== src/Auth/Sockets.antt =====
-- src/modules/realtime/guards/ws-jwt-auth.guard.ts: the handshake of a socket, and the check before each of
-- its messages.
-- The part of the handshake that reads and verifies the token is in Auth.Keys.
use be_distribution_system_a.Prelude.{
  ℕ, Bool, true, false, not, ◌&&◌, ◌||◌, Option, none, some, ◌==◌, leb, if◌then◌else◌,
}
use be_distribution_system_a.Prelude.Table.{find_by}
use be_distribution_system_a.Sessions.Service.{revoked_session, revoked_user, session_key}
use be_distribution_system_a.Auth.Tokens.{
  is_active_account, UserRow, AuthTables, JwtPayload, Claims, Principal, Verdict, user_key, Lookup,
  says_revoked, session_serves, token_session_serves, principal, invalid_token_type,
  incomplete_claims, token_revoked, user_not_found, account_not_active,
  role_updated_reauth_required, access_token_expired, accepted, refused,
}

-- The claims are all there: `sessionId`, `sub`, `deviceId` and a finite `exp`.
unfoldable pub complete : Claims → Option JwtPayload
complete c = elim c.sub [
  | none ↦ none
  | some sub ↦ elim c.device_id [
    | none ↦ none
    | some device ↦ elim c.session_id [
      | none ↦ none
      | some session ↦ elim c.exp [
        | none ↦ none
        | some exp ↦ some (record {
          sub = sub;
          role = c.role;
          device_id = device;
          session_id = session;
          is_access_token = c.is_access_token;
          exp = exp;
        })
      ]
    ]
  ]
]

-- `validateHandshake` from the user on: the session is read before the user's revocation.
unfoldable pub handshake_user : Lookup → AuthTables → ℕ → JwtPayload → UserRow → Verdict
handshake_user lookup t now p u =
    if not (is_active_account u.status)
    then refused account_not_active
    else (if not (u.role == p.role)
        then refused role_updated_reauth_required
        else (if not (token_session_serves t now p)
            then refused token_revoked
            else (if says_revoked (lookup (revoked_user p.sub))
                then refused token_revoked
                else accepted (principal p u))))

unfoldable pub handshake_payload : Lookup → AuthTables → ℕ → JwtPayload → Verdict
handshake_payload lookup t now p =
    let checked : Verdict = elim (find_by user_key p.sub t.users) [
      | none ↦ refused user_not_found
      | some u ↦ handshake_user lookup t now p u
    ] in
    if says_revoked (lookup (revoked_session p.session_id)) then refused token_revoked else checked

-- WsJwtAuthGuard.validateHandshake, once the token is verified
unfoldable pub validate_handshake : Lookup → AuthTables → ℕ → Claims → Verdict
validate_handshake lookup t now c =
    if not c.is_access_token then refused invalid_token_type else (elim (complete c) [
      | none ↦ refused incomplete_claims
      | some p ↦ handshake_payload lookup t now p
    ])

abbrev pub same_driver : Option ℕ → Option ℕ → Bool
same_driver none none = true
same_driver (some a) (some b) = a == b
same_driver _ _ = false

abbrev pub user_serves : Principal → Option UserRow → Bool
user_serves d none = false
user_serves d (some u) =
    is_active_account u.status && u.role == d.role && same_driver u.driver_id d.driver_id

-- WsJwtAuthGuard.validateSocket, before a message is handled, at the socket's data and `accessTokenExp`;
-- an expiry counts seconds and `now` milliseconds.
unfoldable pub validate_socket : Lookup → AuthTables → ℕ → ℕ → Principal → ℕ → Verdict
validate_socket lookup t now seconds d exp =
    if leb exp seconds
    then refused access_token_expired
    else (if says_revoked (lookup (revoked_session d.session_id))
          || says_revoked (lookup (revoked_user d.id))
          || not (user_serves d (find_by user_key d.id t.users))
          || not (
              session_serves t now d.id d.device_id
                (find_by session_key d.session_id t.store.sessions))
        then refused token_revoked
        else accepted d)
