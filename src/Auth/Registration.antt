-- ===== src/Auth/Registration.antt =====
-- src/modules/auth/auth.service.ts: registerUser and logout. The password comes as its hash, and
-- `has_role` says whether the table of roles has the role DRIVER.
use be_distribution_system_a.Prelude.{
  ℕ, Bool, false, ◌||◌, Option, none, some, [], ◌∷◌, ◌++◌, any, ◌==◌, if◌then◌else◌, is_some_of,
}
use be_distribution_system_a.Sessions.Service.{revoke_session}
use be_distribution_system_a.Auth.Tokens.{pending_activation, UserRow, AuthTables}
use be_distribution_system_a.Auth.Login.{driver_role}

-- class RegisterUserDto
pub record RegisterUserDto : Type 0 where
  pub username : ℕ
  pub email : Option ℕ
  pub phone : ℕ
  pub password_hash : ℕ

pub data RegisterAnswer : Type 0 where
  registered : UserRow → RegisterAnswer
  user_exists role_not_configured : RegisterAnswer

abbrev same_email : Option ℕ → Option ℕ → Bool
same_email none field = false
same_email (some e) field = is_some_of e field

-- `OR: [{ username }, { phone }, ...(dto.email ? [{ email }] : [])]`
abbrev pub is_taken_by : RegisterUserDto → UserRow → Bool
is_taken_by dto u =
    u.username == dto.username || is_some_of dto.phone u.phone || same_email dto.email u.email

abbrev pub new_user : ℕ → RegisterUserDto → UserRow
new_user k dto = record {
  id = k;
  username = dto.username;
  email = dto.email;
  phone = some dto.phone;
  password_hash = dto.password_hash;
  role = driver_role;
  status = pending_activation;
  organization_id = none;
  driver_id = none;
}

unfoldable pub register_user : Bool → ℕ → RegisterUserDto → AuthTables → RegisterAnswer × AuthTables
register_user has_role k dto t =
    if any (is_taken_by dto) t.users
    then (user_exists, t)
    else (if has_role
        then (registered (new_user k dto), record t { users = t.users ++ new_user k dto ∷ [] })
        else (role_not_configured, t))

-- AuthService.logout
unfoldable pub logout : Option ℕ → Option ℕ → AuthTables → AuthTables
logout session user t = record t { store = revoke_session session user t.store }
