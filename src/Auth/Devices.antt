-- ===== src/Auth/Devices.antt =====
-- src/modules/devices/device.service.ts: registerDevice and revokeDevice. The audit rows and
-- the message on `security:revocation` are left out.
use be_distribution_system_a.Prelude.{
  ℕ, Bool, true, false, ◌&&◌, ◌||◌, Option, none, some, List, [], ◌∷◌, ◌++◌, ◌==◌, if◌then◌else◌,
}
use be_distribution_system_a.Prelude.Table.{find_by, update_by}
use be_distribution_system_a.Deliveries.Model.{Role, super_admin, admin}
use be_distribution_system_a.Sessions.Service.{Session, is_active, revoke_where, revocation_keys}
use be_distribution_system_a.Auth.Tokens.{Device, AuthTables, device_key}

-- class RegisterDeviceDto
pub record RegisterDeviceDto : Type 0 where
  pub device_identifier : ℕ
  pub platform : ℕ
  pub app_version : ℕ
  pub push_token : Option ℕ

-- `device.findFirst({ where: { userId, deviceIdentifier } })`
unfoldable pub find_device : ℕ → ℕ → List Device → Option Device
find_device user identifier [] = none
find_device user identifier (d ∷ ds) =
    let rest = find_device user identifier ds in
    if d.user_id == user && d.device_identifier == identifier then some d else rest

abbrev or_old : Option ℕ → Option ℕ → Option ℕ
or_old none old = old
or_old (some a) old = some a

abbrev pub refreshed : RegisterDeviceDto → ℕ → Device → Device
refreshed dto now d = record d {
  platform = dto.platform;
  app_version = dto.app_version;
  push_token = or_old dto.push_token d.push_token;
  is_active = true;
  last_seen_at = now;
}

abbrev pub new_device : ℕ → ℕ → RegisterDeviceDto → ℕ → Device
new_device id user dto now = record {
  id = id;
  user_id = user;
  device_identifier = dto.device_identifier;
  platform = dto.platform;
  app_version = dto.app_version;
  push_token = dto.push_token;
  is_active = true;
  last_seen_at = now;
}

unfoldable pub register_device : ℕ → ℕ → RegisterDeviceDto → ℕ → AuthTables → AuthTables
register_device id user dto now t = record t {
  devices = elim (find_device user dto.device_identifier t.devices) [
    | some d ↦ update_by device_key d.id (λ x. true) (refreshed dto now) t.devices
    | none ↦ t.devices ++ new_device id user dto now ∷ []
  ];
}

abbrev is_admin : Role → Bool
is_admin super_admin = true
is_admin admin = true
is_admin _ = false

pub data RevokeAnswer : Type 0 where
  device_revoked device_not_found device_ownership_required : RevokeAnswer

abbrev pub on_device : ℕ → Session → Bool
on_device k s = s.device_id == k && is_active s

abbrev pub deactivate : Device → Device
deactivate d = record d { is_active = false }

-- The writes of `revokeDevice`.
unfoldable pub revoke_device_rows : ℕ → AuthTables → AuthTables
revoke_device_rows k t = record t {
  devices = update_by device_key k (λ d. true) deactivate t.devices;
  store = record t.store {
    sessions = revoke_where (on_device k) t.store.sessions;
    revocations = t.store.revocations ++ revocation_keys (on_device k) t.store.sessions;
  };
}

unfoldable pub revoke_device : ℕ → ℕ → Role → AuthTables → RevokeAnswer × AuthTables
revoke_device k actor role t = elim (find_by device_key k t.devices) [
  | none ↦ (device_not_found, t)
  | some d ↦
      if d.user_id == actor || is_admin role
      then (device_revoked, revoke_device_rows k t)
      else (device_ownership_required, t)
]
