-- ===== src/Keys/Service.antt =====
-- src/modules/e2ee-keys/e2ee-keys.service.ts. The audit rows, the log and `consumedAt` are left out. The
-- claim of a prekey is one statement of the database, so two claims never run at once on one row.
use be_distribution_system_a.Prelude.{
  ℕ, ◌+◌, Bool, true, false, not, ◌&&◌, Option, none, some, List, [], ◌∷◌, ◌++◌, ◌==◌, leb,
  if◌then◌else◌, length,
}
use be_distribution_system_a.Prelude.Table.{find_by, update_by}
use be_distribution_system_a.Auth.Tokens.{Device, device_key}

-- model DeviceKey
pub record DeviceKey : Type 0 where
  pub device_id : ℕ
  pub identity_key_public : ℕ
  pub signed_prekey_public : ℕ
  pub signed_prekey_sig : ℕ

-- model Prekey
pub record Prekey : Type 0 where
  pub id : ℕ
  pub device_id : ℕ
  pub key_id : ℕ
  pub public_key : ℕ
  pub is_consumed : Bool

-- An entry of UploadPrekeysDto.
pub record PrekeyItem : Type 0 where
  pub key_id : ℕ
  pub public_key : ℕ

pub record KeyTables : Type 0 where
  pub devices : List Device
  pub device_keys : List DeviceKey
  pub prekeys : List Prekey

pub data KeyError : Type 0 where
  device_not_found device_ownership_required keys_not_found : KeyError

pub data KeyAnswer {ℓ} (A : Type ℓ) : Type ℓ where
  given : A → KeyAnswer A
  denied : KeyError → KeyAnswer A

abbrev pub keys_device : DeviceKey → ℕ
keys_device k = k.device_id

abbrev pub prekey_key : Prekey → ℕ
prekey_key p = p.id

-- What `registerDeviceKeys` and `uploadPrekeys` ask of the device.
abbrev pub owned : ℕ → Option Device → Option KeyError
owned actor none = some device_not_found
owned actor (some d) = if d.user_id == actor then none else some device_ownership_required

abbrev pub put_keys : DeviceKey → Option DeviceKey → List DeviceKey → List DeviceKey
put_keys k none ks = ks ++ k ∷ []
put_keys k (some x) ks = update_by keys_device k.device_id (λ y. true) (λ y. k) ks

unfoldable pub register_device_keys : DeviceKey → ℕ → KeyTables → KeyAnswer DeviceKey × KeyTables
register_device_keys k actor t = elim (owned actor (find_by device_key k.device_id t.devices)) [
  | some e ↦ (denied e, t)
  | none ↦ (
    given k,
    record t {
      device_keys = put_keys k (find_by keys_device k.device_id t.device_keys) t.device_keys;
    },
  )
]

abbrev pub is_prekey : ℕ → ℕ → Prekey → Bool
is_prekey device key p = p.device_id == device && p.key_id == key

-- @@unique([deviceId, keyId])
unfoldable pub has_prekey : ℕ → ℕ → List Prekey → Bool
has_prekey device key [] = false
has_prekey device key (p ∷ ps) =
    let rest = has_prekey device key ps in if is_prekey device key p then true else rest

abbrev pub new_prekey : ℕ → ℕ → PrekeyItem → Prekey
new_prekey id device i = record {
  id = id;
  device_id = device;
  key_id = i.key_id;
  public_key = i.public_key;
  is_consumed = false;
}

-- `createMany({ data, skipDuplicates: true })`; the generated ids are given with the entries.
unfoldable pub create_prekeys : ℕ → List (ℕ × PrekeyItem) → List Prekey → List Prekey
create_prekeys device [] ps = ps
create_prekeys device ((id, i) ∷ is) ps =
    create_prekeys device is
      (if has_prekey device i.key_id ps then ps else ps ++ new_prekey id device i ∷ [])

abbrev pub is_available : ℕ → Prekey → Bool
is_available device p = p.device_id == device && not p.is_consumed

-- `prekey.count({ where: { deviceId, isConsumed: false } })`
unfoldable pub count_available : ℕ → List Prekey → ℕ
count_available device [] = 0
count_available device (p ∷ ps) =
    (if is_available device p then 1 else 0) + count_available device ps

-- The count of the entries that were sent, and of the prekeys that are left.
unfoldable pub upload_prekeys :
    ℕ → List (ℕ × PrekeyItem) → ℕ → KeyTables → KeyAnswer (ℕ × ℕ) × KeyTables
upload_prekeys device is actor t = elim (owned actor (find_by device_key device t.devices)) [
  | some e ↦ (denied e, t)
  | none ↦
      let ps = create_prekeys device is t.prekeys in
      (given (length is, count_available device ps), record t { prekeys = ps })
]

abbrev pub lesser : Prekey → Option Prekey → Option Prekey
lesser p none = some p
lesser p (some q) = if leb p.key_id q.key_id then some p else some q

-- `SELECT … WHERE device_id = … AND is_consumed = FALSE ORDER BY key_id ASC LIMIT 1`
unfoldable pub least_available : ℕ → List Prekey → Option Prekey
least_available device [] = none
least_available device (p ∷ ps) =
    let rest = least_available device ps in if is_available device p then lesser p rest else rest

abbrev pub consumed : Prekey → Prekey
consumed p = record p { is_consumed = true }

-- `UPDATE prekeys SET is_consumed = TRUE … RETURNING`
abbrev pub claim_prekey : Option Prekey → List Prekey → List Prekey
claim_prekey none ps = ps
claim_prekey (some p) ps = update_by prekey_key p.id (λ x. true) consumed ps

-- The answer of `consumePrekeyBundle`.
pub record PrekeyBundle : Type 0 where
  pub keys : DeviceKey
  pub one_time_prekey : Option PrekeyItem

abbrev pub as_item : Option Prekey → Option PrekeyItem
as_item none = none
as_item (some p) = some (record { key_id = p.key_id; public_key = p.public_key })

unfoldable pub consume_prekey_bundle : ℕ → KeyTables → KeyAnswer PrekeyBundle × KeyTables
consume_prekey_bundle device t = elim (find_by keys_device device t.device_keys) [
  | none ↦ (denied keys_not_found, t)
  | some k ↦
      let p = least_available device t.prekeys in
      (
        given (record { keys = k; one_time_prekey = as_item p }),
        record t { prekeys = claim_prekey p t.prekeys },
      )
]
