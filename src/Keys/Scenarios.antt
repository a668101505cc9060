-- ===== src/Keys/Scenarios.antt =====
-- A device with three prekeys, one of which is used.
use be_distribution_system_a.Prelude.{ℕ, Bool, true, false, ◌≡◌, refl, [], ◌∷◌, map, take}
use be_distribution_system_a.Prelude.Table.{find_by, IsUnique}
use be_distribution_system_a.Keys.Service.{DeviceKey, Prekey, KeyTables, prekey_key}
use be_distribution_system_a.Keys.Queue.{queue, insert_prekey}
use be_distribution_system_a.Keys.Claims.{handed_out, item, handed_in_order}

abbrev prekey : ℕ → ℕ → Bool → Prekey
prekey id key used = record {
  id = id;
  device_id = 4;
  key_id = key;
  public_key = 500;
  is_consumed = used;
}

abbrev phone_keys : DeviceKey
phone_keys = record {
  device_id = 4;
  identity_key_public = 1;
  signed_prekey_public = 2;
  signed_prekey_sig = 3;
}

abbrev key_tables : KeyTables
key_tables = record {
  devices = [];
  device_keys = phone_keys ∷ [];
  prekeys = prekey 1 30 false ∷ prekey 2 10 true ∷ prekey 3 20 false ∷ [];
}

prekeys-IsUnique : IsUnique prekey_key key_tables.prekeys
unfolding find_by
prekeys-IsUnique = (refl, (refl, (refl, tt)))

handed_in_order_example : handed_out 2 4 key_tables ≡ take 2 (map item (queue 4 key_tables.prekeys))
unfolding find_by
handed_in_order_example = handed_in_order 2 4 key_tables phone_keys prekeys-IsUnique refl

first_is_20 :
    map item (queue 4 key_tables.prekeys) ≡ item (prekey 3 20 false) ∷ item (prekey 1 30 false) ∷ []
unfolding queue insert_prekey
first_is_20 = refl
