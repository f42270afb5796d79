-- ===== src/Tests/Keychains.antt =====
-- The stores of the key of a device.
use mathlib.Core.Logic.{◌⊎◌, inr}
use bb_shared.Base.{
  ℕ, ◌≡◌, refl, sym, ap, ◌∙◌, true, List, [], ◌∷◌, Option, none, some, Text, codes, same, trim,
  drop_end, length,
}
use bb_shared.DeviceKey.{Bytes}
use bb_shared.Keys.{
  SecurityResult, KeyError, Provider, new_provider, decoded_key, read, write, get_key, Files,
  read_key_file, get_file_key, create_device_key_provider, file,
}
use bb_shared.Keys.Stable.{get_key-stable}
use bb_shared.Keys.Held.{KeepsText, get_file_key-stable}
use bb_shared.Tests.Records.{crypto}

-- A keychain with at most one item, which answers a reading with a status.
abbrev Keychain : Type 0
Keychain = Option Text × ℕ

abbrev result : ℕ → Text → SecurityResult
result status stdout = record { status = some status; stdout = stdout }

abbrev found_item : Keychain → SecurityResult
found_item (none, status) = result 44 []
found_item (some item, status) = result status item

abbrev security : List Text → Keychain → SecurityResult × Keychain
security (a ∷ b ∷ s ∷ d ∷ n ∷ e ∷ password ∷ more) k = (result 0 [], (some password, 0))
security _ k = (found_item k, k)

abbrev printable : Bytes
printable = codes "0123456789abcdef0123456789abcdef"

abbrev other : Bytes
other = codes "fedcba9876543210fedcba9876543210"

-- Every function that a provider runs.
key_run : Unit {0}
unfolding trim drop_end same decoded_key read write get_key read_key_file get_file_key
    create_device_key_provider
key_run = tt

abbrev first_use : (KeyError ⊎ Bytes) × Provider Keychain
first_use = get_key security crypto printable (new_provider (none, 0))

get_key-stable_example :
    (length printable ≡ 32)
    × ((get_key security crypto other (new_provider (some printable, 0))).0 ≡ inr printable)
unfolding key_run
get_key-stable_example =
    get_key-stable security crypto printable other printable (none, 0)
      (record { cached = some printable; store = (some printable, 0) }) (λ k. refl) refl

-- A reading that is refused, with another status than that of a missing item, has the key replaced.
replaced_test : (get_key security crypto other (new_provider (some printable, 36))).0 ≡ inr other
unfolding key_run
replaced_test = refl

abbrev files : Files (Option Text)
files = record {
  read_file = λ path f. f;
  make_directory = λ path f. (true, f);
  write_file = λ path text f. (true, some text);
  set_mode = λ path f. (true, f);
}

files-KeepsText : KeepsText files (codes "/k")
files-KeepsText = record {
  reads = λ text before between after w m. sym (ap (λ o. o.1) w ∙ ap (λ o. o.1) m);
}

get_file_key-stable_case :
    (get_file_key files crypto (codes "/k") other (new_provider (some printable))).0 ≡ inr printable
unfolding key_run
get_file_key-stable_case =
    get_file_key-stable files crypto (codes "/k") printable other printable none
      (record { cached = some printable; store = some printable }) files-KeepsText refl refl

platform_test :
    create_device_key_provider (codes "linux") (codes "/d") (codes "p") (some (result 0 []))
    ≡ file (codes "/d/plugins/p/bb-shared-device-key")
unfolding key_run
platform_test = refl
