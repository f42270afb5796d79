-- ===== src/Keys.antt =====
-- plugin/lib/device-key/key-provider.ts: where the key of a device is kept.
-- What `security` does to the keychain, what the file system does, and the bytes that are drawn are arguments.
pub mod Stable
pub mod Held
use mathlib.Core.Logic.{◌⊎◌, inl, inr}
use bb_shared.Base.{
  ℕ, Bool, true, false, not, ◌&&◌, List, [], ◌∷◌, ◌++◌, Option, none, some, Text, codes, same, trim,
  length, if◌then◌else◌, ◌==◌,
}
use bb_shared.DeviceKey.{Bytes, Crypto}

pub record SecurityResult : Type 0 where
  pub status : Option ℕ
  pub stdout : Text

pub data KeyError : Type 0 where
  wrong_length : (bytes : ℕ) → KeyError
  not_stored not_read_back : KeyError

-- A provider, and the store behind it.
pub record Provider (K : Type 0) : Type 0 where
  pub cached : Option Bytes
  pub store : K

abbrev pub new_provider : {K : Type 0} → K → Provider K
new_provider store = record { cached = none; store = store }

abbrev pub find_arguments : List Text
find_arguments =
    codes "find-generic-password"
    ∷ codes "-s"
    ∷ codes "bb-shared-device-key"
    ∷ codes "-a"
    ∷ codes "bb-shared"
    ∷ codes "-w"
    ∷ []

abbrev add_arguments : Text → List Text
add_arguments password =
    codes "add-generic-password"
    ∷ codes "-s"
    ∷ codes "bb-shared-device-key"
    ∷ codes "-a"
    ∷ codes "bb-shared"
    ∷ codes "-w"
    ∷ password
    ∷ codes "-U"
    ∷ []

abbrev pub is_success : SecurityResult → Bool
is_success r = elim r.status [ none ↦ false | some n ↦ n == 0 ]

-- A stored text as a key; `none` where there is none.
unfoldable pub decoded_key : Crypto → Text → KeyError ⊎ Option Bytes
decoded_key c stored =
    let b64 = trim stored in
    let key = c.from_base64 b64 in
    if length b64 == 0
    then inr none
    else if length key == 32
    then inr (some key)
    else inl (wrong_length (length key))

-- A provider that has its key.
abbrev pub has_key : {K : Type 0} → Bytes → K → (KeyError ⊎ Bytes) × Provider K
has_key key store = (inr key, record { cached = some key; store = store })

abbrev pub refused : {K : Type 0} → KeyError → K → (KeyError ⊎ Bytes) × Provider K
refused why store = (inl why, record { cached = none; store = store })

-- `security`, with what it leaves of the keychain.
module _ {K : Type 0} (security : List Text → K → SecurityResult × K) (c : Crypto) where
  abbrev pub result_key : SecurityResult → KeyError ⊎ Option Bytes
  result_key r = if is_success r then decoded_key c r.stdout else inr none

  unfoldable pub read : K → (KeyError ⊎ Option Bytes) × K
  read k = let r = security find_arguments k in (result_key r.0, r.1)

  unfoldable pub write : Bytes → K → Bool × K
  write key k = let r = security (add_arguments (c.to_base64 key)) k in (is_success r.0, r.1)

  abbrev pub confirmed : Bytes → (KeyError ⊎ Option Bytes) × K → (KeyError ⊎ Bytes) × Provider K
  confirmed key (inl why, k) = refused why k
  confirmed key (inr none, k) = refused not_read_back k
  confirmed key (inr (some found), k) =
      if same found key then has_key found k else refused not_read_back k

  abbrev pub stored : Bytes → Bool × K → (KeyError ⊎ Bytes) × Provider K
  stored key (false, k) = refused not_stored k
  stored key (true, k) = confirmed key (read k)

  abbrev pub found : Bytes → (KeyError ⊎ Option Bytes) × K → (KeyError ⊎ Bytes) × Provider K
  found drawn (inl why, k) = refused why k
  found drawn (inr (some key), k) = has_key key k
  found drawn (inr none, k) = stored drawn (write drawn k)

  abbrev cached_or : Bytes → Option Bytes → K → (KeyError ⊎ Bytes) × Provider K
  cached_or drawn (some key) k = has_key key k
  cached_or drawn none k = found drawn (read k)

  -- `KeychainKeyProvider.getKey`, with the 32 bytes that it may draw.
  unfoldable pub get_key : Bytes → Provider K → (KeyError ⊎ Bytes) × Provider K
  get_key drawn p = cached_or drawn p.cached p.store

-- What the file provider asks of the file system: a reading that throws is `none`, and a flag tells whether a
-- change worked.
pub record Files (F : Type 0) : Type 0 where
  pub read_file : Text → F → Option Text
  pub make_directory : Text → F → Bool × F
  pub write_file : Text → Text → F → Bool × F
  pub set_mode : Text → F → Bool × F

module _ {F : Type 0} (fs : Files F) (c : Crypto) (path : Text) where
  abbrev pub text_key : Option Text → KeyError ⊎ Option Bytes
  text_key none = inr none
  text_key (some text) = decoded_key c text

  unfoldable pub read_key_file : F → KeyError ⊎ Option Bytes
  read_key_file f = text_key (fs.read_file path f)

  abbrev pub restricted : Bytes → Bool × F → (KeyError ⊎ Bytes) × Provider F
  restricted key (false, f) = refused not_stored f
  restricted key (true, f) = has_key key f

  abbrev pub written : Bytes → Bool × F → (KeyError ⊎ Bytes) × Provider F
  written key (false, f) = refused not_stored f
  written key (true, f) = restricted key (fs.set_mode path f)

  abbrev pub directory_made : Bytes → Bool × F → (KeyError ⊎ Bytes) × Provider F
  directory_made key (false, f) = refused not_stored f
  directory_made key (true, f) = written key (fs.write_file path (c.to_base64 key) f)

  abbrev pub in_file : Bytes → KeyError ⊎ Option Bytes → F → (KeyError ⊎ Bytes) × Provider F
  in_file drawn (inl why) f = refused why f
  in_file drawn (inr (some key)) f = has_key key f
  in_file drawn (inr none) f = directory_made drawn (fs.make_directory path f)

  abbrev cached_or_file : Bytes → Option Bytes → F → (KeyError ⊎ Bytes) × Provider F
  cached_or_file drawn (some key) f = has_key key f
  cached_or_file drawn none f = in_file drawn (read_key_file f) f

  -- `FileKeyProvider.getKey`.
  unfoldable pub get_file_key : Bytes → Provider F → (KeyError ⊎ Bytes) × Provider F
  get_file_key drawn p = cached_or_file drawn p.cached p.store

pub data ProviderKind : Type 0 where
  keychain : ProviderKind
  file : (path : Text) → ProviderKind

-- `createDeviceKeyProvider`; `security help` tells whether the command is there, and is not run elsewhere.
unfoldable pub create_device_key_provider :
    (platform data_dir plugin_id : Text) → Option SecurityResult → ProviderKind
create_device_key_provider platform data_dir plugin_id help =
    if same platform (codes "darwin") && elim help [ none ↦ false | some r ↦ is_success r ]
    then keychain
    else file (data_dir ++ (codes "/plugins/" ++ (plugin_id ++ codes "/bb-shared-device-key")))
