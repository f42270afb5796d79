-- ===== src/Keys/Held.antt =====
-- The key that plugin/lib/device-key/key-provider.ts keeps in a file.
use mathlib.Core.Logic.{◌⊎◌, inl, inr}
use bb_shared.Base.{◌≡◌, refl, subst, ap, ◌∙◌, Bool, true, false, Option, none, some, Text}
use bb_shared.DeviceKey.{Bytes, Crypto}
use bb_shared.Keys.{
  KeyError, Provider, new_provider, decoded_key, Files, text_key, read_key_file, restricted,
  written, directory_made, in_file, get_file_key,
}

-- What a file holds after a write and a change of its mode that worked.
pub record KeepsText {F : Type 0} (fs : Files F) (path : Text) : Type 0 where
  pub reads :
      (text : Text) (before between after : F)
      → fs.write_file path text before ≡ (true, between)
      → fs.set_mode path between ≡ (true, after)
      → fs.read_file path after ≡ some text

module _ {F : Type 0} (fs : Files F) (c : Crypto) (path : Text) where
  held_key :
      (f : F) (key : Bytes) (text : Text)
      → fs.read_file path f ≡ some text
      → decoded_key c text ≡ inr (some key)
      → read_key_file fs c path f ≡ inr (some key)
  unfolding read_key_file
  held_key f key text e d = ap (text_key fs c path) e ∙ d

  module _ (drawn key : Bytes) (laws : KeepsText fs path)
      (codec : decoded_key c (c.to_base64 drawn) ≡ inr (some drawn)) where
    restricted-held :
        (before between : F) (o : Bool × F) (p : Provider F)
        → fs.write_file path (c.to_base64 drawn) before ≡ (true, between)
        → fs.set_mode path between ≡ o
        → restricted fs c path drawn o ≡ (inr key, p)
        → read_key_file fs c path p.store ≡ inr (some key)
    restricted-held before between (false, f) p w m e = absurd cc
    restricted-held before between (true, f) p w m e =
        let alike : drawn ≡ key = cc in
        let same_store : f ≡ p.store = ap (λ o. o.1.store) e in
        subst (λ s. read_key_file fs c path s ≡ inr (some key)) same_store
          (subst (λ x. read_key_file fs c path f ≡ inr (some x)) alike
            (held_key f drawn (c.to_base64 drawn)
              (laws.reads (c.to_base64 drawn) before between f w m) codec))

    written-held :
        (before : F) (o : Bool × F) (p : Provider F)
        → fs.write_file path (c.to_base64 drawn) before ≡ o
        → written fs c path drawn o ≡ (inr key, p)
        → read_key_file fs c path p.store ≡ inr (some key)
    written-held before (false, f) p w e = absurd cc
    written-held before (true, f) p w e = restricted-held before f (fs.set_mode path f) p w refl e

    directory_made-held :
        (o : Bool × F) (p : Provider F)
        → directory_made fs c path drawn o ≡ (inr key, p)
        → read_key_file fs c path p.store ≡ inr (some key)
    directory_made-held (false, f) p e = absurd cc
    directory_made-held (true, f) p e =
        written-held f (fs.write_file path (c.to_base64 drawn) f) p refl e

    in_file-held :
        (r : KeyError ⊎ Option Bytes) (f : F) (p : Provider F)
        → read_key_file fs c path f ≡ r
        → in_file fs c path drawn r f ≡ (inr key, p)
        → read_key_file fs c path p.store ≡ inr (some key)
    in_file-held (inl why) f p h e = absurd cc
    in_file-held (inr none) f p h e = directory_made-held (fs.make_directory path f) p e
    in_file-held (inr (some x)) f p h e =
        let alike : inr (some x) ≡ inr (some key) = cc in
        let same_store : f ≡ p.store = ap (λ o. o.1.store) e in
        subst (λ s. read_key_file fs c path s ≡ inr (some key)) same_store (h ∙ alike)

  in_file-again :
      (other key : Bytes) (r : KeyError ⊎ Option Bytes) (f : F)
      → r ≡ inr (some key)
      → (in_file fs c path other r f).0 ≡ inr key
  in_file-again other key (inl why) f e = absurd cc
  in_file-again other key (inr none) f e = absurd cc
  in_file-again other key (inr (some x)) f e = let alike : x ≡ key = cc in ap inr alike

-- A key that a new provider of a file hands out is handed out by a provider after it, whatever that one would
-- draw. A file that was written and restricted holds what was written, and base64 is read back.
pub get_file_key-stable :
    {F : Type 0} (fs : Files F) (c : Crypto) (path : Text) (drawn other key : Bytes) (f : F)
    (p : Provider F)
    → KeepsText fs path
    → decoded_key c (c.to_base64 drawn) ≡ inr (some drawn)
    → get_file_key fs c path drawn (new_provider f) ≡ (inr key, p)
    → (get_file_key fs c path other (new_provider p.store)).0 ≡ inr key
unfolding get_file_key
get_file_key-stable fs c path drawn other key f p laws codec e =
    in_file-again fs c path other key (read_key_file fs c path p.store) p.store
      (in_file-held fs c path drawn key laws codec (read_key_file fs c path f) f p refl e)
