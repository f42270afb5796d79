-- ===== src/Responses/Config.antt =====
-- `filterSystemConfig` of plugin/guest-gateway/responses.ts: which settings a guest reads.
use bb_shared.Base.{
  ◌≡◌, refl, List, [], ◌∷◌, true, Option, none, some, Text, same, same_iff, is_one_of,
  is_one_of-All, inl, inr, arith, Bool-cases, Option-cases, if◌then◌else◌,
}
use bb_shared.Base.Json.{Json, obj, Fields, property, get_field}
use bb_shared.Responses.{kept_fields, config_keys, fixed_config, filter_system_config}

-- `a`, or `b` where there is no `a`.
abbrev pub first_some : Option Json → Option Json → Option Json
first_some none b = b
first_some (some a) b = some a

pub get_field-kept_fields :
    (key : Text) (keys : List Text) (fs rest : Fields)
    → get_field key (kept_fields keys fs rest) ≡ (
        if is_one_of key keys
        then first_some (get_field key fs) (get_field key rest)
        else get_field key rest)
unfolding get_field kept_fields
get_field-kept_fields key [] fs rest = refl
get_field-kept_fields key (k ∷ keys) fs rest = elim (Option-cases (get_field k fs)) [
  | inl missing ↦
      ground
        (arith, missing, same_iff key k, same_iff k key, get_field-kept_fields key keys fs rest)
  | inr (v, found) ↦
      ground (arith, found, same_iff key k, same_iff k key, get_field-kept_fields key keys fs rest)
]

-- No setting of the list is blanked.
kept-fixed_config :
    (key : Text) → is_one_of key config_keys ≡ true → get_field key fixed_config ≡ none
unfolding get_field same
kept-fixed_config key h =
    is_one_of-All (λ k. get_field k fixed_config ≡ none) key config_keys
      (refl, (refl, (refl, (refl, (refl, tt))))) h

-- A guest reads a setting of the list as it is, reads a fixed blank for each setting of the host,
-- and reads nothing else.
pub filter_system_config-property :
    (key : Text) (fs : Fields)
    → property key (filter_system_config (obj fs))
      ≡ (if is_one_of key config_keys then get_field key fs else get_field key fixed_config)
unfolding filter_system_config
filter_system_config-property key fs = elim (Bool-cases (is_one_of key config_keys)) [
  | inl kept ↦
      ground
        (arith, kept, kept-fixed_config key, get_field-kept_fields key config_keys fs fixed_config)
  | inr left ↦ ground (arith, left, get_field-kept_fields key config_keys fs fixed_config)
]
