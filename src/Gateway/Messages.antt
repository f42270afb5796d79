-- ===== src/Gateway/Messages.antt =====
-- The body of a guest's message in plugin/guest-gateway/index.ts: what is accepted, and what is sent on.
use bb_shared.Base.{
  ℕ, suc, ◌+◌, ◌*◌, Bool, true, false, ◌&&◌, not, List, [], ◌∷◌, ◌++◌, Option, none, some, Text,
  codes, is_one_of, length, if◌then◌else◌, ltb, ◌==◌,
}
use bb_shared.Base.Json.{Json, str, arr, obj, Items, nil, cons, field, end, property}
use bb_shared.Frames.{is_text}
use bb_shared.Responses.{as_items, map_items}
use bb_shared.Responses.Lists.{all_items}

abbrev pub Bytes : Type 0
Bytes = List ℕ

pub data Message : Type 0 where
  accepted : (body : Json) → Message
  turned_away : (status : ℕ) (error : Text) → Message

-- The loop over the chunks; `none` when there are more bytes than the limit.
unfoldable pub collect : ℕ → ℕ → List Bytes → Option Bytes
collect limit bytes [] = some []
collect limit bytes (chunk ∷ chunks) =
    let rest = collect limit (bytes + length chunk) chunks in
    if ltb limit (bytes + length chunk)
    then none
    else elim rest [ none ↦ none | some more ↦ some (chunk ++ more) ]

abbrev pub message_limit : ℕ
message_limit = 1024 * 1024

unfoldable pub items_length : Items → ℕ
items_length nil = 0
items_length (cons v vs) = suc (items_length vs)

abbrev pub text_of : Option Json → Option Text
text_of (some (str s)) = some s
text_of _ = none

abbrev pub is_string : Option Json → Bool
is_string (some (str s)) = true
is_string _ = false

abbrev pub is_text_item : Json → Bool
is_text_item v =
    is_text (codes "text") (property (codes "type") v) && is_string (property (codes "text") v)

abbrev pub modes : List Text
modes =
    codes "queue-if-active"
    ∷ codes "steer-if-active"
    ∷ codes "auto"
    ∷ codes "start"
    ∷ codes "steer"
    ∷ []

abbrev pub is_mode : Option Json → Bool
is_mode (some (str s)) = is_one_of s modes
is_mode _ = false

-- `item.text` and `message.mode`, which are texts by then.
abbrev pub or_empty : Option Json → Json
or_empty none = str []
or_empty (some v) = v

abbrev pub plain_item : Json → Json
plain_item v = obj (
    field (codes "type") (str (codes "text")) (
      field (codes "text") (or_empty (property (codes "text") v))
        (field (codes "mentions") (arr nil) end)))

abbrev pub plain_message : Items → Json → Json
plain_message items mode =
    obj (field (codes "input") (arr (map_items plain_item items)) (field (codes "mode") mode end))

abbrev pub is_text_input : Option Json → Bool
is_text_input (some (arr vs)) =
    not (items_length vs == 0) && (not (ltb 128 (items_length vs)) && all_items is_text_item vs)
is_text_input _ = false

unfoldable pub read_message : Json → Message
read_message v =
    if not (is_text_input (property (codes "input") v))
    then turned_away 400 (codes "Guest messages support text input only")
    else if not (is_mode (property (codes "mode") v))
    then turned_away 400 (codes "Invalid message mode")
    else accepted (
        plain_message (as_items (property (codes "input") v))
          (or_empty (property (codes "mode") v)))

abbrev pub parsed : Option Json → Message
parsed none = turned_away 400 (codes "Invalid message JSON")
parsed (some v) = read_message v

module _ (from_utf8 : Bytes → Text) (parse_json : Text → Option Json) where
  abbrev pub read_bytes : Option Bytes → Message
  read_bytes none = turned_away 413 (codes "Guest message is too large")
  read_bytes (some bytes) = parsed (parse_json (from_utf8 bytes))

  unfoldable pub guest_message : List Bytes → Message
  guest_message chunks = read_bytes (collect message_limit 0 chunks)
