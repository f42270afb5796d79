-- ===== src/Gateway/Texts.antt =====
-- What the message of a guest may hold when plugin/guest-gateway/index.ts sends it on.
use bb_shared.Base.{
  ℕ, suc, ◌+◌, ◌*◌, ◌≡◌, ◌≤◌, refl, ap, subst, inl, inr, Bool, true, false, ◌&&◌, List, [], ◌∷◌,
  ◌++◌, Option, none, some, Text, codes, same, is_one_of, length, length-append, arith,
  Option-cases,
}
use bb_shared.Base.Json.{Json, str, arr, obj, Items, nil, cons, field, end, property, get_field}
use bb_shared.Responses.{map_items}
use bb_shared.Responses.Lists.{all_items, all_items-map_items}
use bb_shared.Gateway.Messages.{
  Bytes, accepted, collect, message_limit, items_length, is_text_item, is_string, is_mode, modes,
  plain_item, plain_message, is_text_input, read_message, guest_message,
}

-- An item with a text, and with nothing else but no mentions.
abbrev pub is_plain : Json → Bool
is_plain (obj (field a (str t) (field b (str s) (field c (arr nil) end)))) =
    same a (codes "type")
    && (same t (codes "text") && (same b (codes "text") && same c (codes "mentions")))
is_plain _ = false

some_string : (o : Option Json) → is_string o ≡ true → (s : Text) × (o ≡ some (str s))
some_string (some (str s)) h = (s, refl)
some_string none h = absurd cc
some_string (some _) h = absurd cc

text_item-text :
    (v : Json) → is_text_item v ≡ true → (s : Text) × (property (codes "text") v ≡ some (str s))
text_item-text v h = some_string (property (codes "text") v) (ground arith)

plain_item-is_plain : (v : Json) → is_text_item v ≡ true → is_plain (plain_item v) ≡ true
unfolding same
plain_item-is_plain v h = let (s, e) = text_item-text v h in rw e refl

-- Read again, an item of a message stays as it is.
plain_item-is_text_item : (v : Json) → is_text_item v ≡ true → is_text_item (plain_item v) ≡ true
unfolding same get_field
plain_item-is_text_item v h = let (s, e) = text_item-text v h in rw e refl

plain_items-again :
    (vs : Items)
    → all_items is_text_item vs ≡ true
    → map_items plain_item (map_items plain_item vs) ≡ map_items plain_item vs
unfolding map_items same get_field
plain_items-again nil h = refl
plain_items-again (cons v vs) h = ground (arith, text_item-text v, plain_items-again vs)

collect-bounds :
    (limit n : ℕ) (chunks : List Bytes) (b : Bytes)
    → n ≤ limit
    → collect limit n chunks ≡ some b
    → n + length b ≤ limit
unfolding collect
collect-bounds limit n [] b h e = ground (arith, h)
collect-bounds limit n (c ∷ chunks) b h e =
    elim (Option-cases (collect limit (n + length c) chunks)) [
      | inl over ↦ absurd (ground (arith, over))
      | inr (more, rest) ↦
          let fits : n + length c ≤ limit = ground (arith, rest) in
          let all_fit = collect-bounds limit (n + length c) chunks more fits rest in
          let joined : c ++ more ≡ b = ground (arith, rest) in
          subst (λ x. n + length x ≤ limit) joined (ground (arith, length-append c more, all_fit))
    ]

map_items-length : (f : Json → Json) (vs : Items) → items_length (map_items f vs) ≡ items_length vs
unfolding map_items items_length
map_items-length f nil = refl
map_items-length f (cons v vs) = ap suc (map_items-length f vs)

-- A mode of the list is a text.
mode-text :
    (o : Option Json)
    → is_mode o ≡ true
    → (s : Text) × (o ≡ some (str s)) × (is_one_of s modes ≡ true)
mode-text (some (str s)) h = (s, refl, h)
mode-text none h = absurd cc
mode-text (some _) h = absurd cc

input-items :
    (o : Option Json)
    → is_text_input o ≡ true
    → (vs : Items) × (o ≡ some (arr vs))
      × (1 ≤ items_length vs)
      × (items_length vs ≤ 128)
      × (all_items is_text_item vs ≡ true)
input-items (some (arr vs)) h = (vs, refl, ground arith, ground arith, ground arith)
input-items none h = absurd cc
input-items (some _) h = absurd cc

-- What is sent on for a message that was read.
pub record IsRebuilt (body : Json) : Type 0 where
  pub items : Items
  pub mode : Text
  pub shape : body ≡ obj (field (codes "input") (arr items) (field (codes "mode") (str mode) end))
  pub plain : all_items is_plain items ≡ true
  pub bounds : (1 ≤ items_length items) × (items_length items ≤ 128)
  pub known_mode : is_one_of mode modes ≡ true
  pub again : read_message body ≡ accepted body

plain_message-IsRebuilt :
    (vs : Items) (s : Text)
    → 1 ≤ items_length vs
    → items_length vs ≤ 128
    → all_items is_text_item vs ≡ true
    → is_one_of s modes ≡ true
    → IsRebuilt (plain_message vs (str s))
unfolding read_message get_field same
plain_message-IsRebuilt vs s least most texts known =
    let items = map_items plain_item vs in
    let count = map_items-length plain_item vs in
    let still : all_items is_text_item items ≡ true =
      all_items-map_items is_text_item is_text_item plain_item vs plain_item-is_text_item texts in
    record {
      items = items;
      mode = s;
      shape = refl;
      plain = all_items-map_items is_text_item is_plain plain_item vs plain_item-is_plain texts;
      bounds = (omega (arith, count), omega (arith, count));
      known_mode = known;
      again = ground (arith, count, still, plain_items-again vs texts);
    }

read_message-IsRebuilt : (v body : Json) → read_message v ≡ accepted body → IsRebuilt body
unfolding read_message
read_message-IsRebuilt v body e =
    let (vs, given, least, most, texts) = input-items (property (codes "input") v) (ground arith) in
    let (s, chosen, known) = mode-text (property (codes "mode") v) (ground arith) in
    let same_body : plain_message vs (str s) ≡ body = ground (arith, given, chosen) in
    subst IsRebuilt same_body (plain_message-IsRebuilt vs s least most texts known)

-- A message that goes on has one to 128 items, each a text without mentions, and a mode of the list, and
-- nothing else; it came in at most 1 MiB, and read again it stays as it is.
pub guest_message-accepted :
    (from_utf8 : Bytes → Text) (parse_json : Text → Option Json) (chunks : List Bytes) (body : Json)
    → guest_message from_utf8 parse_json chunks ≡ accepted body
    → IsRebuilt body
      × ((bytes : Bytes) × (collect message_limit 0 chunks ≡ some bytes)
          × (length bytes ≤ 1024 * 1024))
unfolding guest_message
guest_message-accepted from_utf8 parse_json chunks body e =
    elim (Option-cases (collect message_limit 0 chunks)) [
      | inl over ↦ absurd (ground (arith, over))
      | inr (bytes, got) ↦ elim (Option-cases (parse_json (from_utf8 bytes))) [
        | inl bad ↦ absurd (ground (arith, got, bad))
        | inr (v, read) ↦ (
          read_message-IsRebuilt v body (ground (arith, got, read)),
          (
            bytes,
            got,
            omega (arith, collect-bounds message_limit 0 chunks bytes (omega arith) got),
          ),
        )
      ]
    ]
