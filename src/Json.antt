-- ===== src/Json.antt =====
-- apps/api/src/lib/canonical-json.ts: JSON with the keys of every object in code unit order.
-- A number stands with its shortest decimal form, `none` for NaN and the infinities. A value is a
-- tree here, so the circular references that the source refuses cannot be written down.
mod Tests
use securtxn.Prelude.{
  ℕ, ◌+◌, ◌-◌, ◌/◌, ◌%◌, Bool, true, false, ◌&&◌, Option, none, some, List, [], ◌∷◌, ◌++◌, Text,
  codes, text_lt, text_eq, if◌then◌else◌, leb, ltb, ◌==◌, Result, ok, err, invalid_value, ◌>>=◌,
}

mutual
  pub data JsValue : Type 0 where
    null undefined bigint function symbol : JsValue
    boolean : Bool → JsValue
    number : Option Text → JsValue
    string date : Text → JsValue
    array : Items → JsValue
    object : Fields → JsValue

  pub data Items : Type 0 where
    nil : Items
    item : JsValue → Items → Items

  pub data Fields : Type 0 where
    end : Fields
    field : Text → JsValue → Fields → Fields

abbrev hex_digit : ℕ → ℕ
hex_digit d = if ltb d 10 then d + b'0' else d + 87

-- `\u` and four digits
abbrev unicode_escape : ℕ → Text
unicode_escape c =
    codes "\\u"
    ++ (hex_digit (c / 4096)
        ∷ hex_digit (c / 256 % 16)
        ∷ hex_digit (c / 16 % 16)
        ∷ hex_digit (c % 16)
        ∷ [])

abbrev is_high : ℕ → Bool
is_high c = leb 0xd800 c && leb c 0xdbff

abbrev is_low : ℕ → Bool
is_low c = leb 0xdc00 c && leb c 0xdfff

abbrev escape_unit : ℕ → Text
escape_unit c =
    if c == 0x22
    then codes "\\\""
    else if c == 0x5c
    then codes "\\\\"
    else if c == 8
    then codes "\\b"
    else if c == 12
    then codes "\\f"
    else if c == 10
    then codes "\\n"
    else if c == 13
    then codes "\\r"
    else if c == 9
    then codes "\\t"
    else if ltb c 32
    then unicode_escape c
    else c ∷ []

abbrev first_is : (ℕ → Bool) → Text → Bool
first_is p [] = false
first_is p (c ∷ t) = p c

-- A high surrogate before a low one and a low one after a high one make a pair, which stays; a
-- surrogate on its own is escaped.
abbrev escape_at : Bool → ℕ → Text → Text
escape_at after_high c t =
    if is_high c
    then (if first_is is_low t then c ∷ [] else unicode_escape c)
    else if is_low c
    then (if after_high then c ∷ [] else unicode_escape c)
    else escape_unit c

escape : Bool → Text → Text
escape after_high [] = []
escape after_high (c ∷ t) = escape_at after_high c t ++ escape (is_high c) t

-- `JSON.stringify` of a string
unfoldable pub quote : Text → Text
unfolding escape
quote t = 0x22 ∷ (escape false t ++ 0x22 ∷ [])

-- `parts.join(",")`
abbrev pub join_comma : List Text → Text
join_comma [] = []
join_comma (x ∷ []) = x
join_comma (x ∷ y ∷ xs) = x ++ b',' ∷ join_comma (y ∷ xs)

abbrev pub Entry : Type 0
Entry = Text × Text

-- `entries.sort` by key, as an insertion that keeps the order of equal keys.
abbrev insert_entry : Entry → List Entry → List Entry
insert_entry e [] = e ∷ []
insert_entry e (f ∷ fs) = if text_lt f.0 e.0 then f ∷ insert_entry e fs else e ∷ f ∷ fs

abbrev sort_entries : List Entry → List Entry
sort_entries [] = []
sort_entries (e ∷ es) = insert_entry e (sort_entries es)

abbrev member : Entry → Text
member e = quote e.0 ++ b':' ∷ e.1

abbrev members : List Entry → List Text
members [] = []
members (e ∷ es) = member e ∷ members es

abbrev bracket : ℕ → Text → ℕ → Text
bracket l body r = l ∷ (body ++ r ∷ [])

-- Every refusal is the same `TypeError`, so the members may be serialised before they are sorted.
unfoldable mutual
  pub serialise : JsValue → Result Text
  serialise null = ok (codes "null")
  serialise undefined = err invalid_value
  serialise bigint = err invalid_value
  serialise function = err invalid_value
  serialise symbol = err invalid_value
  serialise (boolean b) = ok (if b then codes "true" else codes "false")
  serialise (number none) = err invalid_value
  serialise (number (some form)) = ok form
  serialise (string t) = ok (quote t)
  serialise (date iso) = ok (quote iso)
  serialise (array xs) = serialise_items xs >>= λ ts. ok (bracket b'[' (join_comma ts) b']')
  serialise (object fs) =
      serialise_fields fs >>= λ es. ok (bracket b'{' (join_comma (members (sort_entries es))) b'}')

  pub serialise_items : Items → Result (List Text)
  serialise_items nil = ok []
  serialise_items (item x xs) = serialise x >>= λ t. serialise_items xs >>= λ ts. ok (t ∷ ts)

  -- A member that is `undefined` is dropped.
  pub serialise_fields : Fields → Result (List Entry)
  serialise_fields end = ok []
  serialise_fields (field k undefined fs) = serialise_fields fs
  serialise_fields (field k v fs) =
      serialise v >>= λ t. serialise_fields fs >>= λ es. ok ((k, t) ∷ es)
