-- ===== src/Anchor/Message.antt =====
-- packages/shared-types/src/evidence.ts: the message that is published to the topic, and what
-- JSON.parse and the schema make of the contents that are read back.
use securtxn.Prelude.{
  ◌==◌, Bool, true, false, not, ◌&&◌, ◌||◌, Option, none, some, [], ◌∷◌, Text, codes, text_eq, leb,
  includes, if◌then◌else◌, Result, ok, require, present, ◌>>=◌, ◌>>◌, internal, unprocessable,
}
use securtxn.Platform.{Platform}
use securtxn.Evidence.Payload.{is_bytes32}
use securtxn.Json.{JsValue, undefined, number, string, object, Fields, end, field}

pub record AnchorMessage : Type 0 where
  pub root : Text
  pub count : Text
  pub submitted_at : Text

-- What `JSON.parse` makes of the contents; none where it throws.
abbrev pub Contents : Type 0
Contents = Option JsValue

-- The last member of a name is the one that counts.
abbrev member_or : JsValue → Text → Fields → JsValue
member_or found k end = found
member_or found k (field name v fs) = member_or (if text_eq name k then v else found) k fs

abbrev member : Text → JsValue → JsValue
member k (object fs) = member_or undefined k fs
member k _ = undefined

abbrev text_in : JsValue → Option Text
text_in (string t) = some t
text_in _ = none

abbrev number_in : JsValue → Option Text
number_in (number form) = form
number_in _ = none

abbrev all_digits : Text → Bool
all_digits [] = true
all_digits (c ∷ t) = leb b'0' c && (leb c b'9' && all_digits t)

abbrev starts_negative : Text → Bool
starts_negative (c ∷ t) = c == b'-'
starts_negative [] = false

-- A positive integer by its shortest form, which has a positive exponent from 10²¹ on.
unfoldable pub is_positive_int : Text → Bool
is_positive_int form =
    not (starts_negative form)
    && ((all_digits form && not (text_eq form (codes "0"))) || includes form (codes "e+"))

abbrev pub is_text : JsValue → Text → Bool
is_text (string t) k = text_eq t k
is_text _ k = false

abbrev pub is_one : JsValue → Bool
is_one (number (some form)) = text_eq form (codes "1")
is_one _ = false

-- `AnchorMessage.safeParse`
unfoldable pub parse_message : Platform → JsValue → Result AnchorMessage
parse_message pf v =
    require (is_one (member (codes "v") v)) unprocessable
    >> (require (is_text (member (codes "kind") v) (codes "evidence-anchor")) unprocessable
        >> (present (text_in (member (codes "root") v)) unprocessable >>= λ root.
            present (number_in (member (codes "count") v)) unprocessable >>= λ count.
            present (text_in (member (codes "submittedAt") v)) unprocessable >>= λ submitted_at.
            require (is_bytes32 root && (is_positive_int count && pf.is_datetime submitted_at))
              unprocessable
            >> ok (record { root = root; count = count; submitted_at = submitted_at })))

unfoldable pub read_message : Platform → Contents → Result AnchorMessage
read_message pf contents = present contents internal >>= λ v. parse_message pf v
