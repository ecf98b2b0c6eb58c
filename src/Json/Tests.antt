-- ===== src/Json/Tests.antt =====
-- Canonical JSON at concrete values.
use securtxn.Prelude.{◌≡◌, refl, codes, text_lt, ok, err, invalid_value, none, true}
use securtxn.Json.{
  null, undefined, boolean, number, string, array, object, nil, item, end, field, serialise, quote,
}

sorted_keys :
    serialise (
      object (
        field
          (codes "b")
          (array (item null (item (boolean true) nil)))
          (field (codes "c") undefined (field (codes "a") (string (codes "x\"y")) end))))
    ≡ ok (codes "{\"a\":\"x\\\"y\",\"b\":[null,true]}")
unfolding serialise quote text_lt
sorted_keys = refl

not_a_number : serialise (object (field (codes "b") (number none) end)) ≡ err invalid_value
unfolding serialise
not_a_number = refl
