-- ===== src/Json.antt =====
-- common/cjson_helper.h and common/cjson_helper.cpp. The library cJSON is a parameter: `CJson` has the
-- calls that the class makes of it, and `IsCJson` what its header says of them. `none` is undefined
-- behaviour: a `std::string` made of NULL, or a NULL text handed to cJSON.
pub mod Lookup
use pluto_server.Prelude.{
  ℕ, Bool, true, false, List, [], ◌∷◌, Option, none, some, if◌then◌else◌, ◌>>=◌,
}

-- The calls. `parse` gives NULL as `none`, and `valuestring` is NULL for an item that is no string.
pub record CJson : Type 1 where
  pub Item : Type 0
  pub create_object : Option Item
  pub parse : List ℕ → Option Item
  pub get_object_item : Item → List ℕ → Option Item
  pub valuestring : Item → Option (List ℕ)
  pub valueint : Item → ℕ
  pub add_string_to_object : Item → List ℕ → List ℕ → Item
  pub add_number_to_object : Item → List ℕ → ℕ → Item
  pub print_unformatted : Item → List ℕ

-- `class JsonHelper`.
pub record JsonHelper (Item : Type 0) : Type 0 where
  pub json : Option Item
  pub parsed : Bool
  pub str_json : List ℕ

module _ (c : CJson) where
  open c use {
    Item, create_object, parse, get_object_item, valuestring, valueint, add_string_to_object,
    add_number_to_object, print_unformatted,
  }

  -- The constructors: from a text, and empty.
  abbrev pub from_text : List ℕ → JsonHelper Item
  from_text text = record { json = none; parsed = false; str_json = text }

  unfoldable pub new_json : JsonHelper Item
  new_json = elim create_object [
    | none ↦ record { json = none; parsed = false; str_json = [] }
    | some o ↦ record { json = some o; parsed = true; str_json = [] }
  ]

  -- `_ParseGet` and `_ParseSet`, as each caller guards them.
  unfoldable pub parse_get : JsonHelper Item → JsonHelper Item
  parse_get h = if h.parsed then h else record h { json = parse h.str_json; parsed = true }

  unfoldable pub parse_set : JsonHelper Item → JsonHelper Item
  parse_set h = if h.parsed then h else record h { json = create_object; parsed = true }

  -- The search that the getters share: the helper afterwards, and the item or NULL.
  unfoldable pub find_item : JsonHelper Item → List ℕ → JsonHelper Item × Option Item
  unfolding parse_get
  find_item h node_name = let h' = parse_get h in (h', h'.json >>= λ o. get_object_item o node_name)

  unfoldable pub find_item2 : JsonHelper Item → List ℕ → List ℕ → JsonHelper Item × Option Item
  unfolding parse_get
  find_item2 h node1 node2 =
      let h' = parse_get h in
      (h', h'.json >>= λ o. get_object_item o node1 >>= λ o1. get_object_item o1 node2)

  -- The end of the getters of a `string`: the result and the text.
  unfoldable pub string_of : Option Item → Option (Bool × List ℕ)
  string_of none = some (false, [])
  string_of (some i) = do text ← valuestring i; some (true, text)

  -- The end of the getters of an `int`.
  unfoldable pub int_of : Option Item → Bool × ℕ
  int_of none = (false, 0)
  int_of (some i) = (true, valueint i)

  -- `GetJsonItem`, for a `string`, a `char*` and an `int`. The pointer is not written on a failure.
  unfoldable pub get_string : JsonHelper Item → List ℕ → Option (JsonHelper Item × Bool × List ℕ)
  unfolding find_item string_of
  get_string h node_name = do
    let (h', i) = find_item h node_name
    (ok, text) ← string_of i
    some (h', ok, text)

  unfoldable pub get_chars : JsonHelper Item → List ℕ → JsonHelper Item × Option (Option (List ℕ))
  unfolding find_item
  get_chars h node_name =
      let (h', i) = find_item h node_name in (h', i >>= λ i. some (valuestring i))

  unfoldable pub get_int : JsonHelper Item → List ℕ → JsonHelper Item × Bool × ℕ
  unfolding find_item int_of
  get_int h node_name = let (h', i) = find_item h node_name in let (ok, n) = int_of i in (h', ok, n)

  -- `GetJsonItem2`, for a `string` and an `int`.
  unfoldable pub get_string2 :
      JsonHelper Item → List ℕ → List ℕ → Option (JsonHelper Item × Bool × List ℕ)
  unfolding find_item2 string_of
  get_string2 h node1 node2 = do
    let (h', i) = find_item2 h node1 node2
    (ok, text) ← string_of i
    some (h', ok, text)

  unfoldable pub get_int2 : JsonHelper Item → List ℕ → List ℕ → JsonHelper Item × Bool × ℕ
  unfolding find_item2 int_of
  get_int2 h node1 node2 =
      let (h', i) = find_item2 h node1 node2 in let (ok, n) = int_of i in (h', ok, n)

  -- `SetJsonItem`, for a `char*`, a `string` and an `int`.
  unfoldable pub set_chars :
      JsonHelper Item → List ℕ → Option (List ℕ) → Option (JsonHelper Item × Bool)
  unfolding parse_set
  set_chars h node_name result =
      let h' = parse_set h in
      elim h'.json [
        | none ↦ some (h', false)
        | some o ↦ (do
          text ← result
          some (record h' { json = some (add_string_to_object o node_name text) }, true))
      ]

  abbrev pub set_string : JsonHelper Item → List ℕ → List ℕ → Option (JsonHelper Item × Bool)
  set_string h node_name result = set_chars h node_name (some result)

  unfoldable pub set_int : JsonHelper Item → List ℕ → ℕ → JsonHelper Item × Bool
  unfolding parse_set
  set_int h node_name result =
      let h' = parse_set h in
      elim h'.json [
        | none ↦ (h', false)
        | some o ↦ (record h' { json = some (add_number_to_object o node_name result) }, true)
      ]

  -- `Json2Char`, whose result may be NULL.
  unfoldable pub json_to_char : JsonHelper Item → Option (List ℕ)
  json_to_char h = do o ← h.json; some (print_unformatted o)

  -- `Json2Str`: the text that is kept, or a new one that is kept from now on.
  unfoldable pub json_to_str : JsonHelper Item → Option (JsonHelper Item × List ℕ)
  json_to_str h = elim h.str_json [
    | [] ↦ (do o ← h.json; some (record h { str_json = print_unformatted o }, print_unformatted o))
    | b ∷ text ↦ some (h, b ∷ text)
  ]
