-- ===== src/Json/Lookup.antt =====
-- What is found in a JSON object that was built item by item.
use pluto_server.Prelude.{
  ℕ, ◌+◌, ◌≡◌, Bool, true, ◌&&◌, List, map, Option, none, some, leb, if◌then◌else◌, ◌>>=◌,
}
use pluto_server.Prelude.TextMap.{text_eq, text_eq_self}
use pluto_server.Json.{CJson}

-- Names are compared with no regard to case.
abbrev pub lower : ℕ → ℕ
lower c = if leb b'A' c && leb c b'Z' then c + 32 else c

unfoldable pub same_name : List ℕ → List ℕ → Bool
same_name k j = text_eq (map lower k) (map lower j)

pub same_name_self : (k : List ℕ) → same_name k k ≡ true
unfolding same_name
same_name_self k = text_eq_self (map lower k)

-- The text of the item with a name: `none` without such an item, `some none` if it is no string.
abbrev pub item_text : (c : CJson) → CJson.Item c → List ℕ → Option (Option (List ℕ))
item_text c o j = do i ← c.get_object_item o j; some (c.valuestring i)

-- What the header of cJSON says: a new object has no items; an added item stands behind the others; and
-- a search gives the first item with the name.
pub record IsCJson (c : CJson) : Type 0 where
  pub fresh : (o : c.Item) (j : List ℕ) → c.create_object ≡ some o → item_text c o j ≡ none
  pub added :
      (o : c.Item) (k s j : List ℕ)
      → item_text c (c.add_string_to_object o k s) j ≡ (elim (item_text c o j) [
        | none ↦ if same_name k j then some (some s) else none
        | some v ↦ some v
      ])
