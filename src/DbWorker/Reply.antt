-- ===== src/DbWorker/Reply.antt =====
-- The answer to a query: the first row of its result as a JSON object.
use mathlib.Core.Bool.{false≢true}
use mathlib.Core.Path.{subst}
use pluto_server.Prelude.{
  ℕ, ◌≡◌, refl, sym, ap, ◌∙◌, true, List, [], ◌∷◌, map, get_elem?, length, Option, none, some,
  some_inj, bind_some, Bool-cases, inl, inr,
}
use pluto_server.Prelude.TextMap
use pluto_server.Prelude.Memory.{Allocator}
use pluto_server.Json.{CJson, JsonHelper, new_json, set_chars, json_to_char}
use pluto_server.Json.Lookup.{IsCJson, item_text, same_name, same_name_self}
use pluto_server.DbConn
use pluto_server.DbConn.{
  Mysql, MysqlRes, CResultSet, CdbConn, new_result_set, execute_query, next, column,
}
use pluto_server.DbConn.Columns.{
  IsDistinct, Holds, AreColumns, new_result_set-IsIndex, get_index-column, get_elem?-map,
  get_elem?-exists, get_elem?-lt,
}
use pluto_server.DbWorker.{set_columns, deal_query_sql_one}

-- A JSON object under construction.
abbrev Building : (c : CJson) → CJson.Item c → JsonHelper (CJson.Item c)
Building c o = record { json = some o; parsed = true; str_json = [] }

set_chars-Building :
    (c : CJson) (o : CJson.Item c) (k s : List ℕ)
    → set_chars c (Building c o) k (some s) ≡ some (Building c (c.add_string_to_object o k s), true)
unfolding set_chars
set_chars-Building c o k s = refl

abbrev with_text : (c : CJson) → CJson.Item c → List ℕ → Option (List ℕ) → CJson.Item c
with_text c o k none = o
with_text c o k (some v) = c.add_string_to_object o k v

-- An object with a text added for each key, the value at the key's index.
abbrev pub filled : (c : CJson) → List (List ℕ) → CJson.Item c → List (List ℕ × ℕ) → CJson.Item c
filled c values o [] = o
filled c values o ((k, i) ∷ ks) = filled c values (with_text c o k (get_elem? values i)) ks

-- The object that is built of a row: the columns of the result set, in the order of their index, added to
-- the new object.
abbrev pub row_object : (c : CJson) → CJson.Item c → MysqlRes → List (List ℕ) → CJson.Item c
row_object c root r values = filled c values root (new_result_set r).key_map

-- What the loop over the columns adds: what was there stays, and each column that comes has its value.
record Added (c : CJson) (o : CJson.Item c) (names values : List (List ℕ)) (ks : List (List ℕ × ℕ))
    (o' : CJson.Item c) : Type 0 where
  kept : (j : List ℕ) (v : Option (List ℕ)) → item_text c o j ≡ some v → item_text c o' j ≡ some v
  new :
      (j : List ℕ) (n : ℕ) (v : List ℕ)
      → get_elem? names n ≡ some j
      → get_elem? values n ≡ some v
      → Holds j n ks
      → item_text c o j ≡ none
      → item_text c o' j ≡ some (some v)

module _ {c : CJson} (json : IsCJson c) (r : MysqlRes) (distinct : IsDistinct r.fields)
    (values : List (List ℕ)) where
  get_string-column :
      (result : CResultSet) (k : List ℕ) (n : ℕ) (v : List ℕ)
      → result.key_map ≡ (new_result_set r).key_map
      → result.row ≡ some (map some values)
      → get_elem? r.fields n ≡ some k
      → get_elem? values n ≡ some v
      → DbConn.get_string result k ≡ some (some v)
  unfolding DbConn.get_string
  get_string-column result k n v km row e ev =
      let found : TextMap.find k result.key_map ≡ some n =
        ap (TextMap.find k) km ∙ get_index-column r n k distinct e in
      rw (found, DbConn.get_string, row) (get_elem?-map some values n v ev)

  Added-step :
      (o o' : CJson.Item c) (k v : List ℕ) (i : ℕ) (ks : List (List ℕ × ℕ))
      → get_elem? r.fields i ≡ some k
      → get_elem? values i ≡ some v
      → Added c (c.add_string_to_object o k v) r.fields values ks o'
      → Added c o r.fields values ((k, i) ∷ ks) o'
  Added-step o o' k v i ks e ev a = record {
    kept = λ j w found. a.kept j w (json.added o k v j ∙ rw found refl);
    new = λ j n w ej ew h absent. elim (Bool-cases (same_name k j)) [
      | inl same ↦
          let at : i ≡ n = distinct i n k j e ej same in
          let value : v ≡ w = some_inj (sym ev ∙ ap (get_elem? values) at ∙ ew) in
          a.kept j (some w) (json.added o k v j ∙ rw (absent, same) (ap some (ap some value)))
      | inr other ↦ elim h [
        | inl here ↦
            absurd (false≢true (sym other ∙ ap (same_name k) (sym here.0) ∙ same_name_self k))
        | inr later ↦ a.new j n w ej ew later (json.added o k v j ∙ rw (absent, other) refl)
      ]
    ];
  }

  set_columns-Added :
      (result : CResultSet) (o : CJson.Item c) (ks : List (List ℕ × ℕ))
      → result.key_map ≡ (new_result_set r).key_map
      → result.row ≡ some (map some values)
      → length values ≡ length r.fields
      → AreColumns r.fields (length r.fields) ks
      → (set_columns c result (Building c o) ks ≡ some (Building c (filled c values o ks)))
        × Added c o r.fields values ks (filled c values o ks)
  unfolding set_columns
  set_columns-Added result o [] km row len cols =
      (refl, record { kept = λ j v e. e; new = λ j n v e ev h. absurd h })
  set_columns-Added result o ((k, i) ∷ ks) km row len cols =
      let (v, ev) = get_elem?-exists r.fields values i k len cols.0.0 in
      let (sets, a) =
        set_columns-Added result (c.add_string_to_object o k v) ks km row len cols.1 in
      let added : filled c values o ((k, i) ∷ ks)
          ≡ filled c values (c.add_string_to_object o k v) ks =
        ap (λ x. filled c values (with_text c o k x) ks) ev in
      (
        rw (get_string-column result k i v km row cols.0.0 ev, set_chars-Building c o k v)
            (sets ∙ ap (λ x. some (Building c x)) (sym added)),
        subst (Added c o r.fields values ((k, i) ∷ ks)) (sym added) (
            Added-step o (filled c values (c.add_string_to_object o k v) ks) k v i ks cols.0.0 ev
              a),
      )

-- The object of a row: each column has its value.
pub Describes : (c : CJson) → CJson.Item c → List (List ℕ) → List (List ℕ) → Type 0
Describes c o names values =
    (n : ℕ) (name value : List ℕ)
    → get_elem? names n ≡ some name
    → get_elem? values n ≡ some value
    → item_text c o name ≡ some (some value)

next_first :
    (r : MysqlRes) (row : DbConn.Row) (more : List DbConn.Row)
    → r.rows ≡ row ∷ more
    → next (new_result_set r)
      ≡ (true, record { res = more; row = some row; key_map = (new_result_set r).key_map })
unfolding next
next_first r row more e = rw e refl

new_json-Building :
    (c : CJson) (root : CJson.Item c) → c.create_object ≡ some root → new_json c ≡ Building c root
unfolding new_json
new_json-Building c root e = rw (e, new_json) refl

-- The query behind a round: the client succeeds and gives a first row of texts, one for each column.
pub record Answers (client : Mysql) (conn : CdbConn (Mysql.Connection client)) (sql : List ℕ)
    (r : MysqlRes) (values : List (List ℕ)) (conn' : CdbConn (Mysql.Connection client))
    : Type 0 where
  pub queried : execute_query client conn sql ≡ some (conn', some (new_result_set r))
  pub more : List DbConn.Row
  pub first : r.rows ≡ map some values ∷ more
  pub width : length values ≡ length r.fields
  pub distinct : IsDistinct r.fields

module _ {c : CJson} (json : IsCJson c) (root : CJson.Item c) (made : c.create_object ≡ some root)
    (heap : Allocator) (client : Mysql) (conn conn' : CdbConn (Mysql.Connection client))
    (sql : List ℕ) (r : MysqlRes) (values : List (List ℕ))
    (a : Answers client conn sql r values conn') where
  pub deal_query_sql_one-Describes :
      (deal_query_sql_one heap c client conn sql
        ≡ some (conn', some (c.print_unformatted (row_object c root r values))))
      × Describes c (row_object c root r values) r.fields values
  unfolding deal_query_sql_one Describes json_to_char
  deal_query_sql_one-Describes =
      let x = new_result_set-IsIndex r a.distinct in
      let fetched : CResultSet = record {
        res = a.more;
        row = some (map some values);
        key_map = (new_result_set r).key_map;
      } in
      let (sets, added) =
        set_columns-Added json r a.distinct values fetched root (new_result_set r).key_map refl refl
          a.width x.columns in
      (
        bind_some a.queried _ (
            rw (next_first r (map some values) a.more a.first, new_json-Building c root made, sets)
              refl),
        λ n name value e ev.
            added.new name n value e ev (x.all n name e (get_elem?-lt r.fields n name e))
              (json.fresh root name made),
      )
