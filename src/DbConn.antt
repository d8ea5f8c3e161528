-- ===== src/DbConn.antt =====
-- dbserver/db_conn.h and dbserver/db_conn.cpp. The MySQL client is a parameter; a row that it fetches is
-- an array of texts, NULL for an SQL NULL. `none` is undefined behaviour: a call through a NULL pointer,
-- `atoi` of NULL, or a column behind the row.
pub mod Columns
use pluto_server.Prelude.{
  ℕ, suc, ◌+◌, ◌%◌, ◌^◌, ltb, get_elem?, Bool, true, false, List, [], ◌∷◌, Option, none, some,
  if◌then◌else◌, ◌>>=◌,
}
use pluto_server.Prelude.Text.{atoi}
use pluto_server.Prelude.TextMap

abbrev pub Row : Type 0
Row = List (Option (List ℕ))

-- What `mysql_store_result` gives.
pub record MysqlRes : Type 0 where
  pub fields : List (List ℕ)
  pub rows : List Row

-- The arguments of `Init`.
pub record ConnParam : Type 0 where
  pub host : List ℕ
  pub user : List ℕ
  pub passwd : List ℕ
  pub db : List ℕ
  pub port : ℕ

-- The calls of the client on a connection. `real_connect` and `real_query` also give whether they succeed.
pub record Mysql : Type 1 where
  pub Connection : Type 0
  pub init : Option Connection
  pub set_options : Connection → Connection
  pub real_connect : Connection → ConnParam → Connection × Bool
  pub ping : Connection → Connection
  pub real_query : Connection → List ℕ → Connection × Bool
  pub store_result : Connection → Connection × Option MysqlRes
  pub affected_rows : Connection → ℕ
  pub insert_id : Connection → ℕ

-- `class CResultSet`; `res` are the rows that are not yet fetched, `row` is `none` for NULL.
pub record CResultSet : Type 0 where
  pub res : List Row
  pub row : Option Row
  pub key_map : List (List ℕ × ℕ)

-- The loop of the constructor over the fields.
unfoldable pub index_fields : ℕ → List (List ℕ) → List (List ℕ × ℕ) → List (List ℕ × ℕ)
index_fields i [] key_map = key_map
index_fields i (name ∷ fields) key_map = index_fields (suc i) fields (TextMap.insert name i key_map)

abbrev pub new_result_set : MysqlRes → CResultSet
new_result_set r = record { res = r.rows; row = none; key_map = index_fields 0 r.fields [] }

-- `Next`.
unfoldable pub next : CResultSet → Bool × CResultSet
next r = elim r.res [
  | [] ↦ (false, record r { row = none })
  | first ∷ more ↦ (true, record r { res = more; row = some first })
]

-- `_GetIndex`, with `none` for -1.
abbrev pub get_index : CResultSet → List ℕ → Option ℕ
get_index r key = TextMap.find key r.key_map

-- `row_[idx]`.
unfoldable pub column : CResultSet → ℕ → Option (Option (List ℕ))
column r idx = do row ← r.row; get_elem? row idx

-- `GetInt` and `GetString`.
unfoldable pub get_int : CResultSet → List ℕ → Option ℕ
unfolding column
get_int r key = elim (get_index r key) [
  | none ↦ some 0
  | some idx ↦ (do value ← column r idx; text ← value; atoi text)
]

unfoldable pub get_string : CResultSet → List ℕ → Option (Option (List ℕ))
unfolding column
get_string r key = elim (get_index r key) [ none ↦ some none | some idx ↦ column r idx ]

-- `class CDBConn`.
pub record CdbConn (Connection : Type 0) : Type 0 where
  pub mysql : Option Connection

module _ (client : Mysql) where
  open client use {
    Connection, init, set_options, real_connect, ping, real_query, store_result, affected_rows,
    insert_id,
  }

  abbrev pub new_conn : CdbConn Connection
  new_conn = record { mysql = none }

  -- `Init`: its result and the connection.
  unfoldable pub init_conn : CdbConn Connection → ConnParam → ℕ × CdbConn Connection
  init_conn conn param = elim init [
    | none ↦ (1, record { mysql = none })
    | some m ↦
        let (m', connected) = real_connect (set_options m) param in
        (if connected then 0 else 2, record { mysql = some m' })
  ]

  -- `ExecuteQuery`: the result set or NULL.
  unfoldable pub execute_query :
      CdbConn Connection → List ℕ → Option (CdbConn Connection × Option CResultSet)
  execute_query conn sql_query = do
    m ← conn.mysql
    let (m1, queried) = real_query (ping m) sql_query
    if queried
        then (let (m2, res) = store_result m1 in
            some (record { mysql = some m2 }, (res >>= λ r. some (new_result_set r))))
        else some (record { mysql = some m1 }, none)

  -- `ExecuteUpdate`.
  unfoldable pub execute_update : CdbConn Connection → List ℕ → Option (CdbConn Connection × Bool)
  execute_update conn sql_query = do
    m ← conn.mysql
    let (m1, queried) = real_query (ping m) sql_query
    some (record { mysql = some m1 }, (if queried then ltb 0 (affected_rows m1) else false))

  -- `GetInsertId`, cut to 32 bits.
  unfoldable pub get_insert_id : CdbConn Connection → Option ℕ
  get_insert_id conn = do m ← conn.mysql; some (insert_id m % 2 ^ 32)
