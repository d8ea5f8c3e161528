-- ===== src/DbWorker.antt =====
-- dbserver/db_worker.h and dbserver/db_worker.cpp: the threads that carry out the SQL that the game
-- servers send. `none` is undefined behaviour.
pub mod Reply
pub mod Answer
pub mod Exchange
use pluto_server.Prelude.{
  ℕ, ◌^◌, leb, not, ◌==◌, Bool, true, false, List, [], ◌∷◌, Option, none, some, if◌then◌else◌,
  ◌>>=◌,
}
use pluto_server.Prelude.Memory.{Allocator}
use pluto_server.Prelude.Text.{codes}
use pluto_server.Package.{Package, body_text, get_command_id, get_sub_id}
use pluto_server.MessageQueue.{Message, MessageQueue, as_pack, mq2c_push}
use pluto_server.Util.{mq_type_pack, sql_query, sql_update}
use pluto_server.Json
use pluto_server.Json.{CJson, JsonHelper, from_text, new_json, json_to_char, set_chars}
use pluto_server.DbConn
use pluto_server.DbConn.{
  ConnParam, Mysql, CResultSet, CdbConn, init_conn, execute_query, execute_update, next,
}

-- `class DBWorker`.
pub record DbWorker (Connection : Type 0) : Type 0 where
  pub db_conn : CdbConn Connection
  pub conn_success : Bool

-- The loop of `DealQuerySqlOne` over the columns, in the order of `key_map`.
unfoldable pub set_columns :
    (c : CJson)
    → CResultSet
    → JsonHelper (CJson.Item c)
    → List (List ℕ × ℕ)
    → Option (JsonHelper (CJson.Item c))
set_columns c result jsonhp [] = some jsonhp
set_columns c result jsonhp ((key, idx) ∷ keys) = do
  value ← DbConn.get_string result key
  (jsonhp', ok) ← set_chars c jsonhp key value
  set_columns c result jsonhp' keys

-- The loop of `DealQuerySql` over the rows: it reads two columns of each, for the log.
unfoldable pub read_rows : CResultSet → List DbConn.Row → Option CResultSet
read_rows result [] = some (next result).1
read_rows result (row ∷ rows) = do
  let fetched = (next result).1
  idx ← DbConn.get_int fetched (codes "id")
  name ← DbConn.get_string fetched (codes "hash")
  read_rows fetched rows

module _ (heap : Allocator) (c : CJson) (client : Mysql) where
  open client use {Connection}

  abbrev pub new_worker : DbWorker Connection
  new_worker = record { db_conn = DbConn.new_conn client; conn_success = false }

  -- `ConnectDB`. `ret < 0` of an `int` is a test on its pattern.
  unfoldable pub connect_db : DbWorker Connection → ConnParam → DbWorker Connection
  connect_db w param =
      let (ret, conn) = init_conn client w.db_conn param in
      record { db_conn = conn; conn_success = not (leb (2 ^ 31) ret) }

  -- `DealQuerySql`: the result set is used although it may be NULL.
  unfoldable pub deal_query_sql : CdbConn Connection → List ℕ → Option (CdbConn Connection × ℕ)
  deal_query_sql conn sql = do
    (conn', found) ← execute_query client conn sql
    result ← found
    read ← read_rows result result.res
    some (conn', 0)

  -- `DealQuerySqlOne`, with the text that it returns.
  unfoldable pub deal_query_sql_one :
      CdbConn Connection → List ℕ → Option (CdbConn Connection × Option (List ℕ))
  deal_query_sql_one conn sql = do
    (conn', found) ← execute_query client conn sql
    result ← found
    let (has_row, fetched) = next result
    if has_row
        then (do
          jsonhp ← set_columns c fetched (new_json c) fetched.key_map
          some (conn', json_to_char c jsonhp))
        else some (conn', some (codes "{}"))

  -- `DealUpdateSql`; whether it succeeded is only logged.
  unfoldable pub deal_update_sql : CdbConn Connection → List ℕ → Option (CdbConn Connection)
  deal_update_sql conn sql = do (conn', flag) ← execute_update client conn sql; some conn'

  -- What is done with the SQL of a package. A NULL result is read as a text.
  unfoldable pub carry_out_sql :
      DbWorker Connection
      → MessageQueue
      → Message
      → Package
      → List ℕ
      → Option (DbWorker Connection × MessageQueue)
  carry_out_sql w q m p sql =
      if get_command_id p == sql_query
      then (do
        (conn, result) ← deal_query_sql_one w.db_conn sql
        text ← result
        uniqid ← m.uniqid
        q' ← mq2c_push heap q uniqid (get_command_id p) (get_sub_id p) text
        some (record w { db_conn = conn }, q'))
      else (if get_command_id p == sql_update
          then (do conn ← deal_update_sql w.db_conn sql; some (record w { db_conn = conn }, q))
          else some (w, q))

  -- One round of the loop of `Start`. A body with no "sql" is logged, and goes on with an empty text.
  unfoldable pub handle_message :
      DbWorker Connection → MessageQueue → Message → Option (DbWorker Connection × MessageQueue)
  handle_message w q m =
      if m.kind == mq_type_pack
      then (do
        p ← as_pack m.payload
        body ← body_text p
        (jsonhp, ok, sql) ← Json.get_string c (from_text c body) (codes "sql")
        carry_out_sql w q m p sql)
      else some (w, q)

  -- `Start`, on the messages that `MessageDispatch` will give.
  unfoldable pub start :
      DbWorker Connection
      → MessageQueue
      → List Message
      → Option (DbWorker Connection × MessageQueue)
  start w q [] = some (w, q)
  start w q (m ∷ ms) = elim w.conn_success [
    | false ↦ some (w, q)
    | true ↦ (do (w', q') ← handle_message w q m; start w' q' ms)
  ]
