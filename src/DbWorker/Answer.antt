-- ===== src/DbWorker/Answer.antt =====
-- A round of `DBWorker::Start` on a query of a game server, from the package to the answer.
use pluto_server.Prelude.{
  ℕ, ◌+◌, ◌<◌, ◌^◌, ◌≡◌, refl, ap, ◌∙◌, Bool, true, false, List, [], ◌∷◌, none, some, length,
}
use pluto_server.Prelude.Text.{codes}
use pluto_server.Prelude.Memory.{Allocator, IsAllocator}
use pluto_server.Package.{Package, new_package, body_text, get_command_id, get_sub_id}
use pluto_server.Package.RoundTrip.{message, set_msg-message}
use pluto_server.MessageQueue.{Message, MessageQueue, pack, push_mq2c, mq2c_push}
use pluto_server.Util.{mq_type_pack, sql_query}
use pluto_server.Json
use pluto_server.Json.{CJson, JsonHelper, from_text}
use pluto_server.Json.Lookup.{IsCJson}
use pluto_server.DbConn.{Mysql, MysqlRes, CdbConn, ConnParam, init_conn, execute_query}
use pluto_server.DbWorker.{
  DbWorker, connect_db, start, deal_query_sql_one, carry_out_sql, handle_message,
}
use pluto_server.DbWorker.Reply.{Answers, row_object, Describes, deal_query_sql_one-Describes}

-- A package that asks for a query: its body is a JSON text whose item "sql" is a text.
pub record Asks (c : CJson) (m : Message) (p : Package) (sql : List ℕ) : Type 0 where
  pub kind : m.kind ≡ mq_type_pack
  pub payload : m.payload ≡ pack p
  pub command : get_command_id p ≡ sql_query
  pub body : List ℕ
  pub text : body_text p ≡ some body
  pub json : CJson.Item c
  pub parsed : c.parse body ≡ some json
  pub item : CJson.Item c
  pub found : c.get_object_item json (codes "sql") ≡ some item
  pub value : c.valuestring item ≡ some sql

-- What the worker sends back.
abbrev pub reply : ℕ → ℕ → List ℕ → ℕ → Message
reply uniqid sub_id text spare = record {
  uniqid = some uniqid;
  payload = pack (message sql_query sub_id text spare);
  kind = mq_type_pack;
}

get_string-Asks :
    (c : CJson) (m : Message) (p : Package) (sql : List ℕ) (a : Asks c m p sql)
    → Json.get_string c (from_text c a.body) (codes "sql")
      ≡ some (record { json = some a.json; parsed = true; str_json = a.body }, true, sql)
unfolding Json.get_string Json.parse_get Json.string_of
get_string-Asks c m p sql a = rw (a.parsed, a.found, a.value) refl

carried_out :
    (heap : Allocator) (c : CJson) (client : Mysql) (w : DbWorker (Mysql.Connection client))
    (q : MessageQueue) (m : Message) (p : Package) (sql : List ℕ)
    → Asks c m p sql
    → handle_message heap c client w q m ≡ carry_out_sql heap c client w q m p sql
unfolding handle_message
carried_out heap c client w q m p sql a =
    rw (a.kind, a.payload, a.text, get_string-Asks c m p sql a) refl

-- A query that the client answers with a first row of texts, no two columns of one name, whose JSON fits 32
-- bits with its header: the round does not fault; the game server's connection gets one message, with the
-- sub id of the question; and its text is a JSON object in which each column of that row has its value.
pub handle_message-reply :
    {heap : Allocator} {c : CJson}
    → IsAllocator heap
    → IsCJson c
    → (root : CJson.Item c) → c.create_object ≡ some root
    → (client : Mysql) (w : DbWorker (Mysql.Connection client)) (q : MessageQueue) (m : Message)
      (p : Package) (uniqid : ℕ) (sql : List ℕ) (r : MysqlRes) (values : List (List ℕ))
      (conn' : CdbConn (Mysql.Connection client))
    → m.uniqid ≡ some uniqid
    → Asks c m p sql
    → Answers client w.db_conn sql r values conn'
    → 9 + length (c.print_unformatted (row_object c root r values)) < 2 ^ 32
    → (spare : ℕ) × (handle_message heap c client w q m
        ≡ some (
          record w { db_conn = conn' },
          push_mq2c q (
              reply uniqid (get_sub_id p) (c.print_unformatted (row_object c root r values)) spare),
        ))
      × Describes c (row_object c root r values) r.fields values
unfolding carry_out_sql mq2c_push
handle_message-reply {heap} {c} good json root made client w q m p uniqid sql r values conn' u asks
      answers short =
    let (deals, describes) =
      deal_query_sql_one-Describes json root made heap client w.db_conn conn' sql r values
        answers in
    let (spare, sets) =
      set_msg-message good (new_package 0) sql_query (get_sub_id p)
        (c.print_unformatted (row_object c root r values)) short in
    (
      spare,
      carried_out heap c client w q m p sql asks ∙ rw (asks.command, deals, u, sets) refl,
      describes,
    )

-- A query package on which the client fails: the result NULL is used.
handle_message_fails :
    (heap : Allocator) (c : CJson) (client : Mysql) (w : DbWorker (Mysql.Connection client))
    (q : MessageQueue) (m : Message) (p : Package) (body sql : List ℕ)
    (h : JsonHelper (CJson.Item c)) (found : Bool) (conn' : CdbConn (Mysql.Connection client))
    → m.kind ≡ mq_type_pack
    → m.payload ≡ pack p
    → get_command_id p ≡ sql_query
    → body_text p ≡ some body
    → Json.get_string c (from_text c body) (codes "sql") ≡ some (h, found, sql)
    → execute_query client w.db_conn sql ≡ some (conn', none)
    → handle_message heap c client w q m ≡ none
unfolding handle_message carry_out_sql deal_query_sql_one
handle_message_fails heap c client w q m p body sql h found conn' kind payload command text read
      fails =
    rw (kind, payload, text, read, command, fails) refl

get_string-malformed :
    (c : CJson) (body : List ℕ)
    → c.parse body ≡ none
    → Json.get_string c (from_text c body) (codes "sql")
      ≡ some (record { json = none; parsed = true; str_json = body }, false, [])
unfolding Json.get_string Json.parse_get Json.string_of
get_string-malformed c body e = rw e refl

execute_query-rejected :
    (client : Mysql) (conn : CdbConn (Mysql.Connection client)) (sql : List ℕ)
    (m m' : Mysql.Connection client)
    → conn.mysql ≡ some m
    → client.real_query (client.ping m) sql ≡ (m', false)
    → execute_query client conn sql ≡ some (record { mysql = some m' }, none)
unfolding execute_query
execute_query-rejected client conn sql m m' there rejects = rw (there, rejects) refl

-- A worker with a connection.
abbrev pub connected_to :
    (client : Mysql) → Mysql.Connection client → DbWorker (Mysql.Connection client)
connected_to client mysql = record { db_conn = record { mysql = some mysql }; conn_success = true }

-- A package that asks for a query, with a body that is a text but no JSON, and a client that rejects the
-- empty query: the connected worker carries out the empty query, and faults on its NULL result. Later
-- messages are not reached.
pub start_malformed :
    (heap : Allocator) (c : CJson) (client : Mysql) (q : MessageQueue) (m : Message)
    (ms : List Message) (p : Package) (body : List ℕ) (mysql mysql' : Mysql.Connection client)
    → m.kind ≡ mq_type_pack
    → m.payload ≡ pack p
    → get_command_id p ≡ sql_query
    → body_text p ≡ some body
    → c.parse body ≡ none
    → client.real_query (client.ping mysql) [] ≡ (mysql', false)
    → start heap c client (connected_to client mysql) q (m ∷ ms) ≡ none
unfolding start
start_malformed heap c client q m ms p body mysql mysql' kind payload command text malformed
      rejects =
    rw
      (handle_message_fails heap c client (connected_to client mysql) q m p body []
        (record { json = none; parsed = true; str_json = body }) false
        (record { mysql = some mysql' }) kind payload command text
        (get_string-malformed c body malformed)
        (execute_query-rejected client (record { mysql = some mysql }) [] mysql mysql' refl
          rejects))
      refl

init_conn-none :
    (client : Mysql) (conn : CdbConn (Mysql.Connection client)) (param : ConnParam)
    → client.init ≡ none
    → init_conn client conn param ≡ (1, record { mysql = none })
unfolding init_conn
init_conn-none client conn param e = rw (e, init_conn) refl

connect_db_unconnected :
    (heap : Allocator) (c : CJson) (client : Mysql) (w : DbWorker (Mysql.Connection client))
    (param : ConnParam)
    → client.init ≡ none
    → connect_db heap c client w param
      ≡ record { db_conn = record { mysql = none }; conn_success = true }
unfolding connect_db
connect_db_unconnected heap c client w param e = rw (init_conn-none client w.db_conn param e) refl

-- A worker for which `mysql_init` gave NULL counts as connected, and faults on its first query.
pub connect_db_fails :
    (heap : Allocator) (c : CJson) (client : Mysql) (w : DbWorker (Mysql.Connection client))
    (q : MessageQueue) (param : ConnParam) (m : Message) (p : Package) (sql : List ℕ)
    → client.init ≡ none
    → Asks c m p sql
    → ((connect_db heap c client w param).conn_success ≡ true)
      × (start heap c client (connect_db heap c client w param) q (m ∷ []) ≡ none)
unfolding start carry_out_sql deal_query_sql_one execute_query
connect_db_fails heap c client w q param m p sql no_init asks =
    let connected = connect_db_unconnected heap c client w param no_init in
    (
      ap (λ (x : DbWorker (Mysql.Connection client)). x.conn_success) connected,
      ap (λ (x : DbWorker (Mysql.Connection client)). start heap c client x q (m ∷ [])) connected
          ∙ rw (carried_out heap c client _ q m p sql asks, asks.command) refl,
    )
