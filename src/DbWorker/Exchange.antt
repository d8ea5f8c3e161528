-- ===== src/DbWorker/Exchange.antt =====
-- A query of a game server, from the bytes that it sends to the database server to those that the kernel
-- takes of the answer.
use mathlib.Core.Path.{subst}
use pluto_server.Prelude.{
  ℕ, ◌+◌, ◌≤◌, ◌≡◌, refl, sym, ap, ◌∙◌, arith, List, [], ◌∷◌, ◌++◌, Option, some, length, bind_some,
  ◌>>=◌, true,
}
use pluto_server.Prelude.Text.{codes}
use pluto_server.Prelude.Memory.{Allocator, IsAllocator}
use pluto_server.Buffer.{Buffer}
use pluto_server.Buffer.Extend.{IsValid}
use pluto_server.Channel.{Channel}
use pluto_server.Package.RoundTrip.{encoded, message, wire}
use pluto_server.MessageQueue.{MessageQueue, mq2s_pop, push_mq2c}
use pluto_server.MessageQueue.Fifo.{mq2s_pop-front}
use pluto_server.Util.{fd_type_server, max_buf_size, sql_query}
use pluto_server.Epoll.{EpollServer, get_channel}
use pluto_server.Epoll.Read.{bytes, on_read}
use pluto_server.Epoll.Read.Request.{IsRequest, request, request-frame, on_read-Received}
use pluto_server.Epoll.Eventfd.{on_eventfd}
use pluto_server.Epoll.Eventfd.Reply.{outgoing, on_eventfd-Answered, with_mq-Answered}
use pluto_server.Epoll.Write.{Sent, on_write}
use pluto_server.Epoll.Write.Sending.{IsSocket}
use pluto_server.Epoll.Write.Flush.{on_write-Flushed}
use pluto_server.Epoll.Exchange.{Exchanged, composed-Exchanged}
use pluto_server.Json.{CJson}
use pluto_server.Json.Lookup.{IsCJson}
use pluto_server.DbConn.{Mysql, MysqlRes, CdbConn}
use pluto_server.DbWorker.{DbWorker, handle_message}
use pluto_server.DbWorker.Reply.{row_object, Describes, Answers}
use pluto_server.DbWorker.Answer.{Asks, handle_message-reply}

-- The event loop reads a game server, a worker handles the oldest message, the event loop reads its eventfd,
-- and then writes to the game server.
pub db_exchange :
    Allocator
    → (c : CJson) → (client : Mysql) → (ℕ → ℕ)
    → (ℕ → List ℕ → Sent)
    → DbWorker (Mysql.Connection client)
    → EpollServer
    → ℕ
    → List ℕ
    → Option (DbWorker (Mysql.Connection client) × EpollServer)
db_exchange heap c client watcher_of send w s fd news = do
  s1 ← on_read heap s fd fd_type_server (bytes news)
  (m, q) ← mq2s_pop s1.mq
  (w', q') ← handle_message heap c client w q m
  s2 ← on_eventfd heap watcher_of (record s1 { mq = q' }) true
  s3 ← on_write send s2 fd fd_type_server
  some (w', s3)

-- What the SQL of a request is: its text is JSON with the SQL as the text of the item "sql".
pub record HoldsSql (c : CJson) (text sql : List ℕ) : Type 0 where
  pub json : CJson.Item c
  pub parsed : c.parse text ≡ some json
  pub item : CJson.Item c
  pub found : c.get_object_item json (codes "sql") ≡ some item
  pub value : c.valuestring item ≡ some sql

request-Asks :
    {heap : Allocator}
    → IsAllocator heap
    → (c : CJson) (fd return_id : ℕ) (text sql : List ℕ) → IsRequest sql_query return_id text
    → HoldsSql c text sql
    → Asks c (request fd sql_query return_id text) (message sql_query return_id text 0) sql
request-Asks good c fd return_id text sql r h = record {
  kind = refl;
  payload = refl;
  command = refl;
  body = text;
  text = (request-frame good sql_query return_id text r).1;
  json = h.json;
  parsed = h.parsed;
  item = h.item;
  found = h.found;
  value = h.value;
}

-- A game server sends a query that the wire carries as it is and that is JSON with the SQL as the text of
-- its item "sql", in one piece, to a database server with no work and no input of it; cJSON makes an object
-- and finds what is added to it; the client of MySQL answers with a first row of texts, no two columns of
-- one name; the output is valid and has room for what cJSON prints of the object built of that row; the
-- kernel takes what it likes of it. Then nothing faults; what the kernel took and what the output still
-- holds are, in order, what it held before and the answer, with the id of the question, and it holds some
-- only if the kernel refused a chunk; the text of the answer is what cJSON prints of that object, in which
-- each column of the row has its value; and no work is left.
pub db_exchange-Exchanged :
    {heap : Allocator} {c : CJson}
    → IsAllocator heap
    → IsCJson c
    → (root : CJson.Item c) → c.create_object ≡ some root
    → (client : Mysql) (watcher_of : ℕ → ℕ) (send : ℕ → List ℕ → Sent) → IsSocket send
    → (w : DbWorker (Mysql.Connection client)) (s : EpollServer) (fd : ℕ) (channel : Channel)
      (return_id : ℕ) (text sql : List ℕ) (r : MysqlRes) (values : List (List ℕ))
      (conn' : CdbConn (Mysql.Connection client))
    → get_channel s fd ≡ some channel
    → IsValid channel.in_buf
    → channel.in_buf.write_offset ≡ 0
    → IsValid channel.out_buf
    → channel.out_buf.write_offset + (8 + length (c.print_unformatted (row_object c root r values)))
      ≤ max_buf_size
    → s.mq.mq2s ≡ []
    → s.mq.mq2c ≡ []
    → IsRequest sql_query return_id text
    → HoldsSql c text sql
    → Answers client w.db_conn sql r values conn'
    → (s' : EpollServer) × (db_exchange heap c client watcher_of send w s fd
          (wire sql_query return_id text [])
        ≡ some (record w { db_conn = conn' }, s'))
      × Describes c (row_object c root r values) r.fields values
      × Exchanged send s fd channel
          (encoded sql_query return_id (c.print_unformatted (row_object c root r values)))
          s'
unfolding db_exchange
db_exchange-Exchanged {heap} {c} good json root made client watcher_of send socket w s fd channel
      return_id text sql r values conn' there in_valid empty out_valid room no_work no_answers fits
      holds answers =
    let m = request fd sql_query return_id text in
    let p = message sql_query return_id text 0 in
    let (s1, reads, got) =
      on_read-Received good s fd channel sql_query return_id text there in_valid empty fits in
    let front : s1.mq.mq2s ≡ m ∷ [] =
      ap (λ (q : MessageQueue). q.mq2s) got.queued ∙ ap (λ ms. ms ++ (m ∷ [])) no_work in
    let q : MessageQueue = record s1.mq { mq2s = [] } in
    let json_text = c.print_unformatted (row_object c root r values) in
    let (spare, handles, describes) =
      handle_message-reply good json root made client w q m p fd sql r values conn' refl
        (request-Asks good c fd return_id text sql fits holds) answers (omega (arith, room)) in
    let q' : MessageQueue = push_mq2c q (outgoing fd sql_query return_id json_text spare) in
    let (s2, drains, a) =
      on_eventfd-Answered good watcher_of (record s1 { mq = q' }) fd sql_query return_id json_text
        spare got.channel
        (ap (λ ms. ms ++ (outgoing fd sql_query return_id json_text spare ∷ []))
          (ap (λ (x : MessageQueue). x.mq2c) got.queued ∙ no_answers))
        got.found (subst IsValid (sym got.output) out_valid)
        (omega (arith, ap (λ (b : Buffer). b.write_offset) got.output, room)) in
    let b = with_mq-Answered s1 q' fd got.channel _ [] s2 refl a in
    let (s3, writes, f) = on_write-Flushed send socket s2 fd b.channel b.found b.valid in
    (
      s3,
      bind_some reads _ (
          bind_some (mq2s_pop-front s1.mq m [] front) _
            (bind_some handles _ (bind_some drains _ (bind_some writes _ refl)))),
      describes,
      composed-Exchanged send s s1 s2 s3 fd channel m _ got b f,
    )
