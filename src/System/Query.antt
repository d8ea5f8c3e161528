-- ===== src/System/Query.antt =====
-- A query on its way through both servers: from the script of a game server, over the wire to the worker of
-- a database server, and with the answer back to the script.
use mathlib.Core.Path.{subst}
use pluto_server.Prelude.{
  ℕ, ◌+◌, ◌%◌, ◌^◌, ◌≡◌, ◌⊎◌, inl, inr, refl, sym, ap, ◌∙◌, arith, true, List, [], ◌∷◌, ◌++◌,
  Option, some, length, take, append-nil, bind_some, ◌>>=◌,
}
use pluto_server.Prelude.Memory.{Allocator, IsAllocator}
use pluto_server.Buffer.{Buffer}
use pluto_server.Buffer.Extend.{IsValid, contents}
use pluto_server.Channel.{Channel, Connector}
use pluto_server.Stream.{bytes16, bytes32}
use pluto_server.Package.RoundTrip.{encoded, wire}
use pluto_server.Util.{sql_query}
use pluto_server.Json.{CJson}
use pluto_server.Json.Lookup.{IsCJson}
use pluto_server.DbConn.{Mysql, MysqlRes, CdbConn}
use pluto_server.DbWorker.{DbWorker}
use pluto_server.DbWorker.Reply.{row_object, Describes, Answers}
use pluto_server.DbWorker.Exchange.{db_exchange, HoldsSql, db_exchange-Exchanged}
use pluto_server.Epoll.{EpollServer, get_channel, with_channel}
use pluto_server.Epoll.Peer.{InPlace}
use pluto_server.Epoll.Read.Deliver.{length-contents}
use pluto_server.Epoll.Read.Request.{IsRequest}
use pluto_server.Epoll.Write.{Sent, failed, took}
use pluto_server.Epoll.Write.Flush.{last_sent, last_sent_found}
use pluto_server.Epoll.Write.Sending.{IsSocket, Refused}
use pluto_server.GameWorker.{GameWorker, on_connector}
use pluto_server.GameWorker.Question.{ask, hear}
use pluto_server.GameWorker.Question.Asking.{ask-Posed}
use pluto_server.GameWorker.Question.Hearing.{hear-Told}

-- A kernel that takes all that it is offered.
abbrev pub TakesAll : (ℕ → List ℕ → Sent) → Type 0
TakesAll send = (round : ℕ) (chunk : List ℕ) → send round chunk ≡ took (length chunk)

amount : Sent → ℕ
amount failed = 0
amount (took n) = n

TakesAll-IsSocket : (send : ℕ → List ℕ → Sent) → TakesAll send → IsSocket send
unfolding amount
TakesAll-IsSocket send all round chunk n e = omega (arith, ap amount (sym (all round chunk) ∙ e))

-- It leaves nothing.
nothing_left : (send : ℕ → List ℕ → Sent) (n : ℕ) → TakesAll send → (n ≡ 0) ⊎ Refused send → n ≡ 0
unfolding amount
nothing_left send n all (inl e) = e
nothing_left send n all (inr (round, chunk, some_bytes, inl e)) =
    absurd (omega (arith, some_bytes, ap amount (sym (all round chunk) ∙ e)))
nothing_left send n all (inr (round, chunk, some_bytes, inr e)) =
    absurd (omega (arith, some_bytes, ap amount (sym (all round chunk) ∙ e)))

all_gone :
    (gone query : List ℕ) (before after : Buffer)
    → gone ++ contents after ≡ contents before ++ query
    → before.write_offset ≡ 0
    → after.write_offset ≡ 0
    → gone ≡ query
all_gone gone query before after e h k =
    sym (append-nil gone)
    ∙ ap (λ n. gone ++ take n after.block) (sym k)
    ∙ e
    ∙ ap (λ n. take n before.block ++ query) h

encoded-wire : (c s : ℕ) (text : List ℕ) → encoded c s text ≡ wire c s text []
encoded-wire c s text =
    ap (λ more. bytes32 (8 + length text) ++ (bytes16 c ++ (bytes16 s ++ more)))
      (sym (append-nil text))

-- The script of the game server asks on its connector `fd`; the database server gets what the kernel took on
-- its connection `client_fd`; and the game server what the kernel of the database server took.
unfoldable pub query :
    Allocator
    → (c : CJson) → (client : Mysql) → (ℕ → ℕ)
    → (ℕ → List ℕ → Sent)
    → (ℕ → List ℕ → Sent)
    → GameWorker
    → EpollServer
    → ℕ
    → DbWorker (Mysql.Connection client)
    → EpollServer
    → ℕ
    → ℕ
    → List ℕ
    → Option ((GameWorker × EpollServer) × (DbWorker (Mysql.Connection client) × EpollServer))
query heap c client watcher_of game_send db_send w s fd v d client_fd return_id text = do
  s1 ← ask heap watcher_of game_send s fd return_id text
  asked ← last_sent fd s1.calls
  (v', d') ← db_exchange heap c client watcher_of db_send v d client_fd asked
  told ← last_sent client_fd d'.calls
  (w', s') ← hear heap w s1 fd told
  some ((w', s'), (v', d'))

-- A server with no work, and a connection that holds no byte.
pub record IsIdle (s : EpollServer) (channel : Channel) : Type 0 where
  pub valid_in : IsValid channel.in_buf
  pub empty_in : channel.in_buf.write_offset ≡ 0
  pub valid_out : IsValid channel.out_buf
  pub empty_out : channel.out_buf.write_offset ≡ 0
  pub no_work : s.mq.mq2s ≡ []
  pub no_answers : s.mq.mq2c ≡ []

emptied : (b : Buffer) → IsValid b → contents b ≡ [] → b.write_offset ≡ 0
emptied b v e = sym (length-contents b v) ∙ ap length e

-- The script of an idle game server asks its first database server, whose connector is connected and which
-- is idle too, by a query that the wire carries as it is and that is JSON with the SQL as the text of its
-- item "sql"; cJSON makes an object and finds what is added to it; the client of MySQL answers with a first
-- row of texts, no two columns of one name; the wire carries what cJSON prints of the object built of that
-- row as it is; and both kernels take all that they are offered. Then neither server faults; the script is
-- called back once, by `OnConnector` with the id of its question, cut to 16 bits, and what cJSON prints of
-- that object, in which each column of the row has its value; and both servers are then idle again.
pub query-Told :
    {heap : Allocator} {c : CJson}
    → IsAllocator heap
    → IsCJson c
    → (root : CJson.Item c) → c.create_object ≡ some root
    → (client : Mysql) (watcher_of : ℕ → ℕ) (game_send db_send : ℕ → List ℕ → Sent)
    → TakesAll game_send
    → TakesAll db_send
    → (w : GameWorker) (s : EpollServer) (fd : ℕ) (k : Connector) (rest : List Connector)
      (v : DbWorker (Mysql.Connection client)) (d : EpollServer) (client_fd : ℕ) (channel : Channel)
      (return_id : ℕ) (text sql : List ℕ) (r : MysqlRes) (values : List (List ℕ))
      (conn' : CdbConn (Mysql.Connection client))
    → s.connector_list ≡ k ∷ rest
    → k.success ≡ true
    → k.channel.fd ≡ fd
    → IsIdle s k.channel
    → get_channel d client_fd ≡ some channel
    → IsIdle d channel
    → IsRequest sql_query (return_id % 2 ^ 16) text
    → IsRequest sql_query (return_id % 2 ^ 16) (c.print_unformatted (row_object c root r values))
    → HoldsSql c text sql
    → Answers client v.db_conn sql r values conn'
    → (s' d' : EpollServer) × (query heap c client watcher_of game_send db_send w s fd v d client_fd
          return_id text
        ≡ some (
          (
            record {
              calls =
                  w.calls
                  ++ (on_connector sql_query
                        (return_id % 2 ^ 16)
                        (c.print_unformatted (row_object c root r values))
                      ∷ []);
            },
            s',
          ),
          (record v { db_conn = conn' }, d'),
        ))
      × Describes c (row_object c root r values) r.fields values
      × ((k' : Channel) × InPlace s k rest k' s' × IsIdle s' k')
      × ((channel' : Channel) × (get_channel d' client_fd ≡ some channel') × IsIdle d' channel')
unfolding query
query-Told {heap} {c} good json root made client watcher_of game_send db_send game_all db_all w s fd
      k rest v d client_fd channel return_id text sql r values conn' list connected at i there j
      fits reply_fits holds answers =
    let id = return_id % 2 ^ 16 in
    let json_text = c.print_unformatted (row_object c root r values) in
    let (s1, asks, p) =
      ask-Posed good watcher_of game_send (TakesAll-IsSocket game_send game_all) s fd k rest
        return_id text list connected at i.valid_out (omega (arith, i.empty_out, fits.short))
        i.no_work i.no_answers in
    let asked : p.gone ≡ wire sql_query id text [] =
      all_gone p.gone (encoded sql_query id text) k.channel.out_buf p.channel.out_buf p.conserved
        i.empty_out (nothing_left game_send _ game_all p.finished)
      ∙ encoded-wire sql_query id text in
    let (d', exchanges, describes, x) =
      db_exchange-Exchanged good json root made client watcher_of db_send
        (TakesAll-IsSocket db_send db_all) v d client_fd channel id text sql r values conn' there
        j.valid_in j.empty_in j.valid_out (omega (arith, j.empty_out, reply_fits.short)) j.no_work
        j.no_answers fits holds answers in
    let told : x.gone ≡ wire sql_query id json_text [] =
      all_gone x.gone (encoded sql_query id json_text) channel.out_buf x.channel.out_buf x.conserved
        j.empty_out (nothing_left db_send _ db_all x.finished)
      ∙ encoded-wire sql_query id json_text in
    let (s2, hears, t) =
      hear-Told good w s1 fd (with_channel p.channel k) rest sql_query id json_text p.placed.stands
        (p.same_fd ∙ at) (subst IsValid (sym p.input) i.valid_in)
        (ap (λ (b : Buffer). b.write_offset) p.input ∙ i.empty_in) p.waiting p.drained reply_fits in
    (
      s2,
      d',
      bind_some asks _ (
          bind_some (p.last ∙ ap some asked) _ (
            bind_some exchanges _ (
              bind_some
                (ap (last_sent client_fd) x.sent
                  ∙ last_sent_found client_fd x.before x.gone x.later x.quiet
                  ∙ ap some told)
                _ (bind_some hears _ refl)))),
      describes,
      (
        t.channel,
        record { stands = t.placed.stands; channels = t.placed.channels ∙ p.placed.channels },
        record {
          valid_in = t.valid;
          empty_in = emptied t.channel.in_buf t.valid t.emptied;
          valid_out = subst IsValid (sym t.output) p.valid;
          empty_out =
              ap (λ (b : Buffer). b.write_offset) t.output
              ∙ nothing_left game_send _ game_all p.finished;
          no_work = t.waiting;
          no_answers = t.drained;
        },
      ),
      (
        x.channel,
        x.found,
        record {
          valid_in = x.valid_in;
          empty_in = emptied x.channel.in_buf x.valid_in x.input;
          valid_out = x.valid_out;
          empty_out = nothing_left db_send _ db_all x.finished;
          no_work = x.waiting;
          no_answers = x.drained;
        },
      ),
    )
