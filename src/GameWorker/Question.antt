-- ===== src/GameWorker/Question.antt =====
-- A question of the script to a database server, and the answer: `on_load` of gameserver/game_py2cpp.cpp,
-- the connector of common/epoll_server.cpp, and `OnConnector` of gameserver/game_cpp2py.cpp.
pub mod Asking
pub mod Hearing
pub mod Whole
use mathlib.Core.Path.{subst}
use pluto_server.Prelude.{
  ◌⊎◌, ℕ, ◌+◌, ◌%◌, ◌^◌, ◌≤◌, ◌≡◌, refl, sym, ap, ◌∙◌, arith, true, List, [], ◌∷◌, ◌++◌, Option,
  some, length, length-append, take, take-append, bind_some, ◌>>=◌,
}
use pluto_server.Prelude.Memory.{Allocator, IsAllocator}
use pluto_server.Buffer.{Buffer}
use pluto_server.Buffer.Extend.{IsValid, contents}
use pluto_server.Channel.{Channel, Connector}
use pluto_server.Package.{Package, total_length, get_buffer}
use pluto_server.Package.RoundTrip.{encoded, message, wire}
use pluto_server.MessageQueue.{MessageQueue, mq2s_pop}
use pluto_server.MessageQueue.Fifo.{mq2s_pop-front}
use pluto_server.Util.{fd_type_connect, max_buf_size, sql_query}
use pluto_server.Epoll.{EpollServer, with_channel}
use pluto_server.Epoll.Read.{bytes, on_read}
use pluto_server.Epoll.Read.Request.{IsRequest, request-frame}
use pluto_server.Epoll.Eventfd.{on_eventfd}
use pluto_server.Epoll.Write.{Sent, on_write}
use pluto_server.Epoll.Write.Flush.{last_sent, last_sent_found}
use pluto_server.Epoll.Write.Sending.{IsSocket, Refused}
use pluto_server.Epoll.Peer.{InPlace}
use pluto_server.Epoll.Peer.Asking.{Asked, on_eventfd-Asked}
use pluto_server.Epoll.Peer.Flushing.{SentOff, on_write-SentOff}
use pluto_server.Epoll.Peer.Hearing.{reply_message, on_read-Heard}
use pluto_server.GameWorker.{
  on_connector, on_load, GameWorker, call_of, call_on_connector, run_native, run_natives,
  handle_message,
}
use pluto_server.GameWorker.Natives.{to_server, run_native-Pushes}

-- The script calls `on_load`; the event loop reads its eventfd and writes to the database server.
unfoldable pub ask :
    Allocator → (ℕ → ℕ) → (ℕ → List ℕ → Sent) → EpollServer → ℕ → ℕ → List ℕ → Option EpollServer
ask heap watcher_of send s fd return_id text = do
  r ← run_native heap s.mq (on_load (some (return_id, text)))
  s1 ← on_eventfd heap watcher_of (record s { mq = r.queue }) true
  on_write send s1 fd fd_type_connect

-- Bytes of that server come, and a worker handles the oldest message.
unfoldable pub hear :
    Allocator → GameWorker → EpollServer → ℕ → List ℕ → Option (GameWorker × EpollServer)
hear heap w s fd reply = do
  s1 ← on_read heap s fd fd_type_connect (bytes reply)
  (m, q) ← mq2s_pop s1.mq
  (w', q') ← handle_message heap w q m []
  some (w', record s1 { mq = q' })

-- Both, one after the other.
unfoldable pub question :
    Allocator
    → (ℕ → ℕ)
    → (ℕ → List ℕ → Sent)
    → GameWorker
    → EpollServer
    → ℕ
    → ℕ
    → List ℕ
    → List ℕ
    → Option (GameWorker × EpollServer)
question heap watcher_of send w s fd return_id text reply = do
  s1 ← ask heap watcher_of send s fd return_id text
  hear heap w s1 fd reply

-- What a question leaves. `gone` is what the kernel has taken, in its last send on the descriptor.
pub record Posed (send : ℕ → List ℕ → Sent) (s : EpollServer) (k : Connector)
    (rest : List Connector) (fd : ℕ) (query : List ℕ) (s' : EpollServer) : Type 0 where
  pub gone : List ℕ
  pub last : last_sent fd s'.calls ≡ some gone
  pub channel : Channel
  pub placed : InPlace s k rest channel s'
  pub same_fd : channel.fd ≡ k.channel.fd
  pub finished : (channel.out_buf.write_offset ≡ 0) ⊎ Refused send
  pub conserved : gone ++ contents channel.out_buf ≡ contents k.channel.out_buf ++ query
  pub input : channel.in_buf ≡ k.channel.in_buf
  pub valid : IsValid channel.out_buf
  pub waiting : s'.mq.mq2s ≡ []
  pub drained : s'.mq.mq2c ≡ []

-- What a reply leaves.
pub record Told (s : EpollServer) (k : Connector) (rest : List Connector) (s' : EpollServer)
    : Type 0 where
  pub channel : Channel
  pub placed : InPlace s k rest channel s'
  pub emptied : contents channel.in_buf ≡ []
  pub valid : IsValid channel.in_buf
  pub output : channel.out_buf ≡ k.channel.out_buf
  pub waiting : s'.mq.mq2s ≡ []
  pub drained : s'.mq.mq2c ≡ []

-- What both leave, the first of them `s1`. `gone` is what the kernel has taken, in its last send on the
-- descriptor before the reply comes.
pub record Questioned (send : ℕ → List ℕ → Sent) (s : EpollServer) (k : Connector)
    (rest : List Connector) (fd : ℕ) (query : List ℕ) (s1 s' : EpollServer) : Type 0 where
  pub gone : List ℕ
  pub last : last_sent fd s1.calls ≡ some gone
  pub channel : Channel
  pub placed : InPlace s k rest channel s'
  pub finished : (channel.out_buf.write_offset ≡ 0) ⊎ Refused send
  pub conserved : gone ++ contents channel.out_buf ≡ contents k.channel.out_buf ++ query
  pub input : contents channel.in_buf ≡ []
  pub waiting : s'.mq.mq2s ≡ []
  pub drained : s'.mq.mq2c ≡ []
