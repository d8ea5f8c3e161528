-- ===== src/GameWorker/Question/Asking.antt =====
-- What a question of the script leaves.

use pluto_server.Prelude.{
  ℕ, ◌+◌, ◌%◌, ◌^◌, ◌≤◌, ◌≡◌, ap, ◌∙◌, arith, true, List, [], ◌∷◌, ◌++◌, some, length,
  length-append, take, take-append, bind_some,
}
use pluto_server.Prelude.Memory.{Allocator, IsAllocator}
use pluto_server.Buffer.Extend.{IsValid, contents}
use pluto_server.Channel.{Connector}
use pluto_server.Package.{Package, total_length, get_buffer}
use pluto_server.Package.RoundTrip.{encoded, message}
use pluto_server.MessageQueue.{MessageQueue}
use pluto_server.Util.{max_buf_size, sql_query}
use pluto_server.Epoll.{EpollServer, with_channel}
use pluto_server.Epoll.Write.{Sent}
use pluto_server.Epoll.Write.Flush.{last_sent, last_sent_found}
use pluto_server.Epoll.Write.Sending.{IsSocket}
use pluto_server.Epoll.Peer.Asking.{Asked, on_eventfd-Asked}
use pluto_server.Epoll.Peer.Flushing.{SentOff, on_write-SentOff}
use pluto_server.GameWorker.{on_load}
use pluto_server.GameWorker.Natives.{to_server, run_native-Pushes}
use pluto_server.GameWorker.Question.{ask, Posed}

query_bytes :
    (c s : ℕ) (text : List ℕ) (spare : ℕ)
    → take (8 + length text) (encoded c s text ++ (spare ∷ [])) ≡ encoded c s text
query_bytes c s text spare =
    take-append (8 + length text) (encoded c s text) (spare ∷ []) (omega arith)

composed-Posed :
    (send : ℕ → List ℕ → Sent) (s s1 s2 : EpollServer) (q : MessageQueue) (fd : ℕ) (k : Connector)
    (rest : List Connector) (p : Package) (query : List ℕ)
    → (a : Asked (record s { mq = q }) k rest p s1)
    → (f : SentOff send s1 (with_channel a.channel k) rest fd s2)
    → take (total_length p) (get_buffer p) ≡ query
    → q.mq2s ≡ []
    → Posed send s k rest fd query s2
composed-Posed send s s1 s2 q fd k rest p query a f same no_work = record {
  gone = f.gone;
  last = ap (last_sent fd) f.sent ∙ last_sent_found fd s1.calls f.gone f.later f.quiet;
  channel = f.channel;
  placed = record { stands = f.placed.stands; channels = f.placed.channels ∙ a.placed.channels };
  same_fd = f.same_fd ∙ a.same_fd;
  finished = f.finished;
  conserved =
      f.conserved ∙ a.appended ∙ ap (λ (more : List ℕ). contents k.channel.out_buf ++ more) same;
  input = f.input ∙ a.input;
  valid = f.valid;
  waiting = ap (λ (x : MessageQueue). x.mq2s) (f.queues ∙ a.queues) ∙ no_work;
  drained = ap (λ (x : MessageQueue). x.mq2c) (f.queues ∙ a.queues);
}

pub ask-Posed :
    {heap : Allocator}
    → IsAllocator heap
    → (watcher_of : ℕ → ℕ) (send : ℕ → List ℕ → Sent) → IsSocket send
    → (s : EpollServer) (fd : ℕ) (k : Connector) (rest : List Connector) (return_id : ℕ)
      (text : List ℕ)
    → s.connector_list ≡ k ∷ rest
    → k.success ≡ true
    → k.channel.fd ≡ fd
    → IsValid k.channel.out_buf
    → k.channel.out_buf.write_offset + (8 + length text) ≤ max_buf_size
    → s.mq.mq2s ≡ []
    → s.mq.mq2c ≡ []
    → (s' : EpollServer) × (ask heap watcher_of send s fd return_id text ≡ some s')
      × Posed send s k rest fd (encoded sql_query (return_id % 2 ^ 16) text) s'
unfolding ask
ask-Posed {heap} good watcher_of send socket s fd k rest return_id text list connected at out_valid
      room no_work no_answers =
    let (r, asks, (spare, pushed)) =
      run_native-Pushes good s.mq (on_load (some (return_id, text))) (omega arith) in
    let p = message sql_query (return_id % 2 ^ 16) text spare in
    let (s1, drains, a) =
      on_eventfd-Asked good watcher_of (record s { mq = r.queue }) k rest (some 0) p list connected
        (ap (λ (q : MessageQueue). q.mq2c) pushed
          ∙ ap (λ ms. ms ++ (to_server sql_query (return_id % 2 ^ 16) text spare ∷ [])) no_answers)
        out_valid (omega (arith, length-append text (spare ∷ []))) room in
    let (s2, writes, f) =
      on_write-SentOff send socket s1 fd (with_channel a.channel k) rest a.placed.stands
        (a.same_fd ∙ at) a.valid in
    (
      s2,
      bind_some asks _ (bind_some drains _ writes),
      composed-Posed send s s1 s2 r.queue fd k rest p (encoded sql_query (return_id % 2 ^ 16) text)
          a f (query_bytes sql_query (return_id % 2 ^ 16) text spare)
          (ap (λ (q : MessageQueue). q.mq2s) pushed ∙ no_work),
    )
