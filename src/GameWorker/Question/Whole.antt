-- ===== src/GameWorker/Question/Whole.antt =====
-- A question of the script and its reply.
use mathlib.Core.Path.{subst}
use pluto_server.Prelude.{
  ◌⊎◌, ℕ, ◌+◌, ◌%◌, ◌^◌, ◌≤◌, ◌≡◌, sym, ap, ◌∙◌, true, List, [], ◌∷◌, ◌++◌, some, length, bind_some,
}
use pluto_server.Prelude.Memory.{Allocator, IsAllocator}
use pluto_server.Buffer.{Buffer}
use pluto_server.Buffer.Extend.{IsValid, contents}
use pluto_server.Channel.{Connector}
use pluto_server.Package.RoundTrip.{encoded, wire}
use pluto_server.Util.{max_buf_size, sql_query}
use pluto_server.Epoll.{EpollServer, with_channel}
use pluto_server.Epoll.Read.Request.{IsRequest}
use pluto_server.Epoll.Write.{Sent}
use pluto_server.Epoll.Write.Sending.{IsSocket, Refused}
use pluto_server.GameWorker.{on_connector, GameWorker}
use pluto_server.GameWorker.Question.{ask, question, Questioned}
use pluto_server.GameWorker.Question.Asking.{ask-Posed}
use pluto_server.GameWorker.Question.Hearing.{hear-Told}

-- The first connector of a server with no work is connected, has valid buffers, no input and room for the query; the
-- script asks with `on_load`; the kernel takes what it likes of the output; and then a reply that the wire
-- carries as it is comes in one piece. Nothing faults; what the kernel took in its last send on the
-- descriptor before the reply, and what the output still holds, are in order what the output held before and
-- the encoded query, with the id cut to 16 bits; the output holds nothing more unless a send was refused;
-- the script is then called once, by `OnConnector` with the ids and the text of the reply; the connector
-- stays connected at its place, with no input left; no other channel has changed; and no work is left.
pub question-Questioned :
    {heap : Allocator}
    → IsAllocator heap
    → (watcher_of : ℕ → ℕ) (send : ℕ → List ℕ → Sent) → IsSocket send
    → (w : GameWorker) (s : EpollServer) (fd : ℕ) (k : Connector) (rest : List Connector)
      (return_id : ℕ) (text : List ℕ) (command_id sub_id : ℕ) (answer : List ℕ)
    → s.connector_list ≡ k ∷ rest
    → k.success ≡ true
    → k.channel.fd ≡ fd
    → IsValid k.channel.in_buf
    → k.channel.in_buf.write_offset ≡ 0
    → IsValid k.channel.out_buf
    → k.channel.out_buf.write_offset + (8 + length text) ≤ max_buf_size
    → s.mq.mq2s ≡ []
    → s.mq.mq2c ≡ []
    → IsRequest command_id sub_id answer
    → (s1 s' : EpollServer) × (ask heap watcher_of send s fd return_id text ≡ some s1)
      × (question heap watcher_of send w s fd return_id text (wire command_id sub_id answer [])
          ≡ some (record { calls = w.calls ++ (on_connector command_id sub_id answer ∷ []) }, s'))
      × Questioned send s k rest fd (encoded sql_query (return_id % 2 ^ 16) text) s1 s'
unfolding question
question-Questioned {heap} good watcher_of send socket w s fd k rest return_id text command_id
      sub_id answer list connected at in_valid empty out_valid room no_work no_answers fits =
    let (s1, asks, p) =
      ask-Posed good watcher_of send socket s fd k rest return_id text list connected at out_valid
        room no_work no_answers in
    let (s2, hears, t) =
      hear-Told good w s1 fd (with_channel p.channel k) rest command_id sub_id answer
        p.placed.stands (p.same_fd ∙ at) (subst IsValid (sym p.input) in_valid)
        (ap (λ (b : Buffer). b.write_offset) p.input ∙ empty) p.waiting p.drained fits in
    (
      s1,
      s2,
      asks,
      bind_some asks _ hears,
      record {
        gone = p.gone;
        last = p.last;
        finished =
            subst (λ (b : Buffer). (b.write_offset ≡ 0) ⊎ Refused send) (sym t.output) p.finished;
        channel = t.channel;
        placed = record {
          stands = t.placed.stands;
          channels = t.placed.channels ∙ p.placed.channels;
        };
        conserved = ap (λ (b : Buffer). p.gone ++ contents b) t.output ∙ p.conserved;
        input = t.emptied;
        waiting = t.waiting;
        drained = t.drained;
      },
    )
