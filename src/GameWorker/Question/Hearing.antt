-- ===== src/GameWorker/Question/Hearing.antt =====
-- What a reply to the script leaves.

use pluto_server.Prelude.{ℕ, ◌≡◌, refl, ap, ◌∙◌, List, [], ◌∷◌, ◌++◌, some, bind_some}
use pluto_server.Prelude.Memory.{Allocator, IsAllocator}
use pluto_server.Buffer.Extend.{IsValid}
use pluto_server.Channel.{Connector}
use pluto_server.Package.RoundTrip.{wire}
use pluto_server.MessageQueue.{MessageQueue}
use pluto_server.MessageQueue.Fifo.{mq2s_pop-front}
use pluto_server.Epoll.{EpollServer}
use pluto_server.Epoll.Read.Request.{IsRequest, request-frame}
use pluto_server.Epoll.Peer.Hearing.{reply_message, on_read-Heard}
use pluto_server.GameWorker.{
  on_connector, GameWorker, call_of, call_on_connector, run_natives, handle_message,
}
use pluto_server.GameWorker.Question.{hear, Told}

-- A worker that gets a reply calls the script with it.
handle_reply :
    {heap : Allocator}
    → IsAllocator heap
    → (w : GameWorker) (q : MessageQueue) (command_id sub_id : ℕ) (text : List ℕ)
    → IsRequest command_id sub_id text
    → handle_message heap w q (reply_message command_id sub_id text) []
      ≡ some (record { calls = w.calls ++ (on_connector command_id sub_id text ∷ []) }, q)
unfolding handle_message call_of call_on_connector run_natives
handle_reply good w q command_id sub_id text r =
    rw (request-frame good command_id sub_id text r).1 refl

pub hear-Told :
    {heap : Allocator}
    → IsAllocator heap
    → (w : GameWorker) (s : EpollServer) (fd : ℕ) (k : Connector) (rest : List Connector)
      (command_id sub_id : ℕ) (answer : List ℕ)
    → s.connector_list ≡ k ∷ rest
    → k.channel.fd ≡ fd
    → IsValid k.channel.in_buf
    → k.channel.in_buf.write_offset ≡ 0
    → s.mq.mq2s ≡ []
    → s.mq.mq2c ≡ []
    → IsRequest command_id sub_id answer
    → (s' : EpollServer) × (hear heap w s fd (wire command_id sub_id answer [])
        ≡ some (record { calls = w.calls ++ (on_connector command_id sub_id answer ∷ []) }, s'))
      × Told s k rest s'
unfolding hear
hear-Told good w s fd k rest command_id sub_id answer list at valid empty no_work no_answers fits =
    let m = reply_message command_id sub_id answer in
    let (s1, reads, h) =
      on_read-Heard good s fd k rest command_id sub_id answer list at valid empty fits in
    let front : s1.mq.mq2s ≡ m ∷ [] =
      ap (λ (x : MessageQueue). x.mq2s) h.queued ∙ ap (λ ms. ms ++ (m ∷ [])) no_work in
    (
      record s1 { mq = record s1.mq { mq2s = [] } },
      bind_some reads _ (
          bind_some (mq2s_pop-front s1.mq m [] front) _
            (bind_some (handle_reply good w _ command_id sub_id answer fits) _ refl)),
      record {
        channel = h.channel;
        placed = record { stands = h.placed.stands; channels = h.placed.channels };
        emptied = h.emptied;
        valid = h.valid;
        output = h.output;
        waiting = refl;
        drained = ap (λ (x : MessageQueue). x.mq2c) h.queued ∙ no_answers;
      },
    )
