-- ===== src/GameWorker/Round.antt =====
-- A request on its way through the server: the queue of the socket thread, the worker and its script, and
-- the way back.
use pluto_server.Prelude.{
  ℕ, ◌+◌, ◌%◌, ◌^◌, ◌≤◌, ◌≡◌, refl, ap, ◌∙◌, arith, true, List, [], ◌∷◌, ◌++◌, Option, some, length,
  bind_some, ◌>>=◌,
}
use pluto_server.Prelude.Memory.{Allocator, IsAllocator}
use pluto_server.Buffer.Extend.{IsValid}
use pluto_server.Channel.{Channel}
use pluto_server.Package.RoundTrip.{encoded}
use pluto_server.MessageQueue.{Message, MessageQueue, mq2s_pop, push_mq2c}
use pluto_server.MessageQueue.Typed.{ToWorker}
use pluto_server.Util.{max_buf_size}
use pluto_server.Epoll.{EpollServer, get_channel}
use pluto_server.Epoll.Eventfd.{on_eventfd}
use pluto_server.MessageQueue.Fifo.{mq2s_pop-front}
use pluto_server.Epoll.Eventfd.Reply.{Answered, on_eventfd-Answered, with_mq-Answered}
use pluto_server.GameWorker.{PyCall, Native, call_client, GameWorker, handle_message}
use pluto_server.GameWorker.Natives.{to_client, PushesAll}
use pluto_server.GameWorker.Calls.{HasText, Tells, handle_message-Tells}

-- A worker pops the oldest message and handles it, and then the event loop reads its eventfd.
pub serve :
    Allocator → (ℕ → ℕ) → GameWorker → EpollServer → List Native → Option (GameWorker × EpollServer)
serve heap watcher_of w s made = do
  (m, q) ← mq2s_pop s.mq
  (w', q') ← handle_message heap w q m made
  s' ← on_eventfd heap watcher_of (record s { mq = q' }) true
  some (w', s')

-- The oldest message of the workers' queue is typed with a text body, no message waits for the event loop,
-- and the script answers it with one `call_client`, for a channel that has room for the answer: the script
-- is called once, by the method for the message and with its fields; and nothing faults. Behind that
-- channel's output then stands the encoded answer, its ids cut to 16 bits; every other channel is as it
-- was, and the workers' queue has lost that one message.
pub serve-Answered :
    {heap : Allocator}
    → IsAllocator heap
    → (watcher_of : ℕ → ℕ) (w : GameWorker) (s : EpollServer) (m : Message) (rest : List Message)
      (fd command_id sub_id : ℕ) (text : List ℕ) (c : Channel)
    → s.mq.mq2s ≡ m ∷ rest
    → s.mq.mq2c ≡ []
    → ToWorker m
    → HasText m
    → get_channel s fd ≡ some c
    → IsValid c.out_buf
    → c.out_buf.write_offset + (8 + length text) ≤ max_buf_size
    → (call : PyCall) × (s' : EpollServer) × (serve heap watcher_of w s
          (call_client (some (fd, command_id, sub_id, text)) ∷ [])
        ≡ some (record { calls = w.calls ++ (call ∷ []) }, s'))
      × Tells m call
      × Answered s fd c (encoded (command_id % 2 ^ 16) (sub_id % 2 ^ 16) text) rest s'
unfolding serve PushesAll
serve-Answered {heap} good watcher_of w s m rest fd command_id sub_id text c waiting idle typed
      has_text there v room =
    let q : MessageQueue = record s.mq { mq2s = rest } in
    let (call, q', handles, tells, (mid, (spare, e), e')) =
      handle_message-Tells good w q m (call_client (some (fd, command_id, sub_id, text)) ∷ []) typed
        has_text (omega arith, tt) in
    let pushed : q' ≡ push_mq2c q (to_client fd command_id sub_id text spare) = e' ∙ e in
    let (s', serves, a) =
      on_eventfd-Answered good watcher_of (record s { mq = q' }) fd (command_id % 2 ^ 16)
        (sub_id % 2 ^ 16) text spare c
        (ap (λ (r : MessageQueue). r.mq2c) pushed
          ∙ ap (λ ms. ms ++ (to_client fd command_id sub_id text spare ∷ [])) idle)
        there v room in
    (
      call,
      s',
      bind_some (mq2s_pop-front s.mq m rest waiting) _
          (bind_some handles _ (bind_some serves _ refl)),
      tells,
      with_mq-Answered s q' fd c _ rest s' (ap (λ (r : MessageQueue). r.mq2s) pushed) a,
    )
