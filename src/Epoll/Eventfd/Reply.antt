-- ===== src/Epoll/Eventfd/Reply.antt =====
-- `OnEventfd` on one answer to a client.
use pluto_server.Prelude.{
  ℕ, ◌+◌, ◌≤◌, ◌≡◌, ◌≢◌, refl, ap, ◌∙◌, arith, true, List, [], ◌∷◌, ◌++◌, some, length,
  length-append, take, take-append, bind_some,
}
use pluto_server.Prelude.Memory.{Allocator, IsAllocator}
use pluto_server.Buffer.Extend.{IsValid, contents}
use pluto_server.Channel.{Channel}
use pluto_server.Package.RoundTrip.{encoded, message}
use pluto_server.MessageQueue.{Message, MessageQueue, pack}
use pluto_server.Util.{max_buf_size, mq_type_pack}
use pluto_server.Epoll.{EpollServer, get_channel}
use pluto_server.Epoll.Eventfd.{on_message, on_eventfd}
use pluto_server.Epoll.Eventfd.Delivery.{send_pack-Sent}
use pluto_server.Epoll.Eventfd.Drain.{carry_out, on_eventfd-carry_out}

-- What an answer leaves.
pub record Answered (s : EpollServer) (fd : ℕ) (c : Channel) (bytes : List ℕ) (rest : List Message)
    (s' : EpollServer) : Type 0 where
  pub channel : Channel
  pub found : get_channel s' fd ≡ some channel
  pub appended : contents channel.out_buf ≡ contents c.out_buf ++ bytes
  pub valid : IsValid channel.out_buf
  pub input : channel.in_buf ≡ c.in_buf
  pub others : (other : ℕ) → other ≢ fd → get_channel s' other ≡ get_channel s other
  pub waiting : s'.mq.mq2s ≡ rest
  pub drained : s'.mq.mq2c ≡ []

encoded_front :
    (c s : ℕ) (text : List ℕ) (spare : ℕ)
    → take (8 + length text) (encoded c s text ++ (spare ∷ [])) ≡ encoded c s text
encoded_front c s text spare =
    take-append (8 + length text) (encoded c s text) (spare ∷ []) (omega arith)

-- The message of an answer.
abbrev pub outgoing : ℕ → ℕ → ℕ → List ℕ → ℕ → Message
outgoing fd command_id sub_id text spare = record {
  uniqid = some fd;
  payload = pack (message command_id sub_id text spare);
  kind = mq_type_pack;
}

-- One answer that waits: `OnEventfd` puts its bytes behind the output of its channel, and leaves nothing
-- that waits for the event loop.
pub on_eventfd-Answered :
    {heap : Allocator}
    → IsAllocator heap
    → (watcher_of : ℕ → ℕ) (s : EpollServer) (fd command_id sub_id : ℕ) (text : List ℕ) (spare : ℕ)
      (c : Channel)
    → s.mq.mq2c ≡ outgoing fd command_id sub_id text spare ∷ []
    → get_channel s fd ≡ some c
    → IsValid c.out_buf
    → c.out_buf.write_offset + (8 + length text) ≤ max_buf_size
    → (s' : EpollServer) × (on_eventfd heap watcher_of s true ≡ some s')
      × Answered s fd c (encoded command_id sub_id text) s.mq.mq2s s'
unfolding carry_out on_message
on_eventfd-Answered {heap} good watcher_of s fd command_id sub_id text spare c queued there v room =
    let p = message command_id sub_id text spare in
    let next : EpollServer = record s { mq = record s.mq { mq2c = [] } } in
    let (s', sends, sent) =
      send_pack-Sent good next fd c p there v (omega (arith, length-append text (spare ∷ [])))
        room in
    (
      s',
      (on_eventfd-carry_out heap watcher_of s).0
          ∙ ap (carry_out heap watcher_of s) queued
          ∙ bind_some sends _ refl,
      record {
        channel = sent.channel;
        found = sent.found;
        appended =
            sent.appended
            ∙ ap (λ bytes. contents c.out_buf ++ bytes)
                (encoded_front command_id sub_id text spare);
        valid = sent.valid;
        input = sent.input;
        others = sent.others;
        waiting = ap (λ (r : MessageQueue). r.mq2s) sent.queues;
        drained = ap (λ (r : MessageQueue). r.mq2c) sent.queues;
      },
    )

-- The same, from before the queues were set.
pub with_mq-Answered :
    (s : EpollServer) (q : MessageQueue) (fd : ℕ) (c : Channel) (bytes : List ℕ)
    (rest : List Message) (s' : EpollServer)
    → q.mq2s ≡ rest
    → Answered (record s { mq = q }) fd c bytes q.mq2s s'
    → Answered s fd c bytes rest s'
with_mq-Answered s q fd c bytes rest s' e a = record {
  channel = a.channel;
  found = a.found;
  appended = a.appended;
  valid = a.valid;
  input = a.input;
  others = a.others;
  waiting = a.waiting ∙ e;
  drained = a.drained;
}
