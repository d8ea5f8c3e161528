-- ===== src/GameWorker/Exchange.antt =====
-- A request and its answer, from the bytes that the client sends to those that the kernel takes for it.
use mathlib.Core.Path.{subst}
use pluto_server.Prelude.{
  ℕ, ◌+◌, ◌%◌, ◌^◌, ◌≤◌, ◌≡◌, refl, sym, ap, ◌∙◌, arith, List, [], ◌∷◌, ◌++◌, Option, some,
  some_inj, length, bind_some, ◌>>=◌,
}
use pluto_server.Prelude.Memory.{Allocator, IsAllocator}
use pluto_server.Buffer.{Buffer}
use pluto_server.Buffer.Extend.{IsValid}
use pluto_server.Channel.{Channel}
use pluto_server.Package.{body_text}
use pluto_server.Package.RoundTrip.{encoded, message, wire}
use pluto_server.MessageQueue.{MessageQueue, as_pack}
use pluto_server.MessageQueue.Typed.{client_pack}
use pluto_server.Util.{fd_type_server, max_buf_size}
use pluto_server.Epoll.{EpollServer, get_channel}
use pluto_server.Epoll.Read.{bytes, on_read}
use pluto_server.Epoll.Write.{Sent, on_write}
use pluto_server.Epoll.Write.Sending.{IsSocket}
use pluto_server.Epoll.Write.Flush.{on_write-Flushed}
use pluto_server.Epoll.Exchange.{Exchanged, composed-Exchanged}
use pluto_server.Epoll.Read.Request.{IsRequest, request, request-frame, on_read-Received}
use pluto_server.GameWorker.{PyCall, Native, call_client, GameWorker}
use pluto_server.GameWorker.Calls.{Tells}
use pluto_server.GameWorker.Round.{serve, serve-Answered}

-- The event loop reads a client, a worker handles the oldest message, the event loop reads its eventfd, and
-- then writes to the client.
pub exchange :
    Allocator
    → (ℕ → ℕ)
    → (ℕ → List ℕ → Sent)
    → GameWorker
    → EpollServer
    → ℕ
    → List ℕ
    → List Native
    → Option (GameWorker × EpollServer)
exchange heap watcher_of send w s fd news made = do
  s1 ← on_read heap s fd fd_type_server (bytes news)
  (w', s2) ← serve heap watcher_of w s1 made
  s3 ← on_write send s2 fd fd_type_server
  some (w', s3)

-- A client of a server with no work sends a request that the wire carries as it is, in one piece; the
-- script answers it with one `call_client` to the same client, whose output has room for the answer; the
-- kernel takes what it likes of the output. Then nothing faults; the script is called once, by the method
-- for the request and with its fields; what the kernel took and what the output still holds are, in
-- order, what it held before and the encoded answer, its ids cut to 16 bits, and it holds some only if the
-- kernel refused a chunk; no input is left; every
-- other channel is as it was; and no work is left.
pub exchange-Exchanged :
    {heap : Allocator}
    → IsAllocator heap
    → (watcher_of : ℕ → ℕ) (send : ℕ → List ℕ → Sent) → IsSocket send
    → (w : GameWorker) (s : EpollServer) (fd : ℕ) (c : Channel) (command_id sub_id : ℕ)
      (text : List ℕ) (answer_command answer_sub : ℕ) (answer : List ℕ)
    → get_channel s fd ≡ some c
    → IsValid c.in_buf
    → c.in_buf.write_offset ≡ 0
    → IsValid c.out_buf
    → c.out_buf.write_offset + (8 + length answer) ≤ max_buf_size
    → s.mq.mq2s ≡ []
    → s.mq.mq2c ≡ []
    → IsRequest command_id sub_id text
    → (call : PyCall) × (s' : EpollServer) × (exchange heap watcher_of send w s fd
          (wire command_id sub_id text [])
          (call_client (some (fd, answer_command, answer_sub, answer)) ∷ [])
        ≡ some (record { calls = w.calls ++ (call ∷ []) }, s'))
      × Tells (request fd command_id sub_id text) call
      × Exchanged send s fd c (encoded (answer_command % 2 ^ 16) (answer_sub % 2 ^ 16) answer) s'
unfolding exchange
exchange-Exchanged {heap} good watcher_of send socket w s fd c command_id sub_id text answer_command
      answer_sub answer there in_valid empty out_valid room no_work no_answers request_fits =
    let m = request fd command_id sub_id text in
    let (s1, reads, r) =
      on_read-Received good s fd c command_id sub_id text there in_valid empty request_fits in
    let (call, s2, serves, tells, a) =
      serve-Answered good watcher_of w s1 m [] fd answer_command answer_sub answer r.channel
        (ap (λ (q : MessageQueue). q.mq2s) r.queued ∙ ap (λ ms. ms ++ (m ∷ [])) no_work)
        (ap (λ (q : MessageQueue). q.mq2c) r.queued ∙ no_answers)
        (client_pack fd (message command_id sub_id text 0) refl refl refl)
        (λ p e. (
          text,
          ap body_text (sym (some_inj (ap as_pack e)))
              ∙ (request-frame good command_id sub_id text request_fits).1,
        ))
        r.found (subst IsValid (sym r.output) out_valid)
        (omega (arith, ap (λ (b : Buffer). b.write_offset) r.output, room)) in
    let (s3, writes, f) = on_write-Flushed send socket s2 fd a.channel a.found a.valid in
    (
      call,
      s3,
      bind_some reads _ (bind_some serves _ (bind_some writes _ refl)),
      tells,
      composed-Exchanged send s s1 s2 s3 fd c m _ r a f,
    )
