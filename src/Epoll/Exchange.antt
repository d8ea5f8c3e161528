-- ===== src/Epoll/Exchange.antt =====
-- What reading a request, answering it and writing leave together.

use mathlib.Core.Path.{subst}
use pluto_server.Prelude.{sym, ◌⊎◌, none, ℕ, ◌≡◌, ◌≢◌, ap, ◌∙◌, List, [], ◌∷◌, ◌++◌, some}
use pluto_server.Buffer.{Buffer}
use pluto_server.Buffer.Extend.{IsValid, contents}
use pluto_server.Channel.{Channel}
use pluto_server.MessageQueue.{Message, MessageQueue}
use pluto_server.Epoll.{EpollServer, Call, sent_to, get_channel}
use pluto_server.Epoll.Read.Request.{Received}
use pluto_server.Epoll.Eventfd.Reply.{Answered}
use pluto_server.Epoll.Write.Flush.{Flushed, last_sent}
use pluto_server.Epoll.Write.{Sent}
use pluto_server.Epoll.Write.Sending.{Refused}

-- What an exchange leaves. `gone` is what the kernel has taken, in its last
-- send on the descriptor.
pub record Exchanged (send : ℕ → List ℕ → Sent) (s : EpollServer) (fd : ℕ) (c : Channel)
    (answer : List ℕ) (s' : EpollServer) : Type 0 where
  pub gone : List ℕ
  pub before : List Call
  pub later : List Call
  pub sent : s'.calls ≡ (before ++ (sent_to fd gone ∷ [])) ++ later
  pub channel : Channel
  pub found : get_channel s' fd ≡ some channel
  pub quiet : last_sent fd later ≡ none
  pub finished : (channel.out_buf.write_offset ≡ 0) ⊎ Refused send
  pub conserved : gone ++ contents channel.out_buf ≡ contents c.out_buf ++ answer
  pub input : contents channel.in_buf ≡ []
  pub valid_in : IsValid channel.in_buf
  pub valid_out : IsValid channel.out_buf
  pub others : (other : ℕ) → other ≢ fd → get_channel s' other ≡ get_channel s other
  pub waiting : s'.mq.mq2s ≡ []
  pub drained : s'.mq.mq2c ≡ []

-- The three parts of an exchange, put together.
pub composed-Exchanged :
    (send : ℕ → List ℕ → Sent) (s s1 s2 s3 : EpollServer) (fd : ℕ) (c : Channel) (m : Message)
    (answer : List ℕ)
    → (r : Received s fd c m s1) (a : Answered s1 fd r.channel answer [] s2)
    → Flushed send s2 fd a.channel s3
    → Exchanged send s fd c answer s3
composed-Exchanged send s s1 s2 s3 fd c m answer r a f = record {
  gone = f.gone;
  before = s2.calls;
  later = f.later;
  sent = f.sent;
  channel = f.channel;
  found = f.found;
  quiet = f.quiet;
  finished = f.finished;
  conserved = f.conserved ∙ a.appended ∙ ap (λ (b : Buffer). contents b ++ answer) r.output;
  input = ap contents (f.input ∙ a.input) ∙ r.emptied;
  valid_in = subst IsValid (sym (f.input ∙ a.input)) r.valid;
  valid_out = f.valid;
  others = λ other n. f.others other n ∙ a.others other n ∙ r.others other n;
  waiting = ap (λ (q : MessageQueue). q.mq2s) f.queues ∙ a.waiting;
  drained = ap (λ (q : MessageQueue). q.mq2c) f.queues ∙ a.drained;
}
