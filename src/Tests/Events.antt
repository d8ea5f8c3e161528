-- ===== src/Tests/Events.antt =====
-- epoll_server.cpp at concrete inputs.
use pluto_server.Prelude.{
  ℕ, ◌≡◌, refl, ap, arith, inr, true, false, List, [], ◌∷◌, ◌++◌, none, some, length, replicate,
  length-replicate, ◌≢◌, ◌+◌, ◌≤◌, sym, ◌∙◌, some_inj, ℕ_discrete,
}
use mathlib.Core.Path.{subst}
use pluto_server.Prelude.Dict
use pluto_server.Prelude.Text.{codes}
use pluto_server.Prelude.Memory.{plain_heap, plain_heap-IsAllocator}
use pluto_server.Util.{fd_type_server, mq_type_broadcast, max_buf_size}
use pluto_server.Buffer.{Buffer}
use pluto_server.Buffer.Extend.{IsValid, contents}
use pluto_server.Package.RoundTrip.{wire, message}
use pluto_server.Channel.{Channel, new_channel}
use pluto_server.MessageQueue.{new_message_queue, pack, broad}
use pluto_server.Epoll.{EpollServer, get_channel}
use pluto_server.Epoll.Read.{bytes, closed, on_read}
use pluto_server.Epoll.Read.Closing.{Closed, on_read-Closed}
use pluto_server.Epoll.Read.Safety.{Delivered, on_read-Delivered, on_read_overruns}
use pluto_server.Epoll.Read.Fragments.{on_read_fragments}
use pluto_server.Epoll.Write.{on_write, Sent, failed, took}
use pluto_server.Epoll.Write.Flush.{Flushed, on_write-Flushed}
use pluto_server.Epoll.Write.Sending.{IsSocket}
use pluto_server.Epoll.Eventfd.{on_message, on_eventfd}
use pluto_server.Epoll.Eventfd.Broadcasting.{copies, HasRoom, Reached, send_broadcast_reaches}
use pluto_server.Package.Arrival.{sent_bytes}
use pluto_server.Epoll.Eventfd.Drain.{carry_out, Keeps, on_eventfd-carry_out}
use pluto_server.Epoll.Callbacks.{r_w_cb}
use pluto_server.Epoll.Callbacks.Closing.{r_w_cb-Closed}

abbrev two_frames : List ℕ
two_frames = wire 1 2 (codes "hi") (wire 3 4 (codes "yes") (0 ∷ (0 ∷ [])))

-- A client on descriptor 5 that has sent one package and the start of another.
abbrev held : Buffer
held = record { block = two_frames; alloc_size = 23; write_offset = 23 }

abbrev client : Channel
client = record (new_channel 5 (some 900) fd_type_server) { in_buf = held; out_buf = held }

abbrev pub server : EpollServer
server = record {
  eventfd = 3;
  channel_map = (4, new_channel 4 (some 901) fd_type_server) ∷ ((5, client) ∷ []);
  timer_map = [];
  connector_list = [];
  mq = record new_message_queue {
    mq2c = record { uniqid = some 5; payload = pack (message 1 2 (codes "hi") 0); kind = 1 } ∷ [];
  };
  calls = [];
}

client_there : get_channel server 5 ≡ some client
unfolding Dict.find
client_there = refl

on_read-Delivered_example :
    (s' : EpollServer) × (on_read plain_heap server 5 fd_type_server (bytes (codes "abc"))
      ≡ some s')
    × Delivered server fd_type_server 5 client (codes "abc") s'
on_read-Delivered_example =
    on_read-Delivered plain_heap-IsAllocator server fd_type_server 5 client (codes "abc")
      client_there (omega arith) (omega arith) (λ e. cc) (omega arith)

on_read_fragments_example :
    (s1 s2 : EpollServer) × (on_read plain_heap server 5 fd_type_server (bytes (codes "abc"))
      ≡ some s1)
    × (on_read plain_heap s1 5 fd_type_server (bytes (codes "de")) ≡ some s2)
    × Delivered server fd_type_server 5 client (codes "abc" ++ codes "de") s2
on_read_fragments_example =
    on_read_fragments plain_heap-IsAllocator server fd_type_server 5 client (codes "abc")
      (codes "de") client_there (omega arith) (omega arith) (λ e. cc) (λ e. cc) (omega arith)
      (omega arith)

on_read-Closed_example :
    (s' : EpollServer) × (on_read plain_heap server 5 fd_type_server closed ≡ some s')
    × Closed server 5 s'
on_read-Closed_example = on_read-Closed plain_heap server 5 client closed client_there (inr refl)

r_w_cb-Closed_example :
    (s' : EpollServer) × (r_w_cb plain_heap server 5
        (record { error = false; readable = true; writable = true })
        closed
        (λ round chunk. took 1)
      ≡ some s')
    × (on_read plain_heap server 5 fd_type_server closed ≡ some s')
    × Closed server 5 s'
r_w_cb-Closed_example =
    r_w_cb-Closed plain_heap server 5 client true closed (λ round chunk. took 1) client_there
      (inr refl)

amount : Sent → ℕ
amount failed = 0
amount (took n) = n

pub takes_all-IsSocket : IsSocket (λ round chunk. took (length chunk))
unfolding amount
takes_all-IsSocket round chunk n e = omega (arith, ap amount e)

on_write-Flushed_example :
    (s' : EpollServer) × (on_write (λ round chunk. took (length chunk)) server 5 fd_type_server
      ≡ some s')
    × Flushed (λ round chunk. took (length chunk)) server 5 client s'
on_write-Flushed_example =
    on_write-Flushed (λ round chunk. took (length chunk)) takes_all-IsSocket server 5 client
      client_there (omega arith)

on_eventfd-carry_out_example :
    (on_eventfd plain_heap (λ timerid. 700) server true
      ≡ carry_out plain_heap (λ timerid. 700) server server.mq.mq2c)
    × Keeps (record server.mq { mq2c = [] }) (on_eventfd plain_heap (λ timerid. 700) server true)
on_eventfd-carry_out_example = on_eventfd-carry_out plain_heap (λ timerid. 700) server

-- The same client with all of its buffer in use.
abbrev full : Buffer
full = record {
  block = replicate max_buf_size 0;
  alloc_size = max_buf_size;
  write_offset = max_buf_size;
}

full-IsValid : IsValid full
full-IsValid = record {
  known = length-replicate {A = ℕ} max_buf_size 0;
  inside = omega arith;
  limited = omega arith;
}

abbrev crowded : EpollServer
crowded = record server { channel_map = (5, record client { in_buf = full }) ∷ [] }

crowded_there : get_channel crowded 5 ≡ some (record client { in_buf = full })
unfolding Dict.find
crowded_there = refl

on_read_overruns_example : on_read plain_heap crowded 5 fd_type_server (bytes (codes "a")) ≡ none
on_read_overruns_example =
    on_read_overruns plain_heap crowded fd_type_server 5 (record client { in_buf = full })
      (codes "a") crowded_there full-IsValid (omega arith) (omega arith)

abbrev hi : List ℕ
hi = sent_bytes (message 1 2 (codes "hi") 0)

-- A server with one client, and a broadcast that names it twice, and once one that has gone.
abbrev alone : EpollServer
alone = record server { channel_map = (5, client) ∷ [] }

client_found : get_channel alone 5 ≡ some client
unfolding Dict.find
client_found = refl

nobody_else : (fd : ℕ) → fd ≢ 5 → get_channel alone fd ≡ none
unfolding Dict.find
nobody_else fd other = ground (arith, other)

abbrev Fits : ℕ → Channel → Type 0
Fits fd c =
    IsValid c.out_buf
    × (length (contents c.out_buf) + length (copies fd (5 ∷ (77 ∷ (5 ∷ []))) hi) ≤ max_buf_size)

client_room : Fits 5 client
client_room = (omega arith, omega arith)

alone_room : HasRoom alone (5 ∷ (77 ∷ (5 ∷ []))) hi
alone_room fd c there = elim (ℕ_discrete fd 5) [
  | yes same ↦
      let it : client ≡ c =
        some_inj (sym client_found ∙ (ap (get_channel alone) (sym same) ∙ there)) in
      subst (λ (n : ℕ). Fits n c) (sym same) (subst (Fits 5) it client_room)
  | no other ↦ let gone = nobody_else fd other in cc
]

send_broadcast_reaches_example :
    (s' : EpollServer) × (on_message plain_heap
        (λ timerid. 700)
        alone
        (record {
          uniqid = none;
          payload = broad (record {
            all = true;
            uniqids = 5 ∷ (77 ∷ (5 ∷ []));
            pack = message 1 2 (codes "hi") 0;
          });
          kind = mq_type_broadcast;
        })
      ≡ some s')
    × Reached alone (5 ∷ (77 ∷ (5 ∷ []))) hi s'
send_broadcast_reaches_example =
    send_broadcast_reaches plain_heap-IsAllocator (λ timerid. 700) alone none true
      (5 ∷ (77 ∷ (5 ∷ []))) (message 1 2 (codes "hi") 0) (omega arith) alone_room
