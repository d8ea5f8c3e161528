-- ===== src/Tests/Systems.antt =====
-- A history of the game server at concrete inputs.
use pluto_server.Prelude.{ℕ, true, false, List, [], ◌∷◌, Option, none, some, length}
use pluto_server.Prelude.Text.{codes}
use pluto_server.Prelude.Memory.{plain_heap}
use pluto_server.Package.RoundTrip.{wire}
use pluto_server.MessageQueue.{new_message_queue}
use pluto_server.Epoll.Callbacks.{Events}
use pluto_server.Epoll.Read.{bytes}
use pluto_server.Epoll.Write.{Sent, took, failed}
use pluto_server.GameWorker.{call_client}
use pluto_server.System.{GameServer, Input, accepts, clients, wakes, takes, calls_back, step}
use pluto_server.Epoll.Every.{Every}
use pluto_server.Channel.{Channel}
use pluto_server.Prelude.Dict
use pluto_server.Buffer

abbrev empty : GameServer
empty = record {
  server = record {
    eventfd = 3;
    channel_map = [];
    timer_map = [];
    connector_list = [];
    mq = new_message_queue;
    calls = [];
  };
  worker = record { calls = [] };
}

abbrev readable : Events
readable = record { error = false; readable = true; writable = false }

abbrev writable : Events
writable = record { error = false; readable = false; writable = true }

abbrev watcher_of : ℕ → ℕ
watcher_of timerid = 700

abbrev silent : ℕ → List ℕ → Sent
silent round chunk = failed

abbrev takes_all : ℕ → List ℕ → Sent
takes_all round chunk = took (length chunk)

-- A client connects and sends a request; a worker hands it to its script, which answers; the event loop is
-- woken and then writes to the client.
abbrev arrives : Input
arrives = accepts readable 5 (some 900)

abbrev asks : Input
asks = clients 5 readable (bytes (wire 1 2 (codes "hi") [])) silent

abbrev answers : Input
answers = calls_back (call_client (some (5, 3, 4, codes "bye")))

abbrev sends : Input
sends = wakes readable true

abbrev leaves : Input
leaves = clients 5 writable (bytes []) takes_all

abbrev history : List Input
history = arrives ∷ (asks ∷ (takes ∷ (answers ∷ (sends ∷ (leaves ∷ [])))))

abbrev or_empty : Option GameServer → GameServer
or_empty none = empty
or_empty (some g) = g

abbrev after : GameServer → Input → GameServer
after g i = or_empty (step plain_heap watcher_of g i)

abbrev connected : GameServer
connected = after empty arrives

abbrev asked : GameServer
asked = after connected asks

abbrev served : GameServer
served = after asked takes

abbrev answered : GameServer
answered = after served answers

abbrev ready : GameServer
ready = after answered sends

amount : Sent → ℕ
amount failed = 1
amount (took n) = 0
