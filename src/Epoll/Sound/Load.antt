-- ===== src/Epoll/Sound/Load.antt =====
-- The messages that the event loop can carry out, and how much room they may take.
use pluto_server.Prelude.{ℕ, ◌+◌, ◌≤◌, List, [], ◌∷◌, length}
use pluto_server.Package.{Package, total_length, get_buffer}
use pluto_server.MessageQueue.{Message, Payload, pack, broad}
use pluto_server.MessageQueue.Typed.{ToLoop}

-- A package whose buffer holds the bytes that its header announces.
abbrev pub IsHeld : Package → Type 0
IsHeld p = total_length p ≤ length (get_buffer p)

-- A message that the event loop may be handed, each package of it held.
abbrev pub HoldsPackages : Payload → Type 0
HoldsPackages (pack p) = IsHeld p
HoldsPackages (broad b) = IsHeld b.pack
HoldsPackages _ = Unit {0}

abbrev pub Sendable : Message → Type 0
Sendable m = ToLoop m × HoldsPackages m.payload

-- So many bytes for each receiver of a broadcast.
abbrev pub spread : List ℕ → ℕ → ℕ
spread [] n = 0
spread (uniqid ∷ uniqids) n = n + spread uniqids n

-- What a message may add to one output at most.
abbrev pub load_of : Payload → ℕ
load_of (pack p) = total_length p
load_of (broad b) = spread b.uniqids (total_length b.pack)
load_of _ = 0

abbrev pub load_of_all : List Message → ℕ
load_of_all [] = 0
load_of_all (m ∷ ms) = load_of m.payload + load_of_all ms
