-- ===== src/Epoll/Connect/Retry.antt =====
-- A round of `OnTryConnect` over all connectors.
use pluto_server.Prelude.{
  ℕ, suc, ◌≡◌, refl, true, false, List, [], ◌∷◌, some, Bool-cases, branches, Option-cases, inl, inr,
}
use pluto_server.Channel.{Connector, set_fd}
use pluto_server.Epoll.Connect.{
  Attempt, Round, is_missing, with_socket, finish, try_connector, try_all,
}

-- A connector before and after a round: its address stays, a connected one is left alone, and one that
-- becomes connected has a watcher.
pub record Retried (c c' : Connector) : Type 0 where
  pub ip : c'.server_ip ≡ c.server_ip
  pub port : c'.port ≡ c.port
  pub connected : c.success ≡ true → c' ≡ c
  pub watched : c.success ≡ false → c'.success ≡ true → (w : ℕ) × (c'.channel.io_watcher ≡ some w)

pub AllRetried : List Connector → List Connector → Type 0
AllRetried [] [] = Unit {0}
AllRetried (c ∷ cs) (c' ∷ cs') = Retried c c' × AllRetried cs cs'
AllRetried _ _ = ⊥

unchanged-Retried : (c : Connector) → Retried c c
unchanged-Retried c = record { ip = refl; port = refl; connected = λ e. refl; watched = λ a b. cc }

finish-Retried :
    (c c' : Connector) (a : Attempt)
    → c.success ≡ false
    → c'.server_ip ≡ c.server_ip
    → c'.port ≡ c.port
    → c'.success ≡ false
    → Retried c (finish c' a).connector
unfolding finish
finish-Retried c c' a off ip port off' = elim (Bool-cases a.connected) [
  | inl made ↦ elim (Option-cases a.watcher) [
    | inl e ↦
        rw (made, e) (record { ip = ip; port = port; connected = λ h. cc; watched = λ h h'. cc })
    | inr (w, e) ↦
        rw (made, e)
          (record { ip = ip; port = port; connected = λ h. cc; watched = λ h h'. (w, refl) })
  ]
  | inr not_made ↦
      rw not_made (record { ip = ip; port = port; connected = λ h. cc; watched = λ h h'. cc })
]

try_connector-Retried : (c : Connector) (a : Attempt) → Retried c (try_connector c a).connector
unfolding try_connector with_socket
try_connector-Retried c a =
    branches (λ (r : Round). Retried c r.connector) c.success _ _ (λ on. unchanged-Retried c)
      (λ off. elim (Bool-cases (is_missing c.channel.fd)) [
        | inl none_yet ↦ elim (Bool-cases (is_missing a.socket)) [
          | inl no_socket ↦ rw (none_yet, no_socket) (unchanged-Retried c)
          | inr socket ↦
              rw (none_yet, socket) (finish-Retried c (set_fd c a.socket) a off refl refl off)
        ]
        | inr has_one ↦ rw has_one (finish-Retried c c a off refl refl off)
      ])

unchanged-AllRetried : (cs : List Connector) → AllRetried cs cs
unfolding AllRetried
unchanged-AllRetried [] = tt
unchanged-AllRetried (c ∷ cs) = (unchanged-Retried c, unchanged-AllRetried cs)

-- Whatever the kernel and `malloc` answer, a round of `OnTryConnect` keeps each connector at its place
-- with its address, leaves the connected ones alone, and gives a watcher to each that it connects.
pub try_all-AllRetried :
    (attempt : ℕ → Attempt) (i : ℕ) (cs : List Connector) → AllRetried cs (try_all attempt i cs).0
unfolding AllRetried try_all
try_all-AllRetried attempt i [] = tt
try_all-AllRetried attempt i (c ∷ cs) = elim (Bool-cases (try_connector c (attempt i)).goes_on) [
  | inl on ↦ rw on (try_connector-Retried c (attempt i), try_all-AllRetried attempt (suc i) cs)
  | inr stop ↦ rw stop (try_connector-Retried c (attempt i), unchanged-AllRetried cs)
]
