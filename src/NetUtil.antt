-- ===== src/NetUtil.antt =====
-- common/net_util.cpp: the wrappers of the system calls. The kernel is a parameter: a state, and each call as
-- a function on it. An `int` is its pattern.
use Prim.Native.Nat.{bit_or}
use pluto_server.Prelude.{
  ℕ, ◌+◌, ◌-◌, ◌*◌, ◌/◌, ◌%◌, ◌^◌, ◌≡◌, sym, ap, ◌∙◌, List, false, if◌then◌else◌, ◌==◌,
}
use pluto_server.Epoll.{is_negative}

-- `State` is what the kernel keeps. Each call gives its result and the state after it; addresses and ports
-- are as they stand in a `sockaddr_in`.
pub record Kernel (State : Type 0) : Type 0 where
  pub o_nonblock : ℕ
  pub socket : State → ℕ × State
  pub fcntl_getfd : State → ℕ → ℕ
  pub fcntl_setfl : State → ℕ → ℕ → ℕ × State
  pub bind_any : State → ℕ → ℕ → ℕ × State
  pub listen : State → ℕ → ℕ → ℕ × State
  pub accept : State → ℕ → ℕ × State
  pub inet_addr : List ℕ → ℕ
  pub connect : State → ℕ → ℕ → ℕ → ℕ × State
  pub send : State → ℕ → List ℕ → ℕ × State
  pub recv : State → ℕ → ℕ → (ℕ × List ℕ) × State
  pub new_eventfd : State → ℕ × State
  pub read_counter : State → ℕ → ℕ × State
  pub write_one : State → ℕ → ℕ × State

abbrev pub minus_one : ℕ
minus_one = 2 ^ 32 - 1

-- `htons` on the platforms the server is built for.
abbrev pub htons : ℕ → ℕ
htons port = port % 256 * 256 + port / 256

-- A result below 0 becomes -1, and another one the given result.
abbrev checked : {State : Type 0} → ℕ × State → ℕ → ℕ × State
checked (r, s) done = (if is_negative r then minus_one else done, s)

module _ {State : Type 0} (k : Kernel State) where
  -- `netlib_setnonblocking`: the flags that it adds O_NONBLOCK to are those of F_GETFD.
  unfoldable pub netlib_setnonblocking : State → ℕ → ℕ × State
  netlib_setnonblocking s sockfd =
      k.fcntl_setfl s sockfd (bit_or (k.fcntl_getfd s sockfd) k.o_nonblock)

  -- `netlib_socket`: a socket that cannot be set stays open.
  unfoldable pub netlib_socket : State → ℕ × State
  netlib_socket s =
      let (sockfd, s1) = k.socket s in
      if is_negative sockfd
      then (minus_one, s1)
      else checked (netlib_setnonblocking s1 sockfd) sockfd

  unfoldable pub netlib_bind : State → ℕ → ℕ → ℕ × State
  netlib_bind s sockfd port = checked (k.bind_any s sockfd (htons port)) 0

  unfoldable pub netlib_accept : State → ℕ → ℕ × State
  netlib_accept s sockfd = k.accept s sockfd

  unfoldable pub netlib_listen : State → ℕ → ℕ → ℕ × State
  netlib_listen s sockfd backlog = k.listen s sockfd backlog

  unfoldable pub netlib_connect : State → ℕ → List ℕ → ℕ → ℕ × State
  netlib_connect s sockfd server_ip port =
      let (r, s1) = k.connect s sockfd (k.inet_addr server_ip) (htons port) in
      (if is_negative r then r else 0, s1)

  unfoldable pub netlib_send : State → ℕ → List ℕ → ℕ × State
  netlib_send s sockfd buf = k.send s sockfd buf

  -- With the bytes that it stores in the buffer.
  unfoldable pub netlib_recv : State → ℕ → ℕ → (ℕ × List ℕ) × State
  netlib_recv s sockfd len = k.recv s sockfd len

  unfoldable pub netlib_eventfd : State → ℕ × State
  netlib_eventfd s = let (evfd, s1) = k.new_eventfd s in checked (evfd, s1) evfd

  -- A result other than the size of a `uint64_t` becomes -1.
  unfoldable pub netlib_eventfd_read : State → ℕ → ℕ × State
  netlib_eventfd_read s eventfd =
      let (n, s1) = k.read_counter s eventfd in (if n == 8 then 0 else minus_one, s1)

  unfoldable pub netlib_eventfd_write : State → ℕ → ℕ × State
  netlib_eventfd_write s eventfd =
      let (n, s1) = k.write_one s eventfd in (if n == 8 then 0 else minus_one, s1)

-- What the documentation of `fcntl` says of F_SETFL: where it succeeds, the flags of the file that it can
-- change, `getfl`, are then those of its argument, `settable`.
pub record IsFcntl {State : Type 0} (k : Kernel State) (getfl : State → ℕ → ℕ) (settable : ℕ → ℕ)
    : Type 0 where
  pub sets :
      (s : State) (fd flags : ℕ)
      → is_negative (k.fcntl_setfl s fd flags).0 ≡ false
      → getfl (k.fcntl_setfl s fd flags).1 fd ≡ settable flags

-- The flags of a file are lost when it is made not to block: where both calls succeed, what they are
-- afterwards depends on the flags of the descriptor alone.
pub netlib_setnonblocking_loses :
    {State : Type 0} (k : Kernel State) (getfl : State → ℕ → ℕ) (settable : ℕ → ℕ)
    → IsFcntl k getfl settable
    → (s t : State) (fd : ℕ) → k.fcntl_getfd s fd ≡ k.fcntl_getfd t fd
    → is_negative (netlib_setnonblocking k s fd).0 ≡ false
    → is_negative (netlib_setnonblocking k t fd).0 ≡ false
    → getfl (netlib_setnonblocking k s fd).1 fd ≡ getfl (netlib_setnonblocking k t fd).1 fd
unfolding netlib_setnonblocking
netlib_setnonblocking_loses k getfl settable fcntl s t fd same done done' =
    fcntl.sets s fd (bit_or (k.fcntl_getfd s fd) k.o_nonblock) done
    ∙ ap (λ flags. settable (bit_or flags k.o_nonblock)) same
    ∙ sym (fcntl.sets t fd (bit_or (k.fcntl_getfd t fd) k.o_nonblock) done')
