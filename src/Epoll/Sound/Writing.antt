-- ===== src/Epoll/Sound/Writing.antt =====
-- `OnWrite` on any channel, of a client or of a connector, whatever the socket answers.
use pluto_server.Prelude.{
  ℕ, suc, ◌≤◌, ◌≡◌, refl, ap, ◌∙◌, arith, List, [], ◌∷◌, some, Option-cases, inl, inr, length,
  length-append, bind_some,
}
use pluto_server.Buffer.{Buffer}
use pluto_server.Buffer.Extend.{IsValid, contents}
use pluto_server.Channel.{Channel}
use pluto_server.Util.{FdType}
use pluto_server.Epoll.{EpollServer, channel_at, set_channel_at, update_watcher, call, sent_to}
use pluto_server.Epoll.Lookup.{
  update_watcher-channel_map, update_watcher-connector_list, update_watcher-mq, channel_at_mq,
}
use pluto_server.Epoll.Every.{Every, OfBuffers, Every-channel_at, set_channel_at-Every, same-Every}
use pluto_server.Epoll.Read.Deliver.{length-contents}
use pluto_server.Epoll.Write.{Sent, Outcome, on_write}
use pluto_server.Epoll.Write.Sending.{IsSocket, Refused, Split, send_while-Split}
use pluto_server.Epoll.Sound.{Sound}

-- Writing does not add to an output.
shorter :
    (refused : Type 0) (out : Buffer) (o : Outcome)
    → IsValid out
    → Split refused out [] o
    → o.out_buf.write_offset ≤ out.write_offset
shorter refused out o v split = omega (
  arith,
  length-append o.gone (contents o.out_buf),
  ap (λ (bytes : List ℕ). length bytes) split.conserved,
  length-contents out v,
  length-contents o.out_buf split.valid,
)

module _ (send : ℕ → List ℕ → Sent) (socket : IsSocket send) where
  on_write_found :
      (s : EpollServer) (fdtype : FdType) (fd : ℕ) (c : Channel)
      → channel_at s fdtype fd ≡ some c
      → Every (OfBuffers (Sound 0)) s
      → (s' : EpollServer) × (on_write send s fd fdtype ≡ some s')
        × Every (OfBuffers (Sound 0)) s'
        × (s'.mq ≡ s.mq)
  unfolding on_write
  on_write_found s fdtype fd c there v =
      let (valid_in, valid_out, fits) = Every-channel_at s fdtype fd c v there in
      let (o, sends, split) =
        send_while-Split send socket (suc c.out_buf.write_offset) 0 c.out_buf [] valid_out
          (omega arith) in
      let after : Channel = record c { out_buf = o.out_buf } in
      let placed : EpollServer = set_channel_at s fdtype fd after in
      let set : EpollServer = call placed (sent_to fd o.gone ∷ []) in
      (
        update_watcher set fd o.again c.io_watcher,
        rw (there, on_write) (bind_some sends _ refl),
        same-Every placed _ (update_watcher-channel_map set fd o.again c.io_watcher)
            (update_watcher-connector_list set fd o.again c.io_watcher)
            (set_channel_at-Every s fdtype fd after v (
              valid_in,
              split.valid,
              omega (arith, shorter (Refused send) c.out_buf o valid_out split),
            )),
        update_watcher-mq set fd o.again c.io_watcher ∙ channel_at_mq s fdtype fd after,
      )

  -- `OnWrite` does not fault, and all buffers stay valid; without a channel it does nothing.
  pub on_write-Sound :
      (s : EpollServer) (fdtype : FdType) (fd : ℕ)
      → Every (OfBuffers (Sound 0)) s
      → (s' : EpollServer) × (on_write send s fd fdtype ≡ some s')
        × Every (OfBuffers (Sound 0)) s'
        × (s'.mq ≡ s.mq)
  unfolding on_write
  on_write-Sound s fdtype fd v = elim (Option-cases (channel_at s fdtype fd)) [
    | inl missing ↦ (s, rw (missing, on_write) refl, v, refl)
    | inr (c, there) ↦ on_write_found s fdtype fd c there v
  ]
