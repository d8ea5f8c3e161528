-- ===== src/Epoll/Sound.antt =====
-- Valid buffers with room in the output.
pub mod Reading
pub mod Writing
pub mod Load
pub mod Sending
use pluto_server.Prelude.{ℕ, ◌+◌, ◌≤◌, arith, Option}
use pluto_server.Buffer.{Buffer}
use pluto_server.Buffer.Extend.{IsValid, empty-IsValid}
use pluto_server.Channel.{Channel, new_channel}
use pluto_server.Util.{FdType, max_buf_size}

-- Both buffers of a channel are valid, and `n` bytes more fit into the output.
abbrev pub Sound : ℕ → Buffer → Buffer → Type 0
Sound n in_buf out_buf =
    IsValid in_buf × IsValid out_buf × (out_buf.write_offset + n ≤ max_buf_size)

pub new_channel-Sound :
    (fd : ℕ) (w : Option ℕ) (t : FdType)
    → Sound 0 (new_channel fd w t).in_buf (new_channel fd w t).out_buf
new_channel-Sound fd w t = (empty-IsValid, empty-IsValid, omega arith)
