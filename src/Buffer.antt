-- ===== src/Buffer.antt =====
-- common/buffer.h and common/buffer.cpp. `block` is the memory behind `m_buffer` (empty for NULL), so
-- that its length is the true size of the allocation and `alloc_size` the size that is believed.
-- `none` is an access outside a block. Sizes are `uint32_t`, and their sums wrap.
pub mod Extend
pub mod Queue
pub mod Refine
use pluto_server.Prelude.{
  ℕ, ◌+◌, ◌-◌, ◌%◌, ◌^◌, Bool, not, List, [], Option, none, some, ltb, ◌==◌, if◌then◌else◌, ◌>>=◌,
  take, drop,
}
use pluto_server.Prelude.Memory.{Allocator, memcpy, load}
use pluto_server.Util.{max_buf_size, min_pow}

pub record Buffer : Type 0 where
  pub block : List ℕ
  pub alloc_size : ℕ
  pub write_offset : ℕ

-- `Buffer::Buffer`.
abbrev pub empty : Buffer
empty = record { block = []; alloc_size = 0; write_offset = 0 }

-- `IncWriteOffset`.
abbrev pub inc_write_offset : Buffer → ℕ → Buffer
inc_write_offset b len = record b { write_offset = (b.write_offset + len) % 2 ^ 32 }

module _ (heap : Allocator) where
  unfoldable pub reallocated : Buffer → ℕ → Buffer
  reallocated b size = record b { block = heap.realloc b.block size; alloc_size = size }

  -- The inner test is the assignment `before_size = MAX_BUF_SIZE`, whose value is the constant.
  unfoldable pub extend : Buffer → ℕ → Buffer
  unfolding reallocated
  extend b len =
      let alloc_size = min_pow ((b.write_offset + len) % 2 ^ 32) in
      if ltb max_buf_size alloc_size
      then (let before_size : ℕ = max_buf_size in
          if not (before_size == 0)
          then record b { alloc_size = alloc_size }
          else reallocated b max_buf_size)
      else reallocated b alloc_size

  -- `if (m_write_offset + len > m_alloc_size) Extend(len);`
  unfoldable pub make_room : Buffer → ℕ → Buffer
  make_room b len = if ltb b.alloc_size ((b.write_offset + len) % 2 ^ 32) then extend b len else b

  -- The copy of `Write`, when its argument is not NULL.
  unfoldable pub copy_in : Buffer → Option (List ℕ) → ℕ → Option (List ℕ)
  copy_in b none len = some b.block
  copy_in b (some src) len = memcpy b.block b.write_offset src len

  -- `buf` is `none` for NULL, and otherwise the block that it points to. The result `len` is left out.
  unfoldable pub write : Buffer → Option (List ℕ) → ℕ → Option Buffer
  unfolding copy_in
  write b buf len = do
    let room = make_room b len
    block ← copy_in room buf len
    some (record room { block = block; write_offset = (room.write_offset + len) % 2 ^ 32 })

-- `memmove(m_buffer, m_buffer + len, rest)` inside one block.
unfoldable pub move_down : List ℕ → ℕ → ℕ → Option (List ℕ)
move_down block len rest = do moved ← load block len rest; memcpy block 0 moved rest

-- The copy of `Read` into the block `dst`, when its argument is not NULL.
unfoldable pub copy_out : Buffer → Option (List ℕ) → ℕ → Option (Option (List ℕ))
copy_out b none len = some none
copy_out b (some dst) len = do copied ← memcpy dst 0 b.block len; some (some copied)

-- The result, the block of the argument afterwards, and the buffer.
unfoldable pub read : Buffer → Option (List ℕ) → ℕ → Option (ℕ × Option (List ℕ) × Buffer)
unfolding move_down copy_out
read b buf asked = do
  let len = if ltb b.write_offset asked then b.write_offset else asked
  let rest = b.write_offset - len
  dst ← copy_out b buf len
  block ← move_down b.block len rest
  some (len, dst, record b { block = block; write_offset = rest })
