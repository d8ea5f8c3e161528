-- ===== src/Epoll/Read/Room.antt =====
-- The room that `OnRead` makes, and what `recv` stores there.
use pluto_server.Prelude.{
  ℕ, ◌+◌, ◌-◌, ◌%◌, ◌^◌, ◌≤◌, ◌≡◌, refl, ap, ◌∙◌, arith, length, take, drop, List, ◌++◌, some,
  lt→ltb, le→ltb, take_all, dec_lt,
}
use native.Mathlib.Nat.{mod-eq_of_lt}
use pluto_server.Prelude.Memory.{Allocator, IsAllocator, memcpy-within, length-memcpy, take-memcpy}
use pluto_server.Buffer.{Buffer}
use pluto_server.Buffer.Extend.{IsValid, contents, HasRoom, extend-HasRoom}
use pluto_server.Util.{max_buf_size}
use pluto_server.Epoll.Read.{make_free, receive}

-- The difference that `OnRead` computes does not wrap.
pub free_size :
    (b : Buffer)
    → IsValid b
    → (b.alloc_size + 2 ^ 32 - b.write_offset) % 2 ^ 32 ≡ b.alloc_size - b.write_offset
free_size b v = omega arith

-- What `recv` has stored.
pub record Stored (b : Buffer) (news : List ℕ) (r : Buffer) : Type 0 where
  pub valid : IsValid r
  pub appended : contents r ≡ contents b ++ news

module _ {heap : Allocator} (good : IsAllocator heap) where
  -- Where 1024 bytes still fit under the limit, `OnRead` has the room that `recv` may fill.
  pub make_free-HasRoom :
      (b : Buffer)
      → IsValid b
      → b.write_offset + 1024 ≤ max_buf_size
      → HasRoom good b 1024 (make_free heap b)
  unfolding make_free
  make_free-HasRoom b v h = elim (dec_lt (b.alloc_size - b.write_offset) 1024) [
    | yes few ↦ rw (free_size b v, lt→ltb _ _ few) (extend-HasRoom good b 1024 v h)
    | no enough ↦
        rw (free_size b v, le→ltb (b.alloc_size - b.write_offset) 1024 (omega arith))
          (record { valid = v; room = omega arith; offset = refl; same = refl })
  ]

  pub receive-Stored :
      (b room : Buffer) (news : List ℕ)
      → HasRoom good b 1024 room
      → length news ≤ 1024
      → (r : Buffer) × (receive heap room news ≡ some r) × Stored b news r
  unfolding receive
  receive-Stored b room news had h = (
    record room {
      block =
          take room.write_offset room.block
          ++ (take (length news) news ++ drop (room.write_offset + length news) room.block);
      write_offset = (room.write_offset + length news) % 2 ^ 32;
    },
    rw (memcpy-within room.block room.write_offset news (length news) inside (omega arith)) refl,
    record {
      valid = record {
        known = omega (
          arith,
          length-memcpy room.block room.write_offset news (length news) inside (omega arith),
        );
        inside = omega arith;
        limited = had.valid.limited;
      };
      appended =
          rw (mod-eq_of_lt {n = room.write_offset + length news} {m = 2 ^ 32} (omega arith)) (
            take-memcpy room.block room.write_offset news (length news) inside (omega arith)
            ∙ rw (take_all (length news) news (omega arith))
                (ap (λ (held : List ℕ). held ++ news) had.same));
    },
  )
    where
      inside : room.write_offset + length news ≤ length room.block
      inside = omega arith
