-- ===== src/Buffer/Queue.antt =====
-- A buffer is a queue of at most 4096 bytes: what `Write` and `Read` do to the bytes held.
use pluto_server.Prelude.{
  ℕ, ◌+◌, ◌-◌, ◌%◌, ◌^◌, ◌≤◌, ◌<◌, ◌≡◌, refl, sym, ap, ◌∙◌, arith, length, take, drop, ltb,
  if◌then◌else◌, List, ◌++◌, none, some, min, lt→ltb, true, length-take, length-drop, take-take,
  take-drop,
}
use pluto_server.Prelude.Memory.{
  Allocator, IsAllocator, memcpy, memcpy-within, memcpy-outside, length-memcpy, take-memcpy,
  take-memcpy_front, load-within,
}
use pluto_server.Util.{max_buf_size}
use pluto_server.Buffer.{Buffer, extend, make_room, write, move_down, copy_out, read}
use pluto_server.Buffer.Extend.{
  IsValid, contents, HasRoom, make_room-HasRoom, extend_past, extend-offset,
}
use native.Mathlib.Nat.{mod-eq_of_lt}

-- A write that fits: the bytes are appended, and the buffer stays valid.
pub record Wrote (b : Buffer) (bytes : List ℕ) (r : Buffer) : Type 0 where
  pub valid : IsValid r
  pub appended : contents r ≡ contents b ++ bytes
  pub offset : r.write_offset ≡ b.write_offset + length bytes

module _ {heap : Allocator} (good : IsAllocator heap) where
  -- The copy and the new offset, in a buffer with room.
  filled-Wrote :
      (b room : Buffer) (src : List ℕ) (len : ℕ)
      → HasRoom good b len room
      → len ≤ length src
      → let block =
          take room.write_offset room.block
          ++ (take len src ++ drop (room.write_offset + len) room.block) in
        (memcpy room.block room.write_offset src len ≡ some block)
        × Wrote b
            (take len src)
            (record room { block = block; write_offset = (room.write_offset + len) % 2 ^ 32 })
  filled-Wrote b room src len had h = (
    memcpy-within room.block room.write_offset src len inside h,
    record {
      valid = record {
        known = omega (arith, length-memcpy room.block room.write_offset src len inside h);
        inside = omega arith;
        limited = had.valid.limited;
      };
      appended = rw (mod-eq_of_lt {n = room.write_offset + len} {m = 2 ^ 32} (omega arith)) (
          take-memcpy room.block room.write_offset src len inside h
          ∙ ap (λ (held : List ℕ). held ++ take len src) had.same);
      offset = omega (arith, length-take len src);
    },
  )
    where
      inside : room.write_offset + len ≤ length room.block
      inside = omega arith

  -- `Write` to a valid buffer of the first `len` bytes of a block, where they fit under the limit, does
  -- not fault, appends them to the bytes held, and leaves the buffer valid.
  pub write-Wrote :
      (b : Buffer) (src : List ℕ) (len : ℕ)
      → IsValid b
      → len ≤ length src
      → b.write_offset + len ≤ max_buf_size
      → (r : Buffer) × (write heap b (some src) len ≡ some r) × Wrote b (take len src) r
  unfolding write
  write-Wrote b src len v h fits =
      let (copied, wrote) =
        filled-Wrote b (make_room heap b len) src len (make_room-HasRoom good b len v fits) h in
      (_, rw copied refl, wrote)

-- `Write` to a valid buffer of bytes that do not fit under the limit, with sizes far from wrapping, writes
-- behind the end of the allocation.
pub write_overruns :
    (heap : Allocator) (b : Buffer) (src : List ℕ) (len : ℕ)
    → IsValid b
    → max_buf_size < b.write_offset + len
    → b.write_offset + len < 2 ^ 31
    → write heap b (some src) len ≡ none
unfolding write make_room
write_overruns heap b src len v over fits =
    rw (test, extend-offset heap b len)
      (rw (
        memcpy-outside (extend heap b len).block b.write_offset src len (
          omega (arith, ap (λ (block : List ℕ). length block) (extend_past heap b len over fits)))))
  where
    test : ltb b.alloc_size ((b.write_offset + len) % 2 ^ 32) ≡ true
    test = lt→ltb _ _ (omega arith)

-- `Read` of at most the bytes held takes them off the front, and hands them over if asked.
pub record Took (b : Buffer) (len : ℕ) (r : Buffer) : Type 0 where
  pub valid : IsValid r
  pub rest : contents r ≡ drop len (contents b)
  pub offset : r.write_offset ≡ b.write_offset - len

moved-Took :
    (b : Buffer) (len : ℕ)
    → IsValid b
    → len ≤ b.write_offset
    → (block : List ℕ) × (move_down b.block len (b.write_offset - len) ≡ some block)
      × Took b len (record b { block = block; write_offset = b.write_offset - len })
unfolding move_down
moved-Took b len v h = (
  take 0 b.block ++ (take rest moved ++ drop (0 + rest) b.block),
  rw (load-within b.block len rest (omega arith))
      (memcpy-within b.block 0 moved rest (omega arith) (omega (arith, moved_length))),
  record {
    valid = record {
      known =
          length-memcpy b.block 0 moved rest (omega arith) (omega (arith, moved_length)) ∙ v.known;
      inside = omega arith;
      limited = v.limited;
    };
    rest =
        take-memcpy_front b.block moved rest (omega arith) (omega (arith, moved_length))
        ∙ take-take rest rest (drop len b.block) (omega arith)
        ∙ take-drop len rest b.block
        ∙ ap (λ (n : ℕ). drop len (take n b.block)) all_held;
    offset = refl;
  },
)
  where
    rest : ℕ
    rest = b.write_offset - len

    moved : List ℕ
    moved = take rest (drop len b.block)

    all_held : len + rest ≡ b.write_offset
    all_held = omega arith

    moved_length : length moved ≡ rest
    moved_length = omega (arith, length-take rest (drop len b.block), length-drop len b.block)

-- `Read` into NULL, as every caller in the servers uses it: it drops at most the bytes held.
pub read-Took :
    (b : Buffer) (asked : ℕ)
    → IsValid b
    → (r : Buffer) × (read b none asked ≡ some (min asked b.write_offset, none, r))
      × Took b (min asked b.write_offset) r
unfolding read copy_out
read-Took b asked v =
    let (block, moves, took) = moved-Took b (min asked b.write_offset) v (omega arith) in
    (_, rw (clamp asked b.write_offset, moves) refl, took)
  where
    clamp : (n m : ℕ) → (if ltb m n then m else n) ≡ min n m
    clamp n m = ground arith

-- `Read` into a block hands over the bytes that it drops.
pub read_into-Took :
    (b : Buffer) (dst : List ℕ) (asked : ℕ)
    → IsValid b
    → min asked b.write_offset ≤ length dst
    → let len = min asked b.write_offset in
      (r : Buffer) × (read b (some dst) asked
        ≡ some (len, some (take len (contents b) ++ drop len dst), r))
      × Took b len r
unfolding read
read_into-Took b dst asked v h =
    let (block, moves, took) = moved-Took b (min asked b.write_offset) v (omega arith) in
    (_, rw (clamp asked b.write_offset, copies, moves) refl, took)
  where
    clamp : (n m : ℕ) → (if ltb m n then m else n) ≡ min n m
    clamp n m = ground arith

    same : 0 + min asked b.write_offset ≡ min asked b.write_offset
    same = omega arith

    copies :
        copy_out b (some dst) (min asked b.write_offset)
        ≡ some (
            some
              (take (min asked b.write_offset) (contents b) ++ drop (min asked b.write_offset) dst))
    copies =
        rw (memcpy-within dst 0 b.block (min asked b.write_offset) (omega arith) (omega arith)) (
          ap (λ (bytes : List ℕ). some (some bytes))
            (ap (λ (n : ℕ). take (min asked b.write_offset) b.block ++ drop n dst) same
              ∙ ap (λ (bytes : List ℕ). bytes ++ drop (min asked b.write_offset) dst)
                  (sym
                    (take-take (min asked b.write_offset) b.write_offset b.block (omega arith)))))
