-- ===== src/Buffer/Refine.antt =====
-- A buffer under any sequence of calls behaves as a byte queue that is bounded by the limit, with an access
-- outside a block exactly where the queue would overflow or a block of the caller is too short.
use pluto_server.Prelude.{
  ℕ, ◌+◌, ◌^◌, ◌<◌, ◌≡◌, refl, ◌∙◌, arith, length, take, drop, ltb, if◌then◌else◌, List, [], ◌∷◌,
  ◌++◌, Option, none, some, ◌>>=◌, min, length-take, dec_lt, lt→ltb, le→ltb, All,
}
use pluto_server.Prelude.Memory.{Allocator, IsAllocator, memcpy, memcpy-outside}
use pluto_server.Util.{max_buf_size}
use pluto_server.Buffer.{Buffer, write, read, make_room}
use pluto_server.Buffer.Extend.{IsValid, contents}
use pluto_server.Buffer.Queue.{write-Wrote, write_overruns, read-Took, read_into-Took}

-- A caller's calls on a buffer: `Write` of so many bytes of a block, and `Read` of at most so many bytes
-- into a block, or into NULL.
pub data Op : Type 0 where
  put : List ℕ → ℕ → Op
  get : Option (List ℕ) → ℕ → Op

-- What `Read` gives back: its result, and the block afterwards.
abbrev pub Reply : Type 0
Reply = ℕ × Option (List ℕ)

-- The replies until a call faults.
pub run : Allocator → Buffer → List Op → Option (List Reply × Buffer)
run heap b [] = some ([], b)
run heap b (put xs len ∷ ops) = do b' ← write heap b (some xs) len; run heap b' ops
run heap b (get dst n ∷ ops) = do
  (len, dst', b') ← read b dst n
  (replies, last) ← run heap b' ops
  some ((len, dst') ∷ replies, last)

-- A block whose first bytes are replaced by those of the queue; `none` if it is too short.
pub fill : List ℕ → ℕ → Option (List ℕ) → Option (Option (List ℕ))
fill q len none = some none
fill q len (some dst) =
    if ltb (length dst) len then none else some (some (take len q ++ drop len dst))

-- The same calls on a queue of at most `max_buf_size` bytes.
pub run_queue : List ℕ → List Op → Option (List Reply × List ℕ)
run_queue q [] = some ([], q)
run_queue q (put xs len ∷ ops) = do
  q' ←
      (if ltb max_buf_size (length q + len)
        then none
        else (if ltb (length xs) len then none else some (q ++ take len xs)))
  run_queue q' ops
run_queue q (get dst n ∷ ops) = do
  dst' ← fill q (min n (length q)) dst
  (replies, last) ← run_queue (drop (min n (length q)) q) ops
  some ((min n (length q), dst') ∷ replies, last)

-- What is seen of a buffer at the end: the bytes held.
abbrev pub view : Option (List Reply × Buffer) → Option (List Reply × List ℕ)
view none = none
view (some (replies, b)) = some (replies, contents b)

-- The sizes that are written, such as the lengths of packages, are far from `2 ^ 31`.
abbrev pub IsSmall : Op → Type 0
IsSmall (put xs len) = len < 2 ^ 30
IsSmall (get dst n) = Unit {0}

view-first :
    (first : Reply) (r : Option (List Reply × Buffer))
    → view (r >>= λ (replies, last). some (first ∷ replies, last))
      ≡ (view r >>= λ (replies, last). some (first ∷ replies, last))
view-first first none = refl
view-first first (some (replies, b)) = refl

length-contents : (b : Buffer) → IsValid b → length (contents b) ≡ b.write_offset
length-contents b v = omega (arith, length-take b.write_offset b.block)

memcpy_unread :
    (dst : List ℕ) (at : ℕ) (src : List ℕ) (len : ℕ)
    → length src < len
    → memcpy dst at src len ≡ none
unfolding memcpy
memcpy_unread dst at src len short = ground (arith, short)

-- `Write` of more bytes than its block has reads behind the block.
write_unread :
    (heap : Allocator) (b : Buffer) (src : List ℕ) (len : ℕ)
    → length src < len
    → write heap b (some src) len ≡ none
unfolding write
write_unread heap b src len short =
    let room = make_room heap b len in
    rw (memcpy_unread room.block room.write_offset src len short) refl

-- `Read` of more bytes than its block has room for writes behind the block.
read_unstored :
    (b : Buffer) (dst : List ℕ) (asked : ℕ)
    → length dst < min asked b.write_offset
    → read b (some dst) asked ≡ none
unfolding read
read_unstored b dst asked short =
    rw
      (
        clamp asked b.write_offset,
        memcpy-outside dst 0 b.block (min asked b.write_offset) (omega arith),
      )
      refl
  where
    clamp : (n m : ℕ) → (if ltb m n then m else n) ≡ min n m
    clamp n m = ground arith

-- From a valid buffer, any calls of `Write` of fewer than 2 ^ 30 bytes of a block, and of `Read` into a
-- block or NULL: an access outside a block happens exactly where a write overflows the bounded queue of the
-- buffer's bytes or asks for more than its block has, or a read hands over more than its block has room for;
-- and otherwise the results of the reads, the contents of their blocks, and the bytes held at the end are
-- those of the queue.
pub run_refines :
    {heap : Allocator}
    → IsAllocator heap
    → (ops : List Op) (b : Buffer) → IsValid b
    → All IsSmall ops
    → view (run heap b ops) ≡ run_queue (contents b) ops
unfolding run run_queue fill
run_refines good [] b v small = refl
run_refines {heap} good (put xs len ∷ ops) b v small =
    elim (dec_lt max_buf_size (b.write_offset + len)) [
      | yes over ↦
          rw
            (
              write_overruns heap b xs len v over (omega arith),
              length-contents b v,
              lt→ltb _ _ over,
            )
            refl
      | no fits ↦ elim (dec_lt (length xs) len) [
        | yes short ↦
            rw
              (
                write_unread heap b xs len short,
                length-contents b v,
                le→ltb max_buf_size (b.write_offset + len) (omega arith),
                lt→ltb _ _ short,
              )
              refl
        | no whole ↦
            let (b', writes, wrote) = write-Wrote good b xs len v (omega arith) (omega arith) in
            rw
              (
                writes,
                length-contents b v,
                le→ltb max_buf_size (b.write_offset + len) (omega arith),
                le→ltb (length xs) len (omega arith),
              )
              (rw (run_refines good ops b' wrote.valid small.1, wrote.appended) refl)
      ]
    ]
run_refines {heap} good (get none n ∷ ops) b v small =
    let (b', reads, took) = read-Took b n v in
    rw (reads, length-contents b v)
      (view-first (min n b.write_offset, none) (run heap b' ops)
        ∙ rw (run_refines good ops b' took.valid small.1, took.rest) refl)
run_refines {heap} good (get (some dst) n ∷ ops) b v small =
    elim (dec_lt (length dst) (min n b.write_offset)) [
      | yes short ↦ rw (read_unstored b dst n short, length-contents b v, lt→ltb _ _ short) refl
      | no whole ↦
          let (b', reads, took) = read_into-Took b dst n v (omega arith) in
          rw (reads, length-contents b v, le→ltb (length dst) (min n b.write_offset) (omega arith))
            (view-first
                (
                  min n b.write_offset,
                  some
                      (take (min n b.write_offset) (contents b) ++ drop (min n b.write_offset) dst),
                )
                (run heap b' ops)
              ∙ rw (run_refines good ops b' took.valid small.1, took.rest) refl)
    ]
