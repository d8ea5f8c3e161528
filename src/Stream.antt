-- ===== src/Stream.antt =====
-- common/stream.h and common/stream.cpp. A stream writes to a `Buffer` or over a block of memory.
-- Bytes are bit patterns below 256; an `int16_t` or `int32_t` is its bit pattern, so the signed and
-- the unsigned operators act alike on it. `none` is an access outside a block.
pub mod Integers
pub mod Modes
use Prim.Native.Nat.{bit_or}
use pluto_server.Prelude.{
  ℕ, ◌+◌, ◌*◌, ◌/◌, ◌%◌, ◌^◌, Bool, true, false, ◌&&◌, List, [], ◌∷◌, Option, none, some, ltb,
  if◌then◌else◌, ◌>>=◌, length, take, drop,
}
use pluto_server.Prelude.Memory.{Allocator, memcpy, load}
use pluto_server.Buffer
use pluto_server.Buffer.{Buffer}
use pluto_server.Util.{promote}

-- `x << k` of an `int`.
abbrev pub shl : ℕ → ℕ → ℕ
shl x k = x * 2 ^ k % 2 ^ 32

-- `(b0 << 8) | b1` of two `char`s, as the `int` that C computes.
abbrev pub join16 : ℕ → ℕ → ℕ
join16 b0 b1 = bit_or (shl (promote b0) 8) (promote b1)

-- `(b0 << 24) | (b1 << 16) | (b2 << 8) | b3`.
abbrev pub join32 : ℕ → ℕ → ℕ → ℕ → ℕ
join32 b0 b1 b2 b3 =
    bit_or (bit_or (bit_or (shl (promote b0) 24) (shl (promote b1) 16)) (shl (promote b2) 8))
      (promote b3)

-- `ReadInt16` and `ReadUint16`: the `int` is cut to 16 bits.
unfoldable pub read_int16 : List ℕ → Option ℕ
read_int16 (b0 ∷ (b1 ∷ rest)) = some (join16 b0 b1 % 2 ^ 16)
read_int16 (b0 ∷ []) = none
read_int16 [] = none

unfoldable pub read_uint16 : List ℕ → Option ℕ
read_uint16 (b0 ∷ (b1 ∷ rest)) = some (join16 b0 b1 % 2 ^ 16)
read_uint16 (b0 ∷ []) = none
read_uint16 [] = none

-- `ReadInt32` and `ReadUint32`.
unfoldable pub read_int32 : List ℕ → Option ℕ
read_int32 (b0 ∷ (b1 ∷ (b2 ∷ (b3 ∷ rest)))) = some (join32 b0 b1 b2 b3)
read_int32 _ = none

unfoldable pub read_uint32 : List ℕ → Option ℕ
read_uint32 (b0 ∷ (b1 ∷ (b2 ∷ (b3 ∷ rest)))) = some (join32 b0 b1 b2 b3)
read_uint32 _ = none

-- The bytes that the writers store, most significant first.
abbrev pub bytes16 : ℕ → List ℕ
bytes16 w = w / 2 ^ 8 % 256 ∷ (w % 256 ∷ [])

abbrev pub bytes32 : ℕ → List ℕ
bytes32 w = w / 2 ^ 24 % 256 ∷ (w / 2 ^ 16 % 256 ∷ (w / 2 ^ 8 % 256 ∷ (w % 256 ∷ [])))

-- `WriteInt16`, `WriteUint16`, `WriteInt32` and `WriteUint32` at `block + at`.
unfoldable pub write_uint16 : List ℕ → ℕ → ℕ → Option (List ℕ)
write_uint16 block at w = memcpy block at (bytes16 w) 2

unfoldable pub write_uint32 : List ℕ → ℕ → ℕ → Option (List ℕ)
write_uint32 block at w = memcpy block at (bytes32 w) 4

unfoldable pub write_int16 : List ℕ → ℕ → ℕ → Option (List ℕ)
write_int16 block at w = memcpy block at (bytes16 w) 2

unfoldable pub write_int32 : List ℕ → ℕ → ℕ → Option (List ℕ)
write_int32 block at w = memcpy block at (bytes32 w) 4

-- `buffer` is `buffer_`, with the buffer that it points to; `block` is `m_pBuf`; `none` is NULL.
pub record ByteStream : Type 0 where
  pub buffer : Option Buffer
  pub block : Option (List ℕ)
  pub len : ℕ
  pub pos : ℕ

-- The two constructors.
abbrev pub over_block : Option (List ℕ) → ℕ → ByteStream
over_block buf len = record { buffer = none; block = buf; len = len; pos = 0 }

abbrev pub over_buffer : Buffer → ℕ → ByteStream
over_buffer buf pos = record { buffer = some buf; block = none; len = 0; pos = pos }

-- `Skip`: its test has no effect.
abbrev pub skip : ByteStream → ℕ → ByteStream
skip s len = record s { pos = (s.pos + len) % 2 ^ 32 }

abbrev pub is_set {ℓ} : {A : Type ℓ} → Option A → Bool
is_set none = false
is_set (some a) = true

abbrev block_or_null : Option (List ℕ) → List ℕ
block_or_null none = []
block_or_null (some block) = block

module _ (heap : Allocator) where
  -- `_WriteByte`, where both pointers may be set or not.
  unfoldable pub write_to : Option Buffer → ByteStream → List ℕ → ℕ → Option ByteStream
  write_to (some buffer) s bytes len = do
    buffer' ← Buffer.write heap buffer (some bytes) len
    some (skip (record s { buffer = some buffer' }) len)
  write_to none s bytes len = do
    block ← memcpy (block_or_null s.block) s.pos bytes len
    some (skip (record s { block = some block }) len)

  unfoldable pub write_byte : ByteStream → List ℕ → ℕ → Option ByteStream
  unfolding write_to
  write_byte s bytes len =
      if is_set s.block && ltb s.len ((s.pos + len) % 2 ^ 32)
      then some s
      else write_to s.buffer s bytes len

  -- `operator <<` by the width of its argument.
  unfoldable pub put8 : ByteStream → ℕ → Option ByteStream
  put8 s w = write_byte s (w ∷ []) 1

  unfoldable pub put16 : ByteStream → ℕ → Option ByteStream
  put16 s w = write_byte s (bytes16 w) 2

  unfoldable pub put32 : ByteStream → ℕ → Option ByteStream
  put32 s w = write_byte s (bytes32 w) 4

  -- `WriteString(str)`, of a text without its NUL, and `none` for NULL.
  unfoldable pub write_string : ByteStream → Option (List ℕ) → Option ByteStream
  write_string s str = do
    let size = length (block_or_null str) % 2 ^ 32
    s' ← put32 s size
    write_byte s' (block_or_null str) size

  -- `WriteString(str, len)` and `WriteData(data, len)`.
  unfoldable pub write_data : ByteStream → List ℕ → ℕ → Option ByteStream
  write_data s bytes len = do s' ← put32 s len; write_byte s' bytes len

-- `_ReadByte` into the local array `old`; the result is the array afterwards.
unfoldable pub read_from : Option Buffer → ByteStream → List ℕ → ℕ → Option (List ℕ × ByteStream)
read_from (some buffer) s old len = do
  (count, dst, buffer') ← Buffer.read buffer (some old) len
  some (block_or_null dst, skip (record s { buffer = some buffer' }) len)
read_from none s old len = do
  bytes ← load (block_or_null s.block) s.pos len
  copied ← memcpy old 0 bytes len
  some (copied, skip s len)

unfoldable pub read_byte : ByteStream → List ℕ → ℕ → Option (List ℕ × ByteStream)
unfolding read_from
read_byte s old len =
    if ltb s.len ((s.pos + len) % 2 ^ 32) then some (old, s) else read_from s.buffer s old len

-- `operator >>` by the width of its argument. `old` is the array before, which no code initialises,
-- or the argument itself for one byte.
unfoldable pub get8 : ByteStream → List ℕ → Option (List ℕ × ByteStream)
get8 s old = read_byte s old 1

unfoldable pub get16 : ByteStream → List ℕ → Option (ℕ × ByteStream)
get16 s old = do (bytes, s') ← read_byte s old 2; w ← read_uint16 bytes; some (w, s')

unfoldable pub get32 : ByteStream → List ℕ → Option (ℕ × ByteStream)
get32 s old = do (bytes, s') ← read_byte s old 4; w ← read_uint32 bytes; some (w, s')

-- `ReadString` and `ReadData`: the length, the position of the bytes, and the stream behind them.
unfoldable pub read_data : ByteStream → List ℕ → Option (ℕ × ℕ × ByteStream)
read_data s old = do (len, s') ← get32 s old; some (len, s'.pos, skip s' len)
