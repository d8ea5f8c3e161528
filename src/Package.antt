-- ===== src/Package.antt =====
-- common/package.h and common/package.cpp. `buffer` is the block that `buffer_` points to, `none` for
-- NULL. `none` as a result is an access outside a block; where a function may return NULL its
-- result is an option inside.
pub mod Framing
pub mod Body
pub mod Frames
pub mod RoundTrip
pub mod Arrival
use pluto_server.Prelude.{
  ℕ, ◌+◌, ◌%◌, ◌^◌, ◌≤◌, Bool, true, false, List, [], ◌∷◌, ◌++◌, Option, none, some, ltb, leb, ◌==◌,
  if◌then◌else◌, ◌>>=◌, length, take, drop,
}
use pluto_server.Prelude.Memory.{Allocator, memcpy, load, memset}
use pluto_server.Stream.{
  ByteStream, over_block, get16, get32, read_uint32, write_int32, write_uint16,
}

abbrev pub package_header_len : ℕ
package_header_len = 8

-- `PduHeader_t`.
pub record PduHeader : Type 0 where
  pub length : ℕ
  pub command_id : ℕ
  pub sub_id : ℕ

pub record Package : Type 0 where
  pub buffer : Option (List ℕ)
  pub pdu_header : PduHeader

-- `Package::Package`; `unset` is what the header's `length` holds before it is set.
abbrev pub new_package : ℕ → Package
new_package unset = record {
  buffer = none;
  pdu_header = record { length = unset; command_id = 0; sub_id = 0 };
}

-- `GetTotalLength`, `GetCommandId`, `GetSubId`.
abbrev pub total_length : Package → ℕ
total_length p = p.pdu_header.length

abbrev pub get_command_id : Package → ℕ
get_command_id p = p.pdu_header.command_id

abbrev pub get_sub_id : Package → ℕ
get_sub_id p = p.pdu_header.sub_id

abbrev pub get_buffer : Package → List ℕ
get_buffer p = elim p.buffer [ none ↦ [] | some block ↦ block ]

-- The text that starts at `block`: its bytes up to the first NUL; `none` if it has none.
unfoldable pub c_string : List ℕ → Option (List ℕ)
c_string [] = none
c_string (c ∷ block) = do
  let rest = c_string block
  if c == 0 then some [] else (do text ← rest; some (c ∷ text))

-- `GetBodyData()` read as a text, as the workers do. A pointer past the end of the block is no text.
unfoldable pub body_text : Package → Option (List ℕ)
body_text p = c_string (drop package_header_len (get_buffer p))

-- The stores of `SetMsg` into its new block.
unfoldable pub store_message : List ℕ → ℕ → ℕ → ℕ → List ℕ → ℕ → Option (List ℕ)
store_message block total command_id sub_id buf len = do
  b1 ← write_int32 block 0 total
  b2 ← write_uint16 b1 4 command_id
  b3 ← write_uint16 b2 6 sub_id
  memcpy b3 package_header_len buf len

-- `SetMsg`, of a text without its NUL.
unfoldable pub set_msg : Allocator → Package → ℕ → ℕ → List ℕ → Option Package
set_msg heap p command_id sub_id buf = do
  let len = length buf % 2 ^ 32
  let total = (package_header_len + len) % 2 ^ 32
  block ← store_message (heap.malloc ((total + 1) % 2 ^ 32)) total command_id sub_id buf len
  some (record {
    buffer = some block;
    pdu_header = record { length = total; command_id = command_id; sub_id = sub_id };
  })

-- `ReadPduHeader` on a block of at least `len` bytes; `local` holds the arrays of the stream's
-- operators, which read all their bytes here. The header, and the result -1 as `false`.
unfoldable pub read_pdu_header : PduHeader → List ℕ → ℕ → Option (PduHeader × Bool)
read_pdu_header header buf len =
    if leb package_header_len len
    then (do
      (total, s1) ← get32 (over_block (some buf) len) (0 ∷ (0 ∷ (0 ∷ (0 ∷ []))))
      (command, s2) ← get16 s1 (0 ∷ (0 ∷ []))
      (sub, s3) ← get16 s2 (0 ∷ (0 ∷ []))
      some (record { length = total; command_id = command; sub_id = sub }, true))
    else some (header, false)

-- The tests of `IsPduAvailable` on the length that it has read.
abbrev accept_length : ℕ → ℕ → Bool × ℕ
accept_length len pdu_len =
    if ltb len pdu_len
    then (false, pdu_len)
    else (if 0 == pdu_len then (false, pdu_len) else (true, pdu_len))

-- `IsPduAvailable`: the result, and `pdu_len` afterwards.
unfoldable pub is_pdu_available : List ℕ → ℕ → ℕ → Option (Bool × ℕ)
is_pdu_available buf len pdu_len =
    if ltb len package_header_len
    then some (false, pdu_len)
    else (do pdu_len' ← read_uint32 buf; some (accept_length len pdu_len'))

module _ (heap : Allocator) where
  -- The package that `ReadPdu` builds of `pdu_len` bytes. `pdu_len + 1` wraps.
  unfoldable pub copy_pdu : List ℕ → ℕ → Option Package
  copy_pdu buf pdu_len = do
    (header, done) ← read_pdu_header (new_package 0).pdu_header buf package_header_len
    let size = (pdu_len + 1) % 2 ^ 32
    zeroed ← memset (heap.malloc size) 0 size
    copied ← memcpy zeroed 0 buf pdu_len
    some (record { buffer = some copied; pdu_header = header })

  -- `ReadPdu`, whose result may be NULL.
  unfoldable pub read_pdu : List ℕ → ℕ → Option (Option Package)
  unfolding copy_pdu
  read_pdu buf len = do
    (available, pdu_len) ← is_pdu_available buf len 0
    if available then (do some (some (← copy_pdu buf pdu_len))) else some none
