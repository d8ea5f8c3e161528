-- ===== src/Package/Framing.antt =====
-- Cutting packages off a byte stream: when `ReadPdu` delivers, and what.
use pluto_server.Prelude.{
  ℕ, zero, suc, lt→ltb, le→ltb, ◌+◌, ◌%◌, ◌^◌, ◌≤◌, ◌<◌, ◌≡◌, refl, arith, length, take, drop, ltb,
  ◌==◌, if◌then◌else◌, List, [], ◌∷◌, ◌++◌, Option, none, some, true, replicate, length-replicate,
  dec_lt,
}
use pluto_server.Prelude.Memory.{Allocator, IsAllocator, memset, memcpy-within}
use pluto_server.Stream.{get16, get32, read_uint16, read_uint32, join16, join32}
use pluto_server.Stream.Modes.{read_byte-block, overwritten}
use pluto_server.Package.{
  Package, PduHeader, new_package, package_header_len, read_pdu_header, is_pdu_available, copy_pdu,
  read_pdu,
}

-- The header fields as the readers see them in the first eight bytes.
abbrev pub header_of : List ℕ → PduHeader
header_of (b0 ∷ (b1 ∷ (b2 ∷ (b3 ∷ (b4 ∷ (b5 ∷ (b6 ∷ (b7 ∷ rest)))))))) = record {
  length = join32 b0 b1 b2 b3;
  command_id = join16 b4 b5 % 2 ^ 16;
  sub_id = join16 b6 b7 % 2 ^ 16;
}
header_of _ = record { length = 0; command_id = 0; sub_id = 0 }

-- The value of `pdu_len`.
abbrev pub announced : List ℕ → ℕ
announced buf = (header_of buf).length

read_pdu_header-header_of :
    (header : PduHeader) (b0 b1 b2 b3 b4 b5 b6 b7 : ℕ) (rest : List ℕ)
    → let buf = b0 ∷ (b1 ∷ (b2 ∷ (b3 ∷ (b4 ∷ (b5 ∷ (b6 ∷ (b7 ∷ rest))))))) in
      read_pdu_header header buf 8 ≡ some (header_of buf, true)
unfolding read_pdu_header get16 get32 read_uint16 read_uint32
read_pdu_header-header_of header b0 b1 b2 b3 b4 b5 b6 b7 rest =
    rw
      (
        read_byte-block buf 8 0 4 (0 ∷ (0 ∷ (0 ∷ (0 ∷ [])))) (omega arith) (omega arith)
            (omega arith) refl,
        read_byte-block buf 8 4 2 (0 ∷ (0 ∷ [])) (omega arith) (omega arith) (omega arith) refl,
        read_byte-block buf 8 6 2 (0 ∷ (0 ∷ [])) (omega arith) (omega arith) (omega arith) refl,
      )
      refl
  where
    buf : List ℕ
    buf = b0 ∷ (b1 ∷ (b2 ∷ (b3 ∷ (b4 ∷ (b5 ∷ (b6 ∷ (b7 ∷ rest)))))))

module _ (header : PduHeader) where
  header_read :
      (buf : List ℕ) → 8 ≤ length buf → read_pdu_header header buf 8 ≡ some (header_of buf, true)
  header_read (b0 ∷ (b1 ∷ (b2 ∷ (b3 ∷ (b4 ∷ (b5 ∷ (b6 ∷ (b7 ∷ rest)))))))) h =
      read_pdu_header-header_of header b0 b1 b2 b3 b4 b5 b6 b7 rest
  header_read short h = absurd (omega arith)

announced_read : (buf : List ℕ) → 8 ≤ length buf → read_uint32 buf ≡ some (announced buf)
unfolding read_uint32
announced_read (b0 ∷ (b1 ∷ (b2 ∷ (b3 ∷ (b4 ∷ (b5 ∷ (b6 ∷ (b7 ∷ rest)))))))) h = refl
announced_read short h = absurd (omega arith)

drop-replicate : (n a : ℕ) → drop n (replicate (suc n) a) ≡ a ∷ []
drop-replicate zero a = refl
drop-replicate (suc n) a = drop-replicate n a

-- What `ReadPdu` makes of the first `n` bytes: they are followed by a NUL of its own.
abbrev pub delivered : List ℕ → ℕ → Package
delivered buf n = record { buffer = some (take n buf ++ (0 ∷ [])); pdu_header = header_of buf }

-- The frame at the front of `len` bytes: nothing before the header is there, nothing before all
-- announced bytes are, and nothing at an announced length of 0.
abbrev pub frame : List ℕ → ℕ → Option Package
frame buf len =
    if ltb len package_header_len
    then none
    else (if ltb len (announced buf)
        then none
        else (if 0 == announced buf then none else some (delivered buf (announced buf))))

module _ {heap : Allocator} (good : IsAllocator heap) where
  copy_pdu-delivered :
      (buf : List ℕ) (n : ℕ)
      → 8 ≤ length buf
      → n ≤ length buf
      → n + 1 < 2 ^ 32
      → copy_pdu heap buf n ≡ some (delivered buf n)
  unfolding copy_pdu memset
  copy_pdu-delivered buf n h inside small =
      rw
        (
          header_read (new_package 0).pdu_header buf h,
          no_wrap,
          overwritten (heap.malloc (suc n)) (replicate (suc n) 0) (suc n)
              (good.malloc_length (suc n)) (length-replicate {A = ℕ} (suc n) 0),
          memcpy-within (replicate (suc n) 0) 0 buf n
              (omega (arith, length-replicate {A = ℕ} (suc n) 0)) inside,
          from_start,
          drop-replicate n 0,
        )
        refl
    where
      no_wrap : (n + 1) % 2 ^ 32 ≡ suc n
      no_wrap = omega arith

      from_start : 0 + n ≡ n
      from_start = omega arith

  -- `ReadPdu` on the first `len` bytes of a block, whose number does not wrap, never leaves a block, and
  -- delivers exactly the frame at their front.
  pub read_pdu-frame :
      (buf : List ℕ) (len : ℕ)
      → len ≤ length buf
      → len + 1 < 2 ^ 32
      → read_pdu heap buf len ≡ some (frame buf len)
  unfolding read_pdu is_pdu_available
  read_pdu-frame buf len inside small = elim (dec_lt len 8) [
    | yes short ↦ rw (lt→ltb len 8 short) refl
    | no long ↦
        rw (le→ltb len 8 (omega arith), announced_read buf (omega arith))
          (ground (arith, copy_pdu-delivered buf (announced buf) (omega arith)))
  ]
