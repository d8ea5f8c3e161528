-- ===== src/Stream/Integers.antt =====
-- Integers over the wire: what the readers make of four or two bytes, and which values survive.
use Prim.Native.Nat.{bit_or}
use pluto_server.Prelude.{
  ℕ, ◌+◌, ◌-◌, ◌*◌, ◌/◌, ◌%◌, ◌^◌, ◌≤◌, ◌<◌, ◌≡◌, ◌↔◌, refl, ap, ◌∙◌, arith, ltb, if◌then◌else◌,
  List, some, some_inj, dec_lt, le→ltb, lt→ltb, ◌++◌,
}
use pluto_server.Prelude.Bits.{bit_or-disjoint, bit_or-ones, bit_or-shifted}
use pluto_server.Util.{promote}
use pluto_server.Stream.{shl, join16, join32, bytes16, bytes32, read_uint16, read_uint32}

-- A byte joined below `high`, in a word of `w + 8` bits: from 128 on its sign fills the word above it.
abbrev sign_join : ℕ → ℕ → ℕ → ℕ
sign_join w high b = if ltb b 128 then high * 256 + b else (2 ^ w - 1) * 256 + b

-- A `char` as an operand of `w + 8` bits.
abbrev signed_byte : ℕ → ℕ → ℕ
signed_byte w b = if ltb b 128 then b else (2 ^ w - 1) * 256 + b

join_low :
    (w high b : ℕ)
    → high < 2 ^ w
    → b < 256
    → bit_or (high * 256) (signed_byte w b) ≡ sign_join w high b
join_low w high b h lt = elim (dec_lt b 128) [
  | yes small ↦ rw (lt→ltb b 128 small) (bit_or-disjoint 8 high b lt)
  | no large ↦ rw (le→ltb b 128 (omega arith)) (
      bit_or-shifted 8 high (2 ^ w - 1) b lt
      ∙ ap (λ (top : ℕ). top * 256 + b) (bit_or-ones w high h))
]

scale : (s a b : ℕ) → 0 < 2 ^ s → bit_or (a * 2 ^ s) (b * 2 ^ s) ≡ bit_or a b * 2 ^ s
scale s a b h = ap (λ (t : ℕ). bit_or (a * 2 ^ s) t) behind ∙ bit_or-shifted s a b 0 h ∙ front
  where
    behind : b * 2 ^ s ≡ b * 2 ^ s + 0
    behind = omega arith

    front : bit_or a b * 2 ^ s + 0 ≡ bit_or a b * 2 ^ s
    front = omega arith

-- The join where the word stands `s` bits up.
join_at :
    (s w high b : ℕ)
    → 0 < 2 ^ s
    → high < 2 ^ w
    → b < 256
    → bit_or (high * 256 * 2 ^ s) (signed_byte w b * 2 ^ s) ≡ sign_join w high b * 2 ^ s
join_at s w high b pos h lt =
    scale s (high * 256) (signed_byte w b) pos ∙ ap (λ (t : ℕ). t * 2 ^ s) (join_low w high b h lt)

shl24 : (b : ℕ) → b < 256 → shl (promote b) 24 ≡ b * 256 * 2 ^ 16
shl24 b h = ground arith

shl16 : (b : ℕ) → b < 256 → shl (promote b) 16 ≡ signed_byte 8 b * 2 ^ 16
shl16 b h = ground arith

shl8 : (b : ℕ) → b < 256 → shl (promote b) 8 ≡ signed_byte 16 b * 2 ^ 8
shl8 b h = ground arith

up16 : (x : ℕ) → x * 2 ^ 16 ≡ x * 256 * 2 ^ 8
up16 x = omega arith

sign_join-lt :
    (w high b : ℕ) → 0 < 2 ^ w → high < 2 ^ w → b < 256 → sign_join w high b < 2 ^ w * 256
sign_join-lt w high b pos h lt = ground arith

-- What the four-byte readers compute: each byte from 128 on sets all the bits above it.
join32-sign_join :
    (b0 b1 b2 b3 : ℕ)
    → b0 < 256
    → b1 < 256
    → b2 < 256
    → b3 < 256
    → join32 b0 b1 b2 b3 ≡ sign_join 24 (sign_join 16 (sign_join 8 b0 b1) b2) b3
join32-sign_join b0 b1 b2 b3 l0 l1 l2 l3 =
    rw
      (
        shl24 b0 l0,
        shl16 b1 l1,
        shl8 b2 l2,
        join_at 16 8 b0 b1 (omega arith) l0 l1,
        up16,
        join_at 8 16 (sign_join 8 b0 b1) b2 (omega arith) (sign_join-lt 8 b0 b1 (omega arith) l0 l1)
            l2,
      )
      (join_low 24 (sign_join 16 (sign_join 8 b0 b1) b2) b3
        (sign_join-lt 16 (sign_join 8 b0 b1) b2 (omega arith)
          (sign_join-lt 8 b0 b1 (omega arith) l0 l1) l2)
        l3)

join16-sign_join : (b0 b1 : ℕ) → b0 < 256 → b1 < 256 → join16 b0 b1 % 2 ^ 16 ≡ sign_join 8 b0 b1
join16-sign_join b0 b1 l0 l1 =
    rw (shl8' b0 l0)
      (ap (λ (t : ℕ). t % 2 ^ 16) (join_low 24 (sign16 b0) b1 (ground arith) l1) ∙ ground arith)
  where
    sign16 : ℕ → ℕ
    sign16 b = signed_byte 16 b

    shl8' : (b : ℕ) → b < 256 → shl (promote b) 8 ≡ sign16 b * 256
    shl8' b h = ground arith

-- Each of the low three bytes, or the low byte, is below 128.
abbrev pub IsPlain32 : ℕ → Type 0
IsPlain32 w = (w / 2 ^ 16 % 256 < 128) × (w / 2 ^ 8 % 256 < 128) × (w % 256 < 128)

abbrev pub IsPlain16 : ℕ → Type 0
IsPlain16 w = w % 256 < 128

plain-sign_join :
    (w : ℕ)
    → w < 2 ^ 31
    → (sign_join 24
          (sign_join 16 (sign_join 8 (w / 2 ^ 24 % 256) (w / 2 ^ 16 % 256)) (w / 2 ^ 8 % 256))
          (w % 256)
        ≡ w)
      ↔ IsPlain32 w
plain-sign_join w h = ground arith

-- A number below `2 ^ 31` written by `<<` or `WriteUint32` is read back by `>>` or `ReadUint32` exactly
-- when its low three bytes are below 128.
pub read_uint32-bytes32 :
    (w : ℕ) (rest : List ℕ) → w < 2 ^ 31 → (read_uint32 (bytes32 w ++ rest) ≡ some w) ↔ IsPlain32 w
unfolding read_uint32
read_uint32-bytes32 w rest h =
    rw
      (join32-sign_join (w / 2 ^ 24 % 256) (w / 2 ^ 16 % 256) (w / 2 ^ 8 % 256) (w % 256)
        (omega arith) (omega arith) (omega arith) (omega arith))
      ((λ e. (plain-sign_join w h).0 (some_inj e)), (λ p. ap some ((plain-sign_join w h).1 p)))

-- Whatever the number, a low byte from 128 on makes the reader return `0xFFFFFF00` and that byte.
pub read_uint32-negative :
    (w : ℕ) (rest : List ℕ)
    → 128 ≤ w % 256
    → read_uint32 (bytes32 w ++ rest) ≡ some (2 ^ 32 - 256 + w % 256)
unfolding read_uint32
read_uint32-negative w rest h =
    rw
      (
        join32-sign_join (w / 2 ^ 24 % 256) (w / 2 ^ 16 % 256) (w / 2 ^ 8 % 256) (w % 256)
            (omega arith) (omega arith) (omega arith) (omega arith),
        le→ltb (w % 256) 128 h,
      )
      refl

-- A 16-bit number below `2 ^ 15` survives exactly when its low byte is below 128.
pub read_uint16-bytes16 :
    (w : ℕ) (rest : List ℕ) → w < 2 ^ 15 → (read_uint16 (bytes16 w ++ rest) ≡ some w) ↔ IsPlain16 w
unfolding read_uint16
read_uint16-bytes16 w rest h =
    rw (join16-sign_join (w / 2 ^ 8 % 256) (w % 256) (omega arith) (omega arith))
      ((λ e. plain.0 (some_inj e)), (λ p. ap some (plain.1 p)))
  where
    plain : (sign_join 8 (w / 2 ^ 8 % 256) (w % 256) ≡ w) ↔ IsPlain16 w
    plain = ground arith
