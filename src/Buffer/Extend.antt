-- ===== src/Buffer/Extend.antt =====
-- `Buffer::Extend`: when the room that it promises is there.
use pluto_server.Prelude.{ℕ, ◌+◌, ◌^◌, ◌≤◌, ◌<◌, ◌≡◌, refl, arith, length, take, dec_lt, List}
use native.Mathlib.Nat.{mod-eq_of_lt}
use pluto_server.Prelude.Memory.{Allocator, IsAllocator}
use pluto_server.Util.{max_buf_size, min_pow}
use pluto_server.Util.MinPow.{min_pow-IsLeastPow, min_pow-le, min_pow-zero}
use pluto_server.Buffer.{Buffer, empty, extend, reallocated, make_room}

-- The buffer knows its allocation, keeps to the limit, and its bytes lie inside.
pub record IsValid (b : Buffer) : Type 0 where
  pub known : length b.block ≡ b.alloc_size
  pub inside : b.write_offset ≤ b.alloc_size
  pub limited : b.alloc_size ≤ max_buf_size

pub empty-IsValid : IsValid empty
empty-IsValid = omega arith

-- The bytes held.
abbrev pub contents : Buffer → List ℕ
contents b = take b.write_offset b.block

module _ {heap : Allocator} (good : IsAllocator heap) where
  -- What `make_room` leaves if the bytes fit under the limit.
  pub record HasRoom (b : Buffer) (len : ℕ) (r : Buffer) : Type 0 where
    pub valid : IsValid r
    pub room : b.write_offset + len ≤ r.alloc_size
    pub offset : r.write_offset ≡ b.write_offset
    pub same : contents r ≡ contents b

  size_fits : (n : ℕ) → n ≤ max_buf_size → (n ≤ min_pow n) × (min_pow n ≤ max_buf_size)
  size_fits n h = elim (dec_lt 0 n) [
    | yes more ↦
        ((min_pow-IsLeastPow n more (omega arith)).above, min_pow-le 12 n more (omega arith) h)
    | no zero_size ↦ let e : n ≡ 0 = omega arith in rw (e, min_pow-zero) (omega arith)
  ]

  -- Under the limit, `Extend` is the call of `realloc`.
  extend-reallocated :
      (b : Buffer) (len : ℕ)
      → b.write_offset + len ≤ max_buf_size
      → extend heap b len ≡ reallocated heap b (min_pow (b.write_offset + len))
  unfolding extend
  extend-reallocated b len h =
      rw (mod-eq_of_lt {n = b.write_offset + len} {m = 2 ^ 32} (omega arith))
        (ground (arith, size_fits (b.write_offset + len)))

  pub extend-HasRoom :
      (b : Buffer) (len : ℕ)
      → IsValid b
      → b.write_offset + len ≤ max_buf_size
      → HasRoom b len (extend heap b len)
  unfolding reallocated
  extend-HasRoom b len v h = rw (extend-reallocated b len h) (record {
    valid = record {
      known = good.realloc_length b.block size;
      inside = omega (arith, fits);
      limited = fits.1;
    };
    room = fits.0;
    offset = refl;
    same = good.realloc_keeps b.block size b.write_offset (omega arith) (omega (arith, fits));
  })
    where
      open v use {known, inside, limited}

      size : ℕ
      size = min_pow (b.write_offset + len)

      fits : (b.write_offset + len ≤ size) × (size ≤ max_buf_size)
      fits = size_fits (b.write_offset + len) h

  pub make_room-HasRoom :
      (b : Buffer) (len : ℕ)
      → IsValid b
      → b.write_offset + len ≤ max_buf_size
      → HasRoom b len (make_room heap b len)
  unfolding make_room
  make_room-HasRoom b len v h = ground (arith, extend-HasRoom b len v h)

-- Past the limit `Extend` believes in a size that it never asked for, and leaves the memory alone.
pub extend_past :
    (heap : Allocator) (b : Buffer) (len : ℕ)
    → max_buf_size < b.write_offset + len
    → b.write_offset + len < 2 ^ 31
    → (extend heap b len).block ≡ b.block
unfolding extend
extend_past heap b len h fits =
    rw (mod-eq_of_lt {n = b.write_offset + len} {m = 2 ^ 32} (omega arith))
      (ground (arith, (min_pow-IsLeastPow (b.write_offset + len) (omega arith) fits).above))

pub extend-offset :
    (heap : Allocator) (b : Buffer) (len : ℕ) → (extend heap b len).write_offset ≡ b.write_offset
unfolding extend reallocated
extend-offset heap b len = ground arith
