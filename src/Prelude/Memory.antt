-- ===== src/Prelude/Memory.antt =====
-- Blocks of memory as lists of bytes, and the C functions on them. A block is the list of its bytes;
-- NULL is the empty block, since every access of either is out of range.
use Prim.Native.Nat.{ℕ, ◌+◌, ◌≤◌, ◌<◌}
use mathlib.Core.Path.{◌≡◌, ap, ◌∙◌}
use mathlib.Core.Bool.{◌&&◌}
use mathlib.Core.List.{List, ◌++◌, append_assoc}
use mathlib.Core.Option.{Option, none, some}
use native.Mathlib.Omega.{arith}
use pluto_server.Prelude.Tests.{leb, if◌then◌else◌}
use pluto_server.Prelude.Lists.{
  take-append, take-take, take_within, length, take, drop, replicate, length-append, length-take,
  length-drop, length-replicate,
}

-- The allocator of the C library. Both calls are taken to succeed: the argument is the number of
-- bytes, the result the block, whose fresh bytes may be anything.
pub record Allocator : Type 0 where
  pub malloc : ℕ → List ℕ
  pub realloc : List ℕ → ℕ → List ℕ

-- What the manual promises of it.
pub record IsAllocator (heap : Allocator) : Type 0 where
  pub malloc_length : (n : ℕ) → length (heap.malloc n) ≡ n
  pub realloc_length : (old : List ℕ) (n : ℕ) → length (heap.realloc old n) ≡ n
  pub realloc_keeps :
      (old : List ℕ) (n k : ℕ) → k ≤ length old → k ≤ n → take k (heap.realloc old n) ≡ take k old

-- `memcpy(dst + at, src, len)`; `none` is an access outside one of the blocks.
unfoldable pub memcpy : List ℕ → ℕ → List ℕ → ℕ → Option (List ℕ)
memcpy dst at src len =
    if leb (at + len) (length dst) && leb len (length src)
    then some (take at dst ++ (take len src ++ drop (at + len) dst))
    else none

-- The `len` bytes at `src + at`, as a copy reads them.
unfoldable pub load : List ℕ → ℕ → ℕ → Option (List ℕ)
load src at len = if leb (at + len) (length src) then some (take len (drop at src)) else none

-- `memset(block, value, len)`.
unfoldable pub memset : List ℕ → ℕ → ℕ → Option (List ℕ)
memset block value len = memcpy block 0 (replicate len value) len

pub memcpy-within :
    (dst : List ℕ) (at : ℕ) (src : List ℕ) (len : ℕ)
    → at + len ≤ length dst
    → len ≤ length src
    → memcpy dst at src len ≡ some (take at dst ++ (take len src ++ drop (at + len) dst))
unfolding memcpy
memcpy-within dst at src len h k = ground arith

pub memcpy-outside :
    (dst : List ℕ) (at : ℕ) (src : List ℕ) (len : ℕ)
    → length dst < at + len
    → memcpy dst at src len ≡ none
unfolding memcpy
memcpy-outside dst at src len h = ground arith

pub length-memcpy :
    (dst : List ℕ) (at : ℕ) (src : List ℕ) (len : ℕ)
    → at + len ≤ length dst
    → len ≤ length src
    → length (take at dst ++ (take len src ++ drop (at + len) dst)) ≡ length dst
length-memcpy dst at src len h k = omega (
  arith,
  length-append (take at dst) (take len src ++ drop (at + len) dst),
  length-append (take len src) (drop (at + len) dst),
  length-take at dst,
  length-take len src,
  length-drop (at + len) dst,
)

-- The bytes up to the end of a copy.
pub take-memcpy :
    (dst : List ℕ) (at : ℕ) (src : List ℕ) (len : ℕ)
    → at + len ≤ length dst
    → len ≤ length src
    → take (at + len) (take at dst ++ (take len src ++ drop (at + len) dst))
      ≡ take at dst ++ take len src
take-memcpy dst at src len h k =
    rw (← append_assoc (take at dst) (take len src) (drop (at + len) dst)) (
      take-append (at + len) (take at dst ++ take len src) (drop (at + len) dst) (
        omega (
          arith,
          length-append (take at dst) (take len src),
          length-take at dst,
          length-take len src,
        )))

pub load-within :
    (src : List ℕ) (at len : ℕ)
    → at + len ≤ length src
    → load src at len ≡ some (take len (drop at src))
unfolding load
load-within src at len h = ground arith

pub take-memcpy_front :
    (dst src : List ℕ) (len : ℕ)
    → len ≤ length dst
    → len ≤ length src
    → take len (take 0 dst ++ (take len src ++ drop (0 + len) dst)) ≡ take len src
take-memcpy_front dst src len h k =
    ap (λ (n : ℕ). take n (take 0 dst ++ (take len src ++ drop (0 + len) dst))) same
    ∙ take-memcpy dst 0 src len (omega arith) k
  where
    same : len ≡ 0 + len
    same = omega arith

-- An allocator as the manual describes it: fresh bytes are 170, and `realloc` copies what fits.
abbrev pub plain_heap : Allocator
plain_heap = record {
  malloc = λ n. replicate n 170;
  realloc = λ old n. take n (old ++ replicate n 170);
}

pub plain_heap-IsAllocator : IsAllocator plain_heap
plain_heap-IsAllocator = record {
  malloc_length = λ n. length-replicate n 170;
  realloc_length = λ old n. omega (
    arith,
    length-take n (old ++ replicate n 170),
    length-append old (replicate n 170),
    length-replicate {A = ℕ} n 170,
  );
  realloc_keeps = λ old n k inside fits.
      take-take k n (old ++ replicate n 170) fits ∙ take_within k old (replicate n 170) inside;
}
