-- ===== src/Stream/Modes.antt =====
-- The two modes of a stream: over a block it reads and writes what fits; over a `Buffer` it only writes.
use pluto_server.Prelude.{
  ℕ, ◌+◌, ◌%◌, ◌^◌, ◌≤◌, ◌<◌, ◌≡◌, refl, ap, ◌∙◌, arith, length, take, drop, List, none, some,
  append-nil, take_all, drop_all, length-take, length-drop, le→ltb,
}
use native.Mathlib.Nat.{mod-eq_of_lt}
use pluto_server.Prelude.Memory.{memcpy, memcpy-within, load-within}
use pluto_server.Stream.{ByteStream, read_byte, read_from}

-- A stream over a block, at a position.
abbrev pub at_block : List ℕ → ℕ → ℕ → ByteStream
at_block block len pos = record { buffer = none; block = some block; len = len; pos = pos }

-- An array overwritten from its start to its end.
pub overwritten :
    (old bytes : List ℕ) (n : ℕ)
    → length old ≡ n
    → length bytes ≡ n
    → memcpy old 0 bytes n ≡ some bytes
overwritten old bytes n e k =
    memcpy-within old 0 bytes n (omega arith) (omega arith)
    ∙ ap some
        (rw (take_all n bytes (omega arith), drop_all (0 + n) old (omega arith)) (append-nil bytes))

pub read_byte-block :
    (block : List ℕ) (len pos n : ℕ) (old : List ℕ)
    → pos + n ≤ len
    → len ≤ length block
    → len < 2 ^ 32
    → length old ≡ n
    → read_byte (at_block block len pos) old n
      ≡ some (take n (drop pos block), at_block block len (pos + n))
unfolding read_byte read_from
read_byte-block block len pos n old fits inside small size =
    rw
      (
        no_wrap,
        le→ltb len (pos + n) fits,
        load-within block pos n (omega arith),
        overwritten old (take n (drop pos block)) n size
            (omega (arith, length-take n (drop pos block), length-drop pos block)),
      )
      refl
  where
    no_wrap : (pos + n) % 2 ^ 32 ≡ pos + n
    no_wrap = mod-eq_of_lt (omega arith)
