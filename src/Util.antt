-- ===== src/Util.antt =====
-- common/util.h and common/util.cpp.
pub mod MinPow
pub mod Split
use Prim.Native.Nat.{bit_and}
use mathlib.Core.Logic.{dite}
use mathlib.Core.WellFounded.{Acc, WellFounded}
use pluto_server.Prelude.{
  ℕ, zero, suc, ◌+◌, ◌-◌, ◌*◌, ◌/◌, ◌%◌, ◌^◌, ◌≤◌, ◌<◌, Bool, true, false, ◌||◌, List, [], ◌∷◌,
  ◌++◌, arith, ltb, leb, ◌==◌, if◌then◌else◌, dec_lt,
}

-- The macros of util.h.
abbrev pub read_buf_size : ℕ
read_buf_size = 1024

abbrev pub write_buf_size : ℕ
write_buf_size = 1024

abbrev pub max_buf_size : ℕ
max_buf_size = write_buf_size * 4

abbrev pub mq_type_pack : ℕ
mq_type_pack = 1

abbrev pub mq_type_timer : ℕ
mq_type_timer = 2

abbrev pub mq_type_close : ℕ
mq_type_close = 3

abbrev pub mq_type_connect : ℕ
mq_type_connect = 4

abbrev pub mq_type_tick : ℕ
mq_type_tick = 5

abbrev pub mq_type_broadcast : ℕ
mq_type_broadcast = 6

abbrev pub sql_query : ℕ
sql_query = 1

abbrev pub sql_update : ℕ
sql_update = 2

abbrev pub log_debug : ℕ
log_debug = 1

abbrev pub log_info : ℕ
log_info = 2

abbrev pub log_warning : ℕ
log_warning = 4

abbrev pub log_error : ℕ
log_error = 8

abbrev pub log_all : ℕ
log_all = 0xff

abbrev pub max_log_buff_size : ℕ
max_log_buff_size = 1024

-- `enum EFDTYPE`.
pub data FdType : Type 0 where
  fd_type_server fd_type_connect : FdType

below_wf : (bound n : ℕ) → n < bound → Acc ◌<◌ n
below_wf zero n h = elim h [ ]
below_wf (suc bound) n h = Acc.intro n (λ m hm. below_wf bound m (omega arith))

-- `<` is well founded, for the loops that halve a number.
unfoldable pub lt_wf : WellFounded ◌<◌
unfolding below_wf
lt_wf = record { apply = λ n. below_wf (suc n) n (omega arith) }

pub halves_fall : (n : ℕ) → 0 < n → n / 2 < n
halves_fall n h = omega arith

-- `while(num) { num>>=1; r<<=1; }` of `min_pow`, with `r` an unsigned int.
unfoldable pub double_while : (num r : ℕ) → Acc ◌<◌ num → ℕ
double_while num r (Acc.intro _ smaller) =
    dite (dec_lt 0 num)
      (λ more. double_while (num / 2) (r * 2 % 2 ^ 32) (smaller (num / 2) (halves_fall num more)))
      (λ _. r)

-- An `int` is its bit pattern, so `num <= 1` holds of 0, of 1 and of the negative patterns.
unfoldable pub min_pow : ℕ → ℕ
min_pow num =
    if ltb num 2 || leb (2 ^ 31) num
    then num
    else (if bit_and num (num - 1) == 0 then num else double_while num 1 (lt_wf.apply num))

-- The value of a `char` byte as an `int`, in 32 bits: `char` is signed.
abbrev pub promote : ℕ → ℕ
promote b = if ltb b 128 then b else 2 ^ 32 - 256 + b

hash_from : ℕ → List ℕ → ℕ
hash_from hash [] = hash
hash_from hash (c ∷ str) = hash_from ((hash * 131 + promote c) % 2 ^ 32) str

-- `hash & 0x7FFFFFFF`.
unfoldable pub hash_string : List ℕ → ℕ
unfolding hash_from
hash_string str = bit_and (hash_from 0 str) 0x7FFFFFFF

unfoldable pub one_of : List ℕ → ℕ → Bool
one_of [] c = false
one_of (s ∷ separate) c = c == s || one_of separate c

-- The loop of `split`: `field` is `s.substr(last, …)` up to the present character. The length test
-- behind the loop compares the unsigned `npos - last` with 0, so the last field is always added.
unfoldable pub split_from : List ℕ → List ℕ → List ℕ → List (List ℕ)
split_from separate field [] = field ∷ []
split_from separate field (c ∷ s) =
    if one_of separate c
    then field ∷ split_from separate [] s
    else split_from separate (field ++ (c ∷ [])) s

-- `split(s, separate, ret)`, by what it adds to `ret`.
unfoldable pub split : List ℕ → List ℕ → List (List ℕ)
split s separate = split_from separate [] s
