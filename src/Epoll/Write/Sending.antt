-- ===== src/Epoll/Write/Sending.antt =====
-- What the loop of `OnWrite` does with the bytes of a channel.
use mathlib.Core.Bool.{false≢true}
use pluto_server.Prelude.{
  ℕ, zero, suc, ◌≤◌, ◌<◌, ◌≡◌, refl, sym, ap, ◌∙◌, arith, true, false, List, ◌++◌, append_assoc,
  Option, some, ltb, take, drop, length, min, length-take, take-take, take-append-drop, Bool-cases,
  ltb→lt, inl, inr, ◌⊎◌,
}
use pluto_server.Prelude.Memory.{load-within}
use pluto_server.Buffer.{Buffer}
use pluto_server.Buffer.Extend.{IsValid, contents}
use pluto_server.Buffer.Queue.{read-Took}
use pluto_server.Epoll.Write.{Sent, failed, took, send_size, Outcome, after_send, send_while}

-- What `send` documents: it does not take more than it is offered.
abbrev pub IsSocket : (ℕ → List ℕ → Sent) → Type 0
IsSocket send = (round : ℕ) (chunk : List ℕ) (n : ℕ) → send round chunk ≡ took n → n ≤ length chunk

-- The kernel does not take a byte of what it is offered.
abbrev pub Refused : (ℕ → List ℕ → Sent) → Type 0
Refused send =
    (round : ℕ) × (chunk : List ℕ) × (0 < length chunk)
    × ((send round chunk ≡ failed) ⊎ (send round chunk ≡ took zero))

-- The loop ends with the bytes split in two: those that the kernel took, in order, and those still held.
-- EV_WRITE is asked for only while some are held; and some are left only if the kernel refused.
pub record Split (refused : Type 0) (out : Buffer) (gone : List ℕ) (o : Outcome) : Type 0 where
  pub valid : IsValid o.out_buf
  pub conserved : o.gone ++ contents o.out_buf ≡ gone ++ contents out
  pub pending : o.again ≡ true → 0 < o.out_buf.write_offset
  pub finished : (o.out_buf.write_offset ≡ 0) ⊎ refused

chunk_of : Buffer → List ℕ
chunk_of out = take (send_size out.write_offset) (drop 0 out.block)

size-le : (offset : ℕ) → send_size offset ≤ offset
size-le offset = ground arith

size-positive : (offset : ℕ) → 0 < offset → 0 < send_size offset
size-positive offset h = ground (arith, h)

chunk-positive : (out : Buffer) → IsValid out → 0 < out.write_offset → 0 < length (chunk_of out)
unfolding chunk_of
chunk-positive out v h = omega (
  arith,
  length-take (send_size out.write_offset) out.block,
  size-positive out.write_offset h,
  size-le out.write_offset,
)

-- The bytes that are taken of a chunk are the first ones held.
chunk_taken :
    (out : Buffer) (n : ℕ)
    → n ≤ send_size out.write_offset
    → take n (chunk_of out) ++ drop n (contents out) ≡ contents out
unfolding chunk_of
chunk_taken out n h =
    ap (λ (front : List ℕ). front ++ drop n (contents out))
      (take-take n (send_size out.write_offset) out.block h
        ∙ sym (take-take n out.write_offset out.block (omega (arith, size-le out.write_offset))))
    ∙ take-append-drop n (contents out)

after_send-Split :
    (refused : Type 0) (go : Buffer → List ℕ → Option Outcome) (fuel : ℕ) (out : Buffer)
    (gone : List ℕ) (r : Sent)
    → IsValid out
    → 0 < out.write_offset
    → out.write_offset < suc fuel
    → ((n : ℕ) → r ≡ took n → n ≤ send_size out.write_offset)
    → ((r ≡ failed) ⊎ (r ≡ took zero) → refused)
    → ((out' : Buffer) (gone' : List ℕ)
        → IsValid out'
        → out'.write_offset < fuel
        → (o : Outcome) × (go out' gone' ≡ some o) × Split refused out' gone' o)
    → (o : Outcome) × (after_send go out gone (chunk_of out) r ≡ some o) × Split refused out gone o
unfolding after_send
after_send-Split refused go fuel out gone failed v pos h fits refuses ih = (
  _,
  refl,
  record { valid = v; conserved = refl; pending = λ e. pos; finished = inr (refuses (inl refl)) },
)
after_send-Split refused go fuel out gone (took zero) v pos h fits refuses ih = (
  _,
  refl,
  record {
    valid = v;
    conserved = refl;
    pending = λ (e : false ≡ true). absurd (false≢true e);
    finished = inr (refuses (inr refl));
  },
)
after_send-Split refused go fuel out gone (took (suc n)) v pos h fits refuses ih =
    let small : suc n ≤ out.write_offset =
      omega (arith, fits (suc n) refl, size-le out.write_offset) in
    let all : min (suc n) out.write_offset ≡ suc n = omega arith in
    let (out', reads, took') = read-Took out (suc n) v in
    let rest : contents out' ≡ drop (suc n) (contents out) =
      took'.rest ∙ ap (λ (k : ℕ). drop k (contents out)) all in
    let (o, e, split) =
      ih out' (gone ++ take (suc n) (chunk_of out)) took'.valid (omega (arith, took'.offset)) in
    (
      o,
      rw reads e,
      record {
        valid = split.valid;
        conserved =
            split.conserved
            ∙ append_assoc gone (take (suc n) (chunk_of out)) (contents out')
            ∙ ap (λ (bytes : List ℕ). gone ++ bytes)
                (ap (λ (held : List ℕ). take (suc n) (chunk_of out) ++ held) rest
                  ∙ chunk_taken out (suc n) (fits (suc n) refl));
        pending = split.pending;
        finished = split.finished;
      },
    )

module _ (send : ℕ → List ℕ → Sent) (socket : IsSocket send) where
  -- With fuel for each byte held the loop ends without fault. What the kernel has then taken and what
  -- is still held are, in order, what was taken and held before; the buffer is valid; and EV_WRITE is
  -- asked for only while bytes are held.
  pub send_while-Split :
      (fuel round : ℕ) (out : Buffer) (gone : List ℕ)
      → IsValid out
      → out.write_offset < fuel
      → (o : Outcome) × (send_while send fuel round out gone ≡ some o)
        × Split (Refused send) out gone o
  unfolding send_while chunk_of
  send_while-Split zero round out gone v h = elim h [ ]
  send_while-Split (suc fuel) round out gone v h = elim (Bool-cases (ltb 0 out.write_offset)) [
    | inl more ↦
        rw
          (
            more,
            load-within out.block 0 (send_size out.write_offset)
                (omega (arith, size-le out.write_offset)),
          )
          (after_send-Split (Refused send) (send_while send fuel (suc round)) fuel out gone
            (send round (chunk_of out)) v (ltb→lt 0 out.write_offset more) h
            (λ n e. omega (
              arith,
              socket round (chunk_of out) n e,
              length-take (send_size out.write_offset) out.block,
            ))
            (λ refusal.
              (round, chunk_of out, chunk-positive out v (ltb→lt 0 out.write_offset more), refusal))
            (send_while-Split fuel (suc round)))
    | inr empty ↦ (
      _,
      rw empty refl,
      record {
        valid = v;
        conserved = refl;
        pending = λ (e : false ≡ true). absurd (false≢true e);
        finished = inl (ground (arith, empty));
      },
    )
  ]
