-- ===== src/Epoll/Read/Deliver.antt =====
-- The loop of `OnRead` over packages: it pushes exactly the frames of the bytes held.
use pluto_server.Prelude.{
  ℕ, zero, suc, ◌≤◌, ◌<◌, ◌≡◌, refl, sym, ap, ◌∙◌, arith, length, drop, List, [], ◌∷◌, none, some,
  Option-cases, inl, inr, min, length-take,
}
use pluto_server.Prelude.Memory.{Allocator, IsAllocator}
use pluto_server.Buffer.{Buffer}
use pluto_server.Buffer.Extend.{IsValid, contents}
use pluto_server.Buffer.Queue.{read-Took}
use pluto_server.Package.{Package, total_length, read_pdu}
use pluto_server.Package.Framing.{frame, read_pdu-frame}
use pluto_server.Package.Frames.{
  frames_in, frame-take, frame-IsFrame, frames_in_step, frames_in_end,
}
use pluto_server.Channel.{Channel, consume, read_package}
use pluto_server.MessageQueue.{MessageQueue}
use pluto_server.Util.{FdType}
use pluto_server.Epoll.Read.{push_package, deliver_while}

-- The messages for some packages, oldest first.
abbrev pub push_packages : MessageQueue → FdType → ℕ → List Package → MessageQueue
push_packages mq fdtype fd [] = mq
push_packages mq fdtype fd (p ∷ ps) = push_packages (push_package mq fdtype fd p) fdtype fd ps

pub length-contents : (b : Buffer) → IsValid b → length (contents b) ≡ b.write_offset
length-contents b v = omega (arith, length-take b.write_offset b.block)

-- The frame that `ReadPdu` looks for is that of the bytes held.
frame-contents :
    (b : Buffer)
    → IsValid b
    → frame b.block b.write_offset ≡ frame (contents b) (length (contents b))
frame-contents b v =
    frame-take b.block b.write_offset
    ∙ ap (λ (n : ℕ). frame (contents b) n) (sym (length-contents b v))

-- `ReadPackage` with a frame in the buffer, and without.
record Read (c : Channel) (p : Package) (b : Buffer) : Type 0 where
  valid : IsValid b
  rest : contents b ≡ drop (total_length p) (contents c.in_buf)
  shorter : b.write_offset < c.in_buf.write_offset

module _ {heap : Allocator} (good : IsAllocator heap) where
  read_pdu-contents :
      (c : Channel)
      → IsValid c.in_buf
      → read_pdu heap c.in_buf.block c.in_buf.write_offset
        ≡ some (frame (contents c.in_buf) (length (contents c.in_buf)))
  read_pdu-contents c v =
      read_pdu-frame good c.in_buf.block c.in_buf.write_offset (omega arith) (omega arith)
      ∙ ap some (frame-contents c.in_buf v)

  read_package-none :
      (c : Channel)
      → IsValid c.in_buf
      → frame (contents c.in_buf) (length (contents c.in_buf)) ≡ none
      → read_package heap c ≡ some (none, c)
  unfolding read_package
  read_package-none c v e = rw (read_pdu-contents c v, e) refl

  read_package-some :
      (c : Channel) (p : Package)
      → IsValid c.in_buf
      → frame (contents c.in_buf) (length (contents c.in_buf)) ≡ some p
      → (b : Buffer) × (read_package heap c ≡ some (some p, record c { in_buf = b })) × Read c p b
  unfolding read_package
  read_package-some c p v e =
      let f = frame-IsFrame (contents c.in_buf) p e in
      let le : total_length p ≤ c.in_buf.write_offset =
        omega (arith, f.held, length-contents c.in_buf v) in
      let all : min (total_length p) c.in_buf.write_offset ≡ total_length p = omega arith in
      let (b, reads, took) = read-Took c.in_buf (total_length p) v in
      (
        b,
        rw (read_pdu-contents c v, e, consume, reads) refl,
        record {
          valid = took.valid;
          rest = took.rest ∙ ap (λ (n : ℕ). drop n (contents c.in_buf)) all;
          shorter = omega (arith, took.offset, f.positive);
        },
      )

  -- The loop of `OnRead` on a valid buffer, with fuel for each byte: it ends without fault, pushes the
  -- frames of the bytes held, in order and as nothing else, and leaves in the buffer the bytes that
  -- framing leaves. Nothing else of the channel changes.
  pub deliver_while-frames_in :
      (fuel : ℕ) (fdtype : FdType) (fd : ℕ) (c : Channel) (mq : MessageQueue)
      → IsValid c.in_buf
      → c.in_buf.write_offset < fuel
      → (b : Buffer) × (deliver_while heap fuel fdtype fd c mq
          ≡ some (
            record c { in_buf = b },
            push_packages mq fdtype fd (frames_in fuel (contents c.in_buf)).0,
          ))
        × IsValid b
        × (contents b ≡ (frames_in fuel (contents c.in_buf)).1)
  unfolding deliver_while
  deliver_while-frames_in zero fdtype fd c mq v h = elim h [ ]
  deliver_while-frames_in (suc fuel) fdtype fd c mq v h =
      elim (Option-cases (frame (contents c.in_buf) (length (contents c.in_buf)))) [
        | inl e ↦ (
          c.in_buf,
          rw (read_package-none c v e, frames_in_end (suc fuel) (contents c.in_buf) e) refl,
          v,
          rw (frames_in_end (suc fuel) (contents c.in_buf) e) refl,
        )
        | inr (p, e) ↦
            let (b, reads, r) = read_package-some c p v e in
            let (last, done, valid, left) =
              deliver_while-frames_in fuel fdtype fd (record c { in_buf = b })
                (push_package mq fdtype fd p) r.valid (omega (arith, r.shorter)) in
            (
              last,
              rw (reads, frames_in_step fuel (contents c.in_buf) p e, ← r.rest) done,
              valid,
              rw (frames_in_step fuel (contents c.in_buf) p e, ← r.rest) left,
            )
      ]
