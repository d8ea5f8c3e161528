-- ===== src/Logger/Line.antt =====
-- The text of one line of the log.
use pluto_server.Prelude.{
  ℕ, ◌+◌, ◌-◌, ◌≤◌, ◌<◌, ◌≡◌, refl, ap, arith, lt→ltb, List, ◌++◌, length, length-append,
  length-take, take, take_all,
}
use pluto_server.Prelude.Text.{codes}
use pluto_server.Util.{max_log_buff_size}
use pluto_server.Logger.{log_text, section_of}

-- The text before the message.
abbrev pub head_of : List ℕ → List ℕ → List ℕ
head_of hmsu section = hmsu ++ (codes "[" ++ (section ++ codes "]"))

section-length :
    (log_type : ℕ) → (7 ≤ length (section_of log_type)) × (length (section_of log_type) ≤ 8)
unfolding section_of
section-length log_type = ground arith

length-head :
    (hmsu section : List ℕ) → length (head_of hmsu section) ≡ length hmsu + (length section + 2)
length-head hmsu section = omega (
  arith,
  length-append hmsu (codes "[" ++ (section ++ codes "]")),
  length-append (codes "[") (section ++ codes "]"),
  length-append section (codes "]"),
)

-- What `_Log` leaves in an array that holds more than the head: the head and the front of the message.
log_text-head :
    (size : ℕ) (hmsu section msg : List ℕ)
    → length hmsu ≡ 8
    → length (head_of hmsu section) < size
    → log_text size hmsu section msg
      ≡ head_of hmsu section ++ take (size - length (head_of hmsu section) - 1) msg
unfolding log_text
log_text-head size hmsu section msg h fits =
    let whole : take 8 hmsu ≡ hmsu = take_all 8 hmsu (omega arith) in
    rw
      (
        whole,
        lt→ltb 0 (length (head_of hmsu section)) (omega (arith, length-head hmsu section)),
        lt→ltb (length (head_of hmsu section)) size fits,
      )
      refl

-- For a time of eight characters, a line of the log is the time, the section in brackets and as much of
-- the front of the message as the buffer leaves room for, and with its NUL it lies in the buffer.
pub log_text-line :
    (hmsu msg : List ℕ) (log_type : ℕ)
    → length hmsu ≡ 8
    → (log_text max_log_buff_size hmsu (section_of log_type) msg
        ≡ head_of hmsu (section_of log_type)
          ++ take (max_log_buff_size - length (head_of hmsu (section_of log_type)) - 1) msg)
      × (length (log_text max_log_buff_size hmsu (section_of log_type) msg) < max_log_buff_size)
log_text-line hmsu msg log_type h =
    let head = head_of hmsu (section_of log_type) in
    let size : length head < max_log_buff_size =
      omega (arith, length-head hmsu (section_of log_type), section-length log_type) in
    let line = log_text-head max_log_buff_size hmsu (section_of log_type) msg h size in
    (
      line,
      omega (
        arith,
        ap (λ (l : List ℕ). length l) line,
        length-append head (take (max_log_buff_size - length head - 1) msg),
        length-take (max_log_buff_size - length head - 1) msg,
      ),
    )
