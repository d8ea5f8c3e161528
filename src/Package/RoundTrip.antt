-- ===== src/Package/RoundTrip.antt =====
-- What `SetMsg` stores, sent over the wire, against what `ReadPdu` finds there.
use pluto_server.Prelude.{
  ℕ, suc, ◌+◌, ◌-◌, ◌%◌, ◌^◌, ◌≤◌, ◌<◌, ◌≡◌, refl, ap, ◌∙◌, arith, length, drop, List, [], ◌∷◌,
  ◌++◌, none, some, length-append, length-drop, take_all, take-append, some_inj,
}
use pluto_server.Prelude.Memory.{Allocator, IsAllocator, memcpy-within}
use pluto_server.Stream.{bytes16, bytes32, write_int32, write_uint16, read_uint16, read_uint32}
use pluto_server.Stream.Integers.{
  IsPlain16, IsPlain32, read_uint32-bytes32, read_uint32-negative, read_uint16-bytes16,
}
use pluto_server.Package.{Package, set_msg, store_message, read_pdu, body_text}
use pluto_server.Package.Framing.{frame, header_of, announced, delivered, read_pdu-frame}
use pluto_server.Package.Body.{IsText, c_string-IsText}

-- The bytes of a message on the wire.
abbrev pub encoded : ℕ → ℕ → List ℕ → List ℕ
encoded command_id sub_id text =
    bytes32 (8 + length text) ++ (bytes16 command_id ++ (bytes16 sub_id ++ text))

-- The stores on a block of eight bytes or more, one after the other.
header_written :
    (w c s x0 x1 x2 x3 x4 x5 x6 x7 : ℕ) (rest text : List ℕ)
    → length text ≤ length rest
    → store_message
        (x0 ∷ (x1 ∷ (x2 ∷ (x3 ∷ (x4 ∷ (x5 ∷ (x6 ∷ (x7 ∷ rest))))))))
        w
        c
        s
        text
        (length text)
      ≡ some (bytes32 w ++ (bytes16 c ++ (bytes16 s ++ (text ++ drop (length text) rest))))
unfolding store_message write_int32 write_uint16
header_written w c s x0 x1 x2 x3 x4 x5 x6 x7 rest text h =
    rw
      (
        memcpy-within (x0 ∷ (x1 ∷ (x2 ∷ (x3 ∷ (x4 ∷ (x5 ∷ (x6 ∷ (x7 ∷ rest)))))))) 0 (bytes32 w) 4
            (omega arith) (omega arith),
        memcpy-within (bytes32 w ++ (x4 ∷ (x5 ∷ (x6 ∷ (x7 ∷ rest))))) 4 (bytes16 c) 2 (omega arith)
            (omega arith),
        memcpy-within (bytes32 w ++ (bytes16 c ++ (x6 ∷ (x7 ∷ rest)))) 6 (bytes16 s) 2 (omega arith)
            (omega arith),
        memcpy-within (bytes32 w ++ (bytes16 c ++ (bytes16 s ++ rest))) 8 text (length text)
            (omega arith) (omega arith),
        take_all (length text) text (omega arith),
        eight_on (length text),
      )
      refl
  where
    eight_on : (n : ℕ) → 8 + n ≡ suc (suc (suc (suc (suc (suc (suc (suc n)))))))
    eight_on n = omega arith

stores-block :
    (w c s : ℕ) (text block : List ℕ)
    → length block ≡ 9 + length text
    → store_message block w c s text (length text)
      ≡ some
          (bytes32 w ++ (bytes16 c ++ (bytes16 s ++ (text ++ drop (length text) (drop 8 block)))))
stores-block w c s text (x0 ∷ (x1 ∷ (x2 ∷ (x3 ∷ (x4 ∷ (x5 ∷ (x6 ∷ (x7 ∷ rest)))))))) h =
    header_written w c s x0 x1 x2 x3 x4 x5 x6 x7 rest text (omega arith)
stores-block w c s text short h = absurd (omega arith)

-- The package of a message: the header fields, and a block of the encoded message and one byte that
-- is never set.
abbrev pub message : ℕ → ℕ → List ℕ → ℕ → Package
message command_id sub_id text spare = record {
  buffer = some (encoded command_id sub_id text ++ (spare ∷ []));
  pdu_header = record { length = 8 + length text; command_id = command_id; sub_id = sub_id };
}

single : (xs : List ℕ) → length xs ≡ 1 → (x : ℕ) × (xs ≡ x ∷ [])
single (x ∷ []) h = (x, refl)
single other h = absurd (omega arith)

module _ {heap : Allocator} (good : IsAllocator heap) where
  stored :
      (c s : ℕ) (text block : List ℕ)
      → length block ≡ 9 + length text
      → (spare : ℕ) × (store_message block (8 + length text) c s text (length text)
          ≡ some (encoded c s text ++ (spare ∷ [])))
  stored c s text block known =
      let (spare, e) =
        single (drop (length text) (drop 8 block))
          (omega (arith, length-drop (length text) (drop 8 block), length-drop 8 block)) in
      (
        spare,
        stores-block (8 + length text) c s text block known
            ∙ ap
                (λ tail.
                  some (bytes32 (8 + length text) ++ (bytes16 c ++ (bytes16 s ++ (text ++ tail)))))
                e,
      )

  -- `SetMsg` of a text whose total fits 32 bits stores the header and the text, inside its block.
  pub set_msg-message :
      (p : Package) (command_id sub_id : ℕ) (text : List ℕ)
      → 9 + length text < 2 ^ 32
      → (spare : ℕ) × (set_msg heap p command_id sub_id text
          ≡ some (message command_id sub_id text spare))
  unfolding set_msg
  set_msg-message p c s text fits =
      let (spare, e) = stored c s text (heap.malloc (9 + length text)) (good.malloc_length _) in
      (spare, with_store spare e)
    where
      with_store :
          (spare : ℕ)
          → store_message (heap.malloc (9 + length text)) (8 + length text) c s text (length text)
            ≡ some (encoded c s text ++ (spare ∷ []))
          → set_msg heap p c s text ≡ some (message c s text spare)
      with_store spare e = rw (len, total, size, e) refl
        where
          len : length text % 2 ^ 32 ≡ length text
          len = omega arith

          total : (8 + length text) % 2 ^ 32 ≡ 8 + length text
          total = omega arith

          size : (8 + length text + 1) % 2 ^ 32 ≡ 9 + length text
          size = omega arith

-- A frame is there as soon as all its bytes are, and not before.
frame_complete :
    (buf : List ℕ) (len n : ℕ)
    → announced buf ≡ n
    → 8 ≤ len
    → 0 < n
    → n ≤ len
    → frame buf len ≡ some (delivered buf n)
frame_complete buf len n e h pos le = ground arith

frame-incomplete : (buf : List ℕ) (len : ℕ) → len < announced buf → frame buf len ≡ none
frame-incomplete buf len h = ground arith

-- What a receiver holds once a message and then `rest` have arrived.
abbrev pub wire : ℕ → ℕ → List ℕ → List ℕ → List ℕ
wire command_id sub_id text rest = encoded command_id sub_id text ++ rest

module _ (command_id sub_id : ℕ) (text rest : List ℕ) where
  announced-wire :
      8 + length text < 2 ^ 31
      → IsPlain32 (8 + length text)
      → announced (wire command_id sub_id text rest) ≡ 8 + length text
  unfolding read_uint32
  announced-wire small plain = some_inj ((read_uint32-bytes32 (8 + length text) [] small).1 plain)

  header-wire :
      8 + length text < 2 ^ 31
      → command_id < 2 ^ 15
      → sub_id < 2 ^ 15
      → IsPlain32 (8 + length text)
      → IsPlain16 command_id
      → IsPlain16 sub_id
      → header_of (wire command_id sub_id text rest)
        ≡ record { length = 8 + length text; command_id = command_id; sub_id = sub_id }
  unfolding read_uint16
  header-wire small c s plain plain_c plain_s =
      λ i. record { length = announced-wire small plain i; command_id = command i; sub_id = sub i }
    where
      command : (header_of (wire command_id sub_id text rest)).command_id ≡ command_id
      command = some_inj ((read_uint16-bytes16 command_id [] c).1 plain_c)

      sub : (header_of (wire command_id sub_id text rest)).sub_id ≡ sub_id
      sub = some_inj ((read_uint16-bytes16 sub_id [] s).1 plain_s)

-- A message arrives whose ids are below `2 ^ 15`, whose total length and ids have all bytes but the first
-- below 128, and whose text holds no NUL: whatever follows it on the wire, short of 2 GB in all, `ReadPdu`
-- delivers its header fields and a block of the message and a NUL, and the body text of that package is the
-- text sent.
pub read_pdu-wire :
    {heap : Allocator}
    → IsAllocator heap
    → (command_id sub_id : ℕ) (text rest : List ℕ) → IsText text
    → length (wire command_id sub_id text rest) < 2 ^ 31
    → command_id < 2 ^ 15
    → sub_id < 2 ^ 15
    → IsPlain32 (8 + length text)
    → IsPlain16 command_id
    → IsPlain16 sub_id
    → (read_pdu heap (wire command_id sub_id text rest) (length (wire command_id sub_id text rest))
        ≡ some (some (message command_id sub_id text 0)))
      × (body_text (message command_id sub_id text 0) ≡ some text)
unfolding body_text
read_pdu-wire good command_id sub_id text rest is_text small c s plain plain_c plain_s = (
  read_pdu-frame good (wire command_id sub_id text rest) (length (wire command_id sub_id text rest))
        (omega arith) (omega arith)
      ∙ ap some (
          frame_complete (wire command_id sub_id text rest)
            (length (wire command_id sub_id text rest)) (8 + length text)
            (announced-wire command_id sub_id text rest (omega (arith, held)) plain) (omega arith)
            (omega arith) (omega (arith, held))
          ∙ ap some same),
  c_string-IsText text [] is_text,
)
  where
    held : length (wire command_id sub_id text rest) ≡ 8 + length text + length rest
    held = omega (arith, length-append text rest)

    same :
        delivered (wire command_id sub_id text rest) (8 + length text)
        ≡ message command_id sub_id text 0
    same = λ i. record {
      buffer = some (
          take-append (8 + length text) (encoded command_id sub_id text) rest (omega arith) i
          ++ (0 ∷ []));
      pdu_header =
          header-wire command_id sub_id text rest (omega (arith, held)) c s plain plain_c plain_s i;
    }

-- A message whose total length has a low byte from 128 on never arrives: however much of the stream is
-- held, short of 4 GB, `ReadPdu` waits for more.
pub read_pdu_stalls :
    {heap : Allocator}
    → IsAllocator heap
    → (command_id sub_id : ℕ) (text rest : List ℕ) → 128 ≤ (8 + length text) % 256
    → length (wire command_id sub_id text rest) < 2 ^ 32 - 256
    → read_pdu heap (wire command_id sub_id text rest) (length (wire command_id sub_id text rest))
      ≡ some none
unfolding read_uint32
read_pdu_stalls good command_id sub_id text rest large held =
    read_pdu-frame good (wire command_id sub_id text rest)
      (length (wire command_id sub_id text rest)) (omega arith) (omega arith)
    ∙ ap some (
        frame-incomplete (wire command_id sub_id text rest)
          (length (wire command_id sub_id text rest)) (omega (arith, announces)))
  where
    announces :
        announced (wire command_id sub_id text rest) ≡ 2 ^ 32 - 256 + (8 + length text) % 256
    announces = some_inj (read_uint32-negative (8 + length text) [] large)
