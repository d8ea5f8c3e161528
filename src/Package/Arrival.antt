-- ===== src/Package/Arrival.antt =====
-- package.cpp from end to end: a message that `SetMsg` encodes, and what `ReadPdu` finds where it arrives.
use pluto_server.Prelude.{
  ℕ, ◌+◌, ◌^◌, ◌<◌, ◌≡◌, refl, arith, List, [], ◌∷◌, ◌++◌, some, length, length-append, take,
  take-append,
}
use pluto_server.Prelude.Memory.{Allocator, IsAllocator}
use pluto_server.Stream.Integers.{IsPlain16, IsPlain32}
use pluto_server.Package.{
  Package, set_msg, read_pdu, total_length, get_buffer, get_command_id, get_sub_id, body_text,
}
use pluto_server.Package.Body.{IsText}
use pluto_server.Package.RoundTrip.{encoded, message, set_msg-message, read_pdu-wire}

-- The bytes of a package that are sent: those of its block that its length counts.
abbrev pub sent_bytes : Package → List ℕ
sent_bytes p = take (total_length p) (get_buffer p)

-- `SetMsg` of a text without a NUL, with ids below `2 ^ 15`, where of the total length and of each id all
-- bytes but the first are below 128, gives a package; and where the bytes of that package arrive, followed
-- by any others, short of 2 GB in all, `ReadPdu` gives a package with the same total length, the same ids,
-- and the text as its body.
pub read_pdu-set_msg :
    {heap : Allocator}
    → IsAllocator heap
    → (p : Package) (command_id sub_id : ℕ) (text rest : List ℕ) → IsText text
    → 8 + length text + length rest < 2 ^ 31
    → command_id < 2 ^ 15
    → sub_id < 2 ^ 15
    → IsPlain32 (8 + length text)
    → IsPlain16 command_id
    → IsPlain16 sub_id
    → (m m' : Package) × (set_msg heap p command_id sub_id text ≡ some m)
      × (read_pdu heap (sent_bytes m ++ rest) (length (sent_bytes m ++ rest)) ≡ some (some m'))
      × (total_length m ≡ 8 + length text)
      × (total_length m' ≡ total_length m)
      × (get_command_id m' ≡ command_id)
      × (get_sub_id m' ≡ sub_id)
      × (body_text m' ≡ some text)
read_pdu-set_msg {heap} good p c s text rest is_text small c_small s_small plain plain_c plain_s =
    let (spare, stores) = set_msg-message good p c s text (omega arith) in
    let (reads, body) =
      read_pdu-wire good c s text rest is_text
        (omega (arith, length-append (encoded c s text) rest)) c_small s_small plain plain_c
        plain_s in
    let sent : sent_bytes (message c s text spare) ≡ encoded c s text =
      take-append (8 + length text) (encoded c s text) (spare ∷ []) (omega arith) in
    (
      message c s text spare,
      message c s text 0,
      stores,
      rw sent reads,
      refl,
      refl,
      refl,
      refl,
      body,
    )
