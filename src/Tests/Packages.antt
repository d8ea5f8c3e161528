-- ===== src/Tests/Packages.antt =====
-- package.cpp at concrete inputs.
use pluto_server.Prelude.{
  ℕ, ◌≡◌, arith, List, [], ◌∷◌, ◌++◌, none, some, length, drop, take, leb, if◌then◌else◌,
}
use pluto_server.Prelude.Text.{codes}
use pluto_server.Prelude.Memory.{plain_heap, plain_heap-IsAllocator}
use pluto_server.Package.{
  Package, new_package, set_msg, read_pdu, total_length, get_command_id, get_sub_id, body_text,
}
use pluto_server.Package.Framing.{frame, delivered, read_pdu-frame}
use pluto_server.Package.Body.{before_nul, read_pdu-body_text}
use pluto_server.Package.RoundTrip.{wire, read_pdu_stalls}
use pluto_server.Package.Arrival.{sent_bytes, read_pdu-set_msg}

abbrev seven : List ℕ
seven = 0 ∷ (0 ∷ (0 ∷ (7 ∷ (0 ∷ (1 ∷ (0 ∷ (2 ∷ [])))))))

read_pdu-frame_example : read_pdu plain_heap seven 8 ≡ some (frame seven 8)
read_pdu-frame_example = read_pdu-frame plain_heap-IsAllocator seven 8 (omega arith) (omega arith)

seven_read : read_pdu plain_heap seven 8 ≡ some (some (delivered seven 7))
seven_read = read_pdu-frame_lem
  where
    read_pdu-frame_lem : read_pdu plain_heap seven 8 ≡ some (frame seven 8)
    read_pdu-frame_lem = read_pdu-frame plain_heap-IsAllocator seven 8 (omega arith) (omega arith)

read_pdu-body_text_example :
    body_text (delivered seven 7)
    ≡ (if leb 8 7 then some (before_nul (drop 8 (take 7 seven))) else none)
read_pdu-body_text_example =
    read_pdu-body_text plain_heap-IsAllocator seven (delivered seven 7) (omega arith) seven_read

read_pdu-set_msg_example :
    (m m' : Package) × (set_msg plain_heap (new_package 0) 1 2 (codes "hi") ≡ some m)
    × (read_pdu plain_heap (sent_bytes m ++ seven) (length (sent_bytes m ++ seven))
        ≡ some (some m'))
    × (total_length m ≡ 10)
    × (total_length m' ≡ total_length m)
    × (get_command_id m' ≡ 1)
    × (get_sub_id m' ≡ 2)
    × (body_text m' ≡ some (codes "hi"))
read_pdu-set_msg_example =
    read_pdu-set_msg plain_heap-IsAllocator (new_package 0) 1 2 (codes "hi") seven (omega arith)
      (omega arith) (omega arith) (omega arith) (omega arith) (omega arith) (omega arith)

abbrev long_text : List ℕ
long_text =
    codes
      "0123456789012345678901234567890123456789012345678901234567890123456789012345678901234567890123456789012345678901234567890123456789"

read_pdu_stalls_example :
    read_pdu plain_heap (wire 1 2 long_text []) (length (wire 1 2 long_text [])) ≡ some none
read_pdu_stalls_example =
    read_pdu_stalls plain_heap-IsAllocator 1 2 long_text [] (omega arith) (omega arith)
