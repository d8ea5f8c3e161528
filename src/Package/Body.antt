-- ===== src/Package/Body.antt =====
-- The body of a package as a text: the bytes behind the header up to the first NUL.
use pluto_server.Prelude.{
  ℕ, zero, suc, ◌+◌, ◌≤◌, ◌<◌, ◌≡◌, ◌≢◌, refl, ap, arith, length, take, drop, List, [], ◌∷◌, ◌++◌,
  none, some, some_inj, All, sym, ◌∙◌, ◌==◌, ◌^◌, if◌then◌else◌, leb, dec_lt, drop_all,
  length-append, length-take,
}
use pluto_server.Package.{c_string, body_text}
use pluto_server.Prelude.Memory.{Allocator, IsAllocator}
use pluto_server.Package.{Package, read_pdu, total_length}
use pluto_server.Package.Framing.{delivered, frame, announced, read_pdu-frame}

-- A text as C holds it: no NUL inside.
abbrev pub IsText : List ℕ → Type 0
IsText = All (λ c. c ≢ 0)

pub c_string-IsText : (text more : List ℕ) → IsText text → c_string (text ++ (0 ∷ more)) ≡ some text
unfolding c_string
c_string-IsText [] more h = refl
c_string-IsText (c ∷ text) more h = ground (arith, c_string-IsText text more h.1)

-- The bytes before the first NUL, or all of them.
pub before_nul : List ℕ → List ℕ
before_nul [] = []
before_nul (c ∷ xs) = if c == 0 then [] else c ∷ before_nul xs

-- A block that ends in a NUL holds a text.
c_string_ends : (xs : List ℕ) → c_string (xs ++ (0 ∷ [])) ≡ some (before_nul xs)
unfolding c_string before_nul
c_string_ends [] = refl
c_string_ends (c ∷ xs) = ground (arith, c_string_ends xs)

pub drop_within {ℓ} :
    {A : Type ℓ} (n : ℕ) (xs ys : List A) → n ≤ length xs → drop n (xs ++ ys) ≡ drop n xs ++ ys
drop_within zero xs ys h = refl
drop_within (suc n) [] ys h = elim h [ ]
drop_within (suc n) (x ∷ xs) ys h = drop_within n xs ys (omega arith)

pub delivered-body_text :
    (buf : List ℕ) (n : ℕ)
    → n ≤ length buf
    → body_text (delivered buf n)
      ≡ (if leb 8 n then some (before_nul (drop 8 (take n buf))) else none)
unfolding body_text c_string
delivered-body_text buf n h = elim (dec_lt n 8) [
  | yes short ↦
      ap c_string (
        drop_all 8 (take n buf ++ (0 ∷ []))
          (omega (arith, length-append (take n buf) (0 ∷ []), length-take n buf)))
      ∙ ground (arith, short)
  | no long ↦
      rw (drop_within 8 (take n buf) (0 ∷ []) (omega (arith, length-take n buf)))
        (c_string_ends (drop 8 (take n buf)) ∙ ground (arith, long))
]

pub frame-delivered :
    (buf : List ℕ) (p : Package)
    → frame buf (length buf) ≡ some p
    → (p ≡ delivered buf (announced buf)) × (announced buf ≤ length buf)
frame-delivered buf p e = ground arith

-- The body of a package that `ReadPdu` delivers of bytes held: where the length announced is 8 or more
-- it is the bytes behind the header, up to the first NUL among them or the end of the package. Of the
-- lengths 1 to 7, which `ReadPdu` delivers too, there is no body: its pointer lies behind the block.
pub read_pdu-body_text :
    {heap : Allocator}
    → IsAllocator heap
    → (buf : List ℕ) (p : Package) → length buf + 1 < 2 ^ 32
    → read_pdu heap buf (length buf) ≡ some (some p)
    → body_text p ≡ (
        if leb 8 (total_length p)
        then some (before_nul (drop 8 (take (total_length p) buf)))
        else none)
read_pdu-body_text good buf p small e =
    let framed : frame buf (length buf) ≡ some p =
      some_inj (sym (read_pdu-frame good buf (length buf) (omega arith) small) ∙ e) in
    let (d, held) = frame-delivered buf p framed in
    rw d (delivered-body_text buf (announced buf) held)
