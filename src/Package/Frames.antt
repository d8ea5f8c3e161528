-- ===== src/Package/Frames.antt =====
-- A byte stream as a sequence of frames: what a receiver that holds all bytes so far makes of them.
use pluto_server.Prelude.{
  ℕ, zero, suc, ◌≤◌, ◌<◌, ◌≡◌, refl, sym, ap, ◌∙◌, arith, length, take, drop, List, [], ◌∷◌, ◌++◌,
  append_assoc, none, some, take-take, take-append-drop, length-append, length-drop, length-take,
  dec_lt, lt→ltb, Option-cases, inl, inr, take-append,
}
use mathlib.Core.Path.{subst}
use pluto_server.Package.{Package, total_length, get_buffer}
use pluto_server.Package.Framing.{header_of, announced, delivered, frame}
use pluto_server.Package.Body.{drop_within}

header_of-take : (n : ℕ) (buf : List ℕ) → 8 ≤ n → header_of (take n buf) ≡ header_of buf
header_of-take (suc (suc (suc (suc (suc (suc (suc (suc k))))))))
      (b0 ∷ (b1 ∷ (b2 ∷ (b3 ∷ (b4 ∷ (b5 ∷ (b6 ∷ (b7 ∷ rest)))))))) h =
    refl
header_of-take (suc (suc (suc (suc (suc (suc (suc (suc k)))))))) short h = refl
header_of-take few buf h = absurd (omega arith)

-- Only the bytes held count for the frame.
pub frame-take : (buf : List ℕ) (n : ℕ) → frame buf n ≡ frame (take n buf) n
frame-take buf n = elim (dec_lt n 8) [
  | yes short ↦ rw (lt→ltb n 8 short) refl
  | no long ↦ ground (arith, header_of-take n buf (omega arith), take-take (announced buf) n buf)
]

-- A frame: its announced length is positive and held, and its package has that length.
frame-some :
    (buf : List ℕ) (len : ℕ) (p : Package)
    → frame buf len ≡ some p
    → (p ≡ delivered buf (announced buf)) × (8 ≤ len) × (0 < announced buf) × (announced buf ≤ len)
frame-some buf len p e = ground arith

-- More bytes do not change a frame that is there.
pub frame-grows :
    (buf : List ℕ) (len len' : ℕ) (p : Package)
    → frame buf len ≡ some p
    → len ≤ len'
    → frame buf len' ≡ some p
frame-grows buf len len' p e h = ground arith

-- All frames of the bytes held, and what is left, in at most `fuel` rounds.
unfoldable pub frames_in : ℕ → List ℕ → List Package × List ℕ
frames_in zero q = ([], q)
frames_in (suc fuel) q = elim (frame q (length q)) [
  | none ↦ ([], q)
  | some p ↦ (let (ps, rest) = frames_in fuel (drop (total_length p) q) in (p ∷ ps, rest))
]

-- Each frame takes a byte at least, so as many rounds as bytes are enough.
abbrev pub frames : List ℕ → List Package × List ℕ
frames q = frames_in (suc (length q)) q

-- The bytes of a frame on the wire.
abbrev pub wire_bytes : List Package → List ℕ
wire_bytes [] = []
wire_bytes (p ∷ ps) = take (total_length p) (get_buffer p) ++ wire_bytes ps

-- A frame of the bytes held, by its length.
pub record IsFrame (q : List ℕ) (p : Package) : Type 0 where
  pub positive : 0 < total_length p
  pub held : total_length p ≤ length q
  pub same : take (total_length p) (get_buffer p) ≡ take (total_length p) q

pub frame-IsFrame : (q : List ℕ) (p : Package) → frame q (length q) ≡ some p → IsFrame q p
frame-IsFrame q p e =
    let (d, long, pos, held) = frame-some q (length q) p e in
    subst (IsFrame q) (sym d) (record {
      positive = pos;
      held = held;
      same =
          take-append (announced q) (take (announced q) q) (0 ∷ [])
            (omega (arith, length-take (announced q) q));
    })

pub frames_in_step :
    (fuel : ℕ) (q : List ℕ) (p : Package)
    → frame q (length q) ≡ some p
    → frames_in (suc fuel) q ≡ (
      p ∷ (frames_in fuel (drop (total_length p) q)).0,
      (frames_in fuel (drop (total_length p) q)).1,
    )
unfolding frames_in
frames_in_step fuel q p e = rw (e, frames_in) refl

pub frames_in_end : (fuel : ℕ) (q : List ℕ) → frame q (length q) ≡ none → frames_in fuel q ≡ ([], q)
unfolding frames_in
frames_in_end zero q e = refl
frames_in_end (suc fuel) q e = rw (e, frames_in) refl

-- Framing loses no byte: the frames on the wire and then what is left are the bytes held; and what is
-- left holds no frame.
pub frames_in-conserves :
    (fuel : ℕ) (q : List ℕ)
    → length q < fuel
    → (wire_bytes (frames_in fuel q).0 ++ (frames_in fuel q).1 ≡ q)
      × (frame (frames_in fuel q).1 (length (frames_in fuel q).1) ≡ none)
frames_in-conserves zero q h = elim h [ ]
frames_in-conserves (suc fuel) q h = elim (Option-cases (frame q (length q))) [
  | inl e ↦ rw (frames_in_end (suc fuel) q e) (refl, e)
  | inr (p, e) ↦
      let f = frame-IsFrame q p e in
      let rest = drop (total_length p) q in
      let (whole, left) =
        frames_in-conserves fuel rest
          (omega (arith, length-drop (total_length p) q, f.positive, f.held)) in
      rw (frames_in_step fuel q p e) (
        append_assoc (take (total_length p) (get_buffer p)) (wire_bytes (frames_in fuel rest).0)
              (frames_in fuel rest).1
            ∙ ap (λ (bytes : List ℕ). take (total_length p) (get_buffer p) ++ bytes) whole
            ∙ ap (λ (front : List ℕ). front ++ rest) f.same
            ∙ take-append-drop (total_length p) q,
        left,
      )
]

-- More rounds than bytes change nothing.
frames_in_enough :
    (fuel more : ℕ) (q : List ℕ)
    → length q < fuel
    → length q < more
    → frames_in fuel q ≡ frames_in more q
frames_in_enough zero more q h k = elim h [ ]
frames_in_enough (suc fuel) zero q h k = elim k [ ]
frames_in_enough (suc fuel) (suc more) q h k = elim (Option-cases (frame q (length q))) [
  | inl e ↦ frames_in_end (suc fuel) q e ∙ sym (frames_in_end (suc more) q e)
  | inr (p, e) ↦
      let f = frame-IsFrame q p e in
      let shorter : (k' : ℕ) → length q < suc k' → length (drop (total_length p) q) < k' =
        λ k' lt. omega (arith, length-drop (total_length p) q, f.positive, f.held) in
      frames_in_step fuel q p e
      ∙ ap (λ (r : List Package × List ℕ). (p ∷ r.0, r.1))
          (frames_in_enough fuel more (drop (total_length p) q) (shorter fuel h) (shorter more k))
      ∙ sym (frames_in_step more q p e)
]

-- A frame at the front stays there when more bytes come.
frame-append :
    (q more : List ℕ) (p : Package)
    → frame q (length q) ≡ some p
    → frame (q ++ more) (length (q ++ more)) ≡ some p
frame-append q more p e =
    frame-grows (q ++ more) (length q) (length (q ++ more)) p
      (frame-take (q ++ more) (length q)
        ∙ ap (λ (buf : List ℕ). frame buf (length q)) (take-append (length q) q more refl)
        ∙ e)
      (omega (arith, length-append q more))

frames_in-le : (fuel : ℕ) (q : List ℕ) → length (frames_in fuel q).1 ≤ length q
frames_in-le zero q = unfold frames_in in omega arith
frames_in-le (suc fuel) q = elim (Option-cases (frame q (length q))) [
  | inl e ↦ rw (frames_in_end (suc fuel) q e) (omega arith)
  | inr (p, e) ↦
      rw (frames_in_step fuel q p e)
        (omega (arith, frames_in-le fuel (drop (total_length p) q), length-drop (total_length p) q))
]

fragments_in :
    (fuel : ℕ) (q more : List ℕ)
    → length (q ++ more) < fuel
    → frames_in fuel (q ++ more) ≡ (
      (frames_in fuel q).0 ++ (frames_in fuel ((frames_in fuel q).1 ++ more)).0,
      (frames_in fuel ((frames_in fuel q).1 ++ more)).1,
    )
fragments_in zero q more h = elim h [ ]
fragments_in (suc fuel) q more h = elim (Option-cases (frame q (length q))) [
  | inl e ↦ rw (frames_in_end (suc fuel) q e) refl
  | inr (p, e) ↦
      let f = frame-IsFrame q p e in
      let rest = drop (total_length p) q in
      let cut : drop (total_length p) (q ++ more) ≡ rest ++ more =
        drop_within (total_length p) q more f.held in
      let shorter : length (rest ++ more) < fuel = omega (
        arith,
        length-append rest more,
        length-append q more,
        length-drop (total_length p) q,
        f.positive,
        f.held,
      ) in
      let smaller : length ((frames_in fuel rest).1 ++ more) < fuel = omega (
        arith,
        length-append rest more,
        length-append (frames_in fuel rest).1 more,
        frames_in-le fuel rest,
        shorter,
      ) in
      let enough =
        frames_in_enough (suc fuel) fuel ((frames_in fuel rest).1 ++ more) (omega (arith, smaller))
          smaller in
      frames_in_step fuel (q ++ more) p (frame-append q more p e)
      ∙ ap (λ (r : List Package × List ℕ). (p ∷ r.0, r.1))
          (ap (frames_in fuel) cut ∙ fragments_in fuel rest more shorter)
      ∙ sym (rw (frames_in_step fuel q p e, enough) refl)
]

-- Framing does not depend on how the stream was cut up: framing what had come, and then what was left
-- with what came later, gives the frames and the rest of all of it at once.
pub frames-append :
    (q more : List ℕ)
    → frames (q ++ more)
      ≡ ((frames q).0 ++ (frames ((frames q).1 ++ more)).0, (frames ((frames q).1 ++ more)).1)
frames-append q more =
    fragments_in (suc all) q more (omega arith)
    ∙ rw
        (
          frames_in_enough (suc all) (suc (length q)) q (omega (arith, length-append q more))
              (omega arith),
          frames_in_enough (suc all) (suc (length left)) left
              (omega (arith, length-append q more, length-append (frames q).1 more, shorter))
              (omega arith),
        )
        refl
  where
    all : ℕ
    all = length (q ++ more)

    left : List ℕ
    left = (frames q).1 ++ more

    shorter : length (frames q).1 ≤ length q
    shorter = frames_in-le (suc (length q)) q
