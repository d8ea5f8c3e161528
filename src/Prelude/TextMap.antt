-- ===== src/Prelude/TextMap.antt =====
-- `std::map` from texts: an association list in the order of the keys. `insert` keeps what is there.
use Prim.Native.Nat.{ℕ}
use mathlib.Core.Path.{◌≡◌, refl, ◌∙◌}
use mathlib.Core.Logic.{◌↔◌, inl, inr}
use mathlib.Core.Bool.{Bool, true, false, ◌&&◌}
use mathlib.Core.List.{List, [], ◌∷◌}
use mathlib.Core.Option.{Option, none, some}
use native.Mathlib.Omega.{arith}
use pluto_server.Prelude.Tests.{ltb, ◌==◌, if◌then◌else◌, Bool-cases}
use pluto_server.Prelude.Lists.{All}

unfoldable pub text_eq : List ℕ → List ℕ → Bool
text_eq [] [] = true
text_eq [] (c ∷ t) = false
text_eq (c ∷ s) [] = false
text_eq (c ∷ s) (d ∷ t) = c == d && text_eq s t

-- The order of `std::string`, by the bytes.
unfoldable pub text_lt : List ℕ → List ℕ → Bool
text_lt s [] = false
text_lt [] (d ∷ t) = true
text_lt (c ∷ s) (d ∷ t) = if c == d then text_lt s t else ltb c d

pub text_eq_iff : (s t : List ℕ) → (text_eq s t ≡ true) ↔ (s ≡ t)
unfolding text_eq
text_eq_iff [] [] = ground arith
text_eq_iff [] (d ∷ t) = ground arith
text_eq_iff (c ∷ s) [] = ground arith
text_eq_iff (c ∷ s) (d ∷ t) = ground (arith, text_eq_iff s t)

pub text_eq_self : (s : List ℕ) → text_eq s s ≡ true
text_eq_self s = (text_eq_iff s s).1 refl

-- Of two texts one is first, or they are the same.
pub text_lt_total : (s t : List ℕ) → text_lt s t ≡ false → text_eq s t ≡ false → text_lt t s ≡ true
unfolding text_lt text_eq
text_lt_total [] [] h k = ground arith
text_lt_total [] (d ∷ t) h k = ground arith
text_lt_total (c ∷ s) [] h k = refl
text_lt_total (c ∷ s) (d ∷ t) h k = ground (arith, text_lt_total s t)

pub text_lt_trans : (s t u : List ℕ) → text_lt s t ≡ true → text_lt t u ≡ true → text_lt s u ≡ true
unfolding text_lt
text_lt_trans s [] u h k = ground arith
text_lt_trans s (d ∷ t) [] h k = ground arith
text_lt_trans [] (d ∷ t) (e ∷ u) h k = refl
text_lt_trans (c ∷ s) (d ∷ t) (e ∷ u) h k = ground (arith, text_lt_trans s t u)

pub text_lt_irrefl : (s : List ℕ) → text_lt s s ≡ false
unfolding text_lt
text_lt_irrefl [] = refl
text_lt_irrefl (c ∷ s) = ground (arith, text_lt_irrefl s)

pub text_eq_sym : (s t : List ℕ) → text_eq s t ≡ text_eq t s
unfolding text_eq
text_eq_sym [] [] = refl
text_eq_sym [] (d ∷ t) = refl
text_eq_sym (c ∷ s) [] = refl
text_eq_sym (c ∷ s) (d ∷ t) = ground (arith, text_eq_sym s t)

module _ {ℓ} {V : Type ℓ} where
  unfoldable pub find : List ℕ → List (List ℕ × V) → Option V
  find k [] = none
  find k ((j, v) ∷ m) = if text_eq j k then some v else find k m

  unfoldable pub insert : List ℕ → V → List (List ℕ × V) → List (List ℕ × V)
  insert k v [] = (k, v) ∷ []
  insert k v ((j, w) ∷ m) =
      if text_eq j k
      then (j, w) ∷ m
      else (if text_lt k j then (k, v) ∷ ((j, w) ∷ m) else (j, w) ∷ insert k v m)

  -- All keys come behind `k`.
  abbrev pub Behind : List ℕ → List (List ℕ × V) → Type 0
  Behind k m = All (λ e. text_lt k e.0 ≡ true) m

  abbrev pub IsSorted : List (List ℕ × V) → Type 0
  IsSorted [] = Unit {0}
  IsSorted ((j, w) ∷ m) = Behind j m × IsSorted m

  Behind-insert :
      (j k : List ℕ) (v : V) (m : List (List ℕ × V))
      → text_lt j k ≡ true
      → Behind j m
      → Behind j (insert k v m)
  unfolding insert
  Behind-insert j k v [] h b = (h, tt)
  Behind-insert j k v ((i, w) ∷ m) h b = elim (Bool-cases (text_eq i k)) [
    | inl same ↦ rw same b
    | inr other ↦ rw other (elim (Bool-cases (text_lt k i)) [
      | inl before ↦ rw before (h, b)
      | inr after ↦ rw after (b.0, Behind-insert j k v m h b.1)
    ])
  ]

  Behind-earlier :
      (j k : List ℕ) (m : List (List ℕ × V)) → text_lt j k ≡ true → Behind k m → Behind j m
  Behind-earlier j k [] h b = tt
  Behind-earlier j k ((i, w) ∷ m) h b = (text_lt_trans j k i h b.0, Behind-earlier j k m h b.1)

  pub insert-IsSorted :
      (k : List ℕ) (v : V) (m : List (List ℕ × V)) → IsSorted m → IsSorted (insert k v m)
  unfolding insert
  insert-IsSorted k v [] h = (tt, tt)
  insert-IsSorted k v ((i, w) ∷ m) h = elim (Bool-cases (text_eq i k)) [
    | inl same ↦ rw same h
    | inr other ↦ rw other (elim (Bool-cases (text_lt k i)) [
      | inl before ↦ rw before ((before, Behind-earlier k i m before h.0), h)
      | inr after ↦ rw after (
        Behind-insert i k v m (text_lt_total k i after (text_eq_sym k i ∙ other)) h.0,
        insert-IsSorted k v m h.1,
      )
    ])
  ]

  find-Behind : (k : List ℕ) (m : List (List ℕ × V)) → Behind k m → find k m ≡ none
  unfolding find
  find-Behind k [] b = refl
  find-Behind k ((i, w) ∷ m) b = ground (arith, text_eq_iff i k, text_lt_irrefl k, find-Behind k m)

  pub find-insert :
      (k j : List ℕ) (v : V) (m : List (List ℕ × V))
      → IsSorted m
      → find j (insert k v m)
        ≡ (if text_eq k j then (elim (find k m) [ none ↦ some v | some w ↦ some w ]) else find j m)
  unfolding find insert
  find-insert k j v [] h = ground arith
  find-insert k j v ((i, w) ∷ m) h = elim (Bool-cases (text_eq i k)) [
    | inl same ↦ rw same (ground (arith, text_eq_iff i k, text_eq_iff k j, text_eq_iff i j))
    | inr other ↦ rw other (elim (Bool-cases (text_lt k i)) [
      | inl before ↦
          let absent : find k m ≡ none = find-Behind k m (Behind-earlier k i m before h.0) in
          rw (before, absent) refl
      | inr after ↦ rw after (
          ground
            (arith, text_eq_iff i k, text_eq_iff k j, text_eq_iff i j, find-insert k j v m h.1))
    ])
  ]
