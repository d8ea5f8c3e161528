-- ===== src/Util/Split.antt =====
-- `split` of util.cpp, and what its callers get for an empty text.
use pluto_server.Prelude.{
  ℕ, suc, ◌+◌, ◌≡◌, refl, ap, List, [], ◌∷◌, ◌++◌, append_assoc, arith, ◌==◌, if◌then◌else◌,
  Bool-cases, length, drop, inl, inr, All,
}
use pluto_server.Util.{one_of, split_from, split}

-- Each field behind a separator.
abbrev pub led_by : ℕ → List (List ℕ) → List ℕ
led_by sep [] = []
led_by sep (field ∷ fields) = sep ∷ (field ++ led_by sep fields)

-- The fields with a separator between any two.
abbrev pub join : ℕ → List (List ℕ) → List ℕ
join sep fields = drop 1 (led_by sep fields)

abbrev pub count_of : ℕ → List ℕ → ℕ
count_of sep [] = 0
count_of sep (c ∷ s) = if c == sep then suc (count_of sep s) else count_of sep s

-- A text in which the separator does not occur.
abbrev pub IsFree : ℕ → List ℕ → Type 0
IsFree sep s = count_of sep s ≡ 0

count_of-append : (sep : ℕ) (s t : List ℕ) → count_of sep (s ++ t) ≡ count_of sep s + count_of sep t
count_of-append sep [] t = omega arith
count_of-append sep (c ∷ s) t = ground (arith, count_of-append sep s t)

module _ (sep : ℕ) where
  led_by-split_from :
      (field s : List ℕ) → led_by sep (split_from (sep ∷ []) field s) ≡ sep ∷ (field ++ s)
  unfolding split_from one_of
  led_by-split_from field [] = refl
  led_by-split_from field (c ∷ s) = elim (Bool-cases (c == sep)) [
    | inl e ↦ ground (arith, led_by-split_from [] s)
    | inr e ↦ ground (arith, led_by-split_from (field ++ (c ∷ [])) s, append_assoc field (c ∷ []) s)
  ]

  length-split_from :
      (field s : List ℕ) → length (split_from (sep ∷ []) field s) ≡ suc (count_of sep s)
  unfolding split_from one_of
  length-split_from field [] = refl
  length-split_from field (c ∷ s) =
      ground (arith, length-split_from [] s, length-split_from (field ++ (c ∷ [])) s)

  split_from-IsFree :
      (field s : List ℕ) → IsFree sep field → All (IsFree sep) (split_from (sep ∷ []) field s)
  unfolding split_from one_of
  split_from-IsFree field [] h = (h, tt)
  split_from-IsFree field (c ∷ s) h = elim (Bool-cases (c == sep)) [
    | inl e ↦ rw e (h, split_from-IsFree [] s refl)
    | inr e ↦ rw e (
        split_from-IsFree (field ++ (c ∷ [])) s
          (ground (arith, count_of-append sep field (c ∷ []))))
  ]

-- Splitting at one separator, such as the comma of every caller: the fields joined again give the
-- text, no field holds the separator, and there is one field more than there are separators. So the
-- empty text gives one empty field.
pub split_lem :
    (sep : ℕ) (s : List ℕ)
    → (join sep (split s (sep ∷ [])) ≡ s)
      × All (IsFree sep) (split s (sep ∷ []))
      × (length (split s (sep ∷ [])) ≡ suc (count_of sep s))
unfolding split
split_lem sep s = (
  ap (drop 1) (led_by-split_from sep [] s),
  split_from-IsFree sep [] s refl,
  length-split_from sep [] s,
)
