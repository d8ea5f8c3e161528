-- ===== src/DbConn/Columns.antt =====
-- `CResultSet`: which column a name stands for.
use mathlib.Core.Bool.{false≢true}
use mathlib.Core.Path.{subst}
use pluto_server.Prelude.{
  ℕ, zero, suc, ◌+◌, ◌<◌, ◌≡◌, refl, sym, ap, ◌∙◌, arith, true, List, [], ◌∷◌, All, map, get_elem?,
  length, ℕ_discrete, none, some, some_inj, Option-cases, Bool-cases, ◌⊎◌, inl, inr,
}
use pluto_server.Prelude.TextMap
use pluto_server.Prelude.TextMap.{text_eq, text_eq_iff, text_eq_self, text_lt}
use pluto_server.Json.Lookup.{same_name, same_name_self}
use pluto_server.DbConn.{index_fields, MysqlRes, new_result_set}

-- No two columns have one name, with no regard to case.
abbrev pub IsDistinct : List (List ℕ) → Type 0
IsDistinct names =
    (i j : ℕ) (a b : List ℕ)
    → get_elem? names i ≡ some a
    → get_elem? names j ≡ some b
    → same_name a b ≡ true
    → i ≡ j

-- An entry is in a map.
abbrev pub Holds : List ℕ → ℕ → List (List ℕ × ℕ) → Type 0
Holds k i [] = ⊥
Holds k i ((j, n) ∷ m) = ((j ≡ k) × (n ≡ i)) ⊎ Holds k i m

-- Each entry is a column and its index, which is below `i`.
abbrev pub AreColumns : List (List ℕ) → ℕ → List (List ℕ × ℕ) → Type 0
AreColumns names i m = All (λ e. (get_elem? names e.1 ≡ some e.0) × (e.1 < i)) m

insert-Holds_new :
    (k : List ℕ) (i : ℕ) (m : List (List ℕ × ℕ))
    → TextMap.find k m ≡ none
    → Holds k i (TextMap.insert k i m)
unfolding TextMap.insert TextMap.find
insert-Holds_new k i [] e = inl (refl, refl)
insert-Holds_new k i ((j, n) ∷ m) e = elim (Bool-cases (text_eq j k)) [
  | inl same ↦ ground (arith, e, same)
  | inr other ↦ rw other (elim (Bool-cases (text_lt k j)) [
    | inl before ↦ rw before (inl (refl, refl))
    | inr after ↦ rw after (inr (insert-Holds_new k i m (ground (arith, e, other))))
  ])
]

insert-Holds_old :
    (k j : List ℕ) (i n : ℕ) (m : List (List ℕ × ℕ))
    → Holds j n m
    → Holds j n (TextMap.insert k i m)
unfolding TextMap.insert
insert-Holds_old k j i n [] h = absurd h
insert-Holds_old k j i n ((l, w) ∷ m) h = elim (Bool-cases (text_eq l k)) [
  | inl same ↦ rw same h
  | inr other ↦ rw other (elim (Bool-cases (text_lt k l)) [
    | inl before ↦ rw before (inr h)
    | inr after ↦
        rw after
          (elim h [ inl here ↦ inl here | inr later ↦ inr (insert-Holds_old k j i n m later) ])
  ])
]

AreColumns-insert :
    (names : List (List ℕ)) (k : List ℕ) (i b : ℕ) (m : List (List ℕ × ℕ))
    → get_elem? names i ≡ some k
    → i < b
    → AreColumns names b m
    → AreColumns names b (TextMap.insert k i m)
unfolding TextMap.insert
AreColumns-insert names k i b [] e h a = ((e, h), tt)
AreColumns-insert names k i b ((l, w) ∷ m) e h a = elim (Bool-cases (text_eq l k)) [
  | inl same ↦ rw same a
  | inr other ↦ rw other (elim (Bool-cases (text_lt k l)) [
    | inl before ↦ rw before ((e, h), a)
    | inr after ↦ rw after (a.0, AreColumns-insert names k i b m e h a.1)
  ])
]

AreColumns-raise :
    (names : List (List ℕ)) (b : ℕ) (m : List (List ℕ × ℕ))
    → AreColumns names b m
    → AreColumns names (suc b) m
AreColumns-raise names b [] a = tt
AreColumns-raise names b ((l, w) ∷ m) a =
    ((a.0.0, omega (arith, a.0.1)), AreColumns-raise names b m a.1)

-- What a search finds is a column of that name.
pub find-column :
    (names : List (List ℕ)) (b : ℕ) (k : List ℕ) (i : ℕ) (m : List (List ℕ × ℕ))
    → AreColumns names b m
    → TextMap.find k m ≡ some i
    → (get_elem? names i ≡ some k) × (i < b)
unfolding TextMap.find
find-column names b k i [] a e = cc
find-column names b k i ((l, w) ∷ m) a e = elim (Bool-cases (text_eq l k)) [
  | inl same ↦
      let at : w ≡ i = some_inj (rw same at e) in
      (
        ap (get_elem? names) (sym at) ∙ a.0.0 ∙ ap some ((text_eq_iff l k).0 same),
        omega (arith, at, a.0.1),
      )
  | inr other ↦ find-column names b k i m a.1 (rw other at e)
]

-- The fields from position `i` on are those of the whole list.
abbrev IsSuffix : List (List ℕ) → ℕ → List (List ℕ) → Type 0
IsSuffix names i fields =
    (t : ℕ) (a : List ℕ) → get_elem? fields t ≡ some a → get_elem? names (i + t) ≡ some a

-- What the constructor has built after the fields up to `i`.
pub record IsIndex (names : List (List ℕ)) (i : ℕ) (m : List (List ℕ × ℕ)) : Type 0 where
  pub columns : AreColumns names i m
  pub all : (n : ℕ) (k : List ℕ) → get_elem? names n ≡ some k → n < i → Holds k n m

new_column :
    (names : List (List ℕ)) (i : ℕ) (name : List ℕ) (m : List (List ℕ × ℕ))
    → IsDistinct names
    → get_elem? names i ≡ some name
    → AreColumns names i m
    → TextMap.find name m ≡ none
new_column names i name m distinct here a = elim (Option-cases (TextMap.find name m)) [
  | inl absent ↦ absent
  | inr (n, e) ↦
      let (there, below) = find-column names i name n m a e in
      absurd (omega (arith, distinct n i name name there here (same_name_self name), below))
]

index_fields-IsIndex :
    (names : List (List ℕ)) (i : ℕ) (fields : List (List ℕ)) (m : List (List ℕ × ℕ))
    → IsDistinct names
    → IsSuffix names i fields
    → IsIndex names i m
    → IsIndex names (i + length fields) (index_fields i fields m)
unfolding index_fields
index_fields-IsIndex names i [] m distinct suffix x =
    let none_left : i + 0 ≡ i = omega arith in rw none_left x
index_fields-IsIndex names i (name ∷ fields) m distinct suffix x =
    let none_left : i + 0 ≡ i = omega arith in
    let here : get_elem? names i ≡ some name = rw none_left at (suffix 0 name refl) in
    let next : IsIndex names (suc i) (TextMap.insert name i m) = record {
      columns =
          AreColumns-insert names name i (suc i) m here (omega arith)
            (AreColumns-raise names i m x.columns);
      all = λ n k e h. elim (ℕ_discrete n i) [
        | yes same ↦
            let k_is : name ≡ k = some_inj (sym here ∙ ap (get_elem? names) (sym same) ∙ e) in
            subst (λ (x : List ℕ × ℕ). Holds x.0 x.1 (TextMap.insert name i m))
              (λ l. (k_is l, sym same l))
              (insert-Holds_new name i m (new_column names i name m distinct here x.columns))
        | no other ↦ insert-Holds_old name k i n m (x.all n k e (omega arith))
      ];
    } in
    let rest =
      index_fields-IsIndex names (suc i) fields (TextMap.insert name i m) distinct
        (λ t a e. let moved : suc i + t ≡ i + suc t = omega arith in rw moved (suffix (suc t) a e))
        next in
    let moved : i + suc (length fields) ≡ suc i + length fields = omega arith in rw moved rest

-- The map that the constructor builds: its entries are the columns, and every column is there.
pub new_result_set-IsIndex :
    (r : MysqlRes)
    → IsDistinct r.fields
    → IsIndex r.fields (length r.fields) (new_result_set r).key_map
new_result_set-IsIndex r distinct =
    let from_start : 0 + length r.fields ≡ length r.fields = omega arith in
    rw (← from_start) (
      index_fields-IsIndex r.fields 0 r.fields [] distinct
        (λ t a e. let same : 0 + t ≡ t = omega arith in rw same e)
        (record { columns = tt; all = λ n k e h. absurd (omega arith) }))

Holds-find :
    (k : List ℕ) (n : ℕ) (m : List (List ℕ × ℕ))
    → Holds k n m
    → (i : ℕ) × (TextMap.find k m ≡ some i)
unfolding TextMap.find
Holds-find k n [] h = absurd h
Holds-find k n ((j, i) ∷ m) h = elim (Bool-cases (text_eq j k)) [
  | inl same ↦ (i, rw same refl)
  | inr other ↦ elim h [
    | inl here ↦ absurd (false≢true (sym other ∙ (text_eq_iff j k).1 here.0))
    | inr later ↦ let (i', e) = Holds-find k n m later in (i', rw other e)
  ]
]

pub get_elem?-lt {ℓ} :
    {A : Type ℓ} (xs : List A) (n : ℕ) (a : A) → get_elem? xs n ≡ some a → n < length xs
get_elem?-lt [] n a e = cc
get_elem?-lt (x ∷ xs) zero a e = omega arith
get_elem?-lt (x ∷ xs) (suc n) a e = omega (arith, get_elem?-lt xs n a e)

-- A column is found under its name.
pub get_index-column :
    (r : MysqlRes) (n : ℕ) (k : List ℕ)
    → IsDistinct r.fields
    → get_elem? r.fields n ≡ some k
    → TextMap.find k (new_result_set r).key_map ≡ some n
get_index-column r n k distinct e =
    let x = new_result_set-IsIndex r distinct in
    let (i, found) =
      Holds-find k n (new_result_set r).key_map (x.all n k e (get_elem?-lt r.fields n k e)) in
    let (there, below) =
      find-column r.fields (length r.fields) k i (new_result_set r).key_map x.columns found in
    found ∙ ap some (distinct i n k k there e (same_name_self k))

pub get_elem?-map {ℓ κ} :
    {A : Type ℓ} {B : Type κ} (f : A → B) (xs : List A) (n : ℕ) (a : A)
    → get_elem? xs n ≡ some a
    → get_elem? (map f xs) n ≡ some (f a)
get_elem?-map f [] n a e = cc
get_elem?-map f (x ∷ xs) zero a e = ap some (ap f (some_inj e))
get_elem?-map f (x ∷ xs) (suc n) a e = get_elem?-map f xs n a e

pub get_elem?-exists {ℓ κ} :
    {A : Type ℓ} {B : Type κ} (xs : List A) (ys : List B) (n : ℕ) (a : A)
    → length ys ≡ length xs
    → get_elem? xs n ≡ some a
    → (b : B) × (get_elem? ys n ≡ some b)
get_elem?-exists [] ys n a h e = cc
get_elem?-exists (x ∷ xs) [] n a h e = absurd (omega arith)
get_elem?-exists (x ∷ xs) (y ∷ ys) zero a h e = (y, refl)
get_elem?-exists (x ∷ xs) (y ∷ ys) (suc n) a h e = get_elem?-exists xs ys n a (omega arith) e
