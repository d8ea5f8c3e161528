-- ===== src/Tests/Clients.antt =====
-- Concrete libraries: a cJSON whose values are built item by item, and MySQL clients with one answer.
use mathlib.Core.Bool.{false≢true}
use mathlib.Core.Path.{subst}
use pluto_server.Prelude.{
  ℕ, zero, suc, ◌+◌, ◌<◌, ◌++◌, ap, arith, length, ◌≡◌, refl, sym, Bool, Bool-cases, inl, inr, List,
  [], ◌∷◌, Option, none, some, some_inj, if◌then◌else◌, ◌>>=◌,
}
use pluto_server.Prelude.Text.{codes}
use pluto_server.Prelude.TextMap
use pluto_server.Prelude.TextMap.{text_eq}
use pluto_server.Json.{CJson}
use pluto_server.Json.Lookup.{IsCJson, same_name}
use pluto_server.Epoll.Read.Request.{IsRequest}
use pluto_server.DbWorker.Reply.{row_object}
use pluto_server.DbConn.{index_fields, Mysql, MysqlRes}
use pluto_server.DbConn.Columns.{IsDistinct}

-- A value; the items of an object hang on one another.
pub data Value : Type 0 where
  text : List ℕ → Value
  number : ℕ → Value
  end : Value
  item : List ℕ → Value → Value → Value

unfoldable pub lookup : Value → List ℕ → Option Value
lookup (item k v rest) j = let later = lookup rest j in if same_name k j then some v else later
lookup _ j = none

unfoldable pub add_last : Value → List ℕ → Value → Value
add_last (item k v rest) name x = item k v (add_last rest name x)
add_last _ name x = item name x end

unfoldable pub string_in : Value → Option (List ℕ)
string_in (text s) = some s
string_in _ = none

-- The text of a value, with no blanks; its strings hold nothing to escape, and its numbers one digit.
abbrev quoted : List ℕ → List ℕ
quoted s = 34 ∷ (s ++ (34 ∷ []))

abbrev mutual
  pub print : Value → List ℕ
  print (text s) = quoted s
  print (number n) = (48 + n) ∷ []
  print end = codes "{}"
  print (item k v rest) = 123 ∷ (quoted k ++ (58 ∷ (print v ++ print_more rest)))

  -- The other items of an object, and its end.
  pub print_more : Value → List ℕ
  print_more (item k v rest) = 44 ∷ (quoted k ++ (58 ∷ (print v ++ print_more rest)))
  print_more _ = 125 ∷ []

abbrev pub values : CJson
values = record {
  Item = Value;
  create_object = some end;
  parse = λ s. some (item (codes "sql") (text s) end);
  get_object_item = lookup;
  valuestring = string_in;
  valueint = λ v. elim v [ number n ↦ n | _ ↦ 0 ];
  add_string_to_object = λ o name s. add_last o name (text s);
  add_number_to_object = λ o name n. add_last o name (number n);
  print_unformatted = print;
}

found_in : Value → List ℕ → Option (Option (List ℕ))
found_in o j = do i ← lookup o j; some (string_in i)

found-add_last :
    (o : Value) (k s j : List ℕ)
    → found_in (add_last o k (text s)) j ≡ (elim (found_in o j) [
      | none ↦ if same_name k j then some (some s) else none
      | some v ↦ some v
    ])
unfolding found_in lookup add_last string_in
found-add_last (item n v rest) k s j = elim (Bool-cases (same_name n j)) [
  | inl e ↦ rw e refl
  | inr e ↦ rw e (found-add_last rest k s j)
]
found-add_last (text t) k s j = elim (Bool-cases (same_name k j)) [
  | inl e ↦ rw e refl
  | inr e ↦ rw e refl
]
found-add_last (number n) k s j = elim (Bool-cases (same_name k j)) [
  | inl e ↦ rw e refl
  | inr e ↦ rw e refl
]
found-add_last end k s j = elim (Bool-cases (same_name k j)) [
  | inl e ↦ rw e refl
  | inr e ↦ rw e refl
]

pub values-IsCJson : IsCJson values
unfolding found_in lookup
values-IsCJson = record {
  fresh = λ o j e. fresh_of o j (some_inj e);
  added = λ o k s j. found-add_last o k s j;
}
  where
    fresh_of : (o : Value) (j : List ℕ) → end ≡ o → found_in o j ≡ none
    fresh_of o j e = rw (sym e) refl

-- The answer of a query: one row, of a hash with its id.
abbrev pub answer : MysqlRes
answer = record {
  fields = codes "id" ∷ (codes "hash" ∷ []);
  rows = (some (codes "7") ∷ (some (codes "ab") ∷ [])) ∷ [];
}

-- A client that connects and queries as it is told to.
abbrev pub told : Option ℕ → Bool → Mysql
told connection works = record {
  Connection = ℕ;
  init = connection;
  set_options = λ m. m;
  real_connect = λ m param. (m, works);
  ping = λ m. m;
  real_query = λ m sql. (m, works);
  store_result = λ m. (m, some answer);
  affected_rows = λ m. 1;
  insert_id = λ m. 1;
}

pub answer-IsDistinct : IsDistinct answer.fields
unfolding same_name text_eq
answer-IsDistinct zero zero a b ea eb same = refl
answer-IsDistinct (suc zero) (suc zero) a b ea eb same = refl
answer-IsDistinct zero (suc zero) a b ea eb same =
    absurd (false≢true (rw (sym (some_inj ea), sym (some_inj eb)) at same))
answer-IsDistinct (suc zero) zero a b ea eb same =
    absurd (false≢true (rw (sym (some_inj ea), sym (some_inj eb)) at same))
answer-IsDistinct (suc (suc i)) j a b ea eb same = cc
answer-IsDistinct i (suc (suc j)) a b ea eb same = cc

-- The object of that row, and its text.
abbrev pub answer_object : Value
answer_object = row_object values end answer (codes "7" ∷ (codes "ab" ∷ []))

pub answer_text : print answer_object ≡ codes "{\"hash\":\"ab\",\"id\":\"7\"}"
unfolding add_last index_fields TextMap.insert TextMap.text_lt text_eq
answer_text = refl

-- It is short, and the wire carries it as it is.
pub answer_text-length : length (print answer_object) ≡ 22
answer_text-length = ap length answer_text

pub answer_text-IsRequest : (sub_id : ℕ) → sub_id < 128 → IsRequest 1 sub_id (print answer_object)
answer_text-IsRequest sub_id small = subst (IsRequest 1 sub_id) (sym answer_text) (record {
  is_text = omega arith;
  command_small = omega arith;
  sub_small = omega arith;
  plain_length = omega arith;
  plain_command = omega arith;
  plain_sub = omega arith;
  short = omega arith;
})
