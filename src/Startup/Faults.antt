-- ===== src/Startup/Faults.antt =====
-- `Start` of both servers on a configuration that is no configuration, and the workers of the database
-- server without one.
use pluto_server.Prelude.{
  ℕ, ◌^◌, ◌<◌, ◌≡◌, refl, ap, Bool, List, [], Option, none, some, length, Option-cases, inl, inr,
  bind_some, ◌>>=◌,
}
use pluto_server.Prelude.Memory.{Allocator}
use pluto_server.Prelude.Text.{codes}
use pluto_server.Package.Body.{IsText}
use pluto_server.Json
use pluto_server.Json.{CJson, JsonHelper}
use pluto_server.Logger.{Logger}
use pluto_server.MessageQueue.{Message, MessageQueue}
use pluto_server.DbConn.{Mysql}
use pluto_server.Config.{load_file, helper_of, SqlParam, sql_text, get_sql_param}
use pluto_server.Config.Reading.{helper_of-load_file}
use pluto_server.Startup.{start, db_worker_thread}
use pluto_server.Startup.Connecting.{read_helper, item2}

bind_none :
    {A : Type 0} {B : Type 0} {o : Option A} → o ≡ none → (f : A → Option B) → (o >>= f) ≡ none
bind_none e f = ap (λ o. o >>= f) e

-- A configuration file of less than 2 GB that holds no NUL, as a text file holds none, in a block of
-- exactly its size: `Start` of either server reads behind the end of that block. A missing file
-- gives it NULL for a text.
pub start_overruns :
    (c : CJson) (shares : Bool) (name content block : List ℕ) (malloc : ℕ → Option (List ℕ))
    (logger : Logger)
    → length content < 2 ^ 31
    → length block ≡ length content
    → malloc (length content) ≡ some block
    → IsText content
    → (start c shares name (load_file (some content) malloc) logger ≡ none)
      × (start c shares name (load_file none malloc) logger ≡ none)
unfolding start helper_of load_file
start_overruns c shares name content block malloc logger small fits given is_text =
    (bind_none ((helper_of-load_file content block malloc small fits given c).0 is_text) _, refl)

module _ (c : CJson) (root : CJson.Item c) (text : List ℕ) where
  abbrev Unset : Option (JsonHelper (CJson.Item c) × SqlParam) → Type 0
  Unset none = Unit {0}
  Unset (some (h, p)) = p.port ≡ none

  -- One test of `GetSqlParam`: the port stays unset if the text is not there, or by what follows.
  module _ (node : List ℕ)
      (more : JsonHelper (CJson.Item c) → List ℕ → Option (JsonHelper (CJson.Item c) × SqlParam))
      (failed : List ℕ → SqlParam) (unset : (s : List ℕ) → (failed s).port ≡ none) where
    sql_text_missing :
        item2 c root (codes "mysql") node ≡ none
        → Unset (sql_text c node more failed (read_helper c root text))
    unfolding sql_text Json.get_string2 Json.find_item2 Json.parse_get Json.string_of
    sql_text_missing e = rw e (unset [])

    sql_text-Unset :
        ((s : List ℕ) → Unset (more (read_helper c root text) s))
        → Unset (sql_text c node more failed (read_helper c root text))
    unfolding sql_text Json.get_string2 Json.find_item2 Json.parse_get Json.string_of
    sql_text-Unset h = elim (Option-cases (item2 c root (codes "mysql") node)) [
      | inl e ↦ rw e (unset [])
      | inr (i, e) ↦ elim (Option-cases (c.valuestring i)) [
        | inl e1 ↦ rw (e, e1) tt
        | inr (s, e1) ↦ rw (e, e1) (h s)
      ]
    ]

  -- One of the four texts is not there.
  pub data LacksText : Type 0 where
    no_host : item2 c root (codes "mysql") (codes "host") ≡ none → LacksText
    no_user : item2 c root (codes "mysql") (codes "user") ≡ none → LacksText
    no_passwd : item2 c root (codes "mysql") (codes "passwd") ≡ none → LacksText
    no_db : item2 c root (codes "mysql") (codes "db") ≡ none → LacksText

  get_sql_param-Unset : LacksText → Unset (get_sql_param c (read_helper c root text))
  unfolding get_sql_param
  get_sql_param-Unset (no_host e) = sql_text_missing _ _ _ (λ s. refl) e
  get_sql_param-Unset (no_user e) =
      sql_text-Unset _ _ _ (λ s. refl) (λ s. sql_text_missing _ _ _ (λ s. refl) e)
  get_sql_param-Unset (no_passwd e) =
      sql_text-Unset _ _ _ (λ s. refl)
        (λ s. sql_text-Unset _ _ _ (λ s. refl) (λ s. sql_text_missing _ _ _ (λ s. refl) e))
  get_sql_param-Unset (no_db e) =
      sql_text-Unset _ _ _ (λ s. refl)
        (λ s.
          sql_text-Unset _ _ _ (λ s. refl)
            (λ s. sql_text-Unset _ _ _ (λ s. refl) (λ s. sql_text_missing _ _ _ (λ s. refl) e)))

  -- A worker of the database server whose configuration lacks one of the texts that `GetSqlParam` wants
  -- goes on all the same, and reads a port that was never set.
  pub db_worker_thread_unset :
      (heap : Allocator) (client : Mysql) (worker_id : ℕ) (q : MessageQueue) (ms : List Message)
      → LacksText
      → db_worker_thread c heap client
          (record { worker_id = worker_id; json_helper = some (read_helper c root text) })
          q
          ms
        ≡ none
  unfolding db_worker_thread
  db_worker_thread_unset heap client worker_id q ms lacks =
      elim (Option-cases (get_sql_param c (read_helper c root text))) [
        | inl fault ↦ rw fault refl
        | inr ((h, p), reads) ↦
            bind_some reads _ (bind_none (bind_none (rw reads at (get_sql_param-Unset lacks)) _) _)
      ]
