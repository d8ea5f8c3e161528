-- ===== src/Logger/Files.antt =====
-- Which line goes to which file: the stream that is kept open is not seen from outside.
use Prim.Native.Nat.{bit_and}
use mathlib.Core.Bool.{false≢true}
use mathlib.Core.Path.{subst}
use pluto_server.Prelude.{
  ℕ, ◌≡◌, refl, sym, ap, ◌∙◌, ◌==◌, Bool, true, false, branches, List, [], ◌∷◌, ◌++◌, append_assoc,
  append-nil, Option, none, some, some_inj, Option-cases, inl, inr, if◌then◌else◌,
}
use pluto_server.Prelude.TextMap.{text_eq, text_eq_iff}
use pluto_server.Util.{max_log_buff_size}
use pluto_server.Logger.{
  Logger, is_set_path, day_file, file_name, keeps_open, reopen, new_line, put_at, put_line,
  log_text, section_of, log_to_file,
}

-- A call of one of the log functions, with what the C library gives at that time.
pub record LogCall : Type 0 where
  pub log_type : ℕ
  pub day : List ℕ
  pub hmsu : List ℕ
  pub msg : List ℕ

abbrev pub log_call : (List ℕ → Bool) → Logger → LogCall → Logger
log_call opens l call = log_to_file opens l call.log_type call.day call.hmsu call.msg

pub run : (List ℕ → Bool) → Logger → List LogCall → Logger
run opens l [] = l
run opens l (call ∷ calls) = run opens (log_call opens l call) calls

-- The file and the text of a call's line.
abbrev pub entry : List ℕ → List ℕ → LogCall → List ℕ × List ℕ
entry path server call = (
  file_name path server (day_file call.log_type call.day),
  log_text max_log_buff_size call.hmsu (section_of call.log_type) call.msg,
)

-- The entries of the calls that the level lets through, oldest first.
pub entries : List ℕ → List ℕ → ℕ → List LogCall → List (List ℕ × List ℕ)
entries path server level [] = []
entries path server level (call ∷ calls) =
    if bit_and level call.log_type == 0
    then entries path server level calls
    else entry path server call ∷ entries path server level calls

-- The stream is open, if it is, under the name that belongs to `file`.
pub record IsLogging (path server : List ℕ) (level : ℕ) (l : Logger) : Type 0 where
  pub path_is : l.path ≡ path
  pub server_is : l.server_name ≡ server
  pub level_is : l.log_level ≡ level
  pub stream : (name : List ℕ) → l.opened ≡ some name → name ≡ file_name l.path l.server_name l.file

-- What `NewLine` leaves.
record NewLine (l : Logger) (temp : List ℕ) (l' : Logger) : Type 0 where
  path_same : l'.path ≡ l.path
  server_same : l'.server_name ≡ l.server_name
  level_same : l'.log_level ≡ l.log_level
  file_is : l'.file ≡ temp
  opened_is : l'.opened ≡ some (file_name l.path l.server_name temp)
  written_same : l'.written ≡ l.written

keeps_open-some :
    (l : Logger) (temp name : List ℕ)
    → l.opened ≡ some name
    → keeps_open l temp ≡ text_eq l.file temp
unfolding keeps_open
keeps_open-some l temp name e = rw (e, keeps_open) refl

keeps_open-none : (l : Logger) (temp : List ℕ) → l.opened ≡ none → keeps_open l temp ≡ false
unfolding keeps_open
keeps_open-none l temp e = rw (e, keeps_open) refl

kept-NewLine :
    (l : Logger) (temp : List ℕ)
    → ((name : List ℕ) → l.opened ≡ some name → name ≡ file_name l.path l.server_name l.file)
    → keeps_open l temp ≡ true
    → NewLine l temp l
kept-NewLine l temp stream e = elim (Option-cases l.opened) [
  | inl shut ↦ absurd (false≢true (sym (keeps_open-none l temp shut) ∙ e))
  | inr (name, open_as) ↦
      let same : l.file ≡ temp =
        (text_eq_iff l.file temp).0 (sym (keeps_open-some l temp name open_as) ∙ e) in
      record {
        path_same = refl;
        server_same = refl;
        level_same = refl;
        file_is = same;
        opened_is =
            open_as ∙ ap some (stream name open_as ∙ ap (file_name l.path l.server_name) same);
        written_same = refl;
      }
]

module _ {opens : List ℕ → Bool} (works : (name : List ℕ) → opens name ≡ true) where
  reopen-NewLine : (l : Logger) (temp : List ℕ) → NewLine l temp (reopen opens l temp)
  unfolding reopen
  reopen-NewLine l temp = record {
    path_same = refl;
    server_same = refl;
    level_same = refl;
    file_is = refl;
    opened_is = rw (works (file_name l.path l.server_name temp)) refl;
    written_same = refl;
  }

  new_line-NewLine :
      (l : Logger) (log_type : ℕ) (day : List ℕ)
      → ((name : List ℕ) → l.opened ≡ some name → name ≡ file_name l.path l.server_name l.file)
      → NewLine l (day_file log_type day) (new_line opens l log_type day)
  unfolding new_line
  new_line-NewLine l log_type day stream =
      branches (NewLine l (day_file log_type day)) (keeps_open l (day_file log_type day)) l
        (reopen opens l (day_file log_type day)) (kept-NewLine l (day_file log_type day) stream)
        (λ e. reopen-NewLine l (day_file log_type day))

put_line-some :
    (l : Logger) (line name : List ℕ)
    → l.opened ≡ some name
    → put_line l line ≡ record l { written = l.written ++ ((name, line) ∷ []) }
unfolding put_line
put_line-some l line name e = ap (λ (o : Option (List ℕ)). put_at o l line) e

module _ (path server : List ℕ) (level : ℕ) (set : is_set_path path ≡ true) where
  -- One line put after `NewLine`.
  record Logged (l l' : Logger) (at : List ℕ × List ℕ) : Type 0 where
    logging : IsLogging path server level l'
    added : l'.written ≡ l.written ++ (at ∷ [])

  put_line-Logged :
      (l l' : Logger) (temp line : List ℕ)
      → IsLogging path server level l
      → NewLine l temp l'
      → Logged l (put_line l' line) (file_name path server temp, line)
  put_line-Logged l l' temp line v n =
      let name : file_name l.path l.server_name temp ≡ file_name path server temp = cc in
      let opened : l'.opened ≡ some (file_name path server temp) = n.opened_is ∙ ap some name in
      subst (λ x. Logged l x (file_name path server temp, line))
        (sym (put_line-some l' line (file_name path server temp) opened))
        (record {
          logging = record {
            path_is = n.path_same ∙ v.path_is;
            server_is = n.server_same ∙ v.server_is;
            level_is = n.level_same ∙ v.level_is;
            stream = λ other e.
                some_inj (sym e ∙ opened)
                ∙ cc (n.path_same, v.path_is, n.server_same, v.server_is, n.file_is);
          };
          added =
              ap (λ (w : List (List ℕ × List ℕ)). w ++ ((file_name path server temp, line) ∷ []))
                n.written_same;
        })

  -- The logger that has been set up writes each call that its level lets through as one line, in order,
  -- to the file of its day and kind, whichever file was open before, as long as files can be opened.
  pub run-entries :
      {opens : List ℕ → Bool}
      → ((name : List ℕ) → opens name ≡ true)
      → (l : Logger) (calls : List LogCall) → IsLogging path server level l
      → (run opens l calls).written ≡ l.written ++ entries path server level calls
  unfolding run entries log_to_file
  run-entries works l [] v = sym (append-nil l.written)
  run-entries {opens} works l (call ∷ calls) v =
      let line = log_text max_log_buff_size call.hmsu (section_of call.log_type) call.msg in
      let opened = new_line opens l call.log_type call.day in
      let at_level : (bit_and l.log_level call.log_type == 0) ≡ (bit_and level call.log_type == 0) =
        ap (λ (n : ℕ). bit_and n call.log_type == 0) v.level_is in
      branches
        (λ (x : Logger).
          (run opens x calls).written ≡ l.written ++ entries path server level (call ∷ calls))
        (bit_and l.log_level call.log_type == 0) l
        (if is_set_path l.path
          then put_line opened line
          else record l { printed = l.printed ++ (line ∷ []) })
        (λ quiet. rw (sym at_level ∙ quiet) (run-entries works l calls v))
        (λ loud.
          branches
            (λ (x : Logger).
              (run opens x calls).written ≡ l.written ++ entries path server level (call ∷ calls))
            (is_set_path l.path) (put_line opened line)
            (record l { printed = l.printed ++ (line ∷ []) })
            (λ has_path.
              let step =
                put_line-Logged l opened (day_file call.log_type call.day) line v
                  (new_line-NewLine works l call.log_type call.day v.stream) in
              rw (sym at_level ∙ loud) (
                run-entries works (put_line opened line) calls step.logging
                ∙ ap (λ (w : List (List ℕ × List ℕ)). w ++ entries path server level calls)
                    step.added
                ∙ append_assoc l.written _ (entries path server level calls)))
            (λ no_path. absurd (false≢true (sym no_path ∙ ap is_set_path v.path_is ∙ set))))
