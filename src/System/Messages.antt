-- ===== src/System/Messages.antt =====
-- What stands in the queues of a running server: messages that their receivers handle without fault.
use mathlib.Core.Path.{subst}
use pluto_server.Prelude.{
  ℕ, zero, suc, ◌%◌, ◌^◌, ◌≤◌, ◌≡◌, refl, sym, ap, ◌∙◌, arith, List, [], ◌∷◌, ◌++◌, All, Option,
  none, some, some_inj, Option-cases, inl, inr, length, length-append, drop, take,
}
use pluto_server.Package.{Package, body_text, total_length}
use pluto_server.Package.Framing.{frame, announced}
use pluto_server.Package.RoundTrip.{message}
use pluto_server.Package.Frames.{frames_in, frames_in_step, frames_in_end}
use pluto_server.Package.Body.{before_nul, frame-delivered, delivered-body_text}
use pluto_server.MessageQueue.{
  Message, MessageQueue, as_pack, mq2s_push, mq2c_push_timer, push_mq2c, pack,
}
use pluto_server.MessageQueue.Typed.{
  ToWorker, client_pack, connector_pack, to_client, to_connector, to_all, All-snoc,
}
use pluto_server.Util.{
  FdType, fd_type_server, fd_type_connect, mq_type_pack, mq_type_connect, sql_query, sql_update,
}
use pluto_server.Epoll.Read.{push_package}
use pluto_server.Epoll.Read.Deliver.{push_packages}
use pluto_server.Epoll.Sound.Load.{Sendable, IsHeld}
use pluto_server.GameWorker.{Native, call_client, broad_cast, add_timer, on_load, on_save, log_text}
use pluto_server.GameWorker.Calls.{HasText}
use pluto_server.GameWorker.Natives.{Pushes}

-- A message that a worker hands to its script without fault.
abbrev pub Receivable : Message → Type 0
Receivable m = ToWorker m × HasText m

pub record IsReady (q : MessageQueue) : Type 0 where
  pub workers : All Receivable q.mq2s
  pub loop : All Sendable q.mq2c

-- The body of a package is a text.
abbrev pub HasBody : Package → Type 0
HasBody p = (body : List ℕ) × (body_text p ≡ some body)

frame-HasBody :
    (q : List ℕ) (p : Package) → frame q (length q) ≡ some p → 8 ≤ total_length p → HasBody p
frame-HasBody q p e long =
    let (d, held) = frame-delivered q p e in
    let far : 8 ≤ announced q = omega (arith, ap total_length d, long) in
    subst HasBody (sym d) (
      before_nul (drop 8 (take (announced q) q)),
      delivered-body_text q (announced q) held ∙ ground (arith, far),
    )

-- The frames of a stream that announce a header at least have bodies.
pub frames_in-HasBody :
    (fuel : ℕ) (q : List ℕ)
    → All (λ p. 8 ≤ total_length p) (frames_in fuel q).0
    → All HasBody (frames_in fuel q).0
unfolding frames_in
frames_in-HasBody zero q h = tt
frames_in-HasBody (suc fuel) q h = elim (Option-cases (frame q (length q))) [
  | inl e ↦ rw (frames_in_end (suc fuel) q e) tt
  | inr (p, e) ↦
      let rest = drop (total_length p) q in
      let all : All (λ p. 8 ≤ total_length p) (p ∷ (frames_in fuel rest).0) =
        subst (λ (fs : List Package × List ℕ). All (λ p. 8 ≤ total_length p) fs.0)
          (frames_in_step fuel q p e) h in
      rw (frames_in_step fuel q p e) (frame-HasBody q p e all.0, frames_in-HasBody fuel rest all.1)
]

message-Receivable :
    (uniqid : Option ℕ) (kind : ℕ) (p : Package)
    → HasBody p
    → HasText (record { uniqid = uniqid; payload = pack p; kind = kind })
message-Receivable uniqid kind p (body, e) p' e' =
    (body, ap body_text (some_inj (sym (ap as_pack e'))) ∙ e)

push_package-IsReady :
    (q : MessageQueue) (fdtype : FdType) (fd : ℕ) (p : Package)
    → HasBody p
    → IsReady q
    → IsReady (push_package q fdtype fd p)
unfolding mq2s_push
push_package-IsReady q fd_type_server fd p body v = record {
  workers =
      All-snoc Receivable q.mq2s _ v.workers
        (client_pack fd p refl refl refl, message-Receivable (some fd) mq_type_pack p body);
  loop = v.loop;
}
push_package-IsReady q fd_type_connect fd p body v = record {
  workers =
      All-snoc Receivable q.mq2s _ v.workers
        (connector_pack p refl refl, message-Receivable (some 0) mq_type_connect p body);
  loop = v.loop;
}

pub push_packages-IsReady :
    (q : MessageQueue) (fdtype : FdType) (fd : ℕ) (ps : List Package)
    → All HasBody ps
    → IsReady q
    → IsReady (push_packages q fdtype fd ps)
push_packages-IsReady q fdtype fd [] h v = v
push_packages-IsReady q fdtype fd (p ∷ ps) h v =
    push_packages-IsReady (push_package q fdtype fd p) fdtype fd ps h.1
      (push_package-IsReady q fdtype fd p h.0 v)

absurd_pack :
    {A : Type 0} (m : Message) (p : Package) → as_pack m.payload ≡ none → m.payload ≡ pack p → A
absurd_pack m p other e = let never : none ≡ some p = sym other ∙ ap as_pack e in cc

-- A message without a package.
pub push_other-IsReady :
    (q : MessageQueue) (m : Message)
    → ToWorker m
    → as_pack m.payload ≡ none
    → IsReady q
    → IsReady (record q { mq2s = q.mq2s ++ (m ∷ []) })
push_other-IsReady q m typed other v = record {
  workers = All-snoc Receivable q.mq2s m v.workers (typed, λ p e. absurd_pack m p other e);
  loop = v.loop;
}

pushed-IsReady : (q : MessageQueue) (m : Message) → Sendable m → IsReady q → IsReady (push_mq2c q m)
pushed-IsReady q m ok v = record {
  workers = v.workers;
  loop = All-snoc Sendable q.mq2c m v.loop ok;
}

message-IsHeld : (c s : ℕ) (text : List ℕ) (spare : ℕ) → IsHeld (message c s text spare)
message-IsHeld c s text spare = omega (arith, length-append text (spare ∷ []))

-- What a script pushes, the event loop can carry out.
pub Pushes-IsReady : (q r : MessageQueue) (n : Native) → Pushes q n r → IsReady q → IsReady r
unfolding mq2c_push_timer
Pushes-IsReady q r (call_client none) p v = subst IsReady (sym p) v
Pushes-IsReady q r (call_client (some (u, c, s, text))) (spare, p) v = subst IsReady (sym p) (
    pushed-IsReady q _
      (to_client u _ refl refl refl, message-IsHeld (c % 2 ^ 16) (s % 2 ^ 16) text spare) v)
Pushes-IsReady q r (broad_cast none) p v = subst IsReady (sym p) v
Pushes-IsReady q r (broad_cast (some (c, s, all, text, ids))) (spare, numbers, are, p) v =
    subst IsReady (sym p) (
      pushed-IsReady q _ (to_all _ refl refl, message-IsHeld (c % 2 ^ 16) (s % 2 ^ 16) text spare)
        v)
Pushes-IsReady q r (add_timer none) p v = subst IsReady (sym p) v
Pushes-IsReady q r (add_timer (some t)) p v = subst IsReady (sym p) v
Pushes-IsReady q r (on_load none) p v = subst IsReady (sym p) v
Pushes-IsReady q r (on_load (some (i, text))) (spare, p) v = subst IsReady (sym p) (
    pushed-IsReady q _ (to_connector _ refl refl, message-IsHeld sql_query (i % 2 ^ 16) text spare)
      v)
Pushes-IsReady q r (on_save none) p v = subst IsReady (sym p) v
Pushes-IsReady q r (on_save (some text)) (spare, p) v =
    subst IsReady (sym p)
      (pushed-IsReady q _ (to_connector _ refl refl, message-IsHeld sql_update 0 text spare) v)
Pushes-IsReady q r (log_text none) p v = subst IsReady (sym p) v
Pushes-IsReady q r (log_text (some (kind, str))) p v = subst IsReady (sym p) v
