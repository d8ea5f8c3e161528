-- ===== src/GameWorker/Natives.antt =====
-- What the script's calls back do to the queues.
use pluto_server.Prelude.{
  ℕ, ◌+◌, ◌%◌, ◌^◌, ◌<◌, ◌≡◌, refl, Bool, List, [], ◌∷◌, All, none, some, length, bind_some,
}
use pluto_server.Prelude.Memory.{Allocator, IsAllocator}
use pluto_server.Package.{new_package}
use pluto_server.Package.RoundTrip.{message, set_msg-message}
use pluto_server.MessageQueue.{
  Message, MessageQueue, pack, broad, broadcast_ids, push_mq2c, mq2c_push, mq2c_push_broadcast,
  mq2c_push_connector,
}
use pluto_server.Util.{mq_type_pack, mq_type_connect, mq_type_broadcast, sql_query, sql_update}
use pluto_server.GameWorker.{
  Native, call_client, broad_cast, add_timer, on_load, on_save, log_text, Returned, returned,
  is_positive, run_native, run_natives,
}

-- The texts that are sent fit 32 bits with their header, the list of a broadcast to some holds numbers that
-- fit an `int`, and no timer is asked for.
abbrev pub Fits : Native → Type 0
Fits (call_client (some (u, c, s, text))) = 9 + length text < 2 ^ 32
Fits (broad_cast (some (c, s, all, text, ids))) =
    (9 + length text < 2 ^ 32)
    × ((numbers : List ℕ) × (broadcast_ids (is_positive all) ids ≡ some numbers))
Fits (add_timer (some _)) = ⊥
Fits (on_load (some (i, text))) = 9 + length text < 2 ^ 32
Fits (on_save (some text)) = 9 + length text < 2 ^ 32
Fits _ = Unit {0}

-- A message to a client, to a connected server, and to many clients.
abbrev pub to_client : ℕ → ℕ → ℕ → List ℕ → ℕ → Message
to_client uniqid command_id sub_id text spare = record {
  uniqid = some uniqid;
  payload = pack (message (command_id % 2 ^ 16) (sub_id % 2 ^ 16) text spare);
  kind = mq_type_pack;
}

abbrev pub to_server : ℕ → ℕ → List ℕ → ℕ → Message
to_server command_id sub_id text spare = record {
  uniqid = some 0;
  payload = pack (message command_id sub_id text spare);
  kind = mq_type_connect;
}

abbrev pub to_many : ℕ → ℕ → Bool → List ℕ → List ℕ → ℕ → Message
to_many command_id sub_id all text numbers spare = record {
  uniqid = some 0;
  payload = broad (record {
    pack = message (command_id % 2 ^ 16) (sub_id % 2 ^ 16) text spare;
    all = all;
    uniqids = numbers;
  });
  kind = mq_type_broadcast;
}

-- What each call back pushes.
abbrev pub Pushes : MessageQueue → Native → MessageQueue → Type 0
Pushes q (call_client (some (u, c, s, text))) r =
    (spare : ℕ) × (r ≡ push_mq2c q (to_client u c s text spare))
Pushes q (broad_cast (some (c, s, all, text, ids))) r =
    (spare : ℕ) × (numbers : List ℕ) × (broadcast_ids (is_positive all) ids ≡ some numbers)
    × (r ≡ push_mq2c q (to_many c s (is_positive all) text numbers spare))
Pushes q (on_load (some (i, text))) r =
    (spare : ℕ) × (r ≡ push_mq2c q (to_server sql_query (i % 2 ^ 16) text spare))
Pushes q (on_save (some text)) r =
    (spare : ℕ) × (r ≡ push_mq2c q (to_server sql_update 0 text spare))
Pushes q _ r = r ≡ q

unfoldable pub PushesAll : MessageQueue → List Native → MessageQueue → Type 0
PushesAll q [] r = r ≡ q
PushesAll q (n ∷ ns) r = (mid : MessageQueue) × Pushes q n mid × PushesAll mid ns r

module _ {heap : Allocator} (good : IsAllocator heap) where
  -- A call back whose text fits does not fault, and pushes what it says.
  pub run_native-Pushes :
      (q : MessageQueue) (n : Native)
      → Fits n
      → (r : Returned) × (run_native heap q n ≡ some r) × Pushes q n r.queue
  unfolding run_native mq2c_push mq2c_push_broadcast mq2c_push_connector
  run_native-Pushes q (call_client none) h = (_, refl, refl)
  run_native-Pushes q (call_client (some (u, c, s, text))) h =
      let (spare, e) = set_msg-message good (new_package 0) (c % 2 ^ 16) (s % 2 ^ 16) text h in
      (returned (push_mq2c q (to_client u c s text spare)), rw e refl, (spare, refl))
  run_native-Pushes q (broad_cast none) h = (_, refl, refl)
  run_native-Pushes q (broad_cast (some (c, s, all, text, ids))) h =
      let (spare, e) = set_msg-message good (new_package 0) (c % 2 ^ 16) (s % 2 ^ 16) text h.0 in
      let (numbers, are) = h.1 in
      (
        returned (push_mq2c q (to_many c s (is_positive all) text numbers spare)),
        rw (e, are) refl,
        (spare, numbers, are, refl),
      )
  run_native-Pushes q (add_timer none) h = (_, refl, refl)
  run_native-Pushes q (add_timer (some t)) h = absurd h
  run_native-Pushes q (on_load none) h = (_, refl, refl)
  run_native-Pushes q (on_load (some (i, text))) h =
      let (spare, e) = set_msg-message good (new_package 0) sql_query (i % 2 ^ 16) text h in
      (
        returned (push_mq2c q (to_server sql_query (i % 2 ^ 16) text spare)),
        rw e refl,
        (spare, refl),
      )
  run_native-Pushes q (on_save none) h = (_, refl, refl)
  run_native-Pushes q (on_save (some text)) h =
      let (spare, e) = set_msg-message good (new_package 0) sql_update 0 text h in
      (returned (push_mq2c q (to_server sql_update 0 text spare)), rw e refl, (spare, refl))
  run_native-Pushes q (log_text none) h = (_, refl, refl)
  run_native-Pushes q (log_text (some (kind, str))) h = (_, refl, refl)

  -- Calls back whose texts fit do not fault, and push what they say, in order.
  pub run_natives-PushesAll :
      (q : MessageQueue) (ns : List Native)
      → All Fits ns
      → (r : MessageQueue) × (run_natives heap q ns ≡ some r) × PushesAll q ns r
  unfolding run_natives PushesAll
  run_natives-PushesAll q [] h = (q, refl, refl)
  run_natives-PushesAll q (n ∷ ns) h =
      let (r, runs, p) = run_native-Pushes q n h.0 in
      let (last, rest, ps) = run_natives-PushesAll r.queue ns h.1 in
      (last, bind_some runs _ rest, (r.queue, p, ps))
