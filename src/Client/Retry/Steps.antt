-- ===== src/Client/Retry/Steps.antt =====
-- The invariant of the retry timer over all events.
use mathlib.Core.Bool.{true≢false}
use node_ipc.Base.{
  ◌≡◌, refl, sym, ap, ◌∙◌, ℕ, Bool, true, false, List, [], ◌∷◌, none, if◌then◌else◌, arith,
}
use node_ipc.Text.{Text}
use node_ipc.Outcome.{Outcome, returned, threw, and_then}
use node_ipc.Config.{Config}
use node_ipc.Parser.{Parser}
use node_ipc.Client.{Client, Pending, publish, nothing, decrement, new_client}
use node_ipc.Client.Sending.{write_socket, emit}
use node_ipc.Client.Receiving.{destroy}
use node_ipc.Client.Connection.{remove_timer, connect, retry}
use node_ipc.Client.Events.{
  Event, connects, arrives, errors, drains, closes, retry_fires, message_fires, runs_job, emits,
  reconnects, drops, subscribes, Enabled, is_pending, forget_timer, step, History, begin, next,
}
use node_ipc.Client.Steady.{
  Same-refl, Same-subscribes, Same-on_data, Same-on_error, Same-mark_drained,
  Same-message_timer_fired,
}
use node_ipc.Client.Steady.Sending.{Same-write_socket, Same-emit}
use node_ipc.Client.Retry.{Idle, Inv, idle, scheduled, Inv-Same, remove_timer_self, connect-Inv}
use node_ipc.Client.Retry.Closing.{
  connected-Inv, closed-Inv, drop_client-Inv, published-Idle, destroy-Idle,
}

fired :
    (p : Pending) (t id : ℕ)
    → is_pending p (record { timer = t; for_socket = id } ∷ []) ≡ true
    → p.timer ≡ t
unfolding is_pending
fired p t id h = ground (arith, h)

-- The timer that fires is the only one.
forget_timer-none_set :
    {c : Client} (p : Pending)
    → is_pending p c.pending ≡ true
    → Inv c
    → (forget_timer p c).pending ≡ []
unfolding forget_timer is_pending
forget_timer-none_set p h (idle i) = absurd (true≢false (sym h ∙ ap (is_pending p) i.none_set))
forget_timer-none_set p h (scheduled r) =
    let t = fired p r.timer r.id (sym (ap (is_pending p) r.only) ∙ h) in
    ap (remove_timer p.timer) r.only
    ∙ ap (λ t'. remove_timer t' (record { timer = r.timer; for_socket = r.id } ∷ [])) t
    ∙ remove_timer_self r.timer r.id

quiet-fst :
    {A : Type 0} (m : Client × Outcome A)
    → Inv m.0
    → Inv (and_then m (λ _ c. let q : Client × Outcome (Unit {0}) = (c, returned tt) in q)).0
quiet-fst (c, returned a) v = v
quiet-fst (c, threw e) v = v

module _ (windows : Bool) (read_file : Text → Outcome (List ℕ)) where
  retry-Inv :
      {c : Client} (p : Pending)
      → is_pending p c.pending ≡ true
      → Inv c
      → Inv (retry windows read_file p.for_socket (forget_timer p c)).0
  unfolding retry forget_timer
  retry-Inv {c} p h v = go c.explicitly_disconnected c.config.stop_retrying
    where
      fired_client : Client
      fired_client = record (forget_timer p c) { retry_timer = none }

      quiet : Idle fired_client
      quiet = record { known = refl; none_set = forget_timer-none_set p h v }

      again : Client
      again = record fired_client { retries_remaining = decrement fired_client.retries_remaining }

      go :
          (dropped stopped : Bool)
          → Inv
              (let q : Client × Outcome (Unit {0}) =
                  if dropped
                  then (fired_client, returned tt)
                  else if stopped
                  then (publish "destroy" nothing (destroy p.for_socket fired_client), returned tt)
                  else and_then (connect windows read_file again) (λ _ c'. (c', returned tt)) in
                q).0
      go true stopped = idle quiet
      go false true = idle (published-Idle "destroy" nothing (destroy-Idle p.for_socket quiet))
      go false false = quiet-fst (connect windows read_file again) (
          connect-Inv windows read_file again
            (idle (record { known = quiet.known; none_set = quiet.none_set })))

  step-Inv : {c : Client} (e : Event) → Enabled e c → Inv c → Inv (step windows read_file e c).0
  unfolding step
  step-Inv {c} (connects id) h v = connected-Inv id h v
  step-Inv {c} (arrives id chunk) h v = Inv-Same (Same-on_data id chunk (Same-refl c)) v
  step-Inv {c} (errors id e) h v = Inv-Same (Same-on_error id e (Same-refl c)) v
  step-Inv {c} (drains id n) h v = Inv-Same (Same-mark_drained id n (Same-refl c)) v
  step-Inv {c} (closes id) h v = closed-Inv id h v
  step-Inv {c} (retry_fires p) h v = retry-Inv p h v
  step-Inv {c} (message_fires id) h v = Inv-Same (Same-message_timer_fired id (Same-refl c)) v
  step-Inv {c} (runs_job m) h v =
      quiet-fst (write_socket m c) (Inv-Same (Same-write_socket m (Same-refl c)) v)
  step-Inv {c} (emits type data') h v =
      quiet-fst (emit type data' c) (Inv-Same (Same-emit type data' (Same-refl c)) v)
  step-Inv {c} reconnects h v =
      quiet-fst (connect windows read_file c) (connect-Inv windows read_file c v)
  step-Inv {c} (drops resets) h v = drop_client-Inv resets v
  step-Inv {c} (subscribes f) h v = Inv-Same (Same-subscribes f (Same-refl c)) v

  -- In every history of a client that starts with the invariant, at most one retry timer is set. While
  -- one is set, `retryTimer` is that timer, its socket is the current one and has closed, and the budget
  -- of retries is not used up; when none is set, `retryTimer` is empty.
  pub History-Inv : {start c : Client} → Inv start → History windows read_file start c → Inv c
  History-Inv v begin = v
  History-Inv v (next e past h) = step-Inv e h (History-Inv v past)

-- A client that has just been made has no retry timer.
pub new_client-Inv :
    (config : Config) (parser : Parser) (path : Text) (port : ℕ)
    → Inv (new_client config parser path port)
unfolding new_client
new_client-Inv config parser path port = idle (record { known = refl; none_set = refl })
