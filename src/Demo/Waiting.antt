-- ===== src/Demo/Waiting.antt =====
-- `runServer` and the promises of the client: `waitForConnect` and `waitForPong`.
use node_ipc.Base.{
  ◌≡◌, refl, ℕ, suc, ◌≤◌, Bool, true, false, List, [], ◌∷◌, Option, none, some, if◌then◌else◌,
  arith,
}
use node_ipc.Text.{text}
use node_ipc.Json.{Value}
use node_ipc.Demo.{expects}

pub data Verdict : Type 0 where
  resolved rejected : Verdict

-- What the client reports to a promise that waits: `connect`, the pong, `error`, `disconnect`.
pub data Report : Type 0 where
  connected : Report
  ponged : Value → Report
  failed disconnected : Report

-- A promise that has settled has unsubscribed.
unfoldable pub keep : Option Verdict → Option Verdict → Option Verdict
keep none later = later
keep (some v) later = some v

-- The handlers of `waitForConnect`; it does not subscribe to the others.
unfoldable pub on_connecting : Report → Option Verdict
on_connecting connected = some resolved
on_connecting failed = some rejected
on_connecting (ponged data') = none
on_connecting disconnected = none

-- The handlers of `waitForPong`
unfoldable pub on_waiting : Report → Option Verdict
unfolding expects
on_waiting connected = none
on_waiting (ponged data') = if expects (text "pong") data' then some resolved else some rejected
on_waiting failed = some rejected
on_waiting disconnected = some rejected

-- `waitForConnect` and `waitForPong`, on what is reported.
unfoldable pub wait_for_connect : List Report → Option Verdict
unfolding keep on_connecting
wait_for_connect [] = none
wait_for_connect (r ∷ rs) = keep (on_connecting r) (wait_for_connect rs)

unfoldable pub wait_for_pong : List Report → Option Verdict
unfolding keep on_waiting
wait_for_pong [] = none
wait_for_pong (r ∷ rs) = keep (on_waiting r) (wait_for_pong rs)

-- The variables of `runServer`, with the pongs that were sent.
pub record Table : Type 0 where
  pub settled : Bool
  pub stopped : Bool
  pub result : Option Verdict
  pub pongs : ℕ

abbrev pub new_table : Table
new_table = record { settled = false; stopped = false; result = none; pongs = 0 }

-- `fail`
unfoldable pub fail_table : Table → Table
fail_table t =
    if t.settled then t else record t { settled = true; stopped = true; result = some rejected }

-- What the handler does behind `expectMessage`, whose `emit` returns or throws.
unfoldable pub answer_ping : Bool → Table → Table
unfolding fail_table
answer_ping false t = fail_table t
answer_ping true t = record t { pongs = suc t.pongs }

-- The handler of a ping.
unfoldable pub on_ping : Value → Bool → Table → Table
unfolding expects answer_ping fail_table
on_ping data' sent t = if expects (text "ping") data' then answer_ping sent t else fail_table t

-- The callback of `server.close`, which a pong has started.
unfoldable pub on_server_closed : Table → Table
on_server_closed t = if t.settled then t else record t { settled = true; result = some resolved }

-- What can happen to the server.
pub data History : Table → Type 0 where
  begins : History new_table
  pinged : {t : Table} (data' : Value) (sent : Bool) → History t → History (on_ping data' sent t)
  fails : {t : Table} → History t → History (fail_table t)
  closes : {t : Table} → History t → 1 ≤ t.pongs → History (on_server_closed t)

pub record IsConsistent (t : Table) : Type 0 where
  pub waits : t.settled ≡ false → (t.result ≡ none) × (t.stopped ≡ false)
  pub answered : t.result ≡ some resolved → (1 ≤ t.pongs) × (t.stopped ≡ false)
  pub refused : t.result ≡ some rejected → t.stopped ≡ true

fail_table-IsConsistent : (t : Table) → IsConsistent t → IsConsistent (fail_table t)
unfolding fail_table
fail_table-IsConsistent t i = go t.settled
  where
    go :
        (b : Bool)
        → IsConsistent
            (if b then t else record t { settled = true; stopped = true; result = some rejected })
    go true = i
    go false = record { waits = λ h. cc; answered = λ h. cc; refused = λ h. refl }

answer_ping-IsConsistent : (b : Bool) (t : Table) → IsConsistent t → IsConsistent (answer_ping b t)
unfolding answer_ping
answer_ping-IsConsistent false t i = fail_table-IsConsistent t i
answer_ping-IsConsistent true t i = record {
  waits = i.waits;
  answered = λ h. (omega arith, (i.answered h).1);
  refused = i.refused;
}

on_ping-IsConsistent :
    (data' : Value) (b : Bool) (t : Table) → IsConsistent t → IsConsistent (on_ping data' b t)
unfolding on_ping
on_ping-IsConsistent data' b t i = go (expects (text "ping") data')
  where
    go : (x : Bool) → IsConsistent (if x then answer_ping b t else fail_table t)
    go true = answer_ping-IsConsistent b t i
    go false = fail_table-IsConsistent t i

-- Behind every history of the server, its promise is open and it has not been stopped, or it has resolved, a
-- pong was sent and `stop` was not called, or it was rejected and `stop` was called.
pub History-IsConsistent : {t : Table} → History t → IsConsistent t
unfolding on_server_closed
History-IsConsistent begins = record {
  waits = λ h. (refl, refl);
  answered = λ h. cc;
  refused = λ h. cc;
}
History-IsConsistent (pinged {t} data' b past) =
    on_ping-IsConsistent data' b t (History-IsConsistent past)
History-IsConsistent (fails {t} past) = fail_table-IsConsistent t (History-IsConsistent past)
History-IsConsistent (closes {t} past sent) = go t.settled refl (History-IsConsistent past)
  where
    go :
        (b : Bool)
        → t.settled ≡ b
        → IsConsistent t
        → IsConsistent (if b then t else record t { settled = true; result = some resolved })
    go true h i = i
    go false h i = record {
      waits = λ k. cc;
      answered = λ k. (sent, (i.waits h).1);
      refused = λ k. cc;
    }

-- The first report that `waitForPong` hears of is a pong with the message.
pub data Resolves : List Report → Type 0 where
  at_once :
      {data' : Value} {rs : List Report}
      → expects (text "pong") data' ≡ true
      → Resolves (ponged data' ∷ rs)
  behind : {rs : List Report} → Resolves rs → Resolves (connected ∷ rs)

-- `waitForPong` resolves only if the first report that it hears of is a pong with the message `pong`: behind
-- an error, the end of the connection or a wrong message no later pong helps.
pub wait_for_pong-Resolves : (rs : List Report) → wait_for_pong rs ≡ some resolved → Resolves rs
unfolding wait_for_pong keep on_waiting
wait_for_pong-Resolves [] h = cc
wait_for_pong-Resolves (connected ∷ rs) h = behind (wait_for_pong-Resolves rs h)
wait_for_pong-Resolves (failed ∷ rs) h = cc
wait_for_pong-Resolves (disconnected ∷ rs) h = cc
wait_for_pong-Resolves (ponged data' ∷ rs) h = at_once (go (expects (text "pong") data') h)
  where
    go :
        (b : Bool)
        → keep (if b then some resolved else some rejected) (wait_for_pong rs) ≡ some resolved
        → b ≡ true
    go true k = refl
    go false k = cc
