-- ===== src/Client/Retry/Closing.antt =====
-- What `connected`, `closed` and the dropping of a client do to the retry timer.
use mathlib.Core.Bool.{true≢false}
use node_ipc.Base.{
  Bool, true, false, if◌then◌else◌, ◌≡◌, refl, sym, ap, subst, ◌∙◌, inl, inr, ℕ, not, [], ◌∷◌, ◌++◌,
  Option, none, some, arith, Bool-cases,
}
use Prim.Native.String.{String}
use node_ipc.Client.{
  Client, Payload, unsubscribed, emit_effect, no_subscribers, publish, nothing, used_up,
}
use node_ipc.Client.Receiving.{clear_message_timer, destroy}
use node_ipc.Client.Connection.{
  is_current, connected, gives_up, set_retry, closed, destroy_current, forget_subscribers,
  drop_client,
}
use node_ipc.Client.Events.{mark_closed}
use node_ipc.Client.Retry.{Scheduled, Idle, Inv, idle, scheduled, clear_retry-Idle}

is_current-eq : (id : ℕ) (c : Client) → is_current id c ≡ true → c.socket ≡ some id
unfolding is_current
is_current-eq id c h = ground arith

same_some : {a b : ℕ} {o : Option ℕ} → o ≡ some a → o ≡ some b → a ≡ b
same_some h k = cc

-- The current socket is open only while no retry is set.
open-Idle :
    {c : Client} (id : ℕ) → Inv c → c.socket ≡ some id → (c.sockets id).closed ≡ false → Idle c
open-Idle id (idle i) e h = i
open-Idle {c} id (scheduled r) e h =
    let same : r.id ≡ id = same_some r.current e in
    absurd (true≢false (sym (subst (λ k. (c.sockets k).closed ≡ true) same r.gone) ∙ h))

pub connected-Inv :
    {c : Client} (id : ℕ) → (c.sockets id).closed ≡ false → Inv c → Inv (connected id c)
unfolding connected
connected-Inv {c} id h v = elim (Bool-cases (is_current id c)) [
  | inl e ↦
      let i = open-Idle id v (is_current-eq id c e) h in
      rw e (idle (record { known = i.known; none_set = i.none_set }))
  | inr e ↦ rw e v
]

marked : Client → ℕ → Client
marked c id = clear_message_timer id (mark_closed id c)

marked-closed :
    (c : Client) (id i : ℕ) → (c.sockets i).closed ≡ true → ((marked c id).sockets i).closed ≡ true
unfolding marked mark_closed clear_message_timer
marked-closed c id i h = ground (arith, h)

marked_self : (c : Client) (id : ℕ) → ((marked c id).sockets id).closed ≡ true
unfolding marked mark_closed clear_message_timer
marked_self c id = ground arith

-- A socket that closes is marked, and that changes no invariant.
marked-Inv : {c : Client} (id : ℕ) → Inv c → Inv (marked c id)
unfolding marked mark_closed clear_message_timer
marked-Inv id (idle i) = idle (record { known = i.known; none_set = i.none_set })
marked-Inv {c} id (scheduled r) = scheduled (record {
  timer = r.timer;
  id = r.id;
  known = r.known;
  only = r.only;
  current = r.current;
  gone = marked-closed c id r.id r.gone;
  budget = r.budget;
})

marked-Idle : {c : Client} (id : ℕ) → Idle c → Idle (marked c id)
unfolding marked mark_closed clear_message_timer
marked-Idle id i = record { known = i.known; none_set = i.none_set }

marked-socket : (c : Client) (id : ℕ) → (marked c id).socket ≡ c.socket
unfolding marked mark_closed clear_message_timer
marked-socket c id = refl

gives_up-budget : (c : Client) → gives_up c ≡ false → used_up c.retries_remaining ≡ false
unfolding gives_up
gives_up-budget c h = ground (arith, h)

set_retry-Scheduled :
    {c : Client} (id : ℕ)
    → Idle c
    → c.socket ≡ some id
    → (c.sockets id).closed ≡ true
    → gives_up c ≡ false
    → Scheduled (publish "disconnect" nothing (set_retry id c))
unfolding set_retry
set_retry-Scheduled {c} id i e gone h = record {
  timer = c.next_timer;
  id = id;
  known = refl;
  only = ap (λ ps. ps ++ (record { timer = c.next_timer; for_socket = id }) ∷ []) i.none_set;
  current = e;
  gone = gone;
  budget = gives_up-budget c h;
}

pub published-Idle :
    {c : Client} (type : String) (data' : Payload) → Idle c → Idle (publish type data' c)
published-Idle type data' i = record { known = i.known; none_set = i.none_set }

pub destroy-Idle : {c : Client} (id : ℕ) → Idle c → Idle (destroy id c)
unfolding destroy
destroy-Idle id i = record { known = i.known; none_set = i.none_set }

-- What `closed` does behind the clearing of the message timer.
settle-Inv :
    {c : Client} (id : ℕ)
    → (c.sockets id).closed ≡ true
    → (c.socket ≡ some id → Idle c)
    → Inv c
    → Inv (
        if not (is_current id c)
        then c
        else if gives_up c
        then publish "destroy" nothing (destroy id (publish "disconnect" nothing c))
        else publish "disconnect" nothing (set_retry id c))
settle-Inv {c} id gone i v = elim (Bool-cases (is_current id c)) [
  | inr e ↦ rw e v
  | inl e ↦ elim (Bool-cases (gives_up c)) [
    | inl g ↦
        rw (e, g)
          (idle (
            published-Idle "destroy" nothing
              (destroy-Idle id (published-Idle "disconnect" nothing (i (is_current-eq id c e))))))
    | inr g ↦
        rw (e, g)
          (scheduled
            (set_retry-Scheduled id (i (is_current-eq id c e)) (is_current-eq id c e) gone g))
  ]
]

-- With no retry set, `closed` sets one for the current socket or gives up.
pub closed-Inv :
    {c : Client} (id : ℕ)
    → (c.sockets id).closed ≡ false
    → Inv c
    → Inv (closed id (mark_closed id c))
unfolding closed marked
closed-Inv {c} id h v =
    settle-Inv id (marked_self c id)
      (λ e. marked-Idle id (open-Idle id v (sym (marked-socket c id) ∙ e) h)) (marked-Inv id v)

pub drop_client-Inv : {c : Client} (resets : Bool) → Inv c → Inv (drop_client resets c)
unfolding drop_client destroy_current forget_subscribers
drop_client-Inv {c} resets v = idle (go c.socket (forget resets (clear_retry-Idle (as_dropped v))))
  where
    forget :
        {d : Client} (b : Bool)
        → Idle d
        → Idle
            (if b then record (emit_effect unsubscribed d) { subscribers = no_subscribers } else d)
    forget true i = record { known = i.known; none_set = i.none_set }
    forget false i = i

    as_dropped : Inv c → Inv (record c { explicitly_disconnected = true })
    as_dropped (idle i) = idle (record { known = i.known; none_set = i.none_set })
    as_dropped (scheduled r) = scheduled (record {
      timer = r.timer;
      id = r.id;
      known = r.known;
      only = r.only;
      current = r.current;
      gone = r.gone;
      budget = r.budget;
    })

    go : {d : Client} (o : Option ℕ) → Idle d → Idle (destroy_current o d)
    go none i = i
    go (some id) i = destroy-Idle id i
