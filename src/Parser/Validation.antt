-- ===== src/Parser/Validation.antt =====
-- Which event types `validateType` lets through.

use node_ipc.Base.{
  ◌≡◌, refl, sym, ap, subst, ℕ, ◌≤◌, Bool, true, false, ◌&&◌, not, ◌⊎◌, ◌↔◌, inl, inr, List, [],
  ◌∷◌, some, if◌then◌else◌, length, arith,
}
use node_ipc.Text.{Text}
use node_ipc.Outcome.{returned, threw, reserved_event, event_too_large, invalid_event}
use node_ipc.Json.{Value, str}
use node_ipc.Config.{Config, Amount, infinite, whole, other}
use node_ipc.Parser.{
  Limits, assured, Check, passed, refuse, ◌then_check◌, has, reserved_event_types,
  unsafe_event_types, exceeds, validate_name, validate_guarded, allowed_check, validate_assured,
  validate_type,
}
use node_ipc.Parser.Create.{built_in, create_parser}
use node_ipc.Parser.Create.Made.{MadeBy, create_parser-MadeBy}

-- A length that a limit allows.
abbrev pub Fits : ℕ → Amount → Type 0
Fits n infinite = Unit {0}
Fits n (whole m) = n ≤ m
Fits n other = Unit {0}

-- What a guarded parser asks of an event type.
pub record IsEventName (l : Limits) (name : Text) : Type 0 where
  pub not_empty : 1 ≤ length name
  pub fits : Fits (length name) l.max_event_name_length
  pub safe : has name unsafe_event_types ≡ false
  pub free : (l.allow_reserved_events ≡ true) ⊎ (has name reserved_event_types ≡ false)

exceeds-Fits : (n : ℕ) (a : Amount) → exceeds n a ≡ false → Fits n a
unfolding exceeds
exceeds-Fits n infinite h = tt
exceeds-Fits n (whole m) h = ground arith
exceeds-Fits n other h = tt

Fits-exceeds : (n : ℕ) (a : Amount) → Fits n a → exceeds n a ≡ false
unfolding exceeds
Fits-exceeds n infinite h = refl
Fits-exceeds n (whole m) h = ground arith
Fits-exceeds n other h = refl

str-injective : {a b : Text} → str a ≡ str b → a ≡ b
str-injective e = cc

-- The ladder of `validateType`, over the results of its tests.
ladder :
    (large unsafe allow reserved : Bool)
    → (if large
        then refuse event_too_large
        else if unsafe
        then refuse invalid_event
        else if not allow && reserved
        then refuse reserved_event
        else passed)
      ≡ passed
    → (large ≡ false) × (unsafe ≡ false) × ((allow ≡ true) ⊎ (reserved ≡ false))
ladder large unsafe allow reserved h = ground arith

ladder_passes :
    (large unsafe allow reserved : Bool)
    → large ≡ false
    → unsafe ≡ false
    → (allow ≡ true) ⊎ (reserved ≡ false)
    → (if large
        then refuse event_too_large
        else if unsafe
        then refuse invalid_event
        else if not allow && reserved
        then refuse reserved_event
        else passed)
      ≡ passed
ladder_passes large unsafe allow reserved a b c = ground arith

passed-then_check : (a b : Check) → (a then_check b) ≡ passed → (a ≡ passed) × (b ≡ passed)
passed-then_check (returned u) b h = (refl, h)
passed-then_check (threw e) b h = cc

module _ (l : Limits) where
  open l use {max_event_name_length, allow_reserved_events}

  validate_name-IsEventName :
      (name : Text) → 1 ≤ length name → validate_name l name ≡ passed → IsEventName l name
  unfolding validate_name
  validate_name-IsEventName name ne h =
      let r =
        ladder (exceeds (length name) max_event_name_length) (has name unsafe_event_types)
          allow_reserved_events (has name reserved_event_types) h in
      record {
        not_empty = ne;
        fits = exceeds-Fits (length name) max_event_name_length r.0;
        safe = r.1;
        free = r.2;
      }

  IsEventName-validate_name : (name : Text) → IsEventName l name → validate_name l name ≡ passed
  unfolding validate_name
  IsEventName-validate_name name v =
      ladder_passes (exceeds (length name) max_event_name_length) (has name unsafe_event_types)
        allow_reserved_events (has name reserved_event_types)
        (Fits-exceeds (length name) max_event_name_length v.fits) v.safe v.free

  -- `GuardedParser.validateType` lets a value through exactly when it is a string that is no longer
  -- than the limit, not empty, no name of `Object.prototype`, and not reserved, if those are not
  -- allowed.
  pub validate_guarded_iff :
      (type : Value)
      → (validate_guarded l type ≡ passed)
        ↔ ((name : Text) × (type ≡ str name) × IsEventName l name)
  unfolding validate_guarded
  validate_guarded_iff (str []) = (λ h. cc, λ h. absurd (empty h))
    where
      empty : (name : Text) × (str [] ≡ str name) × IsEventName l name → ⊥
      empty (name, e, v) =
          let z : [] ≡ name = str-injective e in absurd (omega (arith, ap length z))
  validate_guarded_iff (str (c ∷ s)) = (
    λ h. (c ∷ s, refl, validate_name-IsEventName (c ∷ s) (omega arith) h),
    λ h. IsEventName-validate_name (c ∷ s) (subst (IsEventName l) (sym (str-injective h.1)) h.2),
  )
  validate_guarded_iff _ = (λ h. cc, λ h. cc h.1)

  -- `AssuredParser.validateType` also asks that the name is in `allowedEvents`.
  pub validate_assured_iff :
      (allowed : List Text) (type : Value)
      → (validate_assured l allowed type ≡ passed)
        ↔ ((name : Text) × (type ≡ str name) × IsEventName l name × (has name allowed ≡ true))
  unfolding validate_assured validate_guarded allowed_check
  validate_assured_iff allowed (str name) = (
    λ h.
        let both =
          passed-then_check (validate_guarded l (str name)) (allowed_check allowed (str name)) h in
        let (n, e, v) = (validate_guarded_iff (str name)).0 both.0 in
        (n, e, v, subst (λ t. has t allowed ≡ true) (str-injective e) (listed both.1)),
    λ h. rw ((validate_guarded_iff (str name)).1 (h.0, h.1, h.2)) (
        subst (λ t. allowed_check allowed (str t) ≡ passed) (sym (str-injective h.1))
          (passes h.0 h.3)),
  )
    where
      listed : allowed_check allowed (str name) ≡ passed → has name allowed ≡ true
      listed h = ground arith

      passes : (n : Text) → has n allowed ≡ true → allowed_check allowed (str n) ≡ passed
      passes n h = rw h
  validate_assured_iff allowed _ = (λ h. cc, λ h. cc h.1)

-- An assured parser that `createParser` makes accepts only names that the configuration allows, and
-- no reserved one, even if `allowedEvents` lists it or `allowReservedEvents` is set.
pub create_parser-assured :
    (c : Config) {d : Text} {l : Limits} {allowed : List Text} (name : Text)
    → create_parser c ≡ returned (built_in (assured d l allowed))
    → validate_type (assured d l allowed) (str name) ≡ passed
    → (c.allowed_events ≡ some allowed)
      × (has name allowed ≡ true)
      × (has name reserved_event_types ≡ false)
unfolding validate_type
create_parser-assured c {d} {l} {allowed} name made valid =
    let m = subst (MadeBy c) made (create_parser-MadeBy c) in
    let (n, e, v, listed) = (validate_assured_iff l allowed (str name)).0 valid in
    let same = str-injective e in
    (
      m.0,
      subst (λ t. has t allowed ≡ true) (sym same) listed,
      subst (λ t. has t reserved_event_types ≡ false) (sym same)
          (elim v.free [ inl open_to_all ↦ cc (m.1) | inr closed ↦ closed ]),
    )
