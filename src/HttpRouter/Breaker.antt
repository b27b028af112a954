-- ===== src/HttpRouter/Breaker.antt =====
-- The circuit breakers of the router.
use dnsvard.Base.{
  ℕ, ◌+◌, ◌≤◌, ◌<◌, none, some, ◌≡◌, inl, inr, refl, sym, ◌∙◌, subst, arith, ltb, leb,
  if◌then◌else◌, Bytes, text_eq, text_eq_refl, lookup, insert, lookup-insert, Bool-cases,
  Option-cases,
}
use dnsvard.HttpRouter.{
  Route, BreakerState, Router, zero_state, canonical_host, breaker_of, record_success, open_time,
  record_failure, is_breaker_open, Upstream, responds, fails_at, serve_proxy, forward, handle,
}

-- A breaker is open from the fifth failure on, and only then.
pub data IsConsistent : BreakerState → Type 0 where
  closed : (st : BreakerState) → st.failures < 5 → st.open_until ≡ none → IsConsistent st
  opened :
      (st : BreakerState) (till : ℕ) → 5 ≤ st.failures → st.open_until ≡ some till → IsConsistent st

pub breaker_of-insert :
    (host other : Bytes) (st : BreakerState) (r : Router)
    → breaker_of other (record r { breaker = insert host st r.breaker })
      ≡ (if text_eq host other then st else breaker_of other r)
unfolding breaker_of
breaker_of-insert host other st r = ground (arith, lookup-insert host other st r.breaker)

abbrev pub AllConsistent : Router → Type 0
AllConsistent r = (host : Bytes) → IsConsistent (breaker_of host r)

-- Writing one consistent breaker.
insert-AllConsistent :
    (host : Bytes) (st : BreakerState) (r : Router)
    → IsConsistent st
    → AllConsistent r
    → AllConsistent (record r { breaker = insert host st r.breaker })
insert-AllConsistent host st r ok all other = elim (Bool-cases (text_eq host other)) [
  | inl e ↦ subst IsConsistent (sym (breaker_of-insert host other st r ∙ rw e)) ok
  | inr e ↦ subst IsConsistent (sym (breaker_of-insert host other st r ∙ rw e)) (all other)
]

zero-IsConsistent : IsConsistent zero_state
zero-IsConsistent = closed zero_state (omega arith) refl

-- The state of a breaker behind one more failure.
abbrev pub failed_once : ℕ → BreakerState → BreakerState
failed_once now st = record {
  failures = st.failures + 1;
  open_until = if leb 5 (st.failures + 1) then some (now + open_time) else st.open_until;
}

failed_once-IsConsistent :
    (now : ℕ) (st : BreakerState) → IsConsistent st → IsConsistent (failed_once now st)
failed_once-IsConsistent now st (closed _ l e) = elim (Bool-cases (leb 5 (st.failures + 1))) [
  | inl b ↦ opened (failed_once now st) (now + open_time) (ground arith) (rw b)
  | inr b ↦ closed (failed_once now st) (ground arith) (rw (b, e))
]
failed_once-IsConsistent now st (opened _ till l e) =
    opened (failed_once now st) (now + open_time) (omega arith) (ground arith)

record_failure-AllConsistent :
    (now : ℕ) (host : Bytes) (r : Router)
    → AllConsistent r
    → AllConsistent (record_failure now host r)
unfolding record_failure
record_failure-AllConsistent now host r all =
    insert-AllConsistent host (failed_once now (breaker_of host r)) r
      (failed_once-IsConsistent now (breaker_of host r) (all host)) all

record_success-AllConsistent :
    (host : Bytes) (r : Router) → AllConsistent r → AllConsistent (record_success host r)
unfolding record_success
record_success-AllConsistent host r all =
    insert-AllConsistent host zero_state r zero-IsConsistent all

is_breaker_open-AllConsistent :
    (now : ℕ) (host : Bytes) (r : Router)
    → AllConsistent r
    → AllConsistent (is_breaker_open now host r).0
unfolding is_breaker_open
is_breaker_open-AllConsistent now host r all = elim (Option-cases (breaker_of host r).open_until) [
  | inl e ↦ rw (e, is_breaker_open) all
  | inr (till, e) ↦ elim (Bool-cases (ltb till now)) [
    | inl b ↦
        rw (e, b, is_breaker_open) (insert-AllConsistent host zero_state r zero-IsConsistent all)
    | inr b ↦ rw (e, b, is_breaker_open) all
  ]
]

forward-AllConsistent :
    (host : Bytes) (up : Upstream) (r : Router)
    → AllConsistent r
    → AllConsistent (forward host up r).0
unfolding forward serve_proxy
forward-AllConsistent host up r all = elim (Option-cases (lookup host r.routes)) [
  | inl e ↦ rw (e, forward) all
  | inr (p, e) ↦ rw (e, forward) (served p up)
]
  where
    served : (p : Route) (u : Upstream) → AllConsistent (serve_proxy p u r).0
    served p responds = record_success-AllConsistent p.hostname r all
    served p (fails_at later) = record_failure-AllConsistent later p.hostname r all

pub handle-AllConsistent :
    (now : ℕ) (host : Bytes) (up : Upstream) (r : Router)
    → AllConsistent r
    → AllConsistent (handle now host up r).0
unfolding handle
handle-AllConsistent now host up r all =
    let h = canonical_host host in
    let ok = is_breaker_open-AllConsistent now h r all in
    elim (Option-cases (is_breaker_open now h r).1) [
      | inl e ↦ rw (e, handle) (forward-AllConsistent h up (is_breaker_open now h r).0 ok)
      | inr (s, e) ↦ rw (e, handle) ok
    ]

pub breaker_of-record_failure :
    (now : ℕ) (host : Bytes) (r : Router)
    → breaker_of host (record_failure now host r) ≡ failed_once now (breaker_of host r)
unfolding record_failure
breaker_of-record_failure now host r =
    breaker_of-insert host host (failed_once now (breaker_of host r)) r ∙ rw (text_eq_refl host)
