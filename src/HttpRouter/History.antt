-- ===== src/HttpRouter/History.antt =====
-- Whole histories of a router, and failures in a row.
use dnsvard.Base.{
  ℕ, ◌+◌, ◌≤◌, Option, none, some, List, [], ◌∷◌, ◌≡◌, ◌≢◌, ◌↔◌, inl, inr, refl, sym, ap, ◌∙◌,
  subst, arith, ltb, leb, if◌then◌else◌, Bytes, length, lookup, Bool-cases, Option-cases,
}
use dnsvard.HttpRouter.{
  Route, BreakerState, Router, new_router, zero_state, set_routes, breaker_of, open_time,
  record_failure, is_breaker_open, Upstream, handle,
}
use dnsvard.HttpRouter.Breaker.{
  IsConsistent, closed, opened, AllConsistent, failed_once, breaker_of-record_failure,
  handle-AllConsistent,
}
use dnsvard.HttpRouter.Replace.{set_routes_iff, set_routes-last}

pub data Event : Type 0 where
  replaced : List Route → Event
  requested : ℕ → Bytes → Upstream → Event

unfoldable pub perform : (Bytes → Option Bytes) → Event → Router → Router
perform url_scheme (replaced rs) r = (set_routes url_scheme rs r).0
perform url_scheme (requested now host up) r = (handle now host up r).0

unfoldable pub run : (Bytes → Option Bytes) → List Event → Router → Router
unfolding perform
run url_scheme [] r = r
run url_scheme (e ∷ es) r = run url_scheme es (perform url_scheme e r)

set_routes-AllConsistent :
    (url_scheme : Bytes → Option Bytes) (rs : List Route) (r : Router)
    → AllConsistent r
    → AllConsistent (set_routes url_scheme rs r).0
set_routes-AllConsistent url_scheme rs r all host =
    elim (Option-cases (set_routes url_scheme rs r).1) [
      | inl e ↦
          subst IsConsistent (sym (set_routes-last url_scheme rs r host e).1)
            (closed zero_state (omega arith) refl)
      | inr (x, e) ↦
          let same = (set_routes_iff url_scheme rs r).1 (λ z. absurd (cc (e, z))) in
          subst (λ q. IsConsistent (breaker_of host q)) (sym same) (all host)
    ]

run-AllConsistent :
    (url_scheme : Bytes → Option Bytes) (es : List Event) (r : Router)
    → AllConsistent r
    → AllConsistent (run url_scheme es r)
unfolding run
run-AllConsistent url_scheme [] r all = all
run-AllConsistent url_scheme (replaced rs ∷ es) r all =
    run-AllConsistent url_scheme es (set_routes url_scheme rs r).0
      (set_routes-AllConsistent url_scheme rs r all)
run-AllConsistent url_scheme (requested now host up ∷ es) r all =
    run-AllConsistent url_scheme es (handle now host up r).0
      (handle-AllConsistent now host up r all)

new-AllConsistent : AllConsistent new_router
unfolding breaker_of lookup
new-AllConsistent host = closed zero_state (omega arith) refl

-- After any requests and replacements of routes, a breaker has a time until which it is open
-- exactly if it has counted five failures or more.
pub run_open_iff :
    (url_scheme : Bytes → Option Bytes) (es : List Event) (host : Bytes)
    → ((breaker_of host (run url_scheme es new_router)).open_until ≢ none)
      ↔ (5 ≤ (breaker_of host (run url_scheme es new_router)).failures)
run_open_iff url_scheme es host =
    both (breaker_of host (run url_scheme es new_router))
      (run-AllConsistent url_scheme es new_router new-AllConsistent host)
  where
    both : (st : BreakerState) → IsConsistent st → (st.open_until ≢ none) ↔ (5 ≤ st.failures)
    both st (closed _ l e) = ((λ ne. absurd (ne e)), (λ g. absurd (omega (arith, l, g))))
    both st (opened _ till l e) = ((λ ne. l), (λ g z. absurd (cc (e, z))))

-- Failures of one host at the times of the list, the last one first.
unfoldable pub fail_all : List ℕ → Bytes → Router → Router
fail_all [] host r = r
fail_all (t ∷ ts) host r = record_failure t host (fail_all ts host r)

-- So many failures, the last one at a time.
abbrev counted_to : ℕ → ℕ → BreakerState
counted_to n t = record {
  failures = n;
  open_until = if leb 5 n then some (t + open_time) else none;
}

abbrev pub counted : List ℕ → BreakerState
counted [] = zero_state
counted (t ∷ ts) = counted_to (length (t ∷ ts)) t

still_closed :
    (n t u : ℕ)
    → (if leb 5 (n + 1)
        then some (t + open_time)
        else if leb 5 n
        then some (u + open_time)
        else none)
      ≡ (if leb 5 (n + 1) then some (t + open_time) else none)
still_closed n t u = ground arith

failed_once-counted : (t : ℕ) (ts : List ℕ) → failed_once t (counted ts) ≡ counted (t ∷ ts)
failed_once-counted t [] = refl
failed_once-counted t (u ∷ us) =
    subst (λ (k : ℕ). failed_once t (counted (u ∷ us)) ≡ counted_to k t) (omega arith)
      (ap (λ o. record { failures = length (u ∷ us) + 1; open_until = o })
        (still_closed (length (u ∷ us)) t u))

fail_all-counted :
    (ts : List ℕ) (host : Bytes) (r : Router)
    → breaker_of host r ≡ zero_state
    → breaker_of host (fail_all ts host r) ≡ counted ts
unfolding fail_all record_failure
fail_all-counted [] host r e = e
fail_all-counted (t ∷ ts) host r e =
    breaker_of-record_failure t host (fail_all ts host r)
    ∙ ap (failed_once t) (fail_all-counted ts host r e)
    ∙ failed_once-counted t ts

-- A breaker that was closed, without a failure, and then counts failures, is open at a time
-- exactly if there were five or more, and the last one was no more than ten seconds before.
pub fail_all-opens :
    (t : ℕ) (ts : List ℕ) (now : ℕ) (host : Bytes) (r : Router)
    → breaker_of host r ≡ zero_state
    → ((is_breaker_open now host (fail_all (t ∷ ts) host r)).1 ≢ none)
      ↔ ((5 ≤ length (t ∷ ts)) × (now ≤ t + open_time))
unfolding is_breaker_open
fail_all-opens t ts now host r e =
    let st = fail_all-counted (t ∷ ts) host r e in
    elim (Bool-cases (leb 5 (length (t ∷ ts)))) [
      | inl b ↦
          let at : (breaker_of host (fail_all (t ∷ ts) host r)).open_until ≡ some (t + open_time) =
            ap (λ x. x.open_until) st ∙ rw b in
          elim (Bool-cases (ltb (t + open_time) now)) [
            | inl late ↦
                rw (at, late, is_breaker_open)
                  ((λ ne. absurd (ne refl)), (λ (_, l) z. absurd (ground arith)))
            | inr early ↦
                rw (at, early, is_breaker_open) ((λ ne. (ground arith, ground arith)), (λ w z. cc))
          ]
      | inr b ↦
          let at : (breaker_of host (fail_all (t ∷ ts) host r)).open_until ≡ none =
            ap (λ x. x.open_until) st ∙ rw b in
          rw (at, is_breaker_open) ((λ ne. absurd (ne refl)), (λ (l, _) z. absurd (ground arith)))
    ]
