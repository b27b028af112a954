-- ===== src/TcpProxy/Served.antt =====
-- What listens behind `SetRoutes`.
use dnsvard.Base.{
  Bool, true, false, Option, none, some, List, [], ◌∷◌, ◌≡◌, ◌≢◌, ◌⊎◌, inl, inr, refl, sym, ap, ◌∙◌,
  arith, if◌then◌else◌, ◌==◌, Bytes, text_eq, text_eq_iff, Dict, lookup, insert, erase,
  lookup-insert, lookup-erase, NodupKeys, insert-NodupKeys, keys, Bool-cases, Option-cases, All,
}
use dnsvard.TcpProxy.{
  Route, Listeners, Started, all_listen, listen_failed, listener_key, same_route, desired_from,
  close_missing, start_listener, open_one, open_all, set_routes,
}

same_route→≡ : (a b : Route) → same_route a b ≡ true → a ≡ b
unfolding same_route
same_route→≡ a b h =
    ground (arith, text_eq_iff a.listen_ip b.listen_ip, text_eq_iff a.target_ip b.target_ip)

start-lookup :
    (ok : Bool) (key j : Bytes) (r : Route) (ls ls' : Listeners)
    → start_listener ok key r ls ≡ (ls', all_listen)
    → lookup j ls' ≡ (if text_eq key j then some r else lookup j ls)
unfolding start_listener
start-lookup true key j r ls ls' h =
    ap (lookup j) (sym (ap (λ (x : Listeners × Started). x.0) h)) ∙ lookup-insert key j r ls
start-lookup false key j r ls ls' h = absurd (ground arith)

open_one-lookup :
    (listens : Route → Bool) (key j : Bytes) (r : Route) (ls ls' : Listeners)
    → open_one listens key r ls ≡ (ls', all_listen)
    → lookup j ls' ≡ (if text_eq key j then some r else lookup j ls)
unfolding open_one
open_one-lookup listens key j r ls ls' h = elim (Option-cases (lookup key ls)) [
  | inl e ↦ start-lookup (listens r) key j r ls ls' (rw (e, open_one) at h)
  | inr (old, e) ↦ elim (Bool-cases (same_route old r)) [
    | inl s ↦
        let g : ls ≡ ls' = ap (λ (x : Listeners × Started). x.0) (rw (e, s, open_one) at h) in
        elim (Bool-cases (text_eq key j)) [
          | inl t ↦ rw t (
              ap (lookup j) (sym g)
              ∙ ap (λ x. lookup x ls) (sym ((text_eq_iff key j).0 t))
              ∙ e
              ∙ ap some (same_route→≡ old r s))
          | inr t ↦ rw t (ap (lookup j) (sym g))
        ]
    | inr s ↦
        let f = start-lookup (listens r) key j r (erase key ls) ls' (rw (e, s, open_one) at h) in
        elim (Bool-cases (text_eq key j)) [
          | inl t ↦ rw t (rw t at f)
          | inr t ↦ rw t ((rw t at f) ∙ lookup-erase key j ls ∙ rw t)
        ]
  ]
]

-- The first of two optional routes.
abbrev pub or_else : Option Route → Option Route → Option Route
or_else none o = o
or_else (some r) o = some r

fresh_lookup : (key : Bytes) (m : Dict Route) → All (λ k. k ≢ key) (keys m) → lookup key m ≡ none
unfolding lookup
fresh_lookup key [] h = refl
fresh_lookup key ((k, r) ∷ m) (ne, h) = elim (Bool-cases (text_eq k key)) [
  | inl e ↦ absurd (ne ((text_eq_iff k key).0 e))
  | inr e ↦ rw e (fresh_lookup key m h)
]

Started-cases : (o : Started) → (o ≡ all_listen) ⊎ ((r : Route) × (o ≡ listen_failed r))
Started-cases all_listen = inl refl
Started-cases (listen_failed r) = inr (r, refl)

open_all-lookup :
    (listens : Route → Bool) (m : Dict Route) (j : Bytes) (ls ls' : Listeners)
    → NodupKeys m
    → open_all listens m ls ≡ (ls', all_listen)
    → lookup j ls' ≡ or_else (lookup j m) (lookup j ls)
unfolding open_all lookup
open_all-lookup listens [] j ls ls' u h =
    ap (lookup j) (sym (ap (λ (x : Listeners × Started). x.0) h))
open_all-lookup listens ((key, r) ∷ m) j ls ls' (fresh, u) h =
    let one = open_one listens key r ls in
    elim (Started-cases one.1) [
      | inr (w, e) ↦ absurd (cc (ap (λ (x : Listeners × Started). x.1) (rw (e, open_all) at h)))
      | inl e ↦
          let now = open_one-lookup listens key j r ls one.0 (ap (λ o. (one.0, o)) e) in
          let rest = open_all-lookup listens m j one.0 ls' u (rw (e, open_all) at h) in
          rest ∙ ap (or_else (lookup j m)) now ∙ merged (Bool-cases (text_eq key j))
    ]
  where
    merged :
        (text_eq key j ≡ true) ⊎ (text_eq key j ≡ false)
        → or_else (lookup j m) (if text_eq key j then some r else lookup j ls)
          ≡ or_else (if text_eq key j then some r else lookup j m) (lookup j ls)
    merged (inl t) =
        rw (t, (ap (λ x. lookup x m) (sym ((text_eq_iff key j).0 t)) ∙ fresh_lookup key m fresh))
    merged (inr t) = rw t

close_missing-none :
    (j : Bytes) (d : Dict Route) (xs ls : Listeners)
    → lookup j d ≡ none
    → (lookup j xs ≡ none → lookup j ls ≡ none)
    → lookup j (close_missing d xs ls) ≡ none
unfolding close_missing lookup
close_missing-none j d [] ls gone all = all refl
close_missing-none j d ((k, r) ∷ xs) ls gone all = elim (Option-cases (lookup k d)) [
  | inl e ↦ rw e (close_missing-none j d xs (erase k ls) gone (closed (Bool-cases (text_eq k j))))
  | inr (w, e) ↦ rw e (close_missing-none j d xs ls gone (kept w e (Bool-cases (text_eq k j))))
]
  where
    closed :
        (text_eq k j ≡ true) ⊎ (text_eq k j ≡ false)
        → lookup j xs ≡ none
        → lookup j (erase k ls) ≡ none
    closed (inl s) z = lookup-erase k j ls ∙ rw s
    closed (inr s) z = lookup-erase k j ls ∙ rw s (all (rw (s, lookup) z))

    kept :
        (w : Route)
        → lookup k d ≡ some w
        → (text_eq k j ≡ true) ⊎ (text_eq k j ≡ false)
        → lookup j xs ≡ none
        → lookup j ls ≡ none
    kept w e (inl s) z = absurd (cc (sym e ∙ ap (λ x. lookup x d) ((text_eq_iff k j).0 s) ∙ gone))
    kept w e (inr s) z = all (rw (s, lookup) z)

abbrev key_of : Route → Bytes
key_of r = listener_key r.listen_ip r.listen_port

-- The last route with a key and with both ports, or the one before.
unfoldable pub wanted : List Route → Bytes → Option Route → Option Route
wanted [] j o = o
wanted (r ∷ rs) j o = wanted rs j (
    if r.listen_port == 0
    then o
    else if r.target_port == 0
    then o
    else if text_eq (key_of r) j
    then some r
    else o)

lookup-desired :
    (rs : List Route) (d : Dict Route) (j : Bytes)
    → lookup j (desired_from rs d) ≡ wanted rs j (lookup j d)
unfolding desired_from wanted
lookup-desired [] d j = refl
lookup-desired (r ∷ rs) d j = elim (Bool-cases (r.listen_port == 0)) [
  | inl e ↦ rw e (lookup-desired rs d j)
  | inr e ↦ elim (Bool-cases (r.target_port == 0)) [
    | inl f ↦ rw (e, f) (lookup-desired rs d j)
    | inr f ↦
        rw (e, f)
          (lookup-desired rs (insert (key_of r) r d) j
            ∙ ap (wanted rs j) (lookup-insert (key_of r) j r d))
  ]
]

desired-NodupKeys : (rs : List Route) (d : Dict Route) → NodupKeys d → NodupKeys (desired_from rs d)
unfolding desired_from
desired-NodupKeys [] d u = u
desired-NodupKeys (r ∷ rs) d u = elim (Bool-cases (r.listen_port == 0)) [
  | inl e ↦ rw e (desired-NodupKeys rs d u)
  | inr e ↦ elim (Bool-cases (r.target_port == 0)) [
    | inl f ↦ rw (e, f) (desired-NodupKeys rs d u)
    | inr f ↦
        rw (e, f) (desired-NodupKeys rs (insert (key_of r) r d) (insert-NodupKeys (key_of r) r d u))
  ]
]

-- Where every listener could be opened, what listens is what the routes want: for each key the last
-- of its routes that has both ports, and nothing else, whatever listened before.
pub set_routes-wanted :
    (listens : Route → Bool) (rs : List Route) (ls : Listeners) (j : Bytes)
    → (set_routes listens rs ls).1 ≡ all_listen
    → lookup j (set_routes listens rs ls).0 ≡ wanted rs j none
unfolding set_routes lookup
set_routes-wanted listens rs ls j h =
    let d = desired_from rs [] in
    let c = close_missing d ls ls in
    let found =
      open_all-lookup listens d j c (open_all listens d c).0 (desired-NodupKeys rs [] tt)
        (ap (λ o. ((open_all listens d c).0, o)) h) in
    found ∙ closed_too (lookup j d) refl ∙ lookup-desired rs [] j
  where
    closed_too :
        (o : Option Route)
        → lookup j (desired_from rs []) ≡ o
        → or_else
            (lookup j (desired_from rs []))
            (lookup j (close_missing (desired_from rs []) ls ls))
          ≡ lookup j (desired_from rs [])
    closed_too none e = rw e (close_missing-none j (desired_from rs []) ls ls e (λ z. z))
    closed_too (some r) e = rw e
