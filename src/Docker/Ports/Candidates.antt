-- ===== src/Docker/Ports/Candidates.antt =====
-- The TCP ports of a container.
use dnsvard.Base.{
  ℕ, ◌≤◌, ◌<◌, Option, none, some, List, [], ◌∷◌, ◌++◌, ◌≡◌, ◌≢◌, ◌↔◌, ◌⊎◌, inl, inr, refl, sym, ap,
  ◌∙◌, subst, arith, ltb, Bytes, split, ℤ, pos, negsuc, atoi, is_port, has_number, has_number_iff,
  sort_numbers, Ascends, Differ, sort_numbers-Ascends, In-sort_numbers, All, In, In-append_left,
  In-append_right, In-append, Bool-cases,
}
use dnsvard.Docker.{DockerInspect}
use dnsvard.Docker.Ports.{
  port_of, parse_port_parts, parse_tcp_port, add_port, collect_ports, candidate_tcp_ports,
}

pub port_of-le : (o : Option ℤ) → port_of o ≤ 65535
unfolding port_of is_port
port_of-le none = omega arith
port_of-le (some (pos n)) = ground arith
port_of-le (some (negsuc n)) = omega arith

parts-le : (ps : List Bytes) → parse_port_parts ps ≤ 65535
unfolding parse_port_parts
parts-le [] = omega arith
parts-le (a ∷ []) = omega arith
parts-le (a ∷ b ∷ []) = ground (arith, port_of-le (atoi a))
parts-le (a ∷ b ∷ c ∷ ps) = omega arith

pub parse_tcp_port-le : (v : Bytes) → parse_tcp_port v ≤ 65535
unfolding parse_tcp_port
parse_tcp_port-le v = parts-le (split v b'/')

-- Some key of the list stands for the port.
abbrev pub Declares : List Bytes → ℕ → Type 0
Declares keys p = (key : Bytes) × In key keys × (parse_tcp_port key ≡ p) × (0 < p)

fresh_differs : (p : ℕ) (set : List ℕ) → ¬ In p set → All (λ m. m ≢ p) set
fresh_differs p [] n = tt
fresh_differs p (q ∷ qs) n = ((λ e. n (inl (sym e))), fresh_differs p qs (λ i. n (inr i)))

-- What one key does to the set.
record Grows (p : ℕ) (set : List ℕ) : Type 0 where
  differ : Differ set → Differ (add_port p set)
  members : (q : ℕ) → In q (add_port p set) ↔ (In q set ⊎ ((q ≡ p) × (0 < p)))

add_port-Grows : (p : ℕ) (set : List ℕ) → Grows p set
unfolding add_port
add_port-Grows p set = elim (Bool-cases (ltb 0 p)) [
  | inr e ↦ record {
    differ = λ d. rw (e, add_port) d;
    members = λ q.
        rw (e, add_port)
          ((λ i. inl i), (λ i. elim i [ inl j ↦ j | inr (_, l) ↦ absurd (ground arith) ]));
  }
  | inl e ↦ elim (Bool-cases (has_number set p)) [
    | inl h ↦ record {
      differ = λ d. rw (e, h, add_port) d;
      members = λ q.
          rw (e, h, add_port)
            (
              (λ i. inl i),
              (λ i. elim i [
                | inl j ↦ j
                | inr (s, _) ↦ subst (λ k. In k set) (sym s) ((has_number_iff set p).0 h)
              ]),
            );
    }
    | inr h ↦ record {
      differ = λ d.
          rw (e, h, add_port)
            (fresh_differs p set (λ i. absurd (cc (h, (has_number_iff set p).1 i))), d);
      members = λ q.
          rw (e, h, add_port)
            (
              (λ i. elim i [ inl s ↦ inr (s, ground arith) | inr j ↦ inl j ]),
              (λ i. elim i [ inl j ↦ inr j | inr (s, _) ↦ inl s ]),
            );
    }
  ]
]

collect-Differ : (keys : List Bytes) (set : List ℕ) → Differ set → Differ (collect_ports keys set)
unfolding collect_ports
collect-Differ [] set d = d
collect-Differ (key ∷ keys) set d =
    collect-Differ keys (add_port (parse_tcp_port key) set)
      ((add_port-Grows (parse_tcp_port key) set).differ d)

In-collect :
    (keys : List Bytes) (set : List ℕ) (p : ℕ)
    → In p (collect_ports keys set) ↔ (In p set ⊎ Declares keys p)
unfolding collect_ports
In-collect [] set p = ((λ i. inl i), (λ i. elim i [ inl j ↦ j | inr (k, j, _, _) ↦ absurd j ]))
In-collect (key ∷ keys) set p =
    let (f, g) = In-collect keys (add_port (parse_tcp_port key) set) p in
    let (u, v) = (add_port-Grows (parse_tcp_port key) set).members p in
    (
      (λ i. elim (f i) [
        | inl j ↦ elim (u j) [
          | inl k ↦ inl k
          | inr (s, l) ↦ inr (key, inl refl, sym s, subst (λ k. 0 < k) (sym s) l)
        ]
        | inr (k, j, s, l) ↦ inr (k, inr j, s, l)
      ]),
      (λ i. elim i [
        | inl j ↦ g (inl (v (inl j)))
        | inr (k, inl same, s, l) ↦
            let here : p ≡ parse_tcp_port key = sym s ∙ ap parse_tcp_port same in
            g (inl (v (inr (here, subst (λ n. 0 < n) here l))))
        | inr (k, inr j, s, l) ↦ g (inr (k, j, s, l))
      ]),
    )

Declares-append :
    (xs ys : List Bytes) (p : ℕ) → Declares (xs ++ ys) p ↔ (Declares xs p ⊎ Declares ys p)
Declares-append xs ys p = (
  (λ (k, i, r, l). elim (In-append k xs ys i) [
    | inl j ↦ inl (k, j, r, l)
    | inr j ↦ inr (k, j, r, l)
  ]),
  (λ d. elim d [
    | inl (k, i, r, l) ↦ (k, In-append_left k xs ys i, r, l)
    | inr (k, i, r, l) ↦ (k, In-append_right k xs ys i, r, l)
  ]),
)

-- The TCP ports of a container ascend, none stands twice, and a port is among them exactly when an
-- exposed or a published port of the container stands for it; a port is at most 65535.
pub candidate_tcp_ports-exact :
    (c : DockerInspect)
    → Ascends (candidate_tcp_ports c)
      × ((p : ℕ)
          → (In p (candidate_tcp_ports c) ↔ Declares (c.exposed_ports ++ c.ports) p)
            × (In p (candidate_tcp_ports c) → p ≤ 65535))
unfolding candidate_tcp_ports
candidate_tcp_ports-exact c =
    let exposed = collect_ports c.exposed_ports [] in
    let all = collect_ports c.ports exposed in
    (
      sort_numbers-Ascends all
          (collect-Differ c.ports exposed (collect-Differ c.exposed_ports [] tt)),
      (λ p.
          let (f, g) = In-sort_numbers p all in
          let (u, v) = In-collect c.ports exposed p in
          let (u', v') = In-collect c.exposed_ports [] p in
          let (a, b) = Declares-append c.exposed_ports c.ports p in
          let declared : In p (sort_numbers all) → Declares (c.exposed_ports ++ c.ports) p = λ i.
            elim (u (f i)) [
              | inr d ↦ b (inr d)
              | inl j ↦ elim (u' j) [ inl k ↦ absurd k | inr d ↦ b (inl d) ]
            ] in
          (
            (
              declared,
              (λ d. elim (a d) [ inl e ↦ g (v (inl (v' (inr e)))) | inr e ↦ g (v (inr e)) ]),
            ),
            (λ i. let (k, _, s, _) = declared i in omega (arith, s, parse_tcp_port-le k)),
          )),
    )
