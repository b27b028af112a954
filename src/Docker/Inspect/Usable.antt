-- ===== src/Docker/Inspect/Usable.antt =====
-- What a route of a container is good for.
use dnsvard.Base.{
  ℕ, ◌≤◌, Bool, true, false, some, List, [], ◌∷◌, ◌++◌, ◌≡◌, ◌≢◌, inl, inr, refl, sym, subst, arith,
  ◌==◌, Bytes, codes, text_eq, text_eq_iff, trim_space, atoi, has_number, has_number_iff, All, In,
  Bool-cases, some-inj,
}
use dnsvard.Docker.{ServiceRoute, Warning, DockerInspect}
use dnsvard.Docker.Ports.{
  port_of, candidate_tcp_ports, candidate_http_ports, preferred_probe_ports, remove_number,
  order_ports, http_priority,
}
use dnsvard.Docker.Ports.Candidates.{port_of-le, candidate_tcp_ports-exact}
use dnsvard.Docker.Labels.{label, parse_csv}
use dnsvard.Docker.Labels.Unique.{IsUnique, unique_host_labels-IsUnique}
use dnsvard.Docker.Networks.{Candidate, Selected, no_network, selected, select_container_network}
use dnsvard.Docker.Networks.Choice.{IsCandidate, select_container_network-IsChoice}
use dnsvard.Docker.Inspect.{
  service_name_of, Explicit, unset, invalid, set_to, explicit_of_port, explicit_port,
  default_http_of, detected_port, detect_manual_of, detect_warnings, build_route, host_labels_of,
  with_port, by_port, parse_inspect,
}

-- A service that can be routed to: it has a name, which is among its host labels, an address that
-- parses, and an HTTP port in range, which is 0 unless HTTP is enabled.
pub record IsUsable (is_ip : Bytes → Bool) (c : DockerInspect) (r : ServiceRoute) : Type 0 where
  pub named : r.service_name ≢ []
  pub address : (r.container_ip ≢ []) × (is_ip r.container_ip ≡ true)
  pub labelled :
      IsUnique
        (r.service_name ∷ parse_csv (label c.labels (codes "dnsvard.service_names")))
        []
        r.host_labels
  pub port : r.http_port ≤ 65535
  pub enabled : (r.http_enabled ≡ false) → (r.http_port ≡ 0) × (r.default_http ≡ false)
  pub ports : r.tcp_ports ≡ candidate_tcp_ports c

All-from-In : (P : ℕ → Type 0) (ns : List ℕ) → ((n : ℕ) → In n ns → P n) → All P ns
All-from-In P [] h = tt
All-from-In P (n ∷ ns) h = (h n (inl refl), All-from-In P ns (λ m i. h m (inr i)))

In-from-All : (P : ℕ → Type 0) (ns : List ℕ) (n : ℕ) → All P ns → In n ns → P n
In-from-All P [] n h i = absurd i
In-from-All P (m ∷ ns) n (p, h) (inl e) = subst P (sym e) p
In-from-All P (m ∷ ns) n (p, h) (inr i) = In-from-All P ns n h i

All-remove : (P : ℕ → Type 0) (p : ℕ) (ns : List ℕ) → All P ns → All P (remove_number p ns)
unfolding remove_number
All-remove P p [] h = tt
All-remove P p (n ∷ ns) (q, h) = elim (Bool-cases (n == p)) [
  | inl e ↦ rw (e, remove_number) (All-remove P p ns h)
  | inr e ↦ rw (e, remove_number) (q, All-remove P p ns h)
]

All-order_ports : (P : ℕ → Type 0) (ps ns : List ℕ) → All P ns → All P (order_ports ps ns)
unfolding order_ports
All-order_ports P [] ns h = h
All-order_ports P (p ∷ ps) ns h = elim (Bool-cases (has_number ns p)) [
  | inl e ↦
      rw (e, order_ports)
        (
          In-from-All P ns p h ((has_number_iff ns p).0 e),
          All-order_ports P ps (remove_number p ns) (All-remove P p ns h),
        )
  | inr e ↦ rw (e, order_ports) (All-order_ports P ps ns h)
]

http_ports-le : (c : DockerInspect) → All (λ p. p ≤ 65535) (candidate_http_ports c)
unfolding candidate_http_ports
http_ports-le c =
    All-order_ports (λ p. p ≤ 65535) http_priority (candidate_tcp_ports c)
      (All-from-In (λ p. p ≤ 65535) (candidate_tcp_ports c)
        (λ p i. ((candidate_tcp_ports-exact c).1 p).1 i))

detected-le :
    (id : Bytes) (manual : Bool) (ps : List ℕ)
    → All (λ p. p ≤ 65535) ps
    → (detected_port id manual ps).0 ≤ 65535
unfolding detected_port
detected-le id manual [] h = omega arith
detected-le id manual (p ∷ []) (l, _) = l
detected-le id manual (p ∷ q ∷ ps) h = omega arith

module _ (is_ip : Bytes → Bool) (dials : Bytes → ℕ → Bool) (c : DockerInspect) where
  built-IsUsable :
      (s : Selected) (port : ℕ) (enabled : Bool) (ws : List Warning) (r : ServiceRoute)
      → ((n : Candidate) (ips : List Bytes) → s ≡ selected n ips → IsCandidate is_ip c.networks n)
      → service_name_of c ≢ []
      → port ≤ 65535
      → (enabled ≡ false → (port ≡ 0) × (default_http_of c ≡ false))
      → (build_route c s (host_labels_of c) port enabled ws).route ≡ some r
      → IsUsable is_ip c r
  unfolding build_route host_labels_of
  built-IsUsable no_network port enabled ws r known name l e h = absurd (cc h)
  built-IsUsable (selected n ips) port enabled ws r known name l e h =
      let ok = known n ips refl in
      subst (IsUsable is_ip c) (some-inj h) (record {
        named = name;
        address = (ok.filled, ok.parses);
        labelled =
            unique_host_labels-IsUnique
              (service_name_of c ∷ parse_csv (label c.labels (codes "dnsvard.service_names")));
        port = l;
        enabled = e;
        ports = refl;
      })

  with_port-IsUsable :
      (port : ℕ) (enabled : Bool) (ws : List Warning) (r : ServiceRoute)
      → service_name_of c ≢ []
      → port ≤ 65535
      → (enabled ≡ false → (port ≡ 0) × (default_http_of c ≡ false))
      → (with_port is_ip dials c port enabled ws).route ≡ some r
      → IsUsable is_ip c r
  unfolding with_port
  with_port-IsUsable port enabled ws r name l e h =
      let probes = preferred_probe_ports port (candidate_tcp_ports c) in
      built-IsUsable (select_container_network is_ip dials c probes) port enabled ws r
        (λ n ips s. ((select_container_network-IsChoice is_ip dials c probes).0 n ips s).0) name l e
        h

  by_port-IsUsable :
      (x : Explicit) (r : ServiceRoute)
      → service_name_of c ≢ []
      → ((p : ℕ) → x ≡ set_to p → p ≤ 65535)
      → (by_port is_ip dials c x).route ≡ some r
      → IsUsable is_ip c r
  unfolding by_port
  by_port-IsUsable (invalid hp) r name l h = absurd (cc h)
  by_port-IsUsable (set_to p) r name l h =
      with_port-IsUsable p true (detect_warnings c) r name (l p refl) (λ e. absurd (cc e)) h
  by_port-IsUsable unset r name l h = elim (Bool-cases (default_http_of c)) [
    | inl e ↦
        let d = detected_port c.id (detect_manual_of c) (candidate_http_ports c) in
        with_port-IsUsable d.0 true (detect_warnings c ++ d.1) r name
          (detected-le c.id (detect_manual_of c) (candidate_http_ports c) (http_ports-le c))
          (λ z. absurd (cc z)) (rw (e, by_port) at h)
    | inr e ↦
        with_port-IsUsable 0 false (detect_warnings c) r name (omega arith) (λ z. (refl, e))
          (rw (e, by_port) at h)
  ]

  explicit_port-le : (p : ℕ) → explicit_port c ≡ set_to p → p ≤ 65535
  unfolding explicit_port
  explicit_port-le p h =
      let hp = trim_space (label c.labels (codes "dnsvard.http_port")) in
      elim (Bool-cases (text_eq hp [])) [
        | inl e ↦ absurd (cc (rw (e, explicit_port) at h))
        | inr e ↦ in_range (port_of (atoi hp)) (port_of-le (atoi hp)) (rw (e, explicit_port) at h)
      ]
    where
      in_range :
          (q : ℕ)
          → q ≤ 65535
          → explicit_of_port (trim_space (label c.labels (codes "dnsvard.http_port"))) q ≡ set_to p
          → p ≤ 65535
      in_range q l e = ground arith

  pub parse_inspect-IsUsable :
      (r : ServiceRoute) → (parse_inspect is_ip dials c).route ≡ some r → IsUsable is_ip c r
  unfolding parse_inspect
  parse_inspect-IsUsable r h = elim (Bool-cases (text_eq (service_name_of c) [])) [
    | inl e ↦ absurd (cc (rw (e, parse_inspect) at h))
    | inr e ↦
        by_port-IsUsable (explicit_port c) r
          (λ z. absurd (cc (e, (text_eq_iff (service_name_of c) []).1 z))) explicit_port-le
          (rw (e, parse_inspect) at h)
  ]
