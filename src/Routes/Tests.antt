-- ===== src/Routes/Tests.antt =====
-- Runs of `merge`, and its theorems at concrete entries.
use dnsvard.Base.{
  none, some, List, [], ◌∷◌, ◌≡◌, ◌↔◌, refl, inl, inr, arith, codes, In, text_eq, text_eq_iff,
}
use dnsvard.Netip.{v4}
use dnsvard.Routes.{Entry, docker, runtime, manual, canonical, priority_for, merge}
use dnsvard.Routes.Winner.{winner}
use dnsvard.Routes.Outcome.{merge_iff}
use dnsvard.Routes.Precedence.{Yields, merge-precedence, merge-manual_overridden}

abbrev from_docker : Entry
from_docker = record { hostname = codes "Web.App.test"; ip = v4 1; source = docker }

abbrev from_manual : Entry
from_manual = record { hostname = codes "web.app.test."; ip = v4 2; source = manual }

abbrev other_host : Entry
other_host = record { hostname = codes "api.app.test"; ip = v4 3; source = runtime }

abbrev entries : List Entry
entries = from_docker ∷ from_manual ∷ other_host ∷ []

merged : merge entries ≡ record {
  entries =
      record { hostname = codes "api.app.test."; ip = v4 3; source = runtime }
      ∷ record { hostname = codes "web.app.test."; ip = v4 2; source = manual }
      ∷ [];
  warnings = codes "route web.app.test. from manual overrides docker" ∷ [];
}
unfolding merge
merged = refl

merge_iff_example :
    (In
        (record { hostname = codes "web.app.test."; ip = v4 2; source = manual })
        (merge entries).entries
      × (codes "web.app.test." ≡ codes "web.app.test."))
    ↔ (winner (codes "web.app.test.") none entries
        ≡ some (record { hostname = codes "web.app.test."; ip = v4 2; source = manual }))
merge_iff_example =
    merge_iff entries (codes "web.app.test.")
      (record { hostname = codes "web.app.test."; ip = v4 2; source = manual })

docker-Yields : Yields (canonical from_manual.hostname) from_manual from_docker
unfolding canonical priority_for
docker-Yields = λ same. inl (λ e. cc, omega arith)

manual-Yields : Yields (canonical from_manual.hostname) from_manual from_manual
manual-Yields = λ same. inr (refl, refl)

other-Yields : Yields (canonical from_manual.hostname) from_manual other_host
unfolding canonical text_eq
other-Yields = λ same.
    cc ((text_eq_iff (canonical other_host.hostname) (canonical from_manual.hostname)).1 same)

merge-precedence_example :
    (r : Entry) × In r (merge entries).entries
    × (r.hostname ≡ canonical from_manual.hostname)
    × (r.ip ≡ v4 2)
    × (priority_for r.source ≡ priority_for manual)
merge-precedence_example =
    merge-precedence entries from_manual (inr (inl refl))
      (docker-Yields, (manual-Yields, (other-Yields, tt)))

merge-manual_overridden_example :
    (merge (
      record { hostname = codes "a.test"; ip = v4 1; source = docker }
      ∷ record { hostname = codes "a.test"; ip = v4 1; source = manual }
      ∷ record { hostname = codes "a.test"; ip = v4 2; source = runtime }
      ∷ [])).entries
    ≡ record { hostname = canonical (codes "a.test"); ip = v4 2; source = runtime } ∷ []
merge-manual_overridden_example = merge-manual_overridden (codes "a.test") (v4 1) (v4 2) (λ e. cc)
