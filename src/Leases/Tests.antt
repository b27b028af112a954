-- ===== src/Leases/Tests.antt =====
-- Runs on the file of leases, and its theorems at concrete inputs.
use dnsvard.Base.{
  ◌==◌, true, false, none, some, List, [], ◌∷◌, ◌≡◌, ◌≢◌, ◌↔◌, refl, Bytes, codes, lookup, In, Dict,
  trim_space, text_eq,
}
use dnsvard.Leases.{
  null_content, nil_map_panic, load_leases, Lease, missing, leases, check_lease, dated, upsert,
  store_lease,
}
use dnsvard.Leases.Overlap.{Share}
use dnsvard.Leases.Kept.{upsert_keeps_iff}
use dnsvard.Leases.History.{HasDisjoint, Call, upserted, removed, activated, run, run-HasDisjoint}

abbrev first : Lease
first = record {
  id = codes "a";
  pid = 10;
  hostnames = codes "Web.test" ∷ [];
  domain = [];
  http_port = 3000;
  created_at = codes "now";
}

abbrev second : Lease
second = record first {
  id = codes "b";
  pid = 11;
  hostnames = codes "web.test." ∷ codes "api.test" ∷ [];
}

abbrev one_left : Dict Lease
one_left = (codes "b", second) ∷ []

second_evicts :
    upsert true (codes "later") second (leases ((codes "a", first) ∷ [])) ≡ (leases one_left, none)
unfolding upsert check_lease store_lease dated
second_evicts = refl

upsert_keeps_iff_example :
    (lookup second.id one_left ≡ some (dated (codes "later") second))
    × ((k : Bytes) (x : Lease)
        → k ≢ second.id
        → In {A = Bytes × Lease} (k, x) one_left ↔ (
            In {A = Bytes × Lease} (k, x) ((codes "a", first) ∷ [])
            × ¬ Share second.hostnames x.hostnames))
upsert_keeps_iff_example =
    upsert_keeps_iff true (codes "later") second ((codes "a", first) ∷ []) one_left second_evicts

abbrev calls : List Call
calls =
    upserted true (codes "now") first
    ∷ upserted true (codes "now") second
    ∷ activated true (λ pid. pid == 11)
    ∷ removed false (codes "b")
    ∷ []

run-HasDisjoint_example : HasDisjoint (run calls missing)
run-HasDisjoint_example = run-HasDisjoint calls missing tt

-- A file that holds the JSON null is decoded to the nil map, to which nothing can be written.
null_panics : upsert true (codes "later") second null_content ≡ (null_content, some nil_map_panic)
unfolding upsert store_lease load_leases check_lease dated trim_space text_eq
null_panics = refl
