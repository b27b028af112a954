-- ===== src/Dns/Tests.antt =====
-- Runs of the table and of the handler of questions, and their theorems at concrete inputs.
use dnsvard.Base.{
  ◌≤◌, is_space, lookup, true, none, some, List, [], ◌∷◌, ◌++◌, ◌≡◌, ◌≢◌, ◌↔◌, refl, Bytes, codes,
  All, In, to_lower, has_suffix, length,
}
use dnsvard.Netip.{v4}
use dnsvard.Dns.Table.{
  Record, Table, canonical_fqdn, set_records, allows, zone_for_name, lookup_name, outside_zone,
  build_records, add_record, has_managed_zone,
}
use dnsvard.Dns.Canonical.{canonical_fqdn-to_lower, NoSpace}
use dnsvard.Dns.Records.{IsAcceptable, set_records_iff, lookup_name-set_records}
use dnsvard.Dns.Zones.{allows_iff, zone_for_name-longest}
use dnsvard.Dns.Server.{
  type_a, type_other, Question, a_record, success, DnsLibrary, handle_dns, handle_question,
  handle_questions, answer_known, address_answer,
}
use dnsvard.Dns.Server.Answers.{IsTrue, IsAnswerable, handle_dns-IsTrue, handle_dns_success}

canonical_fqdn-to_lower_example :
    canonical_fqdn (to_lower (codes "A.Test")) ≡ canonical_fqdn (codes "A.Test")
canonical_fqdn-to_lower_example = canonical_fqdn-to_lower (codes "A.Test")

no_space : NoSpace (codes "A.b")
unfolding is_space
no_space = (refl, (refl, (refl, tt)))

abbrev zoned : Table
zoned = record {
  zone = codes "test.";
  managed_zones = codes "b.test." ∷ codes "test." ∷ [];
  records = [];
}

abbrev web : Record
web = record { hostname = codes "Web.test"; ip = v4 5 }

abbrev other : Record
other = record { hostname = codes "web.other"; ip = v4 6 }

set_refused : (set_records (web ∷ other ∷ []) zoned).1 ≡ some (outside_zone (codes "web.other."))
unfolding set_records build_records add_record canonical_fqdn lookup
set_refused = refl

set_records_iff_example :
    (((set_records (web ∷ other ∷ []) zoned).1 ≡ none)
      ↔ IsAcceptable (codes "test.") (web ∷ other ∷ []))
    × ((set_records (web ∷ other ∷ []) zoned).1 ≢ none
        → (set_records (web ∷ other ∷ []) zoned).0 ≡ zoned)
set_records_iff_example = set_records_iff (web ∷ other ∷ []) zoned

web_set : (set_records (web ∷ []) zoned).1 ≡ none
unfolding set_records build_records add_record canonical_fqdn lookup
web_set = refl

lookup_name-set_records_example :
    (lookup_name (set_records (web ∷ []) zoned).0 (codes "WEB.test.") ≡ some (v4 5)) ↔ (
      (r : Record) × In r (web ∷ [])
      × (canonical_fqdn r.hostname ≡ canonical_fqdn (codes "WEB.test."))
      × (r.ip ≡ v4 5))
lookup_name-set_records_example =
    lookup_name-set_records (web ∷ []) zoned (codes "WEB.test.") (v4 5) web_set

-- The test of a zone is not aligned to labels.
other_name_allowed : allows zoned (codes "mytest") ≡ true
unfolding allows has_managed_zone canonical_fqdn
other_name_allowed = refl

allows_iff_example : (allows zoned (codes "mytest") ≡ true) ↔ (
    (z : Bytes) × (p : Bytes) × In z (codes "b.test." ∷ codes "test." ∷ [])
    × (canonical_fqdn (codes "mytest") ≡ p ++ z))
allows_iff_example = allows_iff zoned (codes "mytest")

below_both : allows zoned (codes "a.b.test") ≡ true
unfolding allows has_managed_zone canonical_fqdn
below_both = refl

zone_for_name-longest_example :
    In (zone_for_name zoned (codes "a.b.test")) (codes "b.test." ∷ codes "test." ∷ [])
    × (has_suffix (canonical_fqdn (codes "a.b.test")) (zone_for_name zoned (codes "a.b.test"))
        ≡ true)
    × ((z : Bytes)
        → In z (codes "b.test." ∷ codes "test." ∷ [])
        → has_suffix (canonical_fqdn (codes "a.b.test")) z ≡ true
        → length z ≤ length (zone_for_name zoned (codes "a.b.test")))
zone_for_name-longest_example =
    zone_for_name-longest zoned (codes "a.b.test") ((λ e. cc), ((λ e. cc), tt)) below_both

-- The calls of the DNS package on the fields of the record.
abbrev library : DnsLibrary
library = record {
  set_reply = λ r m. record m { rcode = success };
  set_rcode = λ r c m. record m { rcode = c };
  rcode-set_reply = λ r m. refl;
  rcode-set_rcode = λ r c m. refl;
}

abbrev filled : Table
filled = record {
  zone = codes "test.";
  managed_zones = codes "test." ∷ [];
  records = (codes "web.test.", v4 5) ∷ [];
}

abbrev questions : List Question
questions =
    record { name = codes "WEB.test."; qtype = type_a }
    ∷ record { name = codes "b.test."; qtype = type_other 15 }
    ∷ []

reply_answer :
    (handle_dns library filled 5 questions).answer ≡ a_record (codes "WEB.test.") 5 (v4 5) ∷ []
unfolding handle_dns handle_questions handle_question lookup answer_known address_answer allows
    has_managed_zone lookup_name canonical_fqdn
reply_answer = refl

handle_dns-IsTrue_example : All (IsTrue filled 5) (handle_dns library filled 5 questions).answer
handle_dns-IsTrue_example = handle_dns-IsTrue library filled 5 questions

handle_dns_success_example :
    ((handle_dns library filled 5 questions).rcode ≡ success) ↔ All (IsAnswerable filled) questions
handle_dns_success_example = handle_dns_success library filled 5 questions
