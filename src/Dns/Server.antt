-- ===== src/Dns/Server.antt =====
-- internal/dnsserver/server.go: `handleDNS`. The message type is github.com/miekg/dns's: the
-- fields that the handler touches are a record, and `SetReply` and `SetRcode` are arguments.
pub mod Answers
use dnsvard.Base.{
  ℕ, Bool, true, false, Option, none, some, List, [], ◌∷◌, ◌++◌, ◌≡◌, ◌*◌, ◌+◌, if◌then◌else◌,
  Bytes, codes, to_lower,
}
use dnsvard.Netip.{Addr, invalid, v4, v6}
use dnsvard.Dns.Table.{Table, allows, zone_for_name, lookup_name}

pub data Qtype : Type 0 where
  type_a type_aaaa type_any : Qtype
  type_other : ℕ → Qtype

pub record Question : Type 0 where
  pub name : Bytes
  pub qtype : Qtype

-- A resource record with its name and its time to live.
pub data ResourceRecord : Type 0 where
  a_record aaaa_record : Bytes → ℕ → Addr → ResourceRecord
  soa_record : Bytes → ℕ → ResourceRecord

pub data Rcode : Type 0 where
  success name_error refused : Rcode

pub record Msg : Type 0 where
  pub rcode : Rcode
  pub authoritative : Bool
  pub answer : List ResourceRecord
  pub ns : List ResourceRecord

-- What the handler relies on: the two calls set the return code, and leave the sections and the
-- authority flag alone.
pub record DnsLibrary : Type 0 where
  pub set_reply : List Question → Msg → Msg
  pub set_rcode : List Question → Rcode → Msg → Msg
  pub rcode-set_reply : (r : List Question) (m : Msg) → set_reply r m ≡ record m { rcode = success }
  pub rcode-set_rcode :
      (r : List Question) (c : Rcode) (m : Msg) → set_rcode r c m ≡ record m { rcode = c }

-- `new(dns.Msg)`
abbrev pub new_msg : Msg
new_msg = record { rcode = success; authoritative = false; answer = []; ns = [] }

-- 127.0.0.1 and ::1
abbrev pub loopback4 : Addr
loopback4 = v4 (127 * 16777216 + 1)

abbrev pub loopback6 : Addr
loopback6 = v6 1

-- `unresolvedNameLoopbackRR`; no record stands for nil.
unfoldable pub unresolved_name_loopback : Question → ℕ → List ResourceRecord
unresolved_name_loopback q ttl = elim q.qtype [
  | type_a ↦ a_record q.name ttl loopback4 ∷ []
  | type_aaaa ↦ aaaa_record q.name ttl loopback6 ∷ []
  | type_any ↦ a_record q.name ttl loopback4 ∷ aaaa_record q.name ttl loopback6 ∷ []
  | type_other n ↦ []
]

-- The A record of a known name, if its address is IPv4.
unfoldable pub address_answer : Bytes → ℕ → Addr → List ResourceRecord
address_answer name ttl (v4 a) = a_record name ttl (v4 a) ∷ []
address_answer name ttl (v6 a) = []
address_answer name ttl invalid = []

-- The switch over the type of a question for a known name.
unfoldable pub answer_known : Question → ℕ → Bytes → Addr → Msg → Msg
unfolding address_answer
answer_known q ttl zone ip m = elim q.qtype [
  | type_a ↦ record m { answer = m.answer ++ address_answer q.name ttl ip }
  | type_any ↦ record m { answer = m.answer ++ address_answer q.name ttl ip }
  | type_aaaa ↦ record m { answer = m.answer ++ aaaa_record q.name ttl loopback6 ∷ [] }
  | type_other n ↦ record m { ns = m.ns ++ soa_record zone ttl ∷ [] }
]

-- What one question does: the handler goes on, or writes the message and returns.
pub data Verdict : Type 0 where
  goes_on : Msg → Verdict
  returns : Msg → Verdict

module _ (lib : DnsLibrary) (table : Table) (ttl : ℕ) (request : List Question) where
  unfoldable pub answer_unknown : Question → Bytes → List ResourceRecord → Msg → Verdict
  answer_unknown q zone [] m = returns (record (lib.set_rcode request name_error m) {
    ns = (lib.set_rcode request name_error m).ns ++ soa_record zone ttl ∷ [];
  })
  answer_unknown q zone (rr ∷ rrs) m = goes_on (record m { answer = m.answer ++ (rr ∷ rrs) })

  unfoldable pub handle_question : Question → Msg → Verdict
  unfolding answer_known answer_unknown unresolved_name_loopback
  handle_question q m =
      let name = to_lower q.name in
      if allows table name
      then elim (lookup_name table name) [
        | none ↦ answer_unknown q (zone_for_name table name) (unresolved_name_loopback q ttl) m
        | some ip ↦ goes_on (answer_known q ttl (zone_for_name table name) ip m)
      ]
      else returns (lib.set_rcode request refused m)

  unfoldable pub handle_questions : List Question → Msg → Msg
  handle_questions [] m = m
  handle_questions (q ∷ qs) m = elim (handle_question q m) [
    | goes_on m' ↦ handle_questions qs m'
    | returns m' ↦ m'
  ]

  -- The message that `handleDNS` writes.
  unfoldable pub handle_dns : Msg
  handle_dns =
      handle_questions request (record (lib.set_reply request new_msg) { authoritative = true })
