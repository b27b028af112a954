-- ===== src/Dns/Server/Answers.antt =====
-- What a reply holds.
use dnsvard.Base.{
  ℕ, true, none, some, List, [], ◌∷◌, ◌++◌, ◌≡◌, ◌≢◌, ◌↔◌, ◌⊎◌, inl, inr, refl, sym, ap, ◌∙◌, subst,
  arith, Bytes, to_lower, All, All-append, Bool-cases, Option-cases,
}
use dnsvard.Netip.{Addr, invalid, v4, v6}
use dnsvard.Dns.Table.{Table, allows, zone_for_name, lookup_name}
use dnsvard.Dns.Server.{
  Qtype, type_a, type_aaaa, type_any, type_other, Question, ResourceRecord, a_record, aaaa_record,
  soa_record, Rcode, success, name_error, refused, Msg, DnsLibrary, new_msg, loopback4, loopback6,
  unresolved_name_loopback, address_answer, answer_known, Verdict, goes_on, returns, answer_unknown,
  handle_question, handle_questions, handle_dns,
}

-- An A record of a reply has the address of its name in the table, or 127.0.0.1 where the table
-- does not know the name; an AAAA record has ::1. Its name is allowed, and its time to live is the
-- server's.
abbrev pub IsTrue : Table → ℕ → ResourceRecord → Type 0
IsTrue t ttl (a_record name l ip) =
    (l ≡ ttl)
    × (allows t (to_lower name) ≡ true)
    × ((lookup_name t (to_lower name) ≡ some ip)
        ⊎ ((lookup_name t (to_lower name) ≡ none) × (ip ≡ loopback4)))
IsTrue t ttl (aaaa_record name l ip) =
    (l ≡ ttl) × (allows t (to_lower name) ≡ true) × (ip ≡ loopback6)
IsTrue t ttl (soa_record zone l) = ⊥

-- The message of a verdict.
abbrev message : Verdict → Msg
message (goes_on m) = m
message (returns m) = m

Verdict-cases : (v : Verdict) → ((m : Msg) × (v ≡ goes_on m)) ⊎ ((m : Msg) × (v ≡ returns m))
Verdict-cases (goes_on m) = inl (m, refl)
Verdict-cases (returns m) = inr (m, refl)

loopback-IsTrue :
    (t : Table) (ttl : ℕ) (q : Question)
    → allows t (to_lower q.name) ≡ true
    → lookup_name t (to_lower q.name) ≡ none
    → All (IsTrue t ttl) (unresolved_name_loopback q ttl)
unfolding unresolved_name_loopback
loopback-IsTrue t ttl q a n = of_type q.qtype refl
  where
    of_type : (k : Qtype) → q.qtype ≡ k → All (IsTrue t ttl) (unresolved_name_loopback q ttl)
    of_type type_a e = rw e ((refl, a, inr (n, refl)), tt)
    of_type type_aaaa e = rw e ((refl, a, refl), tt)
    of_type type_any e = rw e ((refl, a, inr (n, refl)), ((refl, a, refl), tt))
    of_type (type_other k) e = rw e tt

address_answer-IsTrue :
    (t : Table) (ttl : ℕ) (name : Bytes) (ip : Addr)
    → allows t (to_lower name) ≡ true
    → lookup_name t (to_lower name) ≡ some ip
    → All (IsTrue t ttl) (address_answer name ttl ip)
unfolding address_answer
address_answer-IsTrue t ttl name (v4 n) a s = ((refl, a, inl s), tt)
address_answer-IsTrue t ttl name (v6 n) a s = tt
address_answer-IsTrue t ttl name invalid a s = tt

known-IsTrue :
    (t : Table) (ttl : ℕ) (q : Question) (zone : Bytes) (ip : Addr) (m : Msg)
    → allows t (to_lower q.name) ≡ true
    → lookup_name t (to_lower q.name) ≡ some ip
    → All (IsTrue t ttl) m.answer
    → All (IsTrue t ttl) (answer_known q ttl zone ip m).answer
unfolding answer_known
known-IsTrue t ttl q zone ip m a s h = of_type q.qtype refl
  where
    of_type : (k : Qtype) → q.qtype ≡ k → All (IsTrue t ttl) (answer_known q ttl zone ip m).answer
    of_type type_a e = rw e (
        All-append (IsTrue t ttl) m.answer (address_answer q.name ttl ip) h
          (address_answer-IsTrue t ttl q.name ip a s))
    of_type type_any e = rw e (
        All-append (IsTrue t ttl) m.answer (address_answer q.name ttl ip) h
          (address_answer-IsTrue t ttl q.name ip a s))
    of_type type_aaaa e = rw e (
        All-append (IsTrue t ttl) m.answer (aaaa_record q.name ttl loopback6 ∷ []) h
          ((refl, a, refl), tt))
    of_type (type_other k) e = rw e h

module _ (lib : DnsLibrary) (t : Table) (ttl : ℕ) (request : List Question) where
  set_rcode-answer :
      (c : Rcode) (m : Msg)
      → All (IsTrue t ttl) m.answer
      → All (IsTrue t ttl) (lib.set_rcode request c m).answer
  set_rcode-answer c m h =
      subst (λ x. All (IsTrue t ttl) x.answer) (sym (lib.rcode-set_rcode request c m)) h

  unknown-IsTrue :
      (q : Question) (zone : Bytes) (rrs : List ResourceRecord) (m : Msg)
      → All (IsTrue t ttl) rrs
      → All (IsTrue t ttl) m.answer
      → All (IsTrue t ttl) (message (answer_unknown lib t ttl request q zone rrs m)).answer
  unfolding answer_unknown
  unknown-IsTrue q zone [] m a h = set_rcode-answer name_error m h
  unknown-IsTrue q zone (r ∷ rs) m a h = All-append (IsTrue t ttl) m.answer (r ∷ rs) h a

  handle_question-IsTrue :
      (q : Question) (m : Msg)
      → All (IsTrue t ttl) m.answer
      → All (IsTrue t ttl) (message (handle_question lib t ttl request q m)).answer
  unfolding handle_question
  handle_question-IsTrue q m h = elim (Bool-cases (allows t (to_lower q.name))) [
    | inr a ↦ rw a (set_rcode-answer refused m h)
    | inl a ↦ elim (Option-cases (lookup_name t (to_lower q.name))) [
      | inl n ↦
          rw (a, n)
            (unknown-IsTrue q (zone_for_name t (to_lower q.name)) (unresolved_name_loopback q ttl) m
              (loopback-IsTrue t ttl q a n) h)
      | inr (ip, s) ↦
          rw (a, s) (known-IsTrue t ttl q (zone_for_name t (to_lower q.name)) ip m a s h)
    ]
  ]

  handle_questions-IsTrue :
      (qs : List Question) (m : Msg)
      → All (IsTrue t ttl) m.answer
      → All (IsTrue t ttl) (handle_questions lib t ttl request qs m).answer
  unfolding handle_questions
  handle_questions-IsTrue [] m h = h
  handle_questions-IsTrue (q ∷ qs) m h =
      stepped (handle_question lib t ttl request q m) refl (handle_question-IsTrue q m h)
        (handle_questions-IsTrue qs)
    where
      stepped :
          (v : Verdict)
          → handle_question lib t ttl request q m ≡ v
          → All (IsTrue t ttl) (message (handle_question lib t ttl request q m)).answer
          → ((m' : Msg)
              → All (IsTrue t ttl) m'.answer
              → All (IsTrue t ttl) (handle_questions lib t ttl request qs m').answer)
          → All (IsTrue t ttl) (handle_questions lib t ttl request (q ∷ qs) m).answer
      stepped (goes_on m') e a rest =
          rw (handle_questions, e)
            (rest m' (subst (λ v. All (IsTrue t ttl) (message v).answer) e a))
      stepped (returns m') e a rest =
          rw (handle_questions, e) (subst (λ v. All (IsTrue t ttl) (message v).answer) e a)

  -- Every answer of a reply is true: an A record has the address of its name in the table, or
  -- 127.0.0.1 where the table does not know the name, an AAAA record has ::1, and the canonical form
  -- of the name ends with the text of a managed zone, be it aligned to its labels or not.
  pub handle_dns-IsTrue : All (IsTrue t ttl) (handle_dns lib t ttl request).answer
  unfolding handle_dns
  handle_dns-IsTrue =
      handle_questions-IsTrue request
        (record (lib.set_reply request new_msg) { authoritative = true })
        (subst (λ x. All (IsTrue t ttl) x.answer) (sym (lib.rcode-set_reply request new_msg)) tt)

-- A question that the server has an answer for, if only an empty one: its name is in a managed
-- zone, and it is in the table or its type has a loopback answer.
pub record IsAnswerable (t : Table) (q : Question) : Type 0 where
  pub managed : allows t (to_lower q.name) ≡ true
  pub known :
      (lookup_name t (to_lower q.name) ≢ none)
      ⊎ ((q.qtype ≡ type_a) ⊎ ((q.qtype ≡ type_aaaa) ⊎ (q.qtype ≡ type_any)))

known_keeps_rcode :
    (q : Question) (ttl : ℕ) (zone : Bytes) (ip : Addr) (m : Msg)
    → (answer_known q ttl zone ip m).rcode ≡ m.rcode
unfolding answer_known
known_keeps_rcode q ttl zone ip m = of_type q.qtype refl
  where
    of_type : (k : Qtype) → q.qtype ≡ k → (answer_known q ttl zone ip m).rcode ≡ m.rcode
    of_type type_a e = rw e refl
    of_type type_any e = rw e refl
    of_type type_aaaa e = rw e refl
    of_type (type_other k) e = rw e refl

-- Where a question is answerable the handler goes on with the return code it had, and where it is
-- not, it returns with another one than success.
data Step (t : Table) (q : Question) (m : Msg) : Verdict → Type 0 where
  answered : (m' : Msg) → IsAnswerable t q → m'.rcode ≡ m.rcode → Step t q m (goes_on m')
  stopped : (m' : Msg) → ¬ IsAnswerable t q → m'.rcode ≢ success → Step t q m (returns m')

loopback_types :
    (q : Question) (ttl : ℕ)
    → (unresolved_name_loopback q ttl ≢ [])
      ↔ ((q.qtype ≡ type_a) ⊎ ((q.qtype ≡ type_aaaa) ⊎ (q.qtype ≡ type_any)))
unfolding unresolved_name_loopback
loopback_types q ttl = of_type q.qtype refl
  where
    of_type :
        (k : Qtype)
        → q.qtype ≡ k
        → (unresolved_name_loopback q ttl ≢ [])
          ↔ ((q.qtype ≡ type_a) ⊎ ((q.qtype ≡ type_aaaa) ⊎ (q.qtype ≡ type_any)))
    of_type type_a e = rw e ((λ _. inl refl), (λ _ f. absurd (cc)))
    of_type type_aaaa e = rw e ((λ _. inr (inl refl)), (λ _ f. absurd (cc)))
    of_type type_any e = rw e ((λ _. inr (inr refl)), (λ _ f. absurd (cc)))
    of_type (type_other k) e = rw e ((λ n. absurd (n refl)), (λ s f. ground arith))

module _ (lib : DnsLibrary) (t : Table) (ttl : ℕ) (request : List Question) where
  code_set : (c : Rcode) (m : Msg) → (lib.set_rcode request c m).rcode ≡ c
  code_set c m = ap (λ x. x.rcode) (lib.rcode-set_rcode request c m)

  unknown-Step :
      (q : Question) (zone : Bytes) (rrs : List ResourceRecord) (m : Msg)
      → allows t (to_lower q.name) ≡ true
      → lookup_name t (to_lower q.name) ≡ none
      → (rrs ≢ []) ↔ ((q.qtype ≡ type_a) ⊎ ((q.qtype ≡ type_aaaa) ⊎ (q.qtype ≡ type_any)))
      → Step t q m (answer_unknown lib t ttl request q zone rrs m)
  unfolding answer_unknown
  unknown-Step q zone [] m a n types =
      stopped
        (record (lib.set_rcode request name_error m) {
          ns = (lib.set_rcode request name_error m).ns ++ soa_record zone ttl ∷ [];
        })
        (λ w. elim w.known [ inl f ↦ f n | inr k ↦ types.1 k refl ])
        (λ e. absurd (cc (code_set name_error m, e)))
  unknown-Step q zone (r ∷ rs) m a n types =
      answered (record m { answer = m.answer ++ (r ∷ rs) })
        (record { managed = a; known = inr (types.0 (λ e. absurd (cc))) }) refl

  handle_question-Step :
      (q : Question) (m : Msg) → Step t q m (handle_question lib t ttl request q m)
  unfolding handle_question
  handle_question-Step q m = elim (Bool-cases (allows t (to_lower q.name))) [
    | inr a ↦ rw a (
        stopped (lib.set_rcode request refused m) (λ w. absurd (cc (a, w.managed)))
          (λ e. absurd (cc (code_set refused m, e))))
    | inl a ↦ elim (Option-cases (lookup_name t (to_lower q.name))) [
      | inl n ↦
          rw (a, n)
            (unknown-Step q (zone_for_name t (to_lower q.name)) (unresolved_name_loopback q ttl) m a
              n (loopback_types q ttl))
      | inr (ip, s) ↦
          rw (a, s)
            (answered (answer_known q ttl (zone_for_name t (to_lower q.name)) ip m)
              (record { managed = a; known = inl (λ e. absurd (cc)) })
              (known_keeps_rcode q ttl (zone_for_name t (to_lower q.name)) ip m))
    ]
  ]

  handle_questions_success :
      (qs : List Question) (m : Msg)
      → m.rcode ≡ success
      → ((handle_questions lib t ttl request qs m).rcode ≡ success) ↔ All (IsAnswerable t) qs
  unfolding handle_questions
  handle_questions_success [] m h = ((λ _. tt), (λ _. h))
  handle_questions_success (q ∷ qs) m h =
      stepped (handle_question lib t ttl request q m) refl (handle_question-Step q m)
        (handle_questions_success qs)
    where
      stepped :
          (v : Verdict)
          → handle_question lib t ttl request q m ≡ v
          → Step t q m v
          → ((m' : Msg)
              → m'.rcode ≡ success
              → ((handle_questions lib t ttl request qs m').rcode ≡ success)
                ↔ All (IsAnswerable t) qs)
          → ((handle_questions lib t ttl request (q ∷ qs) m).rcode ≡ success)
            ↔ All (IsAnswerable t) (q ∷ qs)
      stepped v e (answered m' w r) rest =
          let after = rest m' (r ∙ h) in
          rw (handle_questions, e) ((λ z. (w, after.0 z)), (λ z. after.1 z.1))
      stepped v e (stopped m' n r) rest =
          rw (handle_questions, e) ((λ z. absurd (r z)), (λ z. absurd (n z.0)))

  -- A reply has the code success exactly when the canonical form of every name in the request ends with the text of
  -- a managed zone, be it aligned to its labels or not, and every question either names a host of the table or asks for A, AAAA or ANY.
  pub handle_dns_success :
      ((handle_dns lib t ttl request).rcode ≡ success) ↔ All (IsAnswerable t) request
  unfolding handle_dns
  handle_dns_success =
      handle_questions_success request
        (record (lib.set_reply request new_msg) { authoritative = true })
        (ap (λ x. x.rcode) (lib.rcode-set_reply request new_msg))
