-- ===== src/Allocator/History.antt =====
-- Whole histories of an allocator, from its creation on.
use dnsvard.Base.{
  ℕ, ◌^◌, ◌≤◌, ◌<◌, Bool, true, false, none, some, List, [], ◌∷◌, ◌≡◌, ◌≢◌, inl, inr, sym, ap, ◌∙◌,
  subst, arith, Option-cases, Bytes, text_eq_iff, lookup, insert, lookup-insert, lookup-insert_self,
}
use dnsvard.Netip.{v4}
use dnsvard.Allocator.{
  Assignment, Allocator, assigned, done, Decoder, missing, created, new_allocator, load,
  default_cooldown, masked, fresh_assignment, known_ip, allocate, release, save,
}
use dnsvard.Allocator.Range.{IsPrefix, masked-IsPrefix}
use dnsvard.Allocator.Allocate.{allocate-known, IsFresh, allocate-IsFresh}
use dnsvard.Allocator.Holders.{LiveDistinct, FromPool, IsSound, allocate-IsSound, release-IsSound}

-- A call, with its time and whether the file could be written.
pub data Call : Type 0 where
  allocating releasing : Bool → ℕ → Bytes → Call

unfoldable pub perform : (Bytes → ℕ) → Call → Allocator → Allocator
perform hash (allocating written now id) a = (allocate hash written now id a).state
perform hash (releasing written now id) a = (release written now id a).state

unfoldable pub run : (Bytes → ℕ) → List Call → Allocator → Allocator
unfolding perform
run hash [] a = a
run hash (c ∷ cs) a = run hash cs (perform hash c a)

run-IsSound :
    (hash : Bytes → ℕ) (cs : List Call) (a : Allocator) → IsSound a → IsSound (run hash cs a)
unfolding run
run-IsSound hash [] a ok = ok
run-IsSound hash (allocating w now id ∷ cs) a ok =
    run-IsSound hash cs (allocate hash w now id a).state (allocate-IsSound hash w now id a ok)
run-IsSound hash (releasing w now id ∷ cs) a ok =
    run-IsSound hash cs (release w now id a).state (release-IsSound w now id a ok)

created_empty :
    (decode : Decoder) (addr bits : ℕ) (a : Allocator)
    → new_allocator decode (some (v4 addr, bits)) missing ≡ created a
    → a ≡ record {
      network = masked addr bits;
      bits = bits;
      cooldown = default_cooldown;
      assignments = [];
      disk = [];
    }
unfolding new_allocator load
created_empty decode addr bits a h = ground arith

pub empty-IsSound :
    (network bits cooldown : ℕ)
    → IsPrefix network bits
    → IsSound (record {
      network = network;
      bits = bits;
      cooldown = cooldown;
      assignments = [];
      disk = [];
    })
unfolding lookup
empty-IsSound network bits cooldown p = record {
  proper = p;
  live = λ j k x y h. absurd (cc);
  pool = λ k x h. absurd (cc);
}

-- An allocator that is created where there is no state file, and whatever is called then, with
-- whatever hash, clock and failures of the disk: two workspaces whose addresses are not released
-- have different addresses, and every address is one of the pool.
pub run_from_new :
    (decode : Decoder) (hash : Bytes → ℕ) (addr bits : ℕ) (a : Allocator) (cs : List Call)
    → bits ≤ 32
    → addr < 2 ^ 32
    → new_allocator decode (some (v4 addr, bits)) missing ≡ created a
    → LiveDistinct (run hash cs a).assignments
      × FromPool (run hash cs a) (run hash cs a).assignments
run_from_new decode hash addr bits a cs short fits h =
    let start = subst IsSound (sym (created_empty decode addr bits a h)) (
      empty-IsSound (masked addr bits) bits default_cooldown
        (masked-IsPrefix addr bits short fits)) in
    let ok = run-IsSound hash cs a start in (ok.live, ok.pool)

known_ip-release :
    (written : Bool) (now : ℕ) (id : Bytes) (a : Allocator)
    → known_ip id (release written now id a).state ≡ known_ip id a
unfolding known_ip release save
known_ip-release true now id a = elim (Option-cases (lookup id a.assignments)) [
  | inl e ↦ ground arith
  | inr (asg, e) ↦
      ground (arith, lookup-insert_self id (record asg { released_at = some now }) a.assignments)
]
known_ip-release false now id a = elim (Option-cases (lookup id a.assignments)) [
  | inl e ↦ ground arith
  | inr (asg, e) ↦
      ground (arith, lookup-insert_self id (record asg { released_at = some now }) a.assignments)
]

-- A workspace without an address is another one than a workspace with one.
known_ip_ne :
    (first second : Bytes) (b : Allocator) (ip : ℕ)
    → known_ip first b ≡ some ip
    → known_ip second b ≡ none
    → second ≢ first
known_ip_ne first second b ip had unknown e = cc (had, unknown, ap (λ k. known_ip k b) e)

known_ip-insert :
    (first second : Bytes) (v : Assignment) (b c : Allocator)
    → second ≢ first
    → c.assignments ≡ insert second v b.assignments
    → known_ip first c ≡ known_ip first b
unfolding known_ip
known_ip-insert first second v b c ne e =
    ground (arith, lookup-insert second first v b.assignments, text_eq_iff second first)

-- A released address stays with its workspace. Where `first` releases its address and `second`,
-- which had none, is given the same one, `second` holds it unreleased; if then `first` asks, it is
-- told the same address, and nothing changes: both use it.
pub allocate-shared :
    (hash : Bytes → ℕ) (first second : Bytes) (a b c : Allocator) (ip t u v : ℕ) (w : Bool)
    → IsSound a
    → first ≢ []
    → second ≢ []
    → known_ip first a ≡ some ip
    → known_ip second b ≡ none
    → release true t first a ≡ record { state = b; outcome = done }
    → allocate hash true u second b ≡ record { state = c; outcome = assigned ip }
    → (lookup second c.assignments ≡ some (fresh_assignment second ip u))
      × (allocate hash w v first c ≡ record { state = c; outcome = assigned ip })
allocate-shared hash first second a b c ip t u v w ok nf ns had unknown gone given =
    let at_b : (release true t first a).state ≡ b = ap (λ r. r.state) gone in
    let at_c : (allocate hash true u second b).state ≡ c = ap (λ r. r.state) given in
    let ok_b = subst IsSound at_b (release-IsSound true t first a ok) in
    let had_b : known_ip first b ≡ some ip =
      ap (known_ip first) (sym at_b) ∙ known_ip-release true t first a ∙ had in
    let new = subst (IsFresh b u second ip) at_c (
      allocate-IsFresh hash true u second b ip ok_b.proper ns unknown
        (ap (λ r. r.outcome) given)) in
    let ne = known_ip_ne first second b ip had_b unknown in
    let had_c =
      known_ip-insert first second (fresh_assignment second ip u) b c ne new.stored ∙ had_b in
    (
      ap (lookup second) new.stored
          ∙ lookup-insert_self second (fresh_assignment second ip u) b.assignments,
      allocate-known hash w v first c ip nf had_c,
    )
