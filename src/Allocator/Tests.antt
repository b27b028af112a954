-- ===== src/Allocator/Tests.antt =====
-- Runs of the allocator over a prefix of eight addresses, and its theorems there.
use dnsvard.Base.{
  ℕ, ◌+◌, ◌*◌, ◌/◌, ◌^◌, ◌≤◌, true, false, none, some, List, [], ◌∷◌, ◌≡◌, refl, subst, ap, arith,
  Bytes, codes, text_eq, lookup, insert,
}
use dnsvard.Netip.{v4}
use dnsvard.Netip.Dotted.{addr_text, parse_addr}
use dnsvard.Allocator.{
  Assignment, Allocator, assigned, done, missing, created, new_allocator, host_capacity,
  host_to_addr, is_ip_available, probe_host, probe, search_from, save, fresh_assignment,
  allocate_fresh, known_ip, allocate, release, default_cooldown,
}
use dnsvard.Allocator.Range.{IsPrefix}
use dnsvard.Allocator.Rounds.{InPool, Free}
use dnsvard.Allocator.Allocate.{IsFresh, allocate-IsFresh, allocate_finds}
use dnsvard.Allocator.Holders.{LiveDistinct, FromPool, IsSound, allocate-IsSound}
use dnsvard.Allocator.History.{
  Call, allocating, releasing, run, run_from_new, empty-IsSound, allocate-shared,
}

-- 127.90.0.0/29
abbrev block : ℕ
block = 127 * 2 ^ 24 + 90 * 2 ^ 16

abbrev empty : Allocator
empty = record {
  network = block;
  bits = 29;
  cooldown = default_cooldown;
  assignments = [];
  disk = [];
}

abbrev same_hash : Bytes → ℕ
same_hash _ = 9

first_two : (allocate same_hash true 5 (codes "ws-a") empty).outcome ≡ assigned (block + 3)
unfolding allocate allocate_fresh host_capacity search_from probe host_to_addr probe_host
    is_ip_available addr_text save lookup
first_two = refl

created_empty : new_allocator (λ _. none) (some (v4 (block + 1), 29)) missing ≡ created empty
unfolding new_allocator
created_empty = refl

empty-IsPrefix : IsPrefix block 29
empty-IsPrefix = record {
  short = omega arith;
  fits = omega arith;
  block = (127 * 2 ^ 24 + 90 * 2 ^ 16) / 8;
  aligned = refl;
}

unknown_a : known_ip (codes "ws-a") empty ≡ none
unfolding known_ip lookup
unknown_a = refl

allocate-IsFresh_example :
    IsFresh empty 5
      (codes "ws-a")
      (block + 3)
      (allocate same_hash true 5 (codes "ws-a") empty).state
allocate-IsFresh_example =
    allocate-IsFresh same_hash true 5 (codes "ws-a") empty (block + 3) empty-IsPrefix (λ e. cc)
      unknown_a first_two

eight_hosts : 4 ≤ host_capacity 29
unfolding host_capacity
eight_hosts = omega arith

last-InPool : InPool empty (block + 7)
unfolding host_capacity
last-InPool = record { host = 7; low = omega arith; high = omega arith; place = refl }

last-Free : Free empty 5 (block + 7)
unfolding is_ip_available
last-Free = refl

allocate_finds_example :
    (x : ℕ) × ((allocate same_hash true 5 (codes "ws-a") empty).outcome ≡ assigned x)
allocate_finds_example =
    allocate_finds same_hash 5 (codes "ws-a") empty (block + 7) empty-IsPrefix eight_hosts (λ e. cc)
      unknown_a last-InPool last-Free

abbrev calls : List Call
calls =
    allocating true 1 (codes "ws-a")
    ∷ allocating false 2 (codes "ws-b")
    ∷ releasing true 3 (codes "ws-a")
    ∷ []

run_from_new_example :
    LiveDistinct (run same_hash calls empty).assignments
    × FromPool (run same_hash calls empty) (run same_hash calls empty).assignments
run_from_new_example =
    run_from_new (λ _. none) same_hash (block + 1) 29 empty calls (omega arith) (omega arith)
      created_empty

abbrev with_a : Allocator
with_a = record empty {
  assignments = insert (codes "ws-a") (fresh_assignment (codes "ws-a") (block + 3) 1) [];
  disk = insert (codes "ws-a") (fresh_assignment (codes "ws-a") (block + 3) 1) [];
}

abbrev released_a : Assignment
released_a = record (fresh_assignment (codes "ws-a") (block + 3) 1) { released_at = some 2 }

abbrev without_a : Allocator
without_a = record empty {
  assignments = insert (codes "ws-a") released_a [];
  disk = insert (codes "ws-a") released_a [];
}

abbrev later : ℕ
later = default_cooldown + 2

abbrev with_b : Allocator
with_b = record empty {
  assignments =
      insert (codes "ws-b") (fresh_assignment (codes "ws-b") (block + 3) later)
        (insert (codes "ws-a") released_a []);
  disk =
      insert (codes "ws-b") (fresh_assignment (codes "ws-b") (block + 3) later)
        (insert (codes "ws-a") released_a []);
}

a_gets :
    allocate same_hash true 1 (codes "ws-a") empty
    ≡ record { state = with_a; outcome = assigned (block + 3) }
unfolding allocate allocate_fresh host_capacity search_from probe host_to_addr probe_host
    is_ip_available addr_text save lookup insert fresh_assignment
a_gets = refl

a_releases : release true 2 (codes "ws-a") with_a ≡ record { state = without_a; outcome = done }
unfolding release save lookup insert text_eq fresh_assignment
a_releases = refl

b_gets :
    allocate same_hash true later (codes "ws-b") without_a
    ≡ record { state = with_b; outcome = assigned (block + 3) }
unfolding allocate allocate_fresh host_capacity search_from probe host_to_addr probe_host
    is_ip_available addr_text save lookup insert fresh_assignment text_eq
b_gets = refl

a_known : known_ip (codes "ws-a") with_a ≡ some (block + 3)
unfolding known_ip lookup insert text_eq fresh_assignment parse_addr addr_text
a_known = refl

b_unknown : known_ip (codes "ws-b") without_a ≡ none
unfolding known_ip lookup insert text_eq
b_unknown = refl

with_a-IsSound : IsSound with_a
with_a-IsSound = subst IsSound (ap (λ r. r.state) a_gets) (
    allocate-IsSound same_hash true 1 (codes "ws-a") empty
      (empty-IsSound block 29 default_cooldown empty-IsPrefix))

allocate-shared_example :
    (lookup (codes "ws-b") with_b.assignments
      ≡ some (fresh_assignment (codes "ws-b") (block + 3) later))
    × (allocate same_hash true (later + 1) (codes "ws-a") with_b
        ≡ record { state = with_b; outcome = assigned (block + 3) })
allocate-shared_example =
    allocate-shared same_hash (codes "ws-a") (codes "ws-b") with_a without_a with_b (block + 3) 2
      later (later + 1) true with_a-IsSound (λ e. cc) (λ e. cc) a_known b_unknown a_releases b_gets
