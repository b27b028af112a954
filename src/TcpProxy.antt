-- ===== src/TcpProxy.antt =====
-- internal/tcpproxy/proxy.go: `SetRoutes`. A listener is the route that it serves; whether
-- `net.Listen` succeeds for a route is an argument. What a listener forwards is left out.
mod Tests
pub mod Served
use dnsvard.Base.{
  ℕ, zero, suc, ◌+◌, ◌/◌, ◌%◌, Bool, true, false, Option, none, some, List, [], ◌∷◌, ◌++◌, ◌&&◌,
  ltb, ◌==◌, if◌then◌else◌, Bytes, codes, text_eq, has_byte, decimal, Dict, lookup, insert, erase,
}

-- A port that is not positive is 0.
pub record Route : Type 0 where
  pub listen_ip : Bytes
  pub listen_port : ℕ
  pub target_ip : Bytes
  pub target_port : ℕ

abbrev pub Listeners : Type 0
Listeners = Dict Route

pub data Started : Type 0 where
  all_listen : Started
  listen_failed : Route → Started

-- `listenerKey`: Go's `net.JoinHostPort`, which puts an address with a colon in brackets.
unfoldable pub listener_key : Bytes → ℕ → Bytes
unfolding decimal has_byte
listener_key ip port =
    if has_byte b':' ip
    then codes "[" ++ (ip ++ (codes "]:" ++ decimal port))
    else ip ++ (codes ":" ++ decimal port)

-- `sameRoute`
unfoldable pub same_route : Route → Route → Bool
unfolding text_eq
same_route a b =
    text_eq a.listen_ip b.listen_ip
    && (a.listen_port == b.listen_port
        && (text_eq a.target_ip b.target_ip && a.target_port == b.target_port))

-- The map `desired`, from what is in it already.
unfoldable pub desired_from : List Route → Dict Route → Dict Route
unfolding listener_key insert
desired_from [] d = d
desired_from (r ∷ rs) d = desired_from rs (
    if r.listen_port == 0
    then d
    else if r.target_port == 0
    then d
    else insert (listener_key r.listen_ip r.listen_port) r d)

-- The first loop: listeners without a desired route close.
unfoldable pub close_missing : Dict Route → Listeners → Listeners → Listeners
unfolding lookup erase
close_missing desired [] ls = ls
close_missing desired ((key, r) ∷ rest) ls =
    close_missing desired rest (elim (lookup key desired) [ some w ↦ ls | none ↦ erase key ls ])

-- A round of the second loop whose listener is not there, or was closed.
unfoldable pub start_listener : Bool → Bytes → Route → Listeners → Listeners × Started
unfolding insert
start_listener true key r ls = (insert key r ls, all_listen)
start_listener false key r ls = (ls, listen_failed r)

-- One round of the second loop.
unfoldable pub open_one : (Route → Bool) → Bytes → Route → Listeners → Listeners × Started
unfolding same_route lookup erase start_listener
open_one listens key r ls = elim (lookup key ls) [
  | none ↦ start_listener (listens r) key r ls
  | some old ↦
      if same_route old r then (ls, all_listen) else start_listener (listens r) key r (erase key ls)
]

-- The second loop, which stops at the first failure.
unfoldable pub open_all : (Route → Bool) → Dict Route → Listeners → Listeners × Started
unfolding open_one
open_all listens [] ls = (ls, all_listen)
open_all listens ((key, r) ∷ rest) ls =
    let (ls', out) = open_one listens key r ls in
    elim out [ all_listen ↦ open_all listens rest ls' | listen_failed w ↦ (ls', listen_failed w) ]

-- `SetRoutes`
unfoldable pub set_routes : (Route → Bool) → List Route → Listeners → Listeners × Started
unfolding desired_from close_missing open_all
set_routes listens rs ls =
    let desired = desired_from rs [] in open_all listens desired (close_missing desired ls ls)
