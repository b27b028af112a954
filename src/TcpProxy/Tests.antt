-- ===== src/TcpProxy/Tests.antt =====
-- Runs of `SetRoutes`, and its theorems at concrete inputs.
use dnsvard.Base.{
  Bool, true, none, [], ◌∷◌, ◌≡◌, refl, codes, lookup, insert, erase, text_eq, has_byte,
}
use dnsvard.TcpProxy.{
  Route, Listeners, all_listen, listener_key, set_routes, close_missing, desired_from, open_all,
  open_one, start_listener, same_route,
}
use dnsvard.TcpProxy.Served.{wanted, set_routes-wanted}

-- An address with a colon stands in brackets.
keys_of_listeners :
    (listener_key (codes "127.0.0.5") 5432 ≡ codes "127.0.0.5:5432")
    × (listener_key (codes "::1") 80 ≡ codes "[::1]:80")
unfolding listener_key has_byte
keys_of_listeners = (refl, refl)

abbrev database : Route
database = record {
  listen_ip = codes "127.0.0.5";
  listen_port = 5432;
  target_ip = codes "10.0.0.2";
  target_port = 5432;
}

abbrev moved : Route
moved = record database { target_ip = codes "10.0.0.3" }

abbrev before_move : Listeners
before_move = (codes "127.0.0.5:5432", database) ∷ (codes "127.0.0.6:80", database) ∷ []

abbrev can_listen : Route → Bool
can_listen r = true

moved_listens : (set_routes can_listen (moved ∷ []) before_move).1 ≡ all_listen
unfolding set_routes close_missing desired_from open_all open_one start_listener same_route
    listener_key has_byte lookup insert erase text_eq
moved_listens = refl

set_routes-wanted_example :
    lookup (codes "127.0.0.5:5432") (set_routes can_listen (moved ∷ []) before_move).0
    ≡ wanted (moved ∷ []) (codes "127.0.0.5:5432") none
set_routes-wanted_example =
    set_routes-wanted can_listen (moved ∷ []) before_move (codes "127.0.0.5:5432") moved_listens
