-- ===== src/RouteBuild/Tests.antt =====
-- A run of `buildRoutes` on one container, and the theorems at concrete inputs.
use dnsvard.Base.{
  ◌+◌, ◌*◌, ◌/◌, ◌^◌, true, false, some, List, [], ◌∷◌, ◌≡◌, ◌≢◌, ◌⊎◌, refl, arith, codes,
  trim_space, text_eq,
}
use dnsvard.Netip.{v4, invalid}
use dnsvard.Allocator.{
  Allocator, default_cooldown, allocate_fresh, host_capacity, search_from, probe, host_to_addr,
  probe_host, is_ip_available, save, fresh_assignment,
}
use dnsvard.Allocator.Holders.{IsSound}
use dnsvard.Allocator.History.{empty-IsSound}
use dnsvard.Leases.{missing}
use dnsvard.Docker.{ServiceRoute}
use dnsvard.Config.{refused, unreadable}
use dnsvard.Docker.Discover.{discovered, no_diagnostics}
use dnsvard.Dns.Table.{Record}
use dnsvard.TcpProxy
use dnsvard.Identity.Host.{normalize_domain, build_hosts, preferred, normalize_all}
use dnsvard.Identity.Pattern.{parse_host_pattern}
use dnsvard.RouteBuild.{Env, Builder, panicked}
use dnsvard.RouteBuild.Actions.{Result, ok, err}
use dnsvard.RouteBuild.Targets.{route_ips, add_ips, has_ip, or_clock, pick_service_route_target}
use dnsvard.RouteBuild.Targets.Avoided.{
  IsFirstFree, IsLastResort, targets_at, pick_service_route_target-first,
}
use dnsvard.RouteBuild.Assemble.{BuildResult, build_routes}
use dnsvard.RouteBuild.Owned.Result.{IsServed, build_routes-IsServed}

abbrev web : ServiceRoute
web = record {
  container_id = codes "c1";
  container_name = codes "shop-web-1";
  service_name = codes "web";
  project = codes "shop";
  workspace = codes "main";
  workspace_path = [];
  container_ip = codes "10.0.0.2";
  candidate_ips = codes "10.0.0.2" ∷ codes "10.0.0.1" ∷ [];
  network_name = codes "b";
  network_id = codes "n2";
  host_labels = codes "web" ∷ [];
  http_port = 3000;
  tcp_ports = 80 ∷ 5432 ∷ [];
  http_enabled = true;
  default_http = false;
  detect_manual = false;
}

-- 127.90.0.0/29
abbrev pool : Allocator
pool = record {
  network = 127 * 2 ^ 24 + 90 * 2 ^ 16;
  bits = 29;
  cooldown = default_cooldown;
  assignments = [];
  disk = [];
}

pool-IsSound : IsSound pool
pool-IsSound = empty-IsSound (127 * 2 ^ 24 + 90 * 2 ^ 16) 29 default_cooldown (record {
  short = omega arith;
  fits = omega arith;
  block = (127 * 2 ^ 24 + 90 * 2 ^ 16) / 8;
  aligned = refl;
})

abbrev env : Env
env = record {
  domain = codes "test";
  host_pattern = codes "service-workspace-project-tld";
  http_port = 80;
  required = false;
  workspace_path = [];
  project = codes "shop";
  workspace = codes "feature";
  workspace_ip = invalid;
  avoid = (codes "http://10.0.0.2:3000", 9) ∷ [];
  now = some 5;
  clock = 7;
  load_scope = λ path. refused (unreadable path);
  workspace_id = λ s. s;
  hash = λ id. 9;
  can_write = λ id. true;
  v6_text = λ a. [];
  leases_written = true;
  running = λ pid. false;
}

build_routes-IsServed_example :
    ((build_routes env (discovered (web ∷ []) no_diagnostics) pool missing).0 ≢ err panicked)
    × IsSound (build_routes env (discovered (web ∷ []) no_diagnostics) pool missing).1.allocator
    × ((r : BuildResult)
        → (build_routes env (discovered (web ∷ []) no_diagnostics) pool missing).0 ≡ ok r
        → IsServed env pool r)
build_routes-IsServed_example =
    build_routes-IsServed env (discovered (web ∷ []) no_diagnostics) pool missing pool-IsSound

web_ips : route_ips web ≡ codes "10.0.0.2" ∷ codes "10.0.0.1" ∷ []
unfolding route_ips add_ips has_ip trim_space text_eq
web_ips = refl

pick_service_route_target-first_example :
    IsFirstFree env.avoid 5
      (targets_at 3000 (route_ips web))
      (pick_service_route_target web env.avoid (some 5) 7)
    ⊎ IsLastResort env.avoid 5
        (targets_at 3000 (route_ips web))
        (pick_service_route_target web env.avoid (some 5) 7)
unfolding or_clock
pick_service_route_target-first_example =
    pick_service_route_target-first web env.avoid (some 5) 7 (λ e. cc) (λ e. cc (web_ips, e))

abbrev listed_records : Result BuildResult × Builder → List Record
listed_records (ok r, b) = r.records
listed_records (err e, b) = []

abbrev listed_routes : Result BuildResult × Builder → List TcpProxy.Route
listed_routes (ok r, b) = r.tcp_routes
listed_routes (err e, b) = []

web_tcp :
    listed_routes (build_routes env (discovered (web ∷ []) no_diagnostics) pool missing)
    ≡ record {
      listen_ip = codes "127.90.0.2";
      listen_port = 5432;
      target_ip = codes "10.0.0.2";
      target_port = 5432;
    }
      ∷ []
unfolding build_routes allocate_fresh host_capacity search_from probe host_to_addr probe_host
    is_ip_available save fresh_assignment normalize_domain parse_host_pattern build_hosts preferred
    normalize_all
web_tcp = refl

web_records :
    listed_records (build_routes env (discovered (web ∷ []) no_diagnostics) pool missing)
    ≡ record { hostname = codes "feature.shop.test."; ip = v4 (127 * 2 ^ 24 + 90 * 2 ^ 16 + 3) }
      ∷ record { hostname = codes "main.shop.test."; ip = v4 (127 * 2 ^ 24 + 90 * 2 ^ 16 + 2) }
      ∷ record { hostname = codes "shop.test."; ip = v4 (127 * 2 ^ 24 + 90 * 2 ^ 16 + 2) }
      ∷ record { hostname = codes "web.main.shop.test."; ip = v4 (127 * 2 ^ 24 + 90 * 2 ^ 16 + 2) }
      ∷ []
unfolding build_routes allocate_fresh host_capacity search_from probe host_to_addr probe_host
    is_ip_available save fresh_assignment normalize_domain parse_host_pattern build_hosts preferred
    normalize_all
web_records = refl
