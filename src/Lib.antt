-- ===== src/Lib.antt =====
-- A verification library for dnsvard, which gives every workspace of a project its own loopback
-- address and local domain names.
--
-- The program names workspaces and services (internal/identity/identity.go), allocates a loopback
-- address for each workspace (internal/allocator/allocator.go), collects routes from docker,
-- runtime leases and manual settings and merges them into one address for each hostname
-- (internal/routes/merge.go), and answers DNS questions from a table of those records
-- (internal/dnsserver/table.go, internal/dnsserver/server.go). The daemon command calls these in
-- turn whenever something changes; it also routes HTTP requests by hostname
-- (internal/httprouter/router.go) and TCP ports by address (internal/tcpproxy/proxy.go), reads the
-- leases of running processes (internal/runtimeprovider/provider.go), and leaves what it did in a
-- state file (internal/daemon/reconcile_state.go). What docker runs is read from its answers
-- (internal/docker/provider.go), and all of that is put together in buildRoutes
-- (cmd/dnsvard/routes_build.go), with the configuration of each directory
-- (internal/config/config.go).
--
-- The files and the code they model:
--   Netip      Go's net/netip as far as the program uses it: addresses, and IPv4 in dotted text
--   Routes     internal/routes/merge.go: `merge` is Merge, `consider` the body of its loop
--   Identity   internal/identity/identity.go: Label has NormalizeLabel and the derived labels,
--              Pattern has ParseHostPattern and renderPatternHost, Host has Hostnames and
--              ResolveDefaultWorkspace
--   Allocator  internal/allocator/allocator.go: `new_allocator`, `allocate`, `release`; the state
--              is the map of assignments and what the state file holds
--   Dns        internal/dnsserver: Table has the methods of Table, Server has handleDNS
--   HttpRouter internal/httprouter/router.go: `set_routes` is SetRoutes, `handle` the handler of
--              requests, `record_success`, `record_failure` and `is_breaker_open` the breakers
--   Leases     internal/runtimeprovider/provider.go: `upsert`, `remove` and `active` on the file of
--              leases
--   TcpProxy   internal/tcpproxy/proxy.go: `set_routes` is SetRoutes, on the map of listeners
--   Reconcile  internal/daemon/reconcile_state.go: `write_reconcile_state`, `read_reconcile_state`, on a
--       map of files
--   Docker     internal/docker/provider.go: `discover` is Discover and `parse_inspect` parseInspect,
--              with Ports, Labels and Networks for the helpers of each
--   RouteBuild cmd/dnsvard/routes_build.go: `build_routes` is buildRoutes; its variables are the
--              record Builder, a closure is an action that changes them and may end the function
--   Config     internal/config/config.go: `load` is Load, `validate` validate, `resolve_path` the walk up
--              to what exists of a path, `set_local_suffix` and `set_local_host_pattern` the writers
--   Base       what they share: Boolean tests, lists, Go's strings package, maps, sorting
--
-- Texts are lists of bytes; case folding, white space and trimming are those of ASCII text. Numbers
-- are natural numbers, and the arithmetic of uint32 has its wrap-around written out. A Go map is an
-- association list: where the code ranges over a map, the order is that of the list. Sorting is by
-- insertion. Times are numbers of nanoseconds, and the zero time is `none`.
--
-- Loops are structural recursion, over the list that the code ranges over or over the number of
-- rounds that the code counts (`search_from` has as many rounds as the prefix has hosts). The
-- decimal text of a number is written on fuel, 19 rounds for the digits an int of 64 bits can have;
-- the two walks from a path to the root (`resolve_loop`, `find_files`) have a round for each component
-- of the path and one for the root, since each round leads to the directory above.
--
-- Code from elsewhere is a parameter: SHA-1 (the first four bytes of the sum), the JSON decoder and
-- the codec of the reconcile state, the success of a write of a file and of net.Listen, url.Parse,
-- the test whether a process runs, what an upstream does, which calls on files fail, the answers of docker, the parser of
-- IPv6 addresses and what a dial finds, the YAML codec, git, os.Lstat and
-- filepath.EvalSymlinks, net.SplitHostPort, and the two calls of github.com/miekg/dns,
-- whose effect on the message is a law of the record DnsLibrary. Locks are left out: each operation
-- is one step. `parse_addr` reads IPv4 texts only, as the allocator writes no others.
--
-- Not modelled: sockets, the commands of the program and their output, system tools and services,
-- WorkspaceID, the text of error messages.
pub mod Base
pub mod Netip
pub mod Routes
pub mod Identity
pub mod Allocator
pub mod Dns
pub mod HttpRouter
pub mod Leases
pub mod TcpProxy
pub mod Reconcile
pub mod Docker
pub mod RouteBuild
pub mod Config
