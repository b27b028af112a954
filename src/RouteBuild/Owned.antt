-- ===== src/RouteBuild/Owned.antt =====
-- What the variables of `buildRoutes` say in every step: whose the addresses are, and that the
-- workspaces of a project have labels.
pub mod Scopes
pub mod Services
pub mod Defaults
pub mod Result
use dnsvard.Base.{
  ℕ, Bool, true, false, List, [], ◌∷◌, ◌++◌, ◌≡◌, ◌≢◌, ◌⊎◌, inl, inr, refl, sym, ◌∙◌, subst, arith,
  if◌then◌else◌, Bool-cases, Bytes, text_eq, Dict, lookup, All, All-append, In, Option,
}
use dnsvard.Netip.{Addr, v4}
use dnsvard.Routes.{Entry}
use dnsvard.TcpProxy
use dnsvard.Identity.Label.{normalize_label}
use dnsvard.Identity.Host.Preferred.{labels}
use dnsvard.Allocator.{Allocator}
use dnsvard.Allocator.Rounds.{InPool}
use dnsvard.Allocator.Holders.{IsSound}
use dnsvard.RouteBuild.{Scope, Env, Builder, BuildError, panicked}
use dnsvard.RouteBuild.Services.{ip_text}
use dnsvard.RouteBuild.Actions.{Action}
use dnsvard.RouteBuild.Actions.Kept.{Keeps}

module _ (env : Env) (pool : Allocator) where
  -- The address of the current workspace, or one of the pool.
  abbrev pub Owned : Addr → Type 0
  Owned a = (a ≡ env.workspace_ip) ⊎ ((ip : ℕ) × (a ≡ v4 ip) × InPool pool ip)

  abbrev pub HasOwned : Scope → Type 0
  HasOwned s = Owned s.ip × (normalize_label s.workspace ≢ [])

  -- The route listens on such an address, not at the port of HTTP, and leads to its own port.
  pub record IsListener (r : TcpProxy.Route) : Type 0 where
    pub address : Addr
    pub owned : Owned address
    pub text : r.listen_ip ≡ ip_text env.v6_text address
    pub apart : r.listen_port ≢ env.http_port
    pub port : r.target_port ≡ r.listen_port

  pub record IsOwned (a : Allocator) (ss : Dict Scope) (es : List Entry) (rs : List TcpProxy.Route)
      (ps : Dict (List Bytes)) : Type 0 where
    pub sound : IsSound a
    pub network : a.network ≡ pool.network
    pub bits : a.bits ≡ pool.bits
    pub scopes : All (λ (p : Bytes × Scope). HasOwned p.1) ss
    pub entries : All (λ (e : Entry). Owned e.ip) es
    pub routes : All IsListener rs
    pub projects : All (λ (p : Bytes × List Bytes). labels p.1 ≢ []) ps

  abbrev pub Owns : Builder → Type 0
  Owns b = IsOwned b.allocator b.scopes b.entries b.tcp_routes b.project_workspaces

  abbrev pub IsError : BuildError → Type 0
  IsError e = e ≢ panicked

  -- The action keeps the statement, and its value satisfies `Q`; it does not panic.
  abbrev pub Safe : {A : Type 0} → (A → Type 0) → Action A → Type 0
  Safe Q m = Keeps Owns IsError Q m

  pub if-Owns :
      (c : Bool) (x y : Builder)
      → (c ≡ true → Owns x)
      → (c ≡ false → Owns y)
      → Owns (if c then x else y)
  if-Owns true x y h k = h refl
  if-Owns false x y h k = k refl

  module _ {a : Allocator} {ss : Dict Scope} {es : List Entry} {rs : List TcpProxy.Route}
      {ps : Dict (List Bytes)} (h : IsOwned a ss es rs ps) where
    pub with_scopes :
        (qs : Dict Scope) → All (λ (p : Bytes × Scope). HasOwned p.1) qs → IsOwned a qs es rs ps
    with_scopes qs k = record {
      sound = h.sound;
      network = h.network;
      bits = h.bits;
      scopes = k;
      entries = h.entries;
      routes = h.routes;
      projects = h.projects;
    }

    pub with_entries :
        (qs : List Entry) → All (λ (e : Entry). Owned e.ip) qs → IsOwned a ss qs rs ps
    with_entries qs k = record {
      sound = h.sound;
      network = h.network;
      bits = h.bits;
      scopes = h.scopes;
      entries = k;
      routes = h.routes;
      projects = h.projects;
    }

    pub with_routes : (qs : List TcpProxy.Route) → All IsListener qs → IsOwned a ss es qs ps
    with_routes qs k = record {
      sound = h.sound;
      network = h.network;
      bits = h.bits;
      scopes = h.scopes;
      entries = h.entries;
      routes = k;
      projects = h.projects;
    }

    pub with_projects :
        (qs : Dict (List Bytes))
        → All (λ (p : Bytes × List Bytes). labels p.1 ≢ []) qs
        → IsOwned a ss es rs qs
    with_projects qs k = record {
      sound = h.sound;
      network = h.network;
      bits = h.bits;
      scopes = h.scopes;
      entries = h.entries;
      routes = h.routes;
      projects = k;
    }

    pub with_allocator :
        (c : Allocator)
        → IsSound c
        → c.network ≡ pool.network
        → c.bits ≡ pool.bits
        → IsOwned c ss es rs ps
    with_allocator c k n m = record {
      sound = k;
      network = n;
      bits = m;
      scopes = h.scopes;
      entries = h.entries;
      routes = h.routes;
      projects = h.projects;
    }
