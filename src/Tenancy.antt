-- ===== src/Tenancy.antt =====
-- src/tenancy.rs: quotas, the ceilings they put on settings, and the permits of a tenant. A
-- duration is in nanoseconds. Of `Settings` (src/model.rs) the fields that a quota constrains stand
-- here, `body_policy.timeout` as `body_policy_timeout`, and `gateway` with the deadlines of its
-- policy, which src/gateway/build.rs lowers and `constrain` leaves.
pub mod Quotas
pub mod Permits
pub mod Domains
mod Tests
use rgnix.Base.{
  ltb, leb, ◌==◌, if◌then◌else◌, within, unwrap_or, length, all, Text, text_is_eq, is_digit,
  is_lowercase, lookup, insert, retain_entries, Result, ◌>>◌, ensure, each, ok, err, ℕ, ◌+◌, ◌-◌,
  ◌*◌, min, String, Bool, true, false, not, ◌&&◌, ◌||◌, Option, none, some, List,
}
use rgnix.Gateway.Timeouts.{Budgets}
use mathlib.Core.Option.{map}
use rgnix.Tenancy.Domains.{Grants, validate_grants}
use rgnix.Traffic.Limiter.{Limiter, new_limiter, set_capacity}

pub record Quota : Type 0 where
  pub max_ingresses : ℕ
  pub max_routes : ℕ
  pub max_backends : ℕ
  pub max_body_bytes : ℕ
  pub max_timeout_seconds : ℕ
  pub max_script_bytes : ℕ
  pub max_compilations_per_minute : ℕ
  pub max_inflight : ℕ
  pub max_plugins : ℕ
  pub max_auth : ℕ
  pub max_mirrors : ℕ
  pub max_limiter_keys : ℕ
  pub requests_per_second : ℕ
  pub burst : ℕ
  pub allow_scripts : Bool
  pub allow_mirroring : Bool

-- `Quota::default`
abbrev pub default_quota : Quota
default_quota = record {
  max_ingresses = 32;
  max_routes = 128;
  max_backends = 64;
  max_body_bytes = 16777216;
  max_timeout_seconds = 60;
  max_script_bytes = 262144;
  max_compilations_per_minute = 60;
  max_inflight = 64;
  max_plugins = 4;
  max_auth = 16;
  max_mirrors = 4;
  max_limiter_keys = 2048;
  requests_per_second = 1000;
  burst = 1000;
  allow_scripts = true;
  allow_mirroring = false;
}

-- `Quota::validate`
pub validate : Quota → Result String (Unit {0})
validate q = do
  ensure
      (within 1 10000 q.max_ingresses
        && (within 1 100000 q.max_routes && within 1 10000 q.max_backends))
      "invalid namespace configuration quota"
  ensure
      (ltb 0 q.max_body_bytes
        && (leb q.max_body_bytes 1073741824
            && (within 1 3600 q.max_timeout_seconds
                && (leb q.max_script_bytes 1048576 && within 1 600 q.max_compilations_per_minute))))
      "invalid namespace body/timeout/script ceiling"
  ensure
      (ltb 0 q.max_inflight
        && (leb q.max_inflight 100000
            && (leb q.max_plugins q.max_inflight
                && (leb q.max_auth q.max_inflight
                    && (leb q.max_mirrors q.max_inflight
                        && (within 16 16384 q.max_limiter_keys
                            && (within 1 1000000 q.requests_per_second
                                && within 1 1000000 q.burst)))))))
      "invalid namespace runtime quota"

pub record Settings : Type 0 where
  pub gateway : Option Budgets
  pub max_body : ℕ
  pub connect_timeout : ℕ
  pub read_timeout : ℕ
  pub write_timeout : ℕ
  pub client_header_timeout : ℕ
  pub client_body_timeout : ℕ
  pub send_timeout : ℕ
  pub keepalive : ℕ
  pub body_policy_timeout : ℕ

-- `Duration::from_secs`
abbrev pub from_secs : ℕ → ℕ
from_secs n = n * 1000000000

-- `Quota::constrain`
pub constrain : Quota → Settings → Settings
constrain q s =
    let timeout = from_secs q.max_timeout_seconds in
    record s {
      max_body =
          if (s.max_body == 0) || ltb q.max_body_bytes s.max_body
          then q.max_body_bytes
          else s.max_body;
      connect_timeout = min s.connect_timeout timeout;
      read_timeout = min s.read_timeout timeout;
      write_timeout = min s.write_timeout timeout;
      client_header_timeout = min s.client_header_timeout timeout;
      client_body_timeout = min s.client_body_timeout timeout;
      send_timeout = min s.send_timeout timeout;
      keepalive = min s.keepalive timeout;
      body_policy_timeout = min s.body_policy_timeout timeout;
    }

-- `v.min(ceiling)` of a deadline that is set
abbrev pub lowered : ℕ → Option ℕ → Option ℕ
lowered ceiling = map (λ v. min v ceiling)

-- The settings of a route of a Gateway: `settings.gateway = Some(policy)`, where a quota lowers the
-- deadlines of the policy.
pub with_gateway : Option Quota → Budgets → Settings → Settings
with_gateway none b s = record s { gateway = some b }
with_gateway (some q) b s =
    let ceiling = from_secs q.max_timeout_seconds in
    record s {
      gateway = some (record {
        request = lowered ceiling b.request;
        backend_request = lowered ceiling b.backend_request;
      });
    }

pub record Policy : Type 0 where
  pub default : Option Quota
  pub namespaces : List (Text × Quota)
  pub domains : Option Grants

-- The checks of `Policy::load`, on the policy that the file holds.
check_namespace : Text × Quota → Result String (Unit {0})
unfolding validate
check_namespace (name, quota) = do
  ensure
      (not (length name == 0)
        && (leb (length name) 63 && all (λ b. is_lowercase b || (is_digit b || (b == b'-'))) name))
      "invalid namespace name"
  validate quota

check_default : Option Quota → Result String (Unit {0})
check_default none = ok tt
check_default (some q) = validate q

check_domains : Option Grants → Result String (Unit {0})
check_domains none = ok tt
check_domains (some g) = validate_grants g

pub check : Policy → Result String (Unit {0})
unfolding check_namespace check_default check_domains
check p = do
  ensure (leb (length p.namespaces) 1024) "at most 1024 namespace policies"
  each check_namespace p.namespaces
  check_default p.default
  check_domains p.domains

-- `Policy::quota`
pub quota : Policy → Text → Option Quota
quota p namespace = elim (lookup namespace p.namespaces) [ some q ↦ some q | none ↦ p.default ]

pub data Resource : Type 0 where
  request plugin auth mirror : Resource

-- The counts of a tenant's permits: `[usize; 4]`.
pub record Active : Type 0 where
  pub request : ℕ
  pub plugin : ℕ
  pub auth : ℕ
  pub mirror : ℕ

abbrev pub count : Active → Resource → ℕ
count a request = a.request
count a plugin = a.plugin
count a auth = a.auth
count a mirror = a.mirror

abbrev pub set_count : Active → Resource → ℕ → Active
set_count a request n = record a { request = n }
set_count a plugin n = record a { plugin = n }
set_count a auth n = record a { auth = n }
set_count a mirror n = record a { mirror = n }

abbrev pub limit : Quota → Resource → ℕ
limit q request = q.max_inflight
limit q plugin = q.max_plugins
limit q auth = q.max_auth
limit q mirror = q.max_mirrors

-- A tenant, and how many of its `Arc`s are held outside the map.
pub record Tenant (Float : Type 0) : Type 0 where
  pub name : Text
  pub quota : Quota
  pub traffic : Limiter Float
  pub active : Active
  pub held : ℕ

module _ {Float : Type 0} where
  -- `Tenant::acquire`: the permit that is granted holds the tenant.
  pub acquire_permit : Tenant Float → Resource → Tenant Float × Result ℕ Resource
  acquire_permit t r = if leb (limit t.quota r) (count t.active r) then (t, err 503) else (
    record t { active = set_count t.active r (count t.active r + 1); held = t.held + 1 },
    ok r,
  )

  -- `Drop for Permit`, with the `Arc` it held
  pub drop_permit : Tenant Float → Resource → Tenant Float
  drop_permit t r = record t {
    active = set_count t.active r (count t.active r - 1);
    held = t.held - 1;
  }

  -- The last part of `Tenants::tenant`: the entry takes the quota, and the caller one more `Arc`.
  pub renew : Quota → Tenant Float → Tenant Float
  renew q t = record t {
    quota = q;
    traffic = set_capacity t.traffic q.max_limiter_keys;
    held = t.held + 1;
  }

  pub fresh_tenant : Text → Quota → Tenant Float
  fresh_tenant namespace q = record {
    name = namespace;
    quota = q;
    traffic = new_limiter Float;
    active = record { request = 0; plugin = 0; auth = 0; mirror = 0 };
    held = 0;
  }

  -- `Tenants::tenant`
  pub tenant : Text → Quota → List (Text × Tenant Float) → List (Text × Tenant Float)
  unfolding renew fresh_tenant
  tenant namespace q states =
      insert namespace (renew q (unwrap_or (lookup namespace states) (fresh_tenant namespace q)))
        states

  -- `Tenants::retain`
  pub retain_tenants : (Text → Bool) → List (Text × Tenant Float) → List (Text × Tenant Float)
  retain_tenants names = retain_entries (λ name t. names name || ltb 0 t.held)
