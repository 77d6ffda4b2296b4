-- ===== src/Tenancy/Tests.antt =====
-- Examples of quotas and of a tenant's permits.
use rgnix.Base.{codes, text_is_eq, lookup, ok, err, ℕ, ◌≡◌, refl, false, none, some, [], ◌∷◌, arith}
use rgnix.Tenancy.{
  Quota, default_quota, validate, Settings, from_secs, constrain, with_gateway, Resource, mirror,
  limit, Tenant, acquire_permit, renew, fresh_tenant, retain_tenants,
}
use rgnix.Gateway.Timeouts.{Budgets}
use rgnix.Tenancy.Quotas.{IsWithin, DeadlinesWithin, constrain-IsWithin}
use rgnix.Tenancy.Permits.{
  grant, Reach, start, next, Counted, tenant-Counted, retain_tenants-lookup,
}

abbrev long_settings : Settings
long_settings = record {
  gateway = none;
  max_body = 0;
  connect_timeout = from_secs 5;
  read_timeout = from_secs 90;
  write_timeout = from_secs 90;
  client_header_timeout = from_secs 10;
  client_body_timeout = from_secs 4000;
  send_timeout = from_secs 60;
  keepalive = from_secs 75;
  body_policy_timeout = from_secs 60;
}

abbrev deadlines : Budgets
deadlines = record { request = some (from_secs 7200); backend_request = none }

constrain-IsWithin_example :
    IsWithin long_settings
      (with_gateway (some default_quota) deadlines (constrain default_quota long_settings))
    × DeadlinesWithin deadlines
        (with_gateway
          (some default_quota)
          deadlines
          (constrain default_quota long_settings)).gateway
unfolding validate
constrain-IsWithin_example = constrain-IsWithin default_quota deadlines long_settings refl

abbrev one_mirror : Quota
one_mirror = record default_quota { max_mirrors = 1 }

abbrev test_top : Resource → ℕ
test_top r = limit one_mirror r

abbrev test_tenant : Tenant ℕ
test_tenant = renew one_mirror (fresh_tenant (codes "blue") one_mirror)

mirror_tests :
    ((acquire_permit test_tenant mirror).1 ≡ ok mirror)
    × ((acquire_permit (acquire_permit test_tenant mirror).0 mirror).1 ≡ err 503)
unfolding acquire_permit renew fresh_tenant
mirror_tests = (refl, refl)

test_history : Reach test_top (acquire_permit test_tenant mirror).0 (mirror ∷ []) 1
unfolding acquire_permit renew fresh_tenant
test_history =
    next (start (codes "blue") one_mirror (λ r. omega arith)) (grant test_tenant [] 1 mirror refl)

tenant-Counted_example : Counted test_top (acquire_permit test_tenant mirror).0 (mirror ∷ []) 1
tenant-Counted_example = tenant-Counted test_top test_history

retain_tenants-lookup_example :
    lookup
      (codes "blue")
      (retain_tenants (λ n. false) ((codes "blue", (acquire_permit test_tenant mirror).0) ∷ []))
    ≡ some (acquire_permit test_tenant mirror).0
retain_tenants-lookup_example =
    retain_tenants-lookup test_top (λ n. false)
      ((codes "blue", (acquire_permit test_tenant mirror).0) ∷ []) (codes "blue") (refl, tt) refl
      test_history (omega arith)
