-- ===== src/Traffic/Tests.antt =====
-- Runs of the keys, and their theorems at concrete inputs.
use rgnix.Base.{Text, codes, ok, err, ◌≡◌, refl, true, none, some, [], arith}
use rgnix.Request.{Request}
use rgnix.Traffic.{ip, header, cookie, Policy, parse, value}
use rgnix.Traffic.Keys.{print, parse-print}

abbrev same : Text → Text
same s = s

abbrev client : Request
client = record { claims = []; remote_addr = codes "10.0.0.9"; header = λ n. none }

abbrev strict : Policy
strict = record {
  rate = some (record { per_second = 1; burst = 1; key = ip });
  concurrency = some (record { limit = 1; key = ip });
}

key_tests :
    (parse (λ n. true) (codes "header:X-Tenant") ≡ ok (header (codes "x-tenant")))
    × (parse (λ n. true) (codes "cookie:") ≡ err "invalid key name")
    × (value same (cookie (codes "b")) (record client { header = λ n. some (codes "a=1;b=2") })
        ≡ codes "2")
unfolding parse value
key_tests = (refl, refl, refl)

parse-print_example : parse (λ n. true) (codes "cookie:session") ≡ ok (cookie (codes "session"))
unfolding print
parse-print_example = parse-print (λ n. true) (cookie (codes "session")) (omega arith)
