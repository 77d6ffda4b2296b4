-- ===== src/Config/Directives/Tests.antt =====
-- src/config/mod.rs: examples of directives.
use rgnix.Base.{
  Text, codes, strip_prefix, starts_with, parse_uint, ok, String, ◌≡◌, refl, true, false, none,
  some, List, [], ◌∷◌, ◌++◌,
}
use rgnix.Config.Policies.{Policies, set_policy, apply_policy}
use rgnix.Config.Values.{is_supported, variables_fit}
use rgnix.Config.Directives.{
  return, in_location, Leaf, Readers, Scope, with_one, read_with, when, on_name,
}
use rgnix.Config.Directives.Apply.{
  content, upstream, limits, serving, directive, apply_leaf, apply_all,
}
use rgnix.Config.Directives.FirstReturn.{Returns, apply_all-first}

abbrev readers : Readers
readers = record {
  join = λ a. a;
  header_name = λ a. true;
  header_value = λ a. true;
  proxy_url = λ a. true;
  protocol = λ a. some a;
  inspection = λ a. none;
  body_timeout = λ a. none;
  rotation = λ a. none;
  authority = λ a. some a;
  error_output = λ a l. some a;
  has_http3 = false;
  network = λ a. ok a;
}

abbrev policies : Policies Text
policies = record {
  log = record { query = true; client = true; referer = true; redact = []; fields = [] };
  compression = record { gzip = 0; brotli = 0; min_length = 1024; types = [] };
  identity = record { trusted = []; header = codes "x-real-ip"; recursive = false; access = [] };
  rate = none;
  concurrency = none;
}

abbrev scope : Scope
scope = record {
  root = codes "html";
  alias = none;
  try_files = [];
  index = [];
  default_type = [];
  protocol = none;
  server_name = none;
  ca = none;
  request_headers = [];
  response_headers = [];
  max_body = 0;
  inspection = none;
  body_timeout = none;
  connect_timeout = 0;
  read_timeout = 0;
  write_timeout = 0;
  keepalive = 0;
  client_header_timeout = 0;
  client_body_timeout = 0;
  send_timeout = 0;
  connect_tunnel = false;
  http3 = false;
  log_json = false;
  access_log = none;
  action = none;
  script = none;
  cert = none;
  key = none;
  upstream_cert = none;
  upstream_key = none;
  http2 = false;
  error_log = none;
  log_rotation = none;
  policies = policies;
}

abbrev leaf : String → List Text → Leaf
leaf name args = record { name = codes name; args = args }

abbrev before : List Leaf
before = leaf "root" (codes "site" ∷ []) ∷ leaf "proxy_pass" (codes "http://a" ∷ []) ∷ []

abbrev moved : Leaf
moved = leaf "return" (codes "301" ∷ codes "https://$host" ∷ [])

abbrev after : List Leaf
after = leaf "return" (codes "404" ∷ []) ∷ leaf "proxy_pass" (codes "http://b" ∷ []) ∷ []

abbrev applied : Scope
applied = record scope { root = codes "site"; action = some (return 301 (codes "https://$host")) }

applied_lem : apply_all readers in_location (before ++ moved ∷ after) scope ≡ ok applied
unfolding apply_all apply_leaf apply_policy set_policy directive content upstream limits serving
    on_name with_one read_with when variables_fit is_supported starts_with strip_prefix parse_uint
applied_lem = refl

apply_all-first_example : Returns moved.args applied
apply_all-first_example =
    apply_all-first readers in_location before after moved scope applied refl refl refl applied_lem
