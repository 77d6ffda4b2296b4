-- ===== src/Config/Directives/Apply.antt =====
-- src/config/mod.rs, `apply`: the `match` on the name of a directive.
use rgnix.Base.{
  leb, ◌==◌, if◌then◌else◌, within, length, all, Text, codes, text_eq, Result, ok, err, String, not,
  ◌&&◌, ◌||◌, Option, none, some, List, [], ◌∷◌, ◌++◌,
}
use rgnix.Config.Policies.{Policies, apply_policy}
use rgnix.Config.Values.{size, duration, variables_fit}
use rgnix.Config.Directives.{
  proxy, Context, Leaf, Readers, Scope, Checked, has_byte, is_location, is_http, with_one,
  read_with, when, on_name, candidates_fit, with_action, respond, seconds, switched, is_name,
  add_header, access_log, error_log,
}

module _ (r : Readers) (c : Context) where
  -- Files, headers and the request's path.
  unfoldable pub content : Leaf → Scope → Option Checked
  unfolding candidates_fit
  content n s =
      on_name (is_name "root" n)
        (with_one n.args λ a.
          when (not (has_byte b'$' a)) "root variables are unsupported"
            (ok (record s { root = r.join a; alias = none })))
        (on_name (is_name "alias" n)
          (with_one n.args λ a.
            when (is_location c && not (has_byte b'$' a))
              "alias requires a literal directory in location"
              (ok (record s { alias = some (r.join a) })))
          (on_name (is_name "try_files" n)
            (when (within 2 8 (length n.args)) "try_files expects 2..8 candidates" (
              when (candidates_fit n.args) "try_files candidate"
                (ok (record s { try_files = n.args }))))
            (on_name (is_name "index" n)
              (when
                (not (length n.args == 0)
                  && all (λ x. not (has_byte b'/' x) && not (text_eq x (codes ".."))) n.args)
                "index requires file names" (ok (record s { index = n.args })))
              (on_name (is_name "default_type" n)
                (with_one n.args λ a.
                  when (r.header_value a) "failed to parse header value"
                    (ok (record s { default_type = a })))
                (on_name (is_name "proxy_set_header" n)
                  (elim n.args [
                    | [] ↦ err "proxy_set_header expects name value"
                    | name ∷ rest ↦ with_one rest λ value.
                        when (r.header_name name) "invalid HTTP header name" (
                          when (variables_fit none value) "unsupported variable" (
                            ok (record s {
                              request_headers = s.request_headers ++ (name, value) ∷ [];
                            })))
                  ])
                  (on_name (is_name "add_header" n) (add_header r n.args s) (none)))))))

  -- The backend of `proxy_pass` and its TLS.
  unfoldable pub upstream : Leaf → Scope → Option Checked
  upstream n s =
      on_name (is_name "proxy_http_version" n)
        (with_one n.args λ a. read_with (r.protocol a) λ p. ok (record s { protocol = some p }))
        (on_name (is_name "proxy_ssl_certificate" n)
          (with_one n.args λ a. ok (record s { upstream_cert = some (r.join a) }))
          (on_name (is_name "proxy_ssl_certificate_key" n)
            (with_one n.args λ a. ok (record s { upstream_key = some (r.join a) }))
            (on_name (is_name "proxy_ssl_name" n)
              (with_one n.args λ a.
                when (not (has_byte b'$' a) && leb (length a) 253)
                  "proxy_ssl_name requires a literal host" (ok (record s { server_name = some a })))
              (on_name (is_name "proxy_ssl_trusted_certificate" n)
                (with_one n.args
                  λ a. read_with (r.authority (r.join a)) λ ca. ok (record s { ca = some ca }))
                (on_name (is_name "proxy_ssl_verify" n || is_name "proxy_ssl_server_name" n)
                  (with_one n.args λ a.
                    when (text_eq a (codes "on"))
                      "upstream TLS always verifies certificates and hostnames" (ok s))
                  (on_name (is_name "proxy_pass" n)
                    (with_one n.args λ a.
                      when (is_location c) "proxy_pass is only valid in location" (
                        when (not (has_byte b'$' a)) "proxy_pass variables are unsupported" (
                          when (r.proxy_url a) "proxy_pass URL"
                            (ok (with_action (proxy a none) s)))))
                    (none)))))))

  -- Sizes, times and the tunnel.
  unfoldable pub limits : Leaf → Scope → Option Checked
  unfolding size duration
  limits n s =
      on_name (is_name "client_max_body_size" n)
        (with_one n.args
          λ a. elim (size a) [ err e ↦ err e | ok bytes ↦ ok (record s { max_body = bytes }) ])
        (on_name (is_name "rgnix_request_body" n)
          (read_with (r.inspection n.args) λ i. ok (record s { inspection = some i }))
          (on_name (is_name "rgnix_request_body_timeout" n)
            (with_one n.args
              λ a. read_with (r.body_timeout a) λ t. ok (record s { body_timeout = some t }))
            (on_name (is_name "proxy_connect_timeout" n)
              (seconds n.args λ t. record s { connect_timeout = t })
              (on_name (is_name "proxy_read_timeout" n)
                (seconds n.args λ t. record s { read_timeout = t })
                (on_name (is_name "proxy_send_timeout" n)
                  (seconds n.args λ t. record s { write_timeout = t })
                  (on_name (is_name "keepalive_timeout" n)
                    (seconds n.args λ t. record s { keepalive = t })
                    (on_name (is_name "client_header_timeout" n)
                      (with_one n.args λ a.
                        when (not (is_location c)) "client_header_timeout belongs in http or server"
                          (seconds n.args λ t. record s { client_header_timeout = t }))
                      (on_name (is_name "client_body_timeout" n)
                        (seconds n.args λ t. record s { client_body_timeout = t })
                        (on_name (is_name "send_timeout" n)
                          (seconds n.args λ t. record s { send_timeout = t })
                          (on_name (is_name "rgnix_connect" n)
                            (switched n.args λ on. record s { connect_tunnel = on })
                            (none)))))))))))

  -- TLS of the server, protocols, the script and the logs.
  unfoldable pub serving : Leaf → Scope → Option Checked
  serving n s =
      on_name (is_name "ssl_certificate" n)
        (with_one n.args λ a.
          when (not (is_location c)) "TLS is not valid in location"
            (ok (record s { cert = some (r.join a) })))
        (on_name (is_name "ssl_certificate_key" n)
          (with_one n.args λ a.
            when (not (is_location c)) "TLS is not valid in location"
              (ok (record s { key = some (r.join a) })))
          (on_name (is_name "http2" n)
            (with_one n.args λ a.
              when (not (is_location c)) "http2 is not valid in location"
                (switched n.args λ on. record s { http2 = on }))
            (on_name (is_name "http3" n)
              (with_one n.args λ a.
                when (not (text_eq a (codes "on")) || r.has_http3)
                  "HTTP/3 requires the http3 build feature"
                  (when (not (is_location c)) "http3 belongs in http or server"
                    (switched n.args λ on. record s { http3 = on })))
              (on_name (is_name "rgnix_script" n)
                (with_one n.args λ a.
                  when (not (is_http c)) "rgnix_script belongs to server or location"
                    (ok (record s { script = some (r.join a) })))
                (on_name (is_name "access_log" n) (access_log r n.args s) (
                  on_name (is_name "rgnix_log_rotation" n)
                    (when (is_http c) "rgnix_log_rotation belongs in http"
                      (read_with (r.rotation n.args) λ p. ok (record s { log_rotation = some p })))
                    (on_name (is_name "error_log" n)
                      (when (is_http c) "error_log expects path [level] in http"
                        (error_log r n.args s))
                      (none))))))))

  -- The `match` of `apply`.
  unfoldable pub directive : Leaf → Scope → Checked
  unfolding content upstream limits serving
  directive n s = if is_name "return" n then respond c n.args s else elim (content n s) [
    | some done ↦ done
    | none ↦ elim (upstream n s) [
      | some done ↦ done
      | none ↦ elim (limits n s) [
        | some done ↦ done
        | none ↦ elim (serving n s) [ some done ↦ done | none ↦ err "unsupported directive" ]
      ]
    ]
  ]

  abbrev pub with_policies : Scope → Result String (Policies Text) → Checked
  with_policies s (err e) = err e
  with_policies s (ok p) = ok (record s { policies = p })

  -- `apply` of a directive without a block: policies first.
  unfoldable pub apply_leaf : Leaf → Scope → Checked
  unfolding directive
  apply_leaf n s = elim (apply_policy r.network r.header_name n.name n.args s.policies) [
    | some done ↦ with_policies s done
    | none ↦ directive n s
  ]

  -- The loop on a block's directives.
  unfoldable pub apply_all : List Leaf → Scope → Checked
  unfolding apply_leaf
  apply_all [] s = ok s
  apply_all (n ∷ ns) s = elim (apply_leaf n s) [ err e ↦ err e | ok t ↦ apply_all ns t ]
