-- ===== src/Request.antt =====
-- src/script/mod.rs: the part of a request that keys and selections read (`RequestData`).
-- `header` is `RequestHeaders::get` of the request at hand.
use rgnix.Base.{Text, Option, List}

pub record Request : Type 0 where
  pub claims : List (Text × Text)
  pub remote_addr : Text
  pub header : Text → Option Text
