-- ===== src/Api/Config.antt =====
-- internal/api/api.go: the configuration of the control plane, and the helpers of its handlers.
use portloom.Api.{Body, Response, State, empty, failure}
use portloom.Domain.Agent.{Time}
use portloom.Domain.Route.{Route, second}
use portloom.Prelude.{
  Bool, List, Option, Text, [], codes, if◌then◌else◌, leb_ℤ, ltb_ℤ, not, pos, ℕ, ℤ, ◌&&◌, ◌*◌, ◌==◌,
  ◌||◌,
}
use portloom.Store.Db.{
  Db, Result, StoreError, conflict, err, invalid_input, not_found, ok, port_range_exhausted,
}
use portloom.Strings.{contains, has_prefix, trim_prefix, trim_space}

pub record Config : Type 0 where
  pub admin_token : Text
  pub enrollment_ttl : ℤ
  pub authorized_keys_path : Text
  pub ssh_host_public_key_path : Text
  pub managed_ssh_port : ℤ
  pub managed_ssh_isolated : Bool
  pub server_version : Text
  pub public_host : Text
  pub tls_ask_token : Text
  pub tcp_enabled : Bool
  pub udp_enabled : Bool
  pub web_ports_enabled : Bool
  pub tcp_bind_host : Text
  -- the callbacks, `none` where they are nil
  pub route_public_status : Option (Route → Text)
  pub route_web_port_status : Option (ℤ → Text)
  pub tcp_port_reserved : Option (ℤ → Bool)

-- What a handler takes from outside: the clock, the random source, the operating system's answer for
-- a port, the hashes, the replacement of the file of keys, and the file of the SSH host key.
pub record Env : Type 0 where
  pub now : Time
  pub random_token : Option Text
  pub random_id : Option Text
  pub available : ℕ → Bool
  pub hash_token : Text → Text
  pub sha256 : Text → List ℕ
  pub unicode_lower : ℕ → ℕ
  pub replace_keys : Text → Bool
  pub host_key : Option Text

abbrev pub hour : ℤ
hour = pos (3600 * second)

abbrev pub max_enrollment_ttl : ℤ
max_enrollment_ttl = pos (30 * 24 * 3600 * second)

-- The defaults that New fills in.
unfoldable pub with_defaults : Config → Config
with_defaults c = record c {
  enrollment_ttl =
      if leb_ℤ c.enrollment_ttl (pos 0)
      then hour
      else if ltb_ℤ max_enrollment_ttl c.enrollment_ttl
      then max_enrollment_ttl
      else c.enrollment_ttl;
  managed_ssh_port = if leb_ℤ c.managed_ssh_port (pos 0) then pos 2222 else c.managed_ssh_port;
}

module _ {S : Type 0} where
  abbrev pub write_error : ℕ → Text → Response S
  write_error status code = record { status = status; body = failure code }

  abbrev pub unauthorized : Response S
  unauthorized = write_error 401 (codes "unauthorized")

  abbrev pub internal_error : Response S
  internal_error = write_error 500 (codes "internal_error")

  abbrev pub invalid_request : Response S
  invalid_request = write_error 400 (codes "invalid_request")

  abbrev pub write_json : ℕ → Body S → Response S
  write_json status body = record { status = status; body = body }

  unfoldable pub write_store_error : StoreError → Response S
  write_store_error not_found = write_error 404 (codes "not_found")
  write_store_error conflict = write_error 409 (codes "conflict")
  write_store_error port_range_exhausted = write_error 409 (codes "conflict")
  write_store_error invalid_input = write_error 400 (codes "invalid_request")
  write_store_error _ = internal_error

  -- The end of a handler that deletes.
  unfoldable pub deleted : State S → Result Db → Response S × State S
  unfolding write_store_error
  deleted s (err e) = (write_store_error e, s)
  deleted s (ok db) = (write_json 204 empty, record s { db = db })

-- bearerToken, for the value of the Authorization header.
unfoldable pub bearer_token : Text → Text
unfolding has_prefix trim_space trim_prefix contains
bearer_token value =
    let token = trim_space (trim_prefix (codes "Bearer ") value) in
    if not (has_prefix (codes "Bearer ") value)
    then []
    else if contains 32 token || contains 9 token || contains 13 token || contains 10 token
    then []
    else token

unfoldable pub secure_equal : (Text → List ℕ) → Text → Text → Bool
unfolding ◌==◌
secure_equal sha256 left right = sha256 left == sha256 right

unfoldable pub is_admin : Env → Config → Text → Bool
unfolding bearer_token secure_equal ◌==◌
is_admin env config authorization =
    secure_equal env.sha256 (bearer_token authorization) config.admin_token
    && not (config.admin_token == [])
