-- ===== src/Manager/Probe.antt =====
-- lmrs/manager.py: what the configuration says of the server, and the probe of its `/health`.
use Prim.Native.String.{◌++◌ as concat}
use vvz_lmrs.Prelude.{
  String, Bool, false, ◌||◌, ◌==◌, Option, none, some, or_else, Result, ok, err, type_error, ◌>>=◌,
  if◌then◌else◌,
}
use vvz_lmrs.Prelude.Int.{ℤ, pos, eqb_ℤ}
use vvz_lmrs.Prelude.Value.{Value, Fields, Scalar, to_int, decimal}
use vvz_lmrs.Vram.Store.{is_truthy}
use vvz_lmrs.Manager.{Platform, Trust, trusted, refused}
use vvz_lmrs.Commands.{has_prefix}

-- `mapping.get(key)`
unfoldable pub get : String → Fields → Option Value
get k Fields.end = none
get k (Fields.field j v d) = if j == k then some v else get k d

-- the mapping, or an empty one in place of anything else
unfoldable pub dict_or_empty : Option Value → Fields
dict_or_empty (some (Value.dict d)) = d
dict_or_empty _ = Fields.end

-- `int(value)`
unfoldable pub int_of : Value → Result ℤ
unfolding to_int
int_of Value.null = to_int Scalar.null
int_of (Value.bool b) = to_int (Scalar.bool b)
int_of (Value.int n) = to_int (Scalar.int n)
int_of (Value.text s) = to_int (Scalar.text s)
int_of (Value.list _) = err (type_error "int() argument must not be a list")
int_of (Value.dict _) = err (type_error "int() argument must not be a dict")

-- `section.get("ssl") or {}`, of which `get("ca")` is read
unfoldable pub ca_of : Option Value → Result Value
unfolding get is_truthy
ca_of (some (Value.dict d)) = ok (or_else (get "ca" d) Value.null)
ca_of ssl =
    if is_truthy ssl
    then err (record { type_name = "AttributeError"; message = "'get'" })
    else ok Value.null

unfoldable pub loopback : String → String
loopback host = if host == "0.0.0.0" || host == "::" then "127.0.0.1" else host

unfoldable pub scheme : String → String
scheme protocol = if protocol == "https" || protocol == "mtls" then "https" else "http"

module _ {S : Type 0} (os : Platform S) where
  -- `str(value)`
  unfoldable pub str_of : Option Value → String → String
  str_of none default = default
  str_of (some v) default = os.show v

  unfoldable pub load_config : String → S → Fields
  unfolding dict_or_empty
  load_config cfg w = dict_or_empty (os.load_json cfg w)

  unfoldable pub server_section : String → S → Fields
  unfolding dict_or_empty load_config get
  server_section cfg w = dict_or_empty (get "server" (load_config cfg w))

  unfoldable pub listen_endpoint : String → S → Result (String × ℤ)
  unfolding server_section get str_of loopback int_of
  listen_endpoint cfg w =
      let server = server_section cfg w in
      int_of (or_else (get "port" server) (Value.int (pos 8012))) >>= λ port.
      ok (loopback (str_of (get "host" server) "127.0.0.1"), port)

  unfoldable pub health_url : String → S → Result String
  unfolding server_section get str_of scheme listen_endpoint decimal
  health_url cfg w =
      let protocol = str_of (get "protocol" (server_section cfg w)) "http" in
      listen_endpoint cfg w >>= λ (host, port). ok (
        concat (scheme protocol)
          (concat "://" (concat host (concat ":" (concat (decimal port) "/health")))))

  -- any exception of `urlopen` is `none`
  unfoldable pub responded : Option ℤ × S → Result Bool × S
  responded (none, w) = (ok false, w)
  responded (some status, w) = (ok (eqb_ℤ status (pos 200)), w)

  unfoldable pub probe_trusting : String → Value → Trust → S → Result Bool × S
  unfolding responded
  probe_trusting url ca trusted w = responded (os.urlopen url (some ca) w)
  probe_trusting url ca refused w = (ok false, w)
  probe_trusting url ca (Trust.failed e) w = (err e, w)

  unfoldable pub probe_secure : String → Result Value → S → Result Bool × S
  unfolding probe_trusting
  probe_secure url (err e) w = (err e, w)
  probe_secure url (ok ca) w = probe_trusting url ca (os.create_default_context ca) w

  unfoldable pub probe_url : String → Result String → S → Result Bool × S
  unfolding probe_secure responded has_prefix server_section get ca_of
  probe_url cfg (err e) w = (err e, w)
  probe_url cfg (ok url) w =
      if has_prefix "https" url
      then probe_secure url (ca_of (get "ssl" (server_section cfg w))) w
      else responded (os.urlopen url none w)

  unfoldable pub health_ok : String → S → Result Bool × S
  unfolding probe_url health_url
  health_ok cfg w = probe_url cfg (health_url cfg w) w
