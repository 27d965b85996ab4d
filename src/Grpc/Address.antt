-- ===== src/Grpc/Address.antt =====
-- skywalking/utils/grpc_channel.py: the addresses of the collector, from the text of the option to
-- the list of backends. `str.isspace` and `ipaddress.ip_address` are the standard library's.
pub mod Digits
pub mod RoundTrip
use skywalking_python.Prelude.{
  ℕ, suc, ◌+◌, ◌<◌, ◌≡◌, refl, Bool, true, false, ◌&&◌, ◌||◌, Option, none, some, List, [], ◌∷◌,
  ◌++◌, arith, if◌then◌else◌, ltb, ◌==◌, Text, codes, text_eq, is_empty, split,
}
use skywalking_python.Prelude.Int.{ℤ, pos, negsuc}
use skywalking_python.Prelude.Result.{Result, ok, err}
use skywalking_python.Prelude.Decimal.{decimal}
use skywalking_python.Trace.Carrier.{Unicode}
use skywalking_python.Command.{signed_int}

-- What `ipaddress.ip_address` makes of a text: an IPv4 address, or an IPv6 address that may be the
-- image of an IPv4 one.
pub data Ip : Type 0 where
  v4 : Ip
  v6 : (mapped : Bool) → Ip

-- `none` from `ip_address` is `ValueError`. Digits, colons and brackets are no white space.
pub record Platform : Type 0 where
  pub unicode : Unicode
  pub is_space : ℕ → Bool
  pub ip_address : Text → Option Ip
  pub space_digit : (d : ℕ) → d < 10 → is_space (b'0' + d) ≡ false
  pub space_colon : is_space b':' ≡ false
  pub space_open : is_space b'[' ≡ false
  pub space_close : is_space b']' ≡ false
  pub space_comma : is_space b',' ≡ false

-- `AddressKind`
pub data AddressKind : Type 0 where
  ipv4 ipv6 hostname : AddressKind

abbrev pub kind_eq : AddressKind → AddressKind → Bool
kind_eq ipv4 ipv4 = true
kind_eq ipv6 ipv6 = true
kind_eq hostname hostname = true
kind_eq _ _ = false

pub record BackendAddress : Type 0 where
  pub host : Text
  pub port : ℕ
  pub kind : AddressKind

endpoint_by : AddressKind → Text → Text → Text
endpoint_by ipv6 host port = b'[' ∷ (host ++ b']' ∷ b':' ∷ port)
endpoint_by _ host port = host ++ b':' ∷ port

-- `BackendAddress.endpoint`
unfoldable pub endpoint : BackendAddress → Text
unfolding endpoint_by
endpoint a = endpoint_by a.kind a.host (decimal a.port)

-- `s.find(c)`, as what stands before the first `c` and what stands behind it.
cut_from : ℕ → Option (Text × Text) → Option (Text × Text)
cut_from x none = none
cut_from x (some (before, behind)) = some (x ∷ before, behind)

pub cut : ℕ → Text → Option (Text × Text)
unfolding cut_from
cut c [] = none
cut c (x ∷ s) = let rest = cut c s in if x == c then some ([], s) else cut_from x rest

module _ (p : Platform) where
  lstrip : Text → Text
  lstrip [] = []
  lstrip (c ∷ s) = let rest = lstrip s in if p.is_space c then rest else c ∷ s

  rstrip : Text → Text
  rstrip [] = []
  rstrip (c ∷ s) = let rest = rstrip s in if is_empty rest && p.is_space c then [] else c ∷ rest

  -- `s.strip()`
  unfoldable pub strip : Text → Text
  unfolding lstrip rstrip
  strip s = rstrip (lstrip s)

  -- Some character of the host is white space, a control character, a slash or a percent sign.
  unusable : Text → Bool
  unusable [] = false
  unusable (c ∷ s) = (p.is_space c || (ltb c 32 || (c == b'/' || c == b'%'))) || unusable s

  kind_of : Option Ip → AddressKind
  kind_of none = hostname
  kind_of (some v4) = ipv4
  kind_of (some (v6 _)) = ipv6

  -- `_classify_host`
  unfoldable pub classify_host : Text → Option AddressKind
  unfolding unusable kind_of
  classify_host host =
      if is_empty host || unusable host then none else some (kind_of (p.ip_address host))

  address_of : Text → ℕ → Option AddressKind → Option BackendAddress
  address_of host port none = none
  address_of host port (some k) = some (record { host = host; port = port; kind = k })

  -- From the number of the port on.
  with_port : Text → Result ℤ → Option BackendAddress
  unfolding address_of
  with_port host (err e) = none
  with_port host (ok (negsuc n)) = none
  with_port host (ok (pos n)) =
      if ltb n 1 || ltb 65535 n then none else address_of host n (classify_host host)

  -- From the host and the port on.
  with_parts : Text → Text → Option BackendAddress
  unfolding with_port
  with_parts host port_str =
      let h = strip host in
      let s = strip port_str in
      if is_empty h || is_empty s then none else with_port h (signed_int p.unicode s)

  -- `[host]:port`, from what stands around the closing bracket on
  bracketed : Option (Text × Text) → Option BackendAddress
  unfolding with_parts
  bracketed none = none
  bracketed (some (host, [])) = none
  bracketed (some (host, c ∷ port_str)) =
      if is_empty host then none else if c == b':' then with_parts host port_str else none

  -- `host:port`, with one colon
  plain : List Text → Option BackendAddress
  unfolding with_parts
  plain (host ∷ port_str ∷ []) = with_parts host port_str
  plain _ = none

  parse_stripped : Text → Option BackendAddress
  unfolding bracketed plain
  parse_stripped [] = none
  parse_stripped (c ∷ text) =
      if c == b'[' then bracketed (cut b']' text) else plain (split b':' (c ∷ text))

  -- `parse_backend_address`
  unfoldable pub parse_backend_address : Text → Option BackendAddress
  unfolding parse_stripped
  parse_backend_address raw = parse_stripped (strip raw)

  push_some : Option BackendAddress → List BackendAddress → List BackendAddress
  push_some none rest = rest
  push_some (some a) rest = a ∷ rest

  -- The loops of `parse_backend_addresses`: empty parts are left out, invalid ones are logged.
  pub parse_parts : List Text → List BackendAddress
  unfolding push_some
  parse_parts [] = []
  parse_parts (part ∷ parts) =
      let rest = parse_parts parts in
      let text = strip part in
      if is_empty text then rest else push_some (parse_backend_address text) rest

  -- `parse_backend_addresses`
  unfoldable pub parse_backend_addresses : Text → List BackendAddress
  unfolding parse_parts
  parse_backend_addresses services = parse_parts (split b',' services)
