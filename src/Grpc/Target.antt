-- ===== src/Grpc/Target.antt =====
-- skywalking/utils/grpc_channel.py: from the backends to the target and the authority of the one
-- channel. `socket.getaddrinfo`, under its time limit, is the standard library's.
pub mod Literal
pub mod Prepare
use skywalking_python.Prelude.{
  ℕ, Bool, true, false, ◌&&◌, ◌||◌, not, Option, none, some, List, [], ◌∷◌, ◌++◌, map,
  if◌then◌else◌, ◌==◌, Text, codes, text_eq, is_empty, join,
}
use skywalking_python.Prelude.Result.{Result, ok, err, value_error}
use skywalking_python.Prelude.Decimal.{decimal}
use skywalking_python.Grpc.Address.{
  Ip, v4, v6, Platform, AddressKind, ipv4, ipv6, hostname, kind_eq, BackendAddress, endpoint, cut,
  strip, parse_backend_addresses,
}

-- The family of an entry of `getaddrinfo`.
pub data Family : Type 0 where
  inet inet6 other : Family

pub record Info : Type 0 where
  pub family : Family
  pub ip : Text

-- The key `(kind, host, port)`
unfoldable pub same_key : BackendAddress → BackendAddress → Bool
same_key a b = kind_eq a.kind b.kind && (text_eq a.host b.host && a.port == b.port)

unfoldable pub seen : BackendAddress → List BackendAddress → Bool
seen a [] = false
seen a (b ∷ bs) = same_key b a || seen a bs

-- `if key in seen: continue`, and else the address goes to the end of the list.
unfoldable pub add_new : BackendAddress → List BackendAddress → List BackendAddress
add_new a bs = if seen a bs then bs else bs ++ a ∷ []

unfoldable pub add_all : List BackendAddress → List BackendAddress → List BackendAddress
add_all [] bs = bs
add_all (a ∷ more) bs = add_all more (add_new a bs)

-- A text without its zone: `ip.split('%', 1)[0]`
without_zone_of : Text → Option (Text × Text) → Text
without_zone_of ip none = ip
without_zone_of ip (some (before, _)) = before

without_zone : Text → Text
unfolding without_zone_of
without_zone ip = without_zone_of ip (cut b'%' ip)

pub is_hostname : AddressKind → Bool
is_hostname hostname = true
is_hostname _ = false

-- `_ipv4_mapped_v6`
mapped_v6 : Text → Text
mapped_v6 ip = codes "::ffff:" ++ ip

bracket : Text → ℕ → Text
bracket host port = b'[' ∷ (host ++ b']' ∷ b':' ∷ decimal port)

plain_part : BackendAddress → Text
plain_part a = a.host ++ b':' ∷ decimal a.port

bracket_part : BackendAddress → Text
unfolding bracket
bracket_part a = bracket a.host a.port

mixed_by : AddressKind → BackendAddress → Text
unfolding bracket mapped_v6
mixed_by ipv4 a = bracket (mapped_v6 a.host) a.port
mixed_by _ a = bracket a.host a.port

mixed_part : BackendAddress → Text
unfolding mixed_by
mixed_part a = mixed_by a.kind a

unfoldable pub all_kind : AddressKind → List BackendAddress → Bool
all_kind k [] = true
all_kind k (a ∷ bs) = kind_eq a.kind k && all_kind k bs

unfoldable pub any_hostname : List BackendAddress → Bool
unfolding is_hostname
any_hostname [] = false
any_hostname (a ∷ bs) = is_hostname a.kind || any_hostname bs

-- `encode_sw_static_for_c_core`
unfoldable pub encode_sw_static_for_c_core : List BackendAddress → Result Text
unfolding plain_part bracket_part mixed_part
encode_sw_static_for_c_core bs =
    if is_empty bs || any_hostname bs
    then err value_error
    else if all_kind ipv4 bs
    then ok (codes "ipv4:" ++ join (codes ",") (map plain_part bs))
    else if all_kind ipv6 bs
    then ok (codes "ipv6:" ++ join (codes ",") (map bracket_part bs))
    else ok (codes "ipv6:" ++ join (codes ",") (map mixed_part bs))

module _ (p : Platform) (getaddrinfo : Text → ℕ → Option (List Info)) where
  -- An `AF_INET6` address, unless it is not readable or the image of an IPv4 address; this family
  -- holds no text of an IPv4 address, for which the source would raise `AttributeError`.
  from_inet6 : Text → ℕ → Option Ip → Option BackendAddress
  from_inet6 ip port (some (v6 true)) = none
  from_inet6 ip port none = none
  from_inet6 ip port (some v4) = none
  from_inet6 ip port (some (v6 false)) = some (record { host = ip; port = port; kind = ipv6 })

  resolved_by : Family → Text → ℕ → Option BackendAddress
  unfolding from_inet6 without_zone
  resolved_by inet ip port = some (record { host = ip; port = port; kind = ipv4 })
  resolved_by inet6 ip port =
      let address = without_zone ip in from_inet6 address port (p.ip_address address)
  resolved_by other ip port = none

  add_resolved : Option BackendAddress → List BackendAddress → List BackendAddress
  add_resolved none bs = bs
  add_resolved (some a) bs = add_new a bs

  pub resolve_infos : List Info → ℕ → List BackendAddress → List BackendAddress
  unfolding resolved_by add_resolved
  resolve_infos [] port bs = bs
  resolve_infos (i ∷ infos) port bs =
      resolve_infos infos port (add_resolved (resolved_by i.family i.ip port) bs)

  -- `_lookup_hostname`: `none` of `getaddrinfo` is an exception or the end of its time.
  lookup_of : Option (List Info) → ℕ → List BackendAddress
  lookup_of none port = []
  lookup_of (some infos) port = resolve_infos infos port []

  unfoldable pub lookup_hostname : Text → ℕ → List BackendAddress
  unfolding lookup_of
  lookup_hostname host port = lookup_of (getaddrinfo host port) port

  candidates_by : AddressKind → BackendAddress → List BackendAddress
  unfolding lookup_hostname
  candidates_by hostname a = lookup_hostname a.host a.port
  candidates_by _ a = a ∷ []

  pub candidates : BackendAddress → List BackendAddress
  unfolding candidates_by
  candidates a = candidates_by a.kind a

  expand_onto : List BackendAddress → List BackendAddress → List BackendAddress
  expand_onto [] bs = bs
  expand_onto (a ∷ more) bs = expand_onto more (add_all (candidates a) bs)

  -- `expand_backend_addresses`
  unfoldable pub expand_backend_addresses : List BackendAddress → List BackendAddress
  unfolding expand_onto
  expand_backend_addresses addresses = expand_onto addresses []

  -- The loop of `prepare_grpc_channel_endpoints`: what to encode, and the authority.
  first_authority : Option Text → Bool → Text → Option Text
  first_authority (some t) usable e = some t
  first_authority none usable e = if usable then some e else none

  unfoldable pub gather :
      List BackendAddress → List BackendAddress → Option Text → List BackendAddress × Option Text
  unfolding first_authority
  gather [] bs authority = (bs, authority)
  gather (orig ∷ more) bs authority =
      let found = candidates orig in
      gather more (add_all found bs)
        (first_authority authority (not (is_empty found)) (endpoint orig))

  authority_or : Option Text → BackendAddress → Text
  authority_or none a = endpoint a
  authority_or (some t) a = t

  with_authority : Result Text → Text → Result (Text × Text)
  with_authority (err e) authority = err e
  with_authority (ok target) authority = ok (target, authority)

  finish_endpoints : List BackendAddress × Option Text → Result (Text × Text)
  unfolding authority_or with_authority
  finish_endpoints ([], authority) = err value_error
  finish_endpoints (a ∷ bs, authority) =
      with_authority (encode_sw_static_for_c_core (a ∷ bs)) (authority_or authority a)

  -- `prepare_grpc_channel_endpoints`: the target and the default authority.
  unfoldable pub prepare_grpc_channel_endpoints : List BackendAddress → Result (Text × Text)
  unfolding finish_endpoints
  prepare_grpc_channel_endpoints [] = err value_error
  prepare_grpc_channel_endpoints (a ∷ []) = ok (endpoint a, endpoint a)
  prepare_grpc_channel_endpoints (a ∷ b ∷ more) = finish_endpoints (gather (a ∷ b ∷ more) [] none)

  or_localhost : Text → Text
  or_localhost t = if is_empty t then codes "localhost:1" else t

  degrade : List BackendAddress → Text → Result (Text × Text) → Text × Text
  unfolding or_localhost
  degrade addresses raw (ok r) = r
  degrade (a ∷ _) raw (err e) = (endpoint a, endpoint a)
  degrade [] raw (err e) = let fallback = or_localhost (strip p raw) in (fallback, fallback)

  -- `_resolve_channel_target_and_authority`
  unfoldable pub resolve_channel_target_and_authority : Text → Text × Text
  unfolding degrade
  resolve_channel_target_and_authority raw =
      let addresses = parse_backend_addresses p raw in
      degrade addresses raw (prepare_grpc_channel_endpoints addresses)
