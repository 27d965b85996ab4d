-- ===== src/Grpc/Target/Prepare.antt =====
-- The target that a channel in skywalking/utils/grpc_channel.py is opened to.
use mathlib.Core.Path.{ap₂}
use skywalking_python.Prelude.{
  ℕ, ◌≡◌, refl, Bool, true, false, Option, none, List, [], ◌∷◌, ◌++◌, All, arith, map,
  if◌then◌else◌, Text, codes, is_empty, join, ap, sym,
}
use skywalking_python.Prelude.Result.{ok, err, value_error}
use skywalking_python.Grpc.Address.{
  Platform, AddressKind, ipv4, ipv6, hostname, kind_eq, BackendAddress, endpoint,
  parse_backend_addresses,
}
use skywalking_python.Grpc.Address.RoundTrip.{
  IsPrintable, parse_backend_addresses-join, endpoint_plain, endpoint_bracketed,
}
use skywalking_python.Grpc.Target.{
  Info, seen, all_kind, any_hostname, encode_sw_static_for_c_core, candidates, gather,
  finish_endpoints, with_authority, authority_or, prepare_grpc_channel_endpoints, plain_part,
  bracket_part, bracket,
}
use skywalking_python.Grpc.Target.Literal.{
  IsLiteral, empty-IsLiteral, gather-IsLiteral, gather-covers,
}

kind_eq_sound : (k l : AddressKind) → kind_eq k l ≡ true → k ≡ l
kind_eq_sound ipv4 ipv4 h = refl
kind_eq_sound ipv6 ipv6 h = refl
kind_eq_sound hostname hostname h = refl
kind_eq_sound ipv4 ipv6 h = cc
kind_eq_sound ipv4 hostname h = cc
kind_eq_sound ipv6 ipv4 h = cc
kind_eq_sound ipv6 hostname h = cc
kind_eq_sound hostname ipv4 h = cc
kind_eq_sound hostname ipv6 h = cc

one_of_three :
    (b c : Bool) (x y z : Text)
    → (t : Text) × ((if b then ok x else if c then ok y else ok z) ≡ ok t)
one_of_three true c x y z = (x, refl)
one_of_three false true x y z = (y, refl)
one_of_three false false x y z = (z, refl)

encode-ok :
    (bs : List BackendAddress)
    → is_empty bs ≡ false
    → any_hostname bs ≡ false
    → (t : Text) × (encode_sw_static_for_c_core bs ≡ ok t)
unfolding encode_sw_static_for_c_core
encode-ok bs full literal =
    rw full (rw literal (one_of_three (all_kind ipv4 bs) (all_kind ipv6 bs) _ _ _))

plain_parts :
    (bs : List BackendAddress) → all_kind ipv4 bs ≡ true → map plain_part bs ≡ map endpoint bs
unfolding all_kind plain_part
plain_parts [] h = refl
plain_parts (a ∷ bs) h =
    ap₂ ◌∷◌ (sym (endpoint_plain a (kind_eq_sound a.kind ipv4 (ground arith))))
      (plain_parts bs (ground arith))

bracket_parts :
    (bs : List BackendAddress) → all_kind ipv6 bs ≡ true → map bracket_part bs ≡ map endpoint bs
unfolding all_kind bracket_part bracket
bracket_parts [] h = refl
bracket_parts (a ∷ bs) h =
    ap₂ ◌∷◌ (sym (endpoint_bracketed a (kind_eq_sound a.kind ipv6 (ground arith))))
      (bracket_parts bs (ground arith))

ipv6_only :
    (a : BackendAddress) (bs : List BackendAddress)
    → all_kind ipv6 (a ∷ bs) ≡ true
    → all_kind ipv4 (a ∷ bs) ≡ false
unfolding all_kind
ipv6_only a bs h = rw (kind_eq_sound a.kind ipv6 (ground arith)) refl

module _ (p : Platform) (getaddrinfo : Text → ℕ → Option (List Info)) where
  finish-literal :
      (bs : List BackendAddress) (authority : Option Text)
      → IsLiteral bs
      → is_empty bs ≡ false
      → (target : Text) × (chosen : Text) × (encode_sw_static_for_c_core bs ≡ ok target)
        × (finish_endpoints p getaddrinfo (bs, authority) ≡ ok (target, chosen))
  unfolding finish_endpoints with_authority
  finish-literal [] authority h full = cc full
  finish-literal (a ∷ bs) authority h full =
      let (t, e) = encode-ok (a ∷ bs) full h.no_hostname in
      (t, authority_or p getaddrinfo authority a, e, rw e refl)

  finish_none :
      (bs : List BackendAddress) (authority : Option Text)
      → is_empty bs ≡ true
      → finish_endpoints p getaddrinfo (bs, authority) ≡ err value_error
  unfolding finish_endpoints
  finish_none [] authority none_left = refl
  finish_none (a ∷ bs) authority none_left = cc none_left

  -- Two backends or more: the endpoints that are gathered are addresses and no hostnames, no two
  -- alike, among them each address that a backend stands for; if there are none, `ValueError` is
  -- raised, and if there is one, the target encodes them and nothing is raised.
  pub prepare_covers :
      (a b : BackendAddress) (more : List BackendAddress)
      → let addresses = a ∷ b ∷ more in
        let bs = (gather p getaddrinfo addresses [] none).0 in
        IsLiteral bs
        × All (λ x. All (λ y. seen y bs ≡ true) (candidates p getaddrinfo x)) addresses
        × (is_empty bs ≡ true
            → prepare_grpc_channel_endpoints p getaddrinfo addresses ≡ err value_error)
        × (is_empty bs ≡ false
            → (target : Text) × (authority : Text) × (encode_sw_static_for_c_core bs ≡ ok target)
              × (prepare_grpc_channel_endpoints p getaddrinfo addresses ≡ ok (target, authority)))
  unfolding prepare_grpc_channel_endpoints
  prepare_covers a b more =
      let (bs, authority) = gather p getaddrinfo (a ∷ b ∷ more) [] none in
      let literal =
        gather-IsLiteral p getaddrinfo (a ∷ b ∷ more) [] none (empty-IsLiteral p getaddrinfo) in
      (
        literal,
        gather-covers p getaddrinfo (a ∷ b ∷ more) [] none,
        finish_none bs authority,
        finish-literal bs authority literal,
      )

abbrev scheme : Bool → Text
scheme true = codes "ipv4:"
scheme false = codes "ipv6:"

-- A list of IPv4 backends, or of IPv6 backends, that can be printed: behind its scheme the target
-- reads back as the list.
pub encode_reads :
    (p : Platform) (four : Bool) (a : BackendAddress) (bs : List BackendAddress)
    → All (IsPrintable p) (a ∷ bs)
    → all_kind (if four then ipv4 else ipv6) (a ∷ bs) ≡ true
    → any_hostname (a ∷ bs) ≡ false
    → (t : Text) × (encode_sw_static_for_c_core (a ∷ bs) ≡ ok (scheme four ++ t))
      × (parse_backend_addresses p t ≡ a ∷ bs)
unfolding encode_sw_static_for_c_core
encode_reads p true a bs h k literal = (
  join (codes ",") (map endpoint (a ∷ bs)),
  rw literal (rw k (ap (λ l. ok (codes "ipv4:" ++ join (codes ",") l)) (plain_parts (a ∷ bs) k))),
  parse_backend_addresses-join p (a ∷ bs) h,
)
encode_reads p false a bs h k literal = (
  join (codes ",") (map endpoint (a ∷ bs)),
  rw literal (
      rw (ipv6_only a bs k)
        (rw k (ap (λ l. ok (codes "ipv6:" ++ join (codes ",") l)) (bracket_parts (a ∷ bs) k)))),
  parse_backend_addresses-join p (a ∷ bs) h,
)
