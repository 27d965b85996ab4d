-- ===== src/Grpc/Address/RoundTrip.antt =====
-- The text of a backend address in skywalking/utils/grpc_channel.py, written and read.
use skywalking_python.Prelude.{
  ℕ, ◌+◌, ◌-◌, ◌≤◌, ◌≡◌, refl, false, some, List, [], ◌∷◌, ◌++◌, arith, All, map, Text, codes,
  is_empty, join, split-join, Avoids, Avoids-append, AllAvoid, ap,
}
use skywalking_python.Prelude.Decimal.{decimal}
use skywalking_python.Grpc.Address.Digits.{
  IsDigits, decimal-IsDigits, decimal-cons, digits-Avoids, digits-Avoids_below, signed_int-decimal,
  cut-append,
}
use skywalking_python.Grpc.Address.{
  Platform, BackendAddress, AddressKind, ipv4, ipv6, hostname, endpoint, endpoint_by, strip, lstrip,
  rstrip, classify_host, unusable, parse_backend_address, parse_stripped, parse_parts,
  parse_backend_addresses, with_parts, with_port, bracketed, plain, address_of, push_some,
}

module _ (p : Platform) where
  -- No white space in a text.
  abbrev pub NoSpace : Text → Type 0
  NoSpace = All (λ c. p.is_space c ≡ false)

  rstrip-NoSpace : (s : Text) → NoSpace s → rstrip p s ≡ s
  unfolding rstrip
  rstrip-NoSpace [] h = refl
  rstrip-NoSpace (c ∷ s) h = ground (arith, h.0, rstrip-NoSpace s h.1)

  lstrip-NoSpace : (s : Text) → NoSpace s → lstrip p s ≡ s
  unfolding lstrip
  lstrip-NoSpace [] h = refl
  lstrip-NoSpace (c ∷ s) h = rw h.0 refl

  strip-NoSpace : (s : Text) → NoSpace s → strip p s ≡ s
  unfolding strip
  strip-NoSpace s h = rw (lstrip-NoSpace s h) (rstrip-NoSpace s h)

  usable-NoSpace : (s : Text) → unusable p s ≡ false → NoSpace s
  unfolding unusable
  usable-NoSpace [] h = tt
  usable-NoSpace (c ∷ s) h = (ground arith, usable-NoSpace s (ground arith))

  digits-NoSpace : (s : Text) → IsDigits s → NoSpace s
  digits-NoSpace [] h = tt
  digits-NoSpace (x ∷ s) h =
      let e : b'0' + (x - b'0') ≡ x = omega (arith, h.0) in
      (rw e at (p.space_digit (x - b'0') (omega (arith, h.0))), digits-NoSpace s h.1)

  NoSpace-append : (s t : Text) → NoSpace s → NoSpace t → NoSpace (s ++ t)
  NoSpace-append [] t hs ht = ht
  NoSpace-append (x ∷ s) t hs ht = (hs.0, NoSpace-append s t hs.1 ht)

  classified_usable :
      (host : Text) (k : AddressKind)
      → classify_host p host ≡ some k
      → (is_empty host ≡ false) × (unusable p host ≡ false)
  unfolding classify_host
  classified_usable host k e = ground arith

  -- The text of the host does not run into the port.
  abbrev Separable : AddressKind → Text → Type 0
  Separable ipv6 host = Avoids b']' host
  Separable _ host = Avoids b':' host × Avoids b'[' host

  -- An address with the kind and a port that the parser gives, whose host has no comma and none of
  -- the characters that `Separable` forbids.
  pub record IsPrintable (a : BackendAddress) : Type 0 where
    pub classified : classify_host p a.host ≡ some a.kind
    pub in_range : (1 ≤ a.port) × (a.port ≤ 65535)
    pub separable : Separable a.kind a.host
    pub no_comma : Avoids b',' a.host

  with_parts-decimal :
      (host : Text) (port : ℕ) (k : AddressKind)
      → classify_host p host ≡ some k
      → (1 ≤ port) × (port ≤ 65535)
      → with_parts p host (decimal port) ≡ some (record { host = host; port = port; kind = k })
  unfolding with_parts with_port address_of
  with_parts-decimal host port k e range =
      let usable = classified_usable host k e in
      let (x, t, c) = decimal-cons port in
      rw (strip-NoSpace host (usable-NoSpace host usable.1)) (
        rw (strip-NoSpace (decimal port) (digits-NoSpace (decimal port) (decimal-IsDigits port))) (
          rw (signed_int-decimal p.unicode port)
            (ground (arith, c, usable.0, e, range.0, range.1))))

  endpoint-NoSpace : (a : BackendAddress) → IsPrintable a → NoSpace (endpoint a)
  unfolding endpoint
  endpoint-NoSpace a h = by_kind a.kind
    where
      host_clear : NoSpace a.host
      host_clear = usable-NoSpace a.host ((classified_usable a.host a.kind h.classified).1)

      port_clear : NoSpace (decimal a.port)
      port_clear = digits-NoSpace (decimal a.port) (decimal-IsDigits a.port)

      plain_clear : NoSpace (a.host ++ b':' ∷ decimal a.port)
      plain_clear = NoSpace-append a.host _ host_clear (p.space_colon, port_clear)

      by_kind : (k : AddressKind) → NoSpace (endpoint_by k a.host (decimal a.port))
      by_kind ipv6 = (
        p.space_open,
        NoSpace-append a.host _ host_clear (p.space_close, (p.space_colon, port_clear)),
      )
      by_kind ipv4 = plain_clear
      by_kind hostname = plain_clear

  parse_plain :
      (host : Text) (port : ℕ) (k : AddressKind)
      → classify_host p host ≡ some k
      → (1 ≤ port) × (port ≤ 65535)
      → Avoids b':' host × Avoids b'[' host
      → parse_stripped p (host ++ b':' ∷ decimal port)
        ≡ some (record { host = host; port = port; kind = k })
  unfolding parse_stripped plain
  parse_plain [] port k e range clear = cc ((classified_usable [] k e).0)
  parse_plain (c ∷ host) port k e range clear =
      let parts =
        split-join b':' (c ∷ host) (decimal port ∷ []) (
          clear.0,
          (digits-Avoids b':' (decimal port) (omega arith) (decimal-IsDigits port), tt),
        ) in
      ground (arith, clear.1.0, parts, with_parts-decimal (c ∷ host) port k e range)

  parse_bracketed :
      (host : Text) (port : ℕ)
      → classify_host p host ≡ some ipv6
      → (1 ≤ port) × (port ≤ 65535)
      → Avoids b']' host
      → parse_stripped p (endpoint_by ipv6 host (decimal port))
        ≡ some (record { host = host; port = port; kind = ipv6 })
  unfolding parse_stripped bracketed endpoint_by
  parse_bracketed host port e range clear = ground (
    arith,
    cut-append b']' host (b':' ∷ decimal port) clear,
    classified_usable host ipv6 e,
    with_parts-decimal host port ipv6 e range,
  )

  parse_stripped-endpoint :
      (host : Text) (port : ℕ) (k : AddressKind)
      → classify_host p host ≡ some k
      → (1 ≤ port) × (port ≤ 65535)
      → Separable k host
      → parse_stripped p (endpoint_by k host (decimal port))
        ≡ some (record { host = host; port = port; kind = k })
  unfolding endpoint_by
  parse_stripped-endpoint host port ipv6 e range clear = parse_bracketed host port e range clear
  parse_stripped-endpoint host port ipv4 e range clear = parse_plain host port ipv4 e range clear
  parse_stripped-endpoint host port hostname e range clear =
      parse_plain host port hostname e range clear

  parse_backend_address-endpoint :
      (a : BackendAddress) → IsPrintable a → parse_backend_address p (endpoint a) ≡ some a
  unfolding parse_backend_address endpoint
  parse_backend_address-endpoint a h =
      rw (strip-NoSpace (endpoint a) (endpoint-NoSpace a h))
        (parse_stripped-endpoint a.host a.port a.kind h.classified h.in_range h.separable)

  endpoint-not_empty : (a : BackendAddress) → is_empty (endpoint a) ≡ false
  unfolding endpoint
  endpoint-not_empty a = by_kind a.kind a.host
    where
      by_kind :
          (k : AddressKind) (host : Text) → is_empty (endpoint_by k host (decimal a.port)) ≡ false
      by_kind ipv6 host = refl
      by_kind ipv4 [] = refl
      by_kind ipv4 (c ∷ host) = refl
      by_kind hostname [] = refl
      by_kind hostname (c ∷ host) = refl

  endpoint-Avoids : (a : BackendAddress) → IsPrintable a → Avoids b',' (endpoint a)
  unfolding endpoint
  endpoint-Avoids a h = by_kind a.kind
    where
      port_clear : Avoids b',' (decimal a.port)
      port_clear = digits-Avoids_below b',' (decimal a.port) (omega arith) (decimal-IsDigits a.port)

      by_kind : (k : AddressKind) → Avoids b',' (endpoint_by k a.host (decimal a.port))
      by_kind ipv6 = (refl, Avoids-append b',' a.host _ h.no_comma (refl, (refl, port_clear)))
      by_kind ipv4 = Avoids-append b',' a.host _ h.no_comma (refl, port_clear)
      by_kind hostname = Avoids-append b',' a.host _ h.no_comma (refl, port_clear)

  endpoints-AllAvoid :
      (bs : List BackendAddress) → All IsPrintable bs → AllAvoid b',' (map endpoint bs)
  endpoints-AllAvoid [] h = tt
  endpoints-AllAvoid (a ∷ bs) h = (endpoint-Avoids a h.0, endpoints-AllAvoid bs h.1)

  parse_parts-endpoints :
      (bs : List BackendAddress) → All IsPrintable bs → parse_parts p (map endpoint bs) ≡ bs
  unfolding parse_parts push_some
  parse_parts-endpoints [] h = refl
  parse_parts-endpoints (a ∷ bs) h = rw (strip-NoSpace (endpoint a) (endpoint-NoSpace a h.0)) (
      rw (endpoint-not_empty a) (
        rw (parse_backend_address-endpoint a h.0) (ap (λ l. a ∷ l) (parse_parts-endpoints bs h.1))))

  -- Backends with a usable host of their kind, a port from 1 to 65535, no comma in a host, no colon
  -- and no opening bracket in a host that is not IPv6, and no closing bracket in one that is: the list is read back, in order, from its endpoints joined by commas.
  pub parse_backend_addresses-join :
      (bs : List BackendAddress)
      → All IsPrintable bs
      → parse_backend_addresses p (join (codes ",") (map endpoint bs)) ≡ bs
  unfolding parse_backend_addresses
  parse_backend_addresses-join [] h = rw (strip-NoSpace [] tt) refl
  parse_backend_addresses-join (a ∷ bs) h =
      rw (split-join b',' (endpoint a) (map endpoint bs) (endpoints-AllAvoid (a ∷ bs) h))
        (parse_parts-endpoints (a ∷ bs) h)

pub endpoint_plain :
    (a : BackendAddress) → a.kind ≡ ipv4 → endpoint a ≡ a.host ++ b':' ∷ decimal a.port
unfolding endpoint endpoint_by
endpoint_plain a e = rw e refl

pub endpoint_bracketed :
    (a : BackendAddress)
    → a.kind ≡ ipv6
    → endpoint a ≡ b'[' ∷ (a.host ++ b']' ∷ b':' ∷ decimal a.port)
unfolding endpoint endpoint_by
endpoint_bracketed a e = rw e refl
