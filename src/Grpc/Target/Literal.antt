-- ===== src/Grpc/Target/Literal.antt =====
-- What the endpoints of a channel in skywalking/utils/grpc_channel.py are made of.
use skywalking_python.Prelude.{
  ℕ, ◌≡◌, refl, true, false, ◌||◌, Option, none, some, List, [], ◌∷◌, ◌++◌, All, arith, Text,
  text_eq_self, text_eq_iff, Bool-cases, inl, inr,
}
use skywalking_python.Grpc.Address.{
  Ip, v4, v6, Platform, AddressKind, ipv4, ipv6, hostname, kind_eq, BackendAddress,
}
use skywalking_python.Grpc.Target.{
  Family, inet, inet6, other, Info, same_key, seen, add_new, add_all, is_hostname, any_hostname,
  resolved_by, from_inet6, add_resolved, resolve_infos, lookup_of, lookup_hostname, candidates_by,
  candidates, gather,
}

-- No two entries of a list have the same kind, host and port.
abbrev pub IsDistinct : List BackendAddress → Type 0
IsDistinct [] = Unit
IsDistinct (a ∷ bs) = (seen a bs ≡ false) × IsDistinct bs

kind_eq_comm : (k l : AddressKind) → kind_eq k l ≡ kind_eq l k
kind_eq_comm ipv4 ipv4 = refl
kind_eq_comm ipv4 ipv6 = refl
kind_eq_comm ipv4 hostname = refl
kind_eq_comm ipv6 ipv4 = refl
kind_eq_comm ipv6 ipv6 = refl
kind_eq_comm ipv6 hostname = refl
kind_eq_comm hostname ipv4 = refl
kind_eq_comm hostname ipv6 = refl
kind_eq_comm hostname hostname = refl

same_key_comm : (a b : BackendAddress) → same_key a b ≡ same_key b a
unfolding same_key
same_key_comm a b =
    ground (arith, kind_eq_comm a.kind b.kind, text_eq_iff a.host b.host, text_eq_iff b.host a.host)

kind_eq_self : (k : AddressKind) → kind_eq k k ≡ true
kind_eq_self ipv4 = refl
kind_eq_self ipv6 = refl
kind_eq_self hostname = refl

same_key_self : (a : BackendAddress) → same_key a a ≡ true
unfolding same_key
same_key_self a = ground (arith, kind_eq_self a.kind, text_eq_self a.host)

seen-append :
    (a b : BackendAddress) (bs : List BackendAddress)
    → seen a (bs ++ b ∷ []) ≡ (seen a bs || same_key b a)
unfolding seen
seen-append a b [] = ground arith
seen-append a b (c ∷ bs) = ground (arith, seen-append a b bs)

append-IsDistinct :
    (a : BackendAddress) (bs : List BackendAddress)
    → IsDistinct bs
    → seen a bs ≡ false
    → IsDistinct (bs ++ a ∷ [])
unfolding seen
append-IsDistinct a [] h e = (refl, tt)
append-IsDistinct a (b ∷ bs) h e = (
  ground (arith, seen-append b a bs, same_key_comm b a, h.0),
  append-IsDistinct a bs h.1 (ground arith),
)

any_hostname-append :
    (a : BackendAddress) (bs : List BackendAddress)
    → any_hostname (bs ++ a ∷ []) ≡ (any_hostname bs || is_hostname a.kind)
unfolding any_hostname
any_hostname-append a [] = ground arith
any_hostname-append a (b ∷ bs) = ground (arith, any_hostname-append a bs)

-- A list that can be encoded: no two entries alike, and no hostname.
pub record IsLiteral (bs : List BackendAddress) : Type 0 where
  pub distinct : IsDistinct bs
  pub no_hostname : any_hostname bs ≡ false

add_new-IsLiteral :
    (a : BackendAddress) (bs : List BackendAddress)
    → is_hostname a.kind ≡ false
    → IsLiteral bs
    → IsLiteral (add_new a bs)
unfolding add_new
add_new-IsLiteral a bs k h = elim (Bool-cases (seen a bs)) [
  | inl old ↦ rw old h
  | inr new ↦ rw new (record {
    distinct = append-IsDistinct a bs h.distinct new;
    no_hostname = ground (arith, any_hostname-append a bs, h.no_hostname);
  })
]

add_all-IsLiteral :
    (more bs : List BackendAddress)
    → any_hostname more ≡ false
    → IsLiteral bs
    → IsLiteral (add_all more bs)
unfolding add_all any_hostname
add_all-IsLiteral [] bs k h = h
add_all-IsLiteral (a ∷ more) bs k h =
    add_all-IsLiteral more (add_new a bs) (ground arith) (add_new-IsLiteral a bs (ground arith) h)

-- What is in the list stays in it, and what is added is in it.
add_new-keeps :
    (a x : BackendAddress) (bs : List BackendAddress)
    → seen x bs ≡ true
    → seen x (add_new a bs) ≡ true
unfolding add_new
add_new-keeps a x bs h = ground (arith, seen-append x a bs)

add_new-adds : (a : BackendAddress) (bs : List BackendAddress) → seen a (add_new a bs) ≡ true
unfolding add_new
add_new-adds a bs = ground (arith, seen-append a a bs, same_key_self a)

add_all-keeps :
    (more : List BackendAddress) (x : BackendAddress) (bs : List BackendAddress)
    → seen x bs ≡ true
    → seen x (add_all more bs) ≡ true
unfolding add_all
add_all-keeps [] x bs h = h
add_all-keeps (a ∷ more) x bs h = add_all-keeps more x (add_new a bs) (add_new-keeps a x bs h)

add_all-adds : (more bs : List BackendAddress) → All (λ x. seen x (add_all more bs) ≡ true) more
unfolding add_all
add_all-adds [] bs = tt
add_all-adds (a ∷ more) bs =
    (add_all-keeps more a (add_new a bs) (add_new-adds a bs), add_all-adds more (add_new a bs))

module _ (p : Platform) (getaddrinfo : Text → ℕ → Option (List Info)) where
  from_inet6-IsLiteral :
      (ip : Text) (port : ℕ) (o : Option Ip) (bs : List BackendAddress)
      → IsLiteral bs
      → IsLiteral (add_resolved p getaddrinfo (from_inet6 p getaddrinfo ip port o) bs)
  unfolding add_resolved from_inet6
  from_inet6-IsLiteral ip port none bs h = h
  from_inet6-IsLiteral ip port (some v4) bs h = h
  from_inet6-IsLiteral ip port (some (v6 true)) bs h = h
  from_inet6-IsLiteral ip port (some (v6 false)) bs h =
      add_new-IsLiteral _ bs (unfold is_hostname in refl) h

  resolved-IsLiteral :
      (f : Family) (ip : Text) (port : ℕ) (bs : List BackendAddress)
      → IsLiteral bs
      → IsLiteral (add_resolved p getaddrinfo (resolved_by p getaddrinfo f ip port) bs)
  unfolding add_resolved resolved_by
  resolved-IsLiteral inet ip port bs h = add_new-IsLiteral _ bs (unfold is_hostname in refl) h
  resolved-IsLiteral inet6 ip port bs h = from_inet6-IsLiteral _ port _ bs h
  resolved-IsLiteral other ip port bs h = h

  resolve_infos-IsLiteral :
      (infos : List Info) (port : ℕ) (bs : List BackendAddress)
      → IsLiteral bs
      → IsLiteral (resolve_infos p getaddrinfo infos port bs)
  unfolding resolve_infos
  resolve_infos-IsLiteral [] port bs h = h
  resolve_infos-IsLiteral (i ∷ infos) port bs h =
      resolve_infos-IsLiteral infos port _ (resolved-IsLiteral i.family i.ip port bs h)

  pub empty-IsLiteral : IsLiteral []
  unfolding any_hostname
  empty-IsLiteral = record { distinct = tt; no_hostname = refl }

  lookup_of-literal :
      (o : Option (List Info)) (port : ℕ) → any_hostname (lookup_of p getaddrinfo o port) ≡ false
  unfolding lookup_of
  lookup_of-literal none port = empty-IsLiteral.no_hostname
  lookup_of-literal (some infos) port =
      (resolve_infos-IsLiteral infos port [] empty-IsLiteral).no_hostname

  candidates_by-literal :
      (k : AddressKind) (a : BackendAddress)
      → a.kind ≡ k
      → any_hostname (candidates_by p getaddrinfo k a) ≡ false
  unfolding candidates_by lookup_hostname any_hostname is_hostname
  candidates_by-literal hostname a e = lookup_of-literal _ a.port
  candidates_by-literal ipv4 a e = rw e refl
  candidates_by-literal ipv6 a e = rw e refl

  candidates-literal : (a : BackendAddress) → any_hostname (candidates p getaddrinfo a) ≡ false
  unfolding candidates
  candidates-literal a = candidates_by-literal a.kind a refl

  pub gather-IsLiteral :
      (addresses bs : List BackendAddress) (authority : Option Text)
      → IsLiteral bs
      → IsLiteral (gather p getaddrinfo addresses bs authority).0
  unfolding gather
  gather-IsLiteral [] bs authority h = h
  gather-IsLiteral (a ∷ more) bs authority h =
      gather-IsLiteral more _ _
        (add_all-IsLiteral (candidates p getaddrinfo a) bs (candidates-literal a) h)

  gather-keeps :
      (addresses : List BackendAddress) (x : BackendAddress) (bs : List BackendAddress)
      (authority : Option Text)
      → seen x bs ≡ true
      → seen x (gather p getaddrinfo addresses bs authority).0 ≡ true
  unfolding gather
  gather-keeps [] x bs authority h = h
  gather-keeps (a ∷ more) x bs authority h =
      gather-keeps more x _ _ (add_all-keeps (candidates p getaddrinfo a) x bs h)

  All-gather_keeps :
      (addresses xs bs : List BackendAddress) (authority : Option Text)
      → All (λ x. seen x bs ≡ true) xs
      → All (λ x. seen x (gather p getaddrinfo addresses bs authority).0 ≡ true) xs
  All-gather_keeps addresses [] bs authority h = tt
  All-gather_keeps addresses (x ∷ xs) bs authority h =
      (gather-keeps addresses x bs authority h.0, All-gather_keeps addresses xs bs authority h.1)

  pub gather-covers :
      (addresses bs : List BackendAddress) (authority : Option Text)
      → All
          (λ a.
            All
              (λ x. seen x (gather p getaddrinfo addresses bs authority).0 ≡ true)
              (candidates p getaddrinfo a))
          addresses
  unfolding gather
  gather-covers [] bs authority = tt
  gather-covers (a ∷ more) bs authority = (
    All-gather_keeps more (candidates p getaddrinfo a) _ _
        (add_all-adds (candidates p getaddrinfo a) bs),
    gather-covers more _ _,
  )
