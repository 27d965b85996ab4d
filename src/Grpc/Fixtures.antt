-- ===== src/Grpc/Fixtures.antt =====
-- A platform on which the code of skywalking/utils is tried.
use skywalking_python.Prelude.{
  ℕ, ◌+◌, ◌<◌, ◌≡◌, refl, false, none, some, arith, if◌then◌else◌, ◌==◌, text_eq, codes,
}
use skywalking_python.Trace.Fixtures
use skywalking_python.Grpc.Address.{Platform, v4, v6}

pub digit_no_space : (d : ℕ) → d < 10 → (b'0' + d == b' ') ≡ false
digit_no_space d h = ground arith

-- Space is the only white space, and there are two addresses.
abbrev pub platform : Platform
platform = record {
  unicode = Fixtures.unicode;
  is_space = λ c. c == b' ';
  ip_address = λ t.
      if text_eq t (codes "10.0.0.1")
      then some v4
      else if text_eq t (codes "::1")
      then some (v6 false)
      else none;
  space_digit = digit_no_space;
  space_colon = refl;
  space_open = refl;
  space_close = refl;
  space_comma = refl;
}
