-- ===== src/Grpc/Tests.antt =====
-- The theorems of the channel, the connection and the reporter at concrete inputs.
use skywalking_python.Prelude.{
  ℕ, ◌≡◌, refl, true, false, Option, none, some, List, [], ◌∷◌, ◌++◌, All, arith, Text, codes, join,
  map, is_empty,
}
use skywalking_python.Prelude.Result.{ok, err, value_error}
use skywalking_python.Grpc.Address.{
  BackendAddress, ipv4, ipv6, hostname, endpoint, classify_host, parse_backend_addresses,
}
use skywalking_python.Grpc.Fixtures.{platform}
use skywalking_python.Grpc.Address.RoundTrip.{IsPrintable, parse_backend_addresses-join}
use skywalking_python.Grpc.Target.{
  Info, inet, seen, candidates, gather, encode_sw_static_for_c_core, all_kind, any_hostname,
  prepare_grpc_channel_endpoints,
}
use skywalking_python.Grpc.Target.Literal.{IsLiteral}
use skywalking_python.Grpc.Target.Prepare.{encode_reads, prepare_covers}
use skywalking_python.Grpc.Connectivity.{idle, ready}
use skywalking_python.Grpc.Connection.{Connection, resting}
use skywalking_python.Grpc.Connection.Registration
use skywalking_python.Grpc.Connection.Registration.{
  changes, stores, beats, ends, history, overtaken, history-truthful,
}

abbrev first : BackendAddress
first = record { host = codes "10.0.0.1"; port = 11800; kind = ipv4 }

abbrev second : BackendAddress
second = record { host = codes "::1"; port = 11801; kind = ipv6 }

first-IsPrintable : IsPrintable platform first
unfolding classify_host
first-IsPrintable = record {
  classified = refl;
  in_range = (omega arith, omega arith);
  separable = ground arith;
  no_comma = ground arith;
}

second-IsPrintable : IsPrintable platform second
unfolding classify_host
second-IsPrintable = record {
  classified = refl;
  in_range = (omega arith, omega arith);
  separable = ground arith;
  no_comma = ground arith;
}

parse_backend_addresses-join_example :
    parse_backend_addresses platform (join (codes ",") (map endpoint (first ∷ second ∷ [])))
    ≡ first ∷ second ∷ []
parse_backend_addresses-join_example =
    parse_backend_addresses-join platform (first ∷ second ∷ [])
      (first-IsPrintable, (second-IsPrintable, tt))

encode_reads_example :
    (t : Text) × (encode_sw_static_for_c_core (second ∷ []) ≡ ok (codes "ipv6:" ++ t))
    × (parse_backend_addresses platform t ≡ second ∷ [])
unfolding all_kind any_hostname
encode_reads_example = encode_reads platform false second [] (second-IsPrintable, tt) refl refl

-- A hostname with one address.
abbrev getaddrinfo : Text → ℕ → Option (List Info)
getaddrinfo host port = some (record { family = inet; ip = codes "10.0.0.1" } ∷ [])

abbrev named : BackendAddress
named = record { host = codes "oap"; port = 11800; kind = hostname }

prepare_covers_example :
    let bs = (gather platform getaddrinfo (named ∷ second ∷ []) [] none).0 in
    IsLiteral bs
    × All
        (λ x. All (λ y. seen y bs ≡ true) (candidates platform getaddrinfo x))
        (named ∷ second ∷ [])
    × (is_empty bs ≡ true
        → prepare_grpc_channel_endpoints platform getaddrinfo (named ∷ second ∷ [])
          ≡ err value_error)
    × (is_empty bs ≡ false
        → (target : Text) × (authority : Text) × (encode_sw_static_for_c_core bs ≡ ok target)
          × (prepare_grpc_channel_endpoints platform getaddrinfo (named ∷ second ∷ [])
              ≡ ok (target, authority)))
prepare_covers_example = prepare_covers platform getaddrinfo named second []

-- A channel that is ready and was never used.
abbrev connection : Connection
connection = record {
  properties_sent = false;
  state = some ready;
  sent_properties_counter = 0;
  noticing = none;
  stage = resting;
  raised = 0;
  subscriptions = 1;
  nudges = 0;
  log = record { last_auth_log_at = 0; last_connectivity_log_at = []; lines = [] };
  now = 60000;
  entries = [];
}

-- The channel leaves READY when the properties are answered and the flag is not yet set.
abbrev race : List Registration.Event
race = beats ∷ beats ∷ ends none ∷ changes idle ∷ stores ∷ beats ∷ []

flag_left_set : (history 30 race connection).properties_sent ≡ true
unfolding history
flag_left_set = refl

flag_late : overtaken (history 30 race connection).entries ≡ true
unfolding history overtaken
flag_late = refl

history-truthful_example : Registration.IsSound (history 30 race connection)
history-truthful_example =
    history-truthful 30 race connection (record { truthful = λ e. cc e; had = λ e. cc e })
