-- ===== src/Grpc/Streams/Tests.antt =====
-- A report of meters at concrete inputs.
use skywalking_python.Prelude.{◌+◌, ◌≡◌, refl, true, none, List, [], ◌∷◌, length}
use skywalking_python.Prelude.Queue.{fresh}
use skywalking_python.Agent.Aio.{meter}
use skywalking_python.Agent.DropLog
use skywalking_python.Grpc.Streams.{Stream}
use skywalking_python.Prelude.Weights.{Weight, weigh}
use skywalking_python.Grpc.Streams.Balance.{IsSound, accounted, total}
use skywalking_python.Grpc.Streams.Accounting.{
  Event, offers, begins, gets, yields, fails, cancels, hands_over, history, offered_in,
  history-accounted,
}

abbrev stream : Stream
stream = record {
  queue = fresh 2;
  drops = DropLog.fresh;
  batch = none;
  strays = [];
  delivered = [];
  discarded = [];
  lost = [];
}

-- The generator of the first call has the second payload in its hand when the call fails.
abbrev events : List Event
events =
    offers 1 5
    ∷ offers 2 5
    ∷ offers 3 6
    ∷ begins true
    ∷ gets 1 7
    ∷ yields
    ∷ gets 1 7
    ∷ fails 8
    ∷ hands_over 0
    ∷ begins true
    ∷ cancels
    ∷ []

lost_uncounted : (history meter events stream).lost ≡ 2 ∷ []
unfolding history
lost_uncounted = refl

history-accounted_example :
    IsSound (history meter events stream)
    × ((w : Weight)
        → accounted w (history meter events stream)
          ≡ accounted w stream + weigh w (offered_in meter events))
    × (total meter (history meter events stream) + length stream.discarded
        ≡ total meter stream + length (history meter events stream).discarded)
history-accounted_example =
    history-accounted meter events stream (record { counts = tt; quiet = refl })
