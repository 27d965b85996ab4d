-- ===== src/Grpc/Aio/Tests.antt =====
-- The asyncio connection at concrete inputs.
use skywalking_python.Prelude.{
  ◌+◌, ◌%◌, ◌≡◌, refl, true, false, none, some, [], ◌∷◌, if◌then◌else◌, ◌==◌,
}
use skywalking_python.Grpc.Connectivity.{idle, ready}
use skywalking_python.Grpc.Connection.{properties, ping, left_ready}
use skywalking_python.Grpc.Aio.{AioConnection, resting}
use skywalking_python.Grpc.Aio.Watching.{
  IsTruthful, changes, starts, ends, cancels, passes, history, answered, history-IsTruthful,
  heartbeat_completes,
}

abbrev connection : AioConnection
connection = record {
  properties_sent = false;
  state = some ready;
  sent_properties_counter = 29;
  log = record { last_auth_log_at = 0; last_connectivity_log_at = []; lines = [] };
  now = 60000;
  stage = resting;
  raised = 0;
  entries = [];
}

history-IsTruthful_example : IsTruthful (
    history 30
      (starts none ∷ changes idle ∷ ends none ∷ passes 5 ∷ cancels ∷ starts (some ready) ∷ [])
      connection)
history-IsTruthful_example =
    history-IsTruthful 30
      (starts none ∷ changes idle ∷ ends none ∷ passes 5 ∷ cancels ∷ starts (some ready) ∷ [])
      connection (λ e. cc e)

-- READY is lost while the registration waits for its answer, which sets the flag all the same.
late_answer :
    let c = history 30 (starts none ∷ changes idle ∷ changes ready ∷ ends none ∷ []) connection in
    (c.properties_sent ≡ true) × (c.entries ≡ properties true ∷ left_ready ∷ [])
unfolding history
late_answer = (refl, refl)

heartbeat_completes_example :
    let d = history 30 (starts none ∷ answered ∷ answered ∷ answered ∷ []) connection in
    (d.stage ≡ resting)
    × (d.properties_sent ≡ true)
    × (d.raised ≡ 0)
    × (let once = properties true ∷ [] in
        d.entries ≡ ping true ∷ (if (29 + 1) % 30 == 0 then properties true ∷ once else once))
heartbeat_completes_example = heartbeat_completes 29 none connection refl refl refl
