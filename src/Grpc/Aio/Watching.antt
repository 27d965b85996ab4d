-- ===== src/Grpc/Aio/Watching.antt =====
-- The flag of the asyncio connection, skywalking/agent/protocol/grpc_aio.py, while the channel changes
-- between the calls of a heartbeat.
use skywalking_python.Prelude.{
  ℕ, zero, suc, ◌+◌, ◌%◌, ◌≡◌, refl, Bool, true, false, not, Option, none, some, List, [], ◌∷◌,
  arith, if◌then◌else◌, ◌==◌, is_some,
}
use skywalking_python.Grpc.Connectivity.{Connectivity, ready, StatusCode}
use skywalking_python.Grpc.Connection.{properties, ping, is_ready_option}
use skywalking_python.Grpc.Connection.Registration.{registered}
use skywalking_python.Grpc.Aio.{
  Stage, resting, registering, refreshing, pinging, AioConnection, on_connectivity, wants_peek,
  peek_from, peeked, beat, register_or_beat, start_at, start, handle_rpc_error, noted,
  registered_by, pinged_by, ended_at, call_ends, cancel,
}

-- If the flag is set, the properties were answered since READY was last lost.
abbrev pub IsTruthful : AioConnection → Type 0
IsTruthful c = c.properties_sent ≡ true → registered c.entries ≡ true

pub data Event : Type 0 where
  changes : Connectivity → Event
  starts : (peek : Option Connectivity) → Event
  ends : (answer : Option (Option StatusCode)) → Event
  cancels : Event
  passes : ℕ → Event

module _ (factor : ℕ) where
  unfoldable pub apply : Event → AioConnection → AioConnection
  unfolding on_connectivity start call_ends cancel
  apply (changes s) c = on_connectivity s c
  apply (starts peek) c = start factor peek c
  apply (ends answer) c = call_ends factor answer c
  apply cancels c = cancel c
  apply (passes t) c = record c { now = c.now + t }

  unfoldable pub history : List Event → AioConnection → AioConnection
  unfolding apply
  history [] c = c
  history (e ∷ es) c = history es (apply e c)

on_connectivity-IsTruthful :
    (s : Connectivity) (c : AioConnection) → IsTruthful c → IsTruthful (on_connectivity s c)
unfolding on_connectivity registered
on_connectivity-IsTruthful s c h = λ e. ground (arith, h)

beat-IsTruthful : (factor : ℕ) (c : AioConnection) → IsTruthful c → IsTruthful (beat factor c)
unfolding beat
beat-IsTruthful zero c h = h
beat-IsTruthful (suc m) c h = h

handle-IsTruthful :
    (e : Option StatusCode) (c : AioConnection) → IsTruthful c → IsTruthful (handle_rpc_error e c)
unfolding handle_rpc_error
handle-IsTruthful e c h = λ k. ground (arith, h)

if-IsTruthful :
    (b : Bool) (c d : AioConnection) → IsTruthful c → IsTruthful d → IsTruthful (if b then c else d)
if-IsTruthful true c d h k = h
if-IsTruthful false c d h k = k

peek_from-IsTruthful :
    (o : Option Connectivity) (c : AioConnection) → IsTruthful c → IsTruthful (peek_from o c)
peek_from-IsTruthful none c h = h
peek_from-IsTruthful (some s) c h = on_connectivity-IsTruthful s c h

peeked-IsTruthful :
    (o : Option Connectivity) (c : AioConnection) → IsTruthful c → IsTruthful (peeked o c)
unfolding peeked
peeked-IsTruthful o c h =
    if-IsTruthful (wants_peek c.state) (peek_from o c) c (peek_from-IsTruthful o c h) h

start_at-IsTruthful :
    (stage : Stage) (factor : ℕ) (o : Option Connectivity) (c : AioConnection)
    → IsTruthful c
    → IsTruthful (start_at stage factor o c)
unfolding start_at register_or_beat
start_at-IsTruthful resting factor o c h =
    let d : AioConnection = peeked o c in
    let k : IsTruthful d = peeked-IsTruthful o c h in
    if-IsTruthful (is_ready_option d.state) (register_or_beat factor d) d
      (if-IsTruthful d.properties_sent (beat factor d) (record d { stage = registering })
        (beat-IsTruthful factor d k) k)
      k
start_at-IsTruthful registering factor o c h = h
start_at-IsTruthful refreshing factor o c h = h
start_at-IsTruthful pinging factor o c h = h

noted-IsTruthful :
    (b : Bool) (c : AioConnection) → IsTruthful c → IsTruthful (noted (properties b) c)
unfolding noted registered
noted-IsTruthful true c h = λ e. refl
noted-IsTruthful false c h = h

ended_at-IsTruthful :
    (stage : Stage) (factor : ℕ) (r : Option (Option StatusCode)) (c : AioConnection)
    → IsTruthful c
    → IsTruthful (ended_at stage factor r c)
unfolding ended_at registered_by pinged_by registered noted
ended_at-IsTruthful resting factor r c h = h
ended_at-IsTruthful registering factor none c h = beat-IsTruthful factor _ (λ e. refl)
ended_at-IsTruthful registering factor (some e) c h =
    beat-IsTruthful factor _ (handle-IsTruthful e _ h)
ended_at-IsTruthful refreshing factor r c h = noted-IsTruthful (not (is_some r)) c h
ended_at-IsTruthful pinging factor none c h = h
ended_at-IsTruthful pinging factor (some e) c h = handle-IsTruthful e _ h

apply-IsTruthful :
    (factor : ℕ) (e : Event) (c : AioConnection) → IsTruthful c → IsTruthful (apply factor e c)
unfolding apply start call_ends cancel
apply-IsTruthful factor (changes s) c h = on_connectivity-IsTruthful s c h
apply-IsTruthful factor (starts o) c h = start_at-IsTruthful c.stage factor o c h
apply-IsTruthful factor (ends r) c h = ended_at-IsTruthful c.stage factor r c h
apply-IsTruthful factor cancels c h = h
apply-IsTruthful factor (passes t) c h = h

-- From a state where it is so: after any sequence of changes of the channel, heartbeats that start,
-- calls that are answered or fail, cancellations and time that passes, where the channel may change
-- while a heartbeat waits: if the flag is set, the properties were answered since READY was last lost.
pub history-IsTruthful :
    (factor : ℕ) (es : List Event) (c : AioConnection)
    → IsTruthful c
    → IsTruthful (history factor es c)
unfolding history
history-IsTruthful factor [] c h = h
history-IsTruthful factor (e ∷ es) c h =
    history-IsTruthful factor es (apply factor e c) (apply-IsTruthful factor e c h)

abbrev pub answered : Event
answered = ends none

-- A channel that is READY, whose properties are not sent, and no heartbeat under way: the heartbeat
-- that starts now, if its calls are answered and the channel stays, registers the instance, refreshes
-- the properties where they are due, pings, and ends without raising; the next call that ends is none
-- of its own.
pub heartbeat_completes :
    (m : ℕ) (peek : Option Connectivity) (c : AioConnection)
    → c.state ≡ some ready
    → c.stage ≡ resting
    → c.properties_sent ≡ false
    → let d = history (suc m) (starts peek ∷ answered ∷ answered ∷ answered ∷ []) c in
      (d.stage ≡ resting)
      × (d.properties_sent ≡ true)
      × (d.raised ≡ c.raised)
      × (let once = properties true ∷ c.entries in
          d.entries
          ≡ ping true
            ∷ (if (c.sent_properties_counter + 1) % suc m == 0
                then properties true ∷ once
                else once))
unfolding history apply start start_at peeked register_or_beat beat call_ends ended_at registered_by
    pinged_by noted
heartbeat_completes m peek c state rest unsent = rw state (rw rest (rw unsent (ground arith)))
