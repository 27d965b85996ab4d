-- ===== src/Grpc/Connection/Registration.antt =====
-- Whether the collector knows the instance: skywalking/agent/protocol/grpc.py, over callbacks of grpc's
-- thread between the steps of heartbeats.
use skywalking_python.Prelude.{
  ℕ, zero, suc, ◌+◌, ◌≡◌, refl, Bool, true, false, ◌||◌, not, Option, none, some, List, [], ◌∷◌,
  arith, if◌then◌else◌, is_some, ap, sym, ◌∙◌, ◌%◌, ◌==◌,
}
use skywalking_python.Grpc.Connectivity.{Connectivity, StatusCode}
use skywalking_python.Grpc.Connection.{
  Entry, properties, ping, left_ready, marked, Stage, resting, gated, registering, answered,
  beating, refreshing, pinging, Connection, cb, cb_state_of, cb_state, on_error, handle_rpc_error,
  is_ready, is_ready_option, refresh_instance_props, heartbeat_at, heartbeat, noted, registered_by,
  pinged_by, call_ends_at, call_ends,
}

-- The properties were answered since READY was last lost.
unfoldable pub registered : List Entry → Bool
registered [] = false
registered (properties true ∷ es) = true
registered (left_ready ∷ es) = false
registered (properties false ∷ es) = registered es
registered (ping _ ∷ es) = registered es
registered (marked ∷ es) = registered es

-- READY was lost since the properties were last answered.
unfoldable pub lost_since : List Entry → Bool
lost_since [] = false
lost_since (left_ready ∷ es) = true
lost_since (properties true ∷ es) = false
lost_since (properties false ∷ es) = lost_since es
lost_since (ping _ ∷ es) = lost_since es
lost_since (marked ∷ es) = lost_since es

-- READY was not lost since the flag was last set, but it was lost between the answer and that.
unfoldable pub overtaken : List Entry → Bool
unfolding lost_since
overtaken [] = false
overtaken (marked ∷ es) = lost_since es
overtaken (left_ready ∷ es) = false
overtaken (properties _ ∷ es) = overtaken es
overtaken (ping _ ∷ es) = overtaken es

abbrev has_answer : List Entry → Bool
has_answer [] = false
has_answer (properties true ∷ es) = true
has_answer (_ ∷ es) = has_answer es

-- The flag tells no lie, but for what overtakes it; and a heartbeat that is behind the answer had it.
pub record IsSound (c : Connection) : Type 0 where
  pub truthful : c.properties_sent ≡ true → registered c.entries || overtaken c.entries ≡ true
  pub had : c.stage ≡ answered → has_answer c.entries ≡ true

pub data Event : Type 0 where
  changes : Connectivity → Event
  stores beats : Event
  ends : Option (Option StatusCode) → Event
  passes : ℕ → Event

module _ (factor : ℕ) where
  unfoldable pub apply : Event → Connection → Connection
  unfolding cb cb_state heartbeat call_ends
  apply (changes s) c = cb s c
  apply stores c = cb_state c
  apply beats c = heartbeat factor c
  apply (ends r) c = call_ends r c
  apply (passes t) c = record c { now = c.now + t }

  unfoldable pub history : List Event → Connection → Connection
  unfolding apply
  history [] c = c
  history (e ∷ es) c = history es (apply e c)

-- Where there was an answer, either it or a loss is the later.
answer_or_loss : (es : List Entry) → has_answer es ≡ true → registered es || lost_since es ≡ true
unfolding registered lost_since
answer_or_loss [] h = cc h
answer_or_loss (properties true ∷ es) h = refl
answer_or_loss (properties false ∷ es) h = answer_or_loss es h
answer_or_loss (ping b ∷ es) h = answer_or_loss es h
answer_or_loss (left_ready ∷ es) h = refl
answer_or_loss (marked ∷ es) h = answer_or_loss es h

cb-IsSound : (s : Connectivity) (c : Connection) → IsSound c → IsSound (cb s c)
unfolding cb registered overtaken
cb-IsSound s c h = record {
  truthful = λ e. ground (arith, h.truthful);
  had = λ e. ground (arith, h.had);
}

cb_state-IsSound :
    (o : Option Connectivity) (c : Connection) → IsSound c → IsSound (cb_state_of o c)
unfolding cb_state_of
cb_state-IsSound none c h = h
cb_state-IsSound (some s) c h = record { truthful = h.truthful; had = h.had }

abbrev is_answered : Stage → Bool
is_answered answered = true
is_answered _ = false

-- A stage that is not behind an answer
abbrev IsOther : Stage → Type 0
IsOther s = is_answered s ≡ false

if-IsOther : (b : Bool) (s t : Stage) → IsOther s → IsOther t → IsOther (if b then s else t)
if-IsOther true s t h j = h
if-IsOther false s t h j = j

-- What is not said of the stage or of the flag and the entries does not matter.
abbrev Tells : Bool → List Entry → Type 0
Tells sent es = sent ≡ true → registered es || overtaken es ≡ true

sound : (c : Connection) → Tells c.properties_sent c.entries → IsOther c.stage → IsSound c
sound c h o = record {
  truthful = h;
  had = λ e. let clash : false ≡ true = sym o ∙ ap is_answered e in cc clash;
}

handled-Tells :
    (e : Option StatusCode) (c : Connection)
    → Tells c.properties_sent c.entries
    → Tells (handle_rpc_error e c).properties_sent (handle_rpc_error e c).entries
unfolding handle_rpc_error on_error
handled-Tells e c h = λ k. ground (arith, h)

properties-Tells :
    (b sent : Bool) (es : List Entry) → Tells sent es → Tells sent (properties b ∷ es)
unfolding registered overtaken
properties-Tells true sent es h = λ k. refl
properties-Tells false sent es h = h

ping-Tells : (b sent : Bool) (es : List Entry) → Tells sent es → Tells sent (ping b ∷ es)
unfolding registered overtaken
ping-Tells b sent es h = h

refresh-IsSound :
    (factor : ℕ) (c : Connection)
    → Tells c.properties_sent c.entries
    → IsSound (refresh_instance_props factor c)
unfolding refresh_instance_props
refresh-IsSound zero c h = sound _ h refl
refresh-IsSound (suc m) c h =
    sound _ h
      (if-IsOther ((c.sent_properties_counter + 1) % suc m == 0) refreshing pinging refl refl)

heartbeat_at-IsSound :
    (s : Stage) (factor : ℕ) (c : Connection)
    → c.stage ≡ s
    → IsSound c
    → IsSound (heartbeat_at s factor c)
unfolding heartbeat_at is_ready registered overtaken
heartbeat_at-IsSound resting factor c e h =
    sound _ h.truthful (if-IsOther (is_ready_option c.state) gated resting refl refl)
heartbeat_at-IsSound gated factor c e h =
    sound _ h.truthful (if-IsOther c.properties_sent beating registering refl refl)
heartbeat_at-IsSound registering factor c e h = h
heartbeat_at-IsSound answered factor c e h = sound _ (λ k. answer_or_loss c.entries (h.had e)) refl
heartbeat_at-IsSound beating factor c e h = refresh-IsSound factor c h.truthful
heartbeat_at-IsSound refreshing factor c e h = h
heartbeat_at-IsSound pinging factor c e h = h

call_ends_at-IsSound :
    (s : Stage) (r : Option (Option StatusCode)) (c : Connection)
    → IsSound c
    → IsSound (call_ends_at s r c)
unfolding call_ends_at registered_by pinged_by noted
call_ends_at-IsSound resting r c h = h
call_ends_at-IsSound gated r c h = h
call_ends_at-IsSound answered r c h = h
call_ends_at-IsSound beating r c h = h
call_ends_at-IsSound registering none c h = record {
  truthful = properties-Tells true c.properties_sent c.entries h.truthful;
  had = λ e. refl;
}
call_ends_at-IsSound registering (some e) c h =
    let t = properties-Tells false c.properties_sent c.entries h.truthful in
    sound _ (handled-Tells e (noted (properties false) c) t) refl
call_ends_at-IsSound refreshing r c h =
    sound _ (properties-Tells (not (is_some r)) c.properties_sent c.entries h.truthful) refl
call_ends_at-IsSound pinging none c h =
    sound _ (ping-Tells true c.properties_sent c.entries h.truthful) refl
call_ends_at-IsSound pinging (some e) c h =
    let t = ping-Tells false c.properties_sent c.entries h.truthful in
    sound _ (handled-Tells e (noted (ping false) c) t) refl

apply-IsSound : (factor : ℕ) (e : Event) (c : Connection) → IsSound c → IsSound (apply factor e c)
unfolding apply cb_state heartbeat call_ends
apply-IsSound factor (changes s) c h = cb-IsSound s c h
apply-IsSound factor stores c h = cb_state-IsSound c.noticing c h
apply-IsSound factor beats c h = heartbeat_at-IsSound c.stage factor c refl h
apply-IsSound factor (ends r) c h = call_ends_at-IsSound c.stage r c h
apply-IsSound factor (passes t) c h = record { truthful = h.truthful; had = h.had }

-- From a sound state, after callbacks of the channel, each in its two steps, steps of heartbeats, calls
-- of theirs that are answered or fail, and time that passes, in any order, the state is sound: if
-- `properties_sent` is set, the collector has answered the properties since the channel last left READY,
-- or else the channel left READY between the last answer and the setting of the flag, and not since; and
-- a heartbeat that is about to set the flag had an answer.
pub history-truthful :
    (factor : ℕ) (es : List Event) (c : Connection) → IsSound c → IsSound (history factor es c)
unfolding history
history-truthful factor [] c h = h
history-truthful factor (e ∷ es) c h =
    history-truthful factor es (apply factor e c) (apply-IsSound factor e c h)
