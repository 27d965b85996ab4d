-- ===== src/Grpc/Streams/Accounting.antt =====
-- Where each payload is that was handed to a report of skywalking/agent/protocol/grpc.py or
-- grpc_aio.py.
use skywalking_python.Prelude.{ℕ, ◌+◌, ◌≡◌, refl, Bool, List, [], ◌∷◌, ◌++◌, arith, length}
use skywalking_python.Prelude.Queue
use skywalking_python.Prelude.Weights.{Weight, weigh, weigh-append}
use skywalking_python.Prelude.Queue.{Queue}
use skywalking_python.Agent.Aio.{Kind}
use skywalking_python.Grpc.Streams.{
  Stream, next, awaited, yield_hand, running, straying, release, stray_yields, offer, begin,
  completed, rpc_failed, cancelled,
}
use skywalking_python.Grpc.Streams.Generators.{next-Passes, awaited-Passes, release-hands}
use skywalking_python.Grpc.Streams.Balance.{
  IsSound, accounted, total, Adds, offered-Adds, begin-Adds, running-Adds, yields-Adds,
  completed-Adds, rpc_failed-Adds, cancelled-Adds, straying-Adds, lose-Adds,
}

pub data Event : Type 0 where
  offers : ℕ → ℕ → Event
  begins : Bool → Event
  gets : (timeout now : ℕ) → Event
  awaits yields returns cancels : Event
  fails : ℕ → Event
  stray_gets : (n timeout now : ℕ) → Event
  stray_awaits hands_over : ℕ → Event

module _ (k : Kind) where
  unfoldable pub apply : Event → Stream → Stream
  unfolding offer begin running next awaited yield_hand completed rpc_failed cancelled straying
      stray_yields
  apply (offers x now) s = offer k x now s
  apply (begins ready) s = begin k ready s
  apply (gets timeout now) s = running (next timeout now) s
  apply awaits s = running awaited s
  apply yields s = running (λ b q. yield_hand b.hand b q) s
  apply returns s = completed k s
  apply (fails now) s = rpc_failed k now s
  apply cancels s = cancelled k s
  apply (stray_gets n timeout now) s = straying (next timeout now) n s
  apply (stray_awaits n) s = straying awaited n s
  apply (hands_over n) s = stray_yields n s

  unfoldable pub history : List Event → Stream → Stream
  unfolding apply
  history [] s = s
  history (e ∷ es) s = history es (apply e s)

  -- The payloads that an event offers
  abbrev adds : Event → List ℕ
  adds (offers x now) = x ∷ []
  adds _ = []

  pub offered_in : List Event → List ℕ
  offered_in [] = []
  offered_in (e ∷ es) = adds e ++ offered_in es

  apply-Adds : (e : Event) (s : Stream) → IsSound s → Adds k (adds e) s (apply e s)
  unfolding apply offer stray_yields
  apply-Adds (offers x now) s h = offered-Adds k (Queue.put x s.queue) x now s refl h
  apply-Adds (begins ready) s h =
      begin-Adds k ready s.batch s.queue s.drops s.strays s.delivered s.discarded s.lost h
  apply-Adds (gets timeout now) s h =
      running-Adds k (next timeout now) s.batch s.queue s.drops s.strays s.delivered s.discarded
        s.lost (next-Passes timeout now) h
  apply-Adds awaits s h =
      running-Adds k awaited s.batch s.queue s.drops s.strays s.delivered s.discarded s.lost
        awaited-Passes h
  apply-Adds yields s h =
      yields-Adds k s.batch s.queue s.drops s.strays s.delivered s.discarded s.lost h
  apply-Adds returns s h =
      completed-Adds k s.batch s.queue s.drops s.strays s.delivered s.discarded s.lost h
  apply-Adds (fails now) s h =
      rpc_failed-Adds k now s.batch s.queue s.drops s.strays s.delivered s.discarded s.lost h
  apply-Adds cancels s h =
      cancelled-Adds k s.batch s.queue s.drops s.strays s.delivered s.discarded s.lost h
  apply-Adds (stray_gets n timeout now) s h =
      straying-Adds k (next timeout now) n s (next-Passes timeout now) h
  apply-Adds (stray_awaits n) s h = straying-Adds k awaited n s awaited-Passes h
  apply-Adds (hands_over n) s h =
      lose-Adds k (release n s.strays).0 (release n s.strays).1 s (λ w. release-hands w n s.strays)
        h

  -- From a sound state, for each kind of payload and both clients: after payloads offered, reports
  -- begun, steps of their generators, and calls that return, fail or are cancelled, where a generator
  -- may go on when its call is over, in any order, the state is sound; by any weight of payloads, what
  -- the stream had and what was offered weighs as much as what is with the collector, was counted as
  -- dropped, is in the queue, is yielded to the call under way, is in the hand of a generator, or is
  -- lost, having been yielded to a call that was over or was cancelled; and the drop count has grown
  -- by the number of payloads counted as dropped since.
  pub history-accounted :
      (es : List Event) (s : Stream)
      → IsSound s
      → IsSound (history es s)
        × ((w : Weight) → accounted w (history es s) ≡ accounted w s + weigh w (offered_in es))
        × (total k (history es s) + length s.discarded
            ≡ total k s + length (history es s).discarded)
  unfolding history offered_in
  history-accounted [] s h = (h, λ w. omega arith, refl)
  history-accounted (e ∷ es) s h =
      let t = apply-Adds e s h in
      let (u, v, c) = history-accounted es (apply e s) t.sound in
      (
        u,
        λ w. omega (arith, t.moved w, v w, weigh-append w (adds e) (offered_in es)),
        omega (arith, t.counted, c),
      )
