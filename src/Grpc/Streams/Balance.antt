-- ===== src/Grpc/Streams/Balance.antt =====
-- What a step of a stream of skywalking/agent/protocol/grpc.py or grpc_aio.py does to the payloads.
use skywalking_python.Prelude.{
  ℕ, zero, suc, ◌+◌, ◌≡◌, refl, Bool, true, false, Option, none, some, List, [], ◌∷◌, ◌++◌, arith,
  length, length-append, ap, ◌∙◌, sym,
}
use skywalking_python.Prelude.Queue
use skywalking_python.Prelude.Weights.{Weight, one, weigh, weigh-append, weigh-append_one}
use skywalking_python.Prelude.Queue.{Queue}
use skywalking_python.Agent.Aio.{Kind, label}
use skywalking_python.Agent.DropLog.{DropLog, get_or_zero, drop_totals-log_dropped}
use skywalking_python.Grpc.Streams.{
  Batch, Stream, begin_if, yield_hand, Step, running_of, running, straying, lose, note_drop,
  offered, begin, completed_of, completed, rpc_failed_of, rpc_failed, cancelled_of, cancelled,
}
use skywalking_python.Grpc.Streams.Generators.{
  hold, hands, IsMove, step_at-hands, step_at-unfinished,
}

-- What was yielded to the call under way, and what its generator has in its hand.
unfoldable pub under_way : Weight → Option Batch → ℕ
under_way w none = 0
under_way w (some b) = weigh w b.yielded + hold w b.hand

abbrev in_hand : Option Batch → ℕ
in_hand none = 0
in_hand (some b) = hold one b.hand

abbrev CountsBatch : Option Batch → Type 0
CountsBatch none = Unit
CountsBatch (some b) = b.sent ≡ length b.yielded

-- The report counts what it yields, and the queue counts as unfinished what it holds and what the
-- generators have in their hands.
pub record IsSound (s : Stream) : Type 0 where
  pub counts : CountsBatch s.batch
  pub quiet : s.queue.unfinished ≡ weigh one s.queue.items + (in_hand s.batch + hands one s.strays)

-- The payloads of the stream, weighed.
unfoldable pub accounted : Weight → Stream → ℕ
accounted w s =
    weigh w s.delivered
    + (weigh w s.discarded
        + (weigh w s.lost + (weigh w s.queue.items + (under_way w s.batch + hands w s.strays))))

module _ (k : Kind) where
  -- How many payloads of this kind the agent has counted as dropped.
  unfoldable pub total : Stream → ℕ
  total s = get_or_zero (label k) s.drops.drop_totals

  -- One step: it adds the payloads `l`, and counts as dropped what it discards.
  pub record Adds (l : List ℕ) (s t : Stream) : Type 0 where
    pub sound : IsSound t
    pub moved : (w : Weight) → accounted w t ≡ accounted w s + weigh w l
    pub counted : total t + length s.discarded ≡ total s + length t.discarded

  abbrev stream : Queue ℕ → DropLog → Option Batch → List Batch → List ℕ → List ℕ → List ℕ → Stream
  stream q d b bs l c m = record {
    queue = q;
    drops = d;
    batch = b;
    strays = bs;
    delivered = l;
    discarded = c;
    lost = m;
  }

  note_drop_lem :
      (n now : ℕ) (d : DropLog)
      → get_or_zero (label k) (note_drop k n now d).drop_totals
        ≡ get_or_zero (label k) d.drop_totals + n
  unfolding note_drop
  note_drop_lem zero now d = omega arith
  note_drop_lem (suc n) now d = drop_totals-log_dropped (label k) (suc n) false now d

  put-items : (x : ℕ) (q r : Queue ℕ) → Queue.put x q ≡ some r → r.items ≡ q.items ++ x ∷ []
  put-items x q r e = ground arith

  put-unfinished :
      (x : ℕ) (q r : Queue ℕ) → Queue.put x q ≡ some r → r.unfinished ≡ q.unfinished + 1
  put-unfinished x q r e = ground arith

  weigh-put :
      (w : Weight) (x : ℕ) (q r : Queue ℕ)
      → Queue.put x q ≡ some r
      → weigh w r.items ≡ weigh w q.items + w x
  weigh-put w x q r e = ap (weigh w) (put-items x q r e) ∙ weigh-append_one w q.items x

  pub offered-Adds :
      (o : Option (Queue ℕ)) (x now : ℕ) (s : Stream)
      → Queue.put x s.queue ≡ o
      → IsSound s
      → Adds (x ∷ []) s (offered k o x now s)
  unfolding offered accounted total
  offered-Adds none x now s e h = record {
    sound = record { counts = h.counts; quiet = h.quiet };
    moved = λ w. omega (arith, weigh-append_one w s.discarded x);
    counted = omega (arith, note_drop_lem 1 now s.drops, length-append s.discarded (x ∷ []));
  }
  offered-Adds (some q) x now s e h = record {
    sound = record {
      counts = h.counts;
      quiet = omega (arith, h.quiet, weigh-put one x s.queue q e, put-unfinished x s.queue q e);
    };
    moved = λ w. omega (arith, weigh-put w x s.queue q e);
    counted = refl;
  }

  pub begin-Adds :
      (ready : Bool) (b : Option Batch) (q : Queue ℕ) (d : DropLog) (bs : List Batch)
      (l c m : List ℕ)
      → IsSound (stream q d b bs l c m)
      → Adds [] (stream q d b bs l c m) (begin k ready (stream q d b bs l c m))
  unfolding begin begin_if accounted total under_way
  begin-Adds ready (some b) q d bs l c m h = record {
    sound = h;
    moved = λ w. omega arith;
    counted = refl;
  }
  begin-Adds false none q d bs l c m h = record {
    sound = h;
    moved = λ w. omega arith;
    counted = refl;
  }
  begin-Adds true none q d bs l c m h = record {
    sound = record { counts = refl; quiet = h.quiet };
    moved = λ w. omega arith;
    counted = refl;
  }

  pub running-Adds :
      (f : Step) (b : Option Batch) (q : Queue ℕ) (d : DropLog) (bs : List Batch) (l c m : List ℕ)
      → IsMove f
      → IsSound (stream q d b bs l c m)
      → Adds [] (stream q d b bs l c m) (running f (stream q d b bs l c m))
  unfolding running running_of accounted total under_way
  running-Adds f none q d bs l c m p h = record {
    sound = h;
    moved = λ w. omega arith;
    counted = refl;
  }
  running-Adds f (some b) q d bs l c m p h =
      let t = p b q in
      record {
        sound = record {
          counts = t.same_sent ∙ h.counts ∙ ap length (sym t.same_yielded);
          quiet = omega (arith, h.quiet, t.moved one, t.same_unfinished);
        };
        moved = λ w. omega (arith, t.moved w, ap (weigh w) t.same_yielded);
        counted = refl;
      }

  pub yields-Adds :
      (b : Option Batch) (q : Queue ℕ) (d : DropLog) (bs : List Batch) (l c m : List ℕ)
      → IsSound (stream q d b bs l c m)
      → Adds []
          (stream q d b bs l c m)
          (running (λ b q. yield_hand b.hand b q) (stream q d b bs l c m))
  unfolding running running_of yield_hand accounted total under_way
  yields-Adds none q d bs l c m h = record { sound = h; moved = λ w. omega arith; counted = refl }
  yields-Adds (some b) q d bs l c m h = go b.hand refl
    where
      go :
          (o : Option ℕ)
          → b.hand ≡ o
          → Adds []
              (stream q d (some b) bs l c m)
              (stream (yield_hand o b q).1 d (some (yield_hand o b q).0) bs l c m)
      go none e = record { sound = h; moved = λ w. omega arith; counted = refl }
      go (some x) e = record {
        sound = record {
          counts = omega (arith, h.counts, length-append b.yielded (x ∷ []));
          quiet = omega (arith, h.quiet, ap (hold one) e);
        };
        moved = λ w. omega (arith, weigh-append_one w b.yielded x, ap (hold w) e);
        counted = refl;
      }

  pub completed-Adds :
      (b : Option Batch) (q : Queue ℕ) (d : DropLog) (bs : List Batch) (l c m : List ℕ)
      → IsSound (stream q d b bs l c m)
      → Adds [] (stream q d b bs l c m) (completed k (stream q d b bs l c m))
  unfolding completed completed_of accounted total under_way
  completed-Adds none q d bs l c m h = record {
    sound = h;
    moved = λ w. omega arith;
    counted = refl;
  }
  completed-Adds (some b) q d bs l c m h = record {
    sound = record { counts = tt; quiet = omega (arith, h.quiet) };
    moved = λ w. omega (arith, weigh-append w l b.yielded);
    counted = refl;
  }

  pub rpc_failed-Adds :
      (now : ℕ) (b : Option Batch) (q : Queue ℕ) (d : DropLog) (bs : List Batch) (l c m : List ℕ)
      → IsSound (stream q d b bs l c m)
      → Adds [] (stream q d b bs l c m) (rpc_failed k now (stream q d b bs l c m))
  unfolding rpc_failed rpc_failed_of accounted total under_way
  rpc_failed-Adds now none q d bs l c m h = record {
    sound = h;
    moved = λ w. omega arith;
    counted = refl;
  }
  rpc_failed-Adds now (some b) q d bs l c m h = record {
    sound = record { counts = tt; quiet = omega (arith, h.quiet) };
    moved = λ w. omega (arith, weigh-append w c b.yielded);
    counted = omega (arith, note_drop_lem b.sent now d, h.counts, length-append c b.yielded);
  }

  pub cancelled-Adds :
      (b : Option Batch) (q : Queue ℕ) (d : DropLog) (bs : List Batch) (l c m : List ℕ)
      → IsSound (stream q d b bs l c m)
      → Adds [] (stream q d b bs l c m) (cancelled k (stream q d b bs l c m))
  unfolding cancelled cancelled_of accounted total under_way
  cancelled-Adds none q d bs l c m h = record {
    sound = h;
    moved = λ w. omega arith;
    counted = refl;
  }
  cancelled-Adds (some b) q d bs l c m h = record {
    sound = record { counts = tt; quiet = omega (arith, h.quiet) };
    moved = λ w. omega (arith, weigh-append w m b.yielded);
    counted = refl;
  }

  pub straying-Adds :
      (f : Step) (n : ℕ) (s : Stream) → IsMove f → IsSound s → Adds [] s (straying f n s)
  unfolding straying accounted total
  straying-Adds f n s p h = record {
    sound = record {
      counts = h.counts;
      quiet = omega (
        arith,
        h.quiet,
        step_at-hands f one n s.strays s.queue p,
        step_at-unfinished f n s.strays s.queue p,
      );
    };
    moved = λ w. omega (arith, step_at-hands f w n s.strays s.queue p);
    counted = refl;
  }

  pub lose-Adds :
      (o : Option ℕ) (bs : List Batch) (s : Stream)
      → ((w : Weight) → hold w o + hands w bs ≡ hands w s.strays)
      → IsSound s
      → Adds [] s (lose (o, bs) s)
  unfolding lose accounted total
  lose-Adds none bs s e h = record {
    sound = record { counts = h.counts; quiet = omega (arith, h.quiet, e one) };
    moved = λ w. omega (arith, e w);
    counted = refl;
  }
  lose-Adds (some x) bs s e h = record {
    sound = record { counts = h.counts; quiet = omega (arith, h.quiet, e one) };
    moved = λ w. omega (arith, e w, weigh-append_one w s.lost x);
    counted = refl;
  }
