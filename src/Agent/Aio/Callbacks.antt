-- ===== src/Agent/Aio/Callbacks.antt =====
-- What becomes of the segments that are handed to the asyncio agent of skywalking/agent/__init__.py.
use skywalking_python.Prelude.{
  ℕ, ◌+◌, ◌≡◌, refl, Bool, true, false, Option, none, some, List, [], ◌∷◌, ◌++◌, arith,
  if◌then◌else◌, codes, length, ap, sym, ◌∙◌, map,
}
use skywalking_python.Prelude.Queue
use skywalking_python.Prelude.Weights.{Weight, one, weigh, weigh-append_one}
use skywalking_python.Prelude.Queue.{Queue}
use skywalking_python.Agent.DropLog.{
  DropLog, get_or_zero, drop_totals-log_dropped, drop_totals_other,
}
use skywalking_python.Agent.Shutdown.{abandon_sync_queue_lem}
use skywalking_python.Agent.Aio.{
  same_kind, Kind, segment, log, meter, snapshot, label, AioAgent, call_soon, put_or_drop,
  put_nowait, run_from, note_lost, shutdown_made,
}
use skywalking_python.Agent.Aio.Segments.{
  worth, weigh_segments, weigh_segments-append, weigh_segments-append_one, weigh_segments-map,
  weigh_others-map, length-weigh, standing, accounted, total, IsOpen, NoSegment, Adds,
}

pub call_soon-Adds :
    (k : Kind) (x : ℕ) (a : AioAgent) → IsOpen a → Adds ((k, x) ∷ []) a (call_soon k x a)
unfolding accounted total
call_soon-Adds k x a h = record {
  stays = record { made = h.made; running = h.running };
  moved = λ w. omega (arith, weigh_segments-append_one w a.scheduled k x);
  counted = refl;
}

weigh-put :
    (w : Weight) (x : ℕ) (q r : Queue ℕ)
    → Queue.put x q ≡ some r
    → weigh w r.items ≡ weigh w q.items + w x
weigh-put w x q r e = ap (weigh w) (put-items x q r e) ∙ weigh-append_one w q.items x
  where
    put-items : (x : ℕ) (q r : Queue ℕ) → Queue.put x q ≡ some r → r.items ≡ q.items ++ x ∷ []
    put-items x q r e = ground arith

put_segment-Adds :
    (now : ℕ) (r : Option (Queue ℕ)) (q : Queue ℕ) (x : ℕ) (a : AioAgent)
    → r ≡ Queue.put x q
    → a.queues segment ≡ some q
    → IsOpen a
    → Adds ((segment, x) ∷ []) a (put_or_drop segment x now r a)
unfolding accounted total put_or_drop
put_segment-Adds now none q x a e m h = record {
  stays = record { made = h.made; running = h.running };
  moved = λ w. omega (arith, weigh_segments-append_one w a.discarded segment x);
  counted = omega (
    arith,
    drop_totals-log_dropped (codes "segment") 1 false now a.drops,
    weigh_segments-append_one one a.discarded segment x,
  );
}
put_segment-Adds now (some s) q x a e m h = record {
  stays = record { made = refl; running = h.running };
  moved = λ w. omega (arith, ap (standing w) m, weigh-put w x q s (sym e));
  counted = refl;
}

-- Putting into another queue leaves the segments alone.
put_other-Adds :
    (k : Kind) (x now : ℕ) (r : Option (Queue ℕ)) (a : AioAgent)
    → same_kind k segment ≡ false
    → ((w : Weight) → worth w k x ≡ 0)
    → NoSegment k
    → IsOpen a
    → Adds [] a (put_or_drop k x now r a)
unfolding accounted total put_or_drop
put_other-Adds k x now none a s z o h = record {
  stays = record { made = h.made; running = h.running };
  moved = λ w. omega (arith, z w, weigh_segments-append_one w a.discarded k x);
  counted = omega (
    arith,
    z one,
    drop_totals_other (label k) (codes "segment") 1 false now a.drops o,
    weigh_segments-append_one one a.discarded k x,
  );
}
put_other-Adds k x now (some q) a s z o h = record {
  stays = record { made = rw s h.made; running = h.running };
  moved = λ w. rw s (omega arith);
  counted = refl;
}

raised-Adds : (a : AioAgent) → IsOpen a → Adds [] a (record a { raised = a.raised + 1 })
unfolding accounted total
raised-Adds a h = record {
  stays = record { made = h.made; running = h.running };
  moved = λ w. omega arith;
  counted = refl;
}

-- A payload that is no segment weighs nothing.
no_segment :
    (k : Kind) (x : ℕ) (a b : AioAgent)
    → ((w : Weight) → worth w k x ≡ 0)
    → Adds [] a b
    → Adds ((k, x) ∷ []) a b
no_segment k x a b z t = record {
  stays = t.stays;
  moved = λ w. omega (arith, t.moved w, z w);
  counted = t.counted;
}

put_nowait-Adds :
    (k : Kind) (x now : ℕ) (o : Option (Queue ℕ)) (a : AioAgent)
    → a.queues k ≡ o
    → IsOpen a
    → Adds ((k, x) ∷ []) a (put_nowait k x now o a)
unfolding put_nowait
put_nowait-Adds segment x now none a e h =
    let none_made : false ≡ true = rw e at h.made in cc none_made
put_nowait-Adds log x now none a e h = no_segment log x a _ (λ w. refl) (raised-Adds a h)
put_nowait-Adds meter x now none a e h = no_segment meter x a _ (λ w. refl) (raised-Adds a h)
put_nowait-Adds snapshot x now none a e h = no_segment snapshot x a _ (λ w. refl) (raised-Adds a h)
put_nowait-Adds segment x now (some q) a e h = put_segment-Adds now (Queue.put x q) q x a refl e h
put_nowait-Adds log x now (some q) a e h =
    no_segment log x a _ (λ w. refl)
      (put_other-Adds log x now (Queue.put x q) a refl (λ w. refl) refl h)
put_nowait-Adds meter x now (some q) a e h =
    no_segment meter x a _ (λ w. refl)
      (put_other-Adds meter x now (Queue.put x q) a refl (λ w. refl) refl h)
put_nowait-Adds snapshot x now (some q) a e h =
    no_segment snapshot x a _ (λ w. refl)
      (put_other-Adds snapshot x now (Queue.put x q) a refl (λ w. refl) refl h)

pub run_from-Adds :
    (l : List (Kind × ℕ)) (now : ℕ) (a : AioAgent)
    → a.scheduled ≡ l
    → IsOpen a
    → Adds [] a (run_from l now a)
unfolding accounted total run_from
run_from-Adds [] now a e h = record { stays = h; moved = λ w. omega arith; counted = refl }
run_from-Adds ((k, x) ∷ more) now a e h =
    let left : AioAgent = record a { scheduled = more } in
    let t =
      put_nowait-Adds k x now (a.queues k) left refl
        (record { made = h.made; running = h.running }) in
    record {
      stays = t.stays;
      moved = λ w. omega (arith, t.moved w, ap (weigh_segments w) e);
      counted = t.counted;
    }

note_lost-counts :
    (n now : ℕ) (s : DropLog)
    → get_or_zero (codes "segment") (note_lost segment n now s).drop_totals
      ≡ get_or_zero (codes "segment") s.drop_totals + n
unfolding note_lost
note_lost-counts n now s = ground (arith, drop_totals-log_dropped (codes "segment") n true now s)

note_lost_other :
    (k : Kind) (n now : ℕ) (s : DropLog)
    → NoSegment k
    → get_or_zero (codes "segment") (note_lost k n now s).drop_totals
      ≡ get_or_zero (codes "segment") s.drop_totals
unfolding note_lost
note_lost_other k n now s o =
    ground (arith, drop_totals_other (label k) (codes "segment") n true now s o)

pub shutdown_segments-Adds :
    (now : ℕ) (o : Option (Queue ℕ)) (a : AioAgent)
    → a.queues segment ≡ o
    → IsOpen a
    → Adds [] a (shutdown_made segment now o a)
unfolding accounted total shutdown_made
shutdown_segments-Adds now none a e h = record {
  stays = h;
  moved = λ w. omega arith;
  counted = refl;
}
shutdown_segments-Adds now (some q) a e h = rw (abandon_sync_queue_lem q) (record {
  stays = record { made = refl; running = h.running };
  moved = λ w. omega (
    arith,
    ap (standing w) e,
    weigh_segments-append w a.discarded (map (λ x. (segment, x)) q.items),
    weigh_segments-map w q.items,
  );
  counted = omega (
    arith,
    note_lost-counts (length q.items) now a.drops,
    length-weigh q.items,
    weigh_segments-append one a.discarded (map (λ x. (segment, x)) q.items),
    weigh_segments-map one q.items,
  );
})

pub shutdown_other-Adds :
    (k : Kind) (now : ℕ) (o : Option (Queue ℕ)) (a : AioAgent)
    → same_kind k segment ≡ false
    → NoSegment k
    → IsOpen a
    → Adds [] a (shutdown_made k now o a)
unfolding accounted total shutdown_made
shutdown_other-Adds k now none a s o h = record {
  stays = h;
  moved = λ w. omega arith;
  counted = refl;
}
shutdown_other-Adds k now (some q) a s o h = rw (abandon_sync_queue_lem q) (record {
  stays = record { made = rw s h.made; running = h.running };
  moved = λ w. rw s (
      omega (
        arith,
        weigh_segments-append w a.discarded (map (λ x. (k, x)) q.items),
        weigh_others-map w k q.items s,
      ));
  counted = omega (
    arith,
    note_lost_other k (length q.items) now a.drops o,
    weigh_segments-append one a.discarded (map (λ x. (k, x)) q.items),
    weigh_others-map one k q.items s,
  );
})

pub if-Adds : (c : Bool) (a b : AioAgent) → IsOpen a → Adds [] a b → Adds [] a (if c then b else a)
unfolding accounted
if-Adds true a b h k = k
if-Adds false a b h k = record { stays = h; moved = λ w. omega arith; counted = refl }
