-- ===== src/Agent/Aio/Segments.antt =====
-- The segments that the asyncio agent of skywalking/agent/__init__.py has dropped, queued or waiting.
use skywalking_python.Prelude.{
  ℕ, ◌+◌, ◌≡◌, refl, Bool, true, false, Option, none, some, List, [], ◌∷◌, ◌++◌, arith, codes,
  text_eq, length, map,
}
use skywalking_python.Prelude.Weights.{Weight, one, weigh}
use skywalking_python.Prelude.Queue.{Queue}
use skywalking_python.Agent.DropLog.{get_or_zero}
use skywalking_python.Agent.Aio.{same_kind, Kind, segment, log, meter, snapshot, label, AioAgent}

-- What a payload of a kind weighs, where only segments do.
abbrev pub worth : Weight → Kind → ℕ → ℕ
worth w segment x = w x
worth w _ x = 0

abbrev pub weigh_segments : Weight → List (Kind × ℕ) → ℕ
weigh_segments w [] = 0
weigh_segments w ((j, x) ∷ more) = worth w j x + weigh_segments w more

pub weigh_segments-append :
    (w : Weight) (l m : List (Kind × ℕ))
    → weigh_segments w (l ++ m) ≡ weigh_segments w l + weigh_segments w m
weigh_segments-append w [] m = omega arith
weigh_segments-append w ((i, y) ∷ l) m = omega (arith, weigh_segments-append w l m)

pub weigh_segments-append_one :
    (w : Weight) (l : List (Kind × ℕ)) (j : Kind) (x : ℕ)
    → weigh_segments w (l ++ (j, x) ∷ []) ≡ weigh_segments w l + worth w j x
weigh_segments-append_one w l j x = omega (arith, weigh_segments-append w l ((j, x) ∷ []))

pub weigh_segments-map :
    (w : Weight) (l : List ℕ) → weigh_segments w (map (λ x. (segment, x)) l) ≡ weigh w l
weigh_segments-map w [] = refl
weigh_segments-map w (x ∷ l) = omega (arith, weigh_segments-map w l)

pub weigh_others-map :
    (w : Weight) (k : Kind) (l : List ℕ)
    → same_kind k segment ≡ false
    → weigh_segments w (map (λ x. (k, x)) l) ≡ 0
weigh_others-map w k [] s = refl
weigh_others-map w segment (x ∷ l) s = cc s
weigh_others-map w log (x ∷ l) s = omega (arith, weigh_others-map w log l s)
weigh_others-map w meter (x ∷ l) s = omega (arith, weigh_others-map w meter l s)
weigh_others-map w snapshot (x ∷ l) s = omega (arith, weigh_others-map w snapshot l s)

pub length-weigh : (l : List ℕ) → length l ≡ weigh one l
length-weigh [] = refl
length-weigh (x ∷ l) = omega (arith, length-weigh l)

abbrev pub standing : Weight → Option (Queue ℕ) → ℕ
standing w none = 0
standing w (some q) = weigh w q.items

-- The segments that were dropped, are in the queue, or wait to be put there, weighed.
unfoldable pub accounted : Weight → AioAgent → ℕ
accounted w a =
    weigh_segments w a.discarded + (standing w (a.queues segment) + weigh_segments w a.scheduled)

-- How many segments the agent has counted as dropped.
unfoldable pub total : AioAgent → ℕ
total a = get_or_zero (codes "segment") a.drops.drop_totals

abbrev pub is_made : Option (Queue ℕ) → Bool
is_made none = false
is_made (some q) = true

-- The queue of segments was made, and the loop is open.
pub record IsOpen (a : AioAgent) : Type 0 where
  pub made : is_made (a.queues segment) ≡ true
  pub running : a.loop_closed ≡ false

-- Any other kind than segments.
abbrev pub NoSegment : Kind → Type 0
NoSegment k = text_eq (label k) (codes "segment") ≡ false

-- A step that hands over `l`, and counts the segments that it drops.
pub record Adds (l : List (Kind × ℕ)) (a b : AioAgent) : Type 0 where
  pub stays : IsOpen b
  pub moved : (w : Weight) → accounted w b ≡ accounted w a + weigh_segments w l
  pub counted : total b + weigh_segments one a.discarded ≡ total a + weigh_segments one b.discarded
