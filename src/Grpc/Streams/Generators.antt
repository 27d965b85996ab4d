-- ===== src/Grpc/Streams/Generators.antt =====
-- What a step of a generator of skywalking/agent/protocol/grpc.py or grpc_aio.py moves.
use skywalking_python.Prelude.{
  ℕ, zero, suc, ◌+◌, ◌≡◌, refl, Bool, true, false, ◌&&◌, not, Option, none, some, List, [], ◌∷◌,
  arith, if◌then◌else◌, leb, ap,
}
use skywalking_python.Prelude.Queue
use skywalking_python.Prelude.Weights.{Weight, weigh}
use skywalking_python.Prelude.Queue.{Queue}
use skywalking_python.Grpc.Streams.{
  Batch, queue_get_within_batch, until, free, took, next, awaited, Step, step_at, release_hand,
  release,
}

abbrev pub hold : Weight → Option ℕ → ℕ
hold w none = 0
hold w (some x) = w x

-- What generators have in their hands.
abbrev pub hands : Weight → List Batch → ℕ
hands w [] = 0
hands w (b ∷ bs) = hold w b.hand + hands w bs

-- A step that only moves payloads from the queue into a hand.
pub record Passes (b : Batch) (q : Queue ℕ) (o : Batch × Queue ℕ) : Type 0 where
  pub moved : (w : Weight) → hold w o.0.hand + weigh w o.1.items ≡ hold w b.hand + weigh w q.items
  pub same_unfinished : o.1.unfinished ≡ q.unfinished
  pub same_sent : o.0.sent ≡ b.sent
  pub same_yielded : o.0.yielded ≡ b.yielded

stay-Passes : (b : Batch) (q : Queue ℕ) → Passes b q (b, q)
stay-Passes b q = record {
  moved = λ w. refl;
  same_unfinished = refl;
  same_sent = refl;
  same_yielded = refl;
}

took-Passes :
    (over ends : Bool) (l : List ℕ) (b c : Batch) (q : Queue ℕ)
    → q.items ≡ l
    → b.hand ≡ none
    → c.hand ≡ b.hand
    → c.sent ≡ b.sent
    → c.yielded ≡ b.yielded
    → Passes b q (took (if over then none else Queue.get_from q l) ends c q)
unfolding took
took-Passes true ends l b c q i h e f g = record {
  moved = λ w. ap (λ t. hold w t + weigh w q.items) e;
  same_unfinished = refl;
  same_sent = f;
  same_yielded = g;
}
took-Passes false ends [] b c q i h e f g = record {
  moved = λ w. ap (λ t. hold w t + weigh w q.items) e;
  same_unfinished = refl;
  same_sent = f;
  same_yielded = g;
}
took-Passes false ends (x ∷ l) b c q i h e f g = record {
  moved = λ w. omega (arith, ap (weigh w) i, ap (hold w) h);
  same_unfinished = refl;
  same_sent = f;
  same_yielded = g;
}

if_free :
    (b : Batch) (q : Queue ℕ) (o : Batch × Queue ℕ)
    → (b.hand ≡ none → Passes b q o)
    → Passes b q (if free b.ended b.hand then o else (b, q))
if_free b q o f = go b.ended b.hand refl
  where
    go : (e : Bool) (h : Option ℕ) → b.hand ≡ h → Passes b q (if free e h then o else (b, q))
    go false none k = f k
    go false (some x) k = stay-Passes b q
    go true none k = stay-Passes b q
    go true (some x) k = stay-Passes b q

pub next-Passes : (timeout now : ℕ) (b : Batch) (q : Queue ℕ) → Passes b q (next timeout now b q)
unfolding next queue_get_within_batch
next-Passes timeout now b q =
    let d : ℕ = until b.batch_deadline timeout now in
    let c : Batch = record b { batch_deadline = some d; first_get = false } in
    let item = queue_get_within_batch now d b.first_get q in
    if_free b q (took item true c q)
      (λ h. took-Passes (leb d now && not b.first_get) true q.items b c q refl h refl refl refl)

pub awaited-Passes : (b : Batch) (q : Queue ℕ) → Passes b q (awaited b q)
unfolding awaited
awaited-Passes b q =
    if_free b q (took (Queue.get q) false b q)
      (λ h. took-Passes false false q.items b b q refl h refl refl refl)

abbrev pub IsMove : Step → Type 0
IsMove f = (b : Batch) (q : Queue ℕ) → Passes b q (f b q)

pub step_at-hands :
    (f : Step) (w : Weight) (n : ℕ) (bs : List Batch) (q : Queue ℕ)
    → IsMove f
    → hands w (step_at f n bs q).0 + weigh w (step_at f n bs q).1.items
      ≡ hands w bs + weigh w q.items
unfolding step_at
step_at-hands f w n [] q h = refl
step_at-hands f w zero (b ∷ bs) q h = omega (arith, (h b q).moved w)
step_at-hands f w (suc n) (b ∷ bs) q h = omega (arith, step_at-hands f w n bs q h)

pub step_at-unfinished :
    (f : Step) (n : ℕ) (bs : List Batch) (q : Queue ℕ)
    → IsMove f
    → (step_at f n bs q).1.unfinished ≡ q.unfinished
unfolding step_at
step_at-unfinished f n [] q h = refl
step_at-unfinished f zero (b ∷ bs) q h = (h b q).same_unfinished
step_at-unfinished f (suc n) (b ∷ bs) q h = step_at-unfinished f n bs q h

pub release-hands :
    (w : Weight) (n : ℕ) (bs : List Batch)
    → hold w (release n bs).0 + hands w (release n bs).1 ≡ hands w bs
unfolding release release_hand
release-hands w n [] = refl
release-hands w zero (b ∷ bs) = go b.hand refl
  where
    go :
        (h : Option ℕ)
        → b.hand ≡ h
        → hold w (release_hand h b bs).0 + hands w (release_hand h b bs).1
          ≡ hold w b.hand + hands w bs
    go none e = omega arith
    go (some x) e = omega (arith, ap (hold w) e)
release-hands w (suc n) (b ∷ bs) = omega (arith, release-hands w n bs)
