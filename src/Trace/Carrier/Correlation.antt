-- ===== src/Trace/Carrier/Correlation.antt =====
-- About the header `sw8-correlation` of skywalking/trace/carrier.py.
use mathlib.Core.List.{append_assoc, append-nil}
use skywalking_python.Prelude.{
  ℕ, suc, ◌+◌, ◌≤◌, ◌≡◌, refl, true, false, none, List, [], ◌∷◌, ◌++◌, arith, ltb, Text, codes,
  join, split, split-join, is_empty, length, length-append, Avoids, Avoids-append, AllAvoid, ap,
  ◌∙◌, inl, inr, Bool-cases,
}
use skywalking_python.Prelude.Int.{pos, ltb_ℤ}
use skywalking_python.Prelude.Dict.{Dict, lookup, insert, length-insert}
use skywalking_python.Prelude.Result.{Result, ok, err}
use skywalking_python.Prelude.Exec.{continue, lift, modify, ◌>>=◌}
use skywalking_python.Trace.Carrier.{
  Base64, correlation_val, set_correlation_val, pairs, put_pair, put_pairs,
}

insert_new : (k v : Text) (d : Dict Text) → lookup k d ≡ none → insert k v d ≡ d ++ (k, v) ∷ []
unfolding insert lookup
insert_new k v [] h = refl
insert_new k v ((j, w) ∷ d) h = ground (arith, insert_new k v d)

-- Each key of the second dict is new when its turn comes to be added to the first.
abbrev pub Apart : Dict Text → Dict Text → Type 0
Apart acc [] = Unit
Apart acc ((k, v) ∷ d) = (lookup k acc ≡ none) × Apart (acc ++ (k, v) ∷ []) d

not_empty-append : (s : Text) (c : ℕ) (t : Text) → is_empty (s ++ c ∷ t) ≡ false
not_empty-append [] c t = refl
not_empty-append (x ∷ s) c t = refl

not_empty-join :
    (p : Text) (ps : List Text) → is_empty p ≡ false → is_empty (join (codes ",") (p ∷ ps)) ≡ false
not_empty-join p [] h = h
not_empty-join [] (q ∷ ps) h = cc
not_empty-join (x ∷ p) (q ∷ ps) h = refl

ltb-false : (m n : ℕ) → ltb m n ≡ false → n ≤ m
ltb-false m n h = ground arith

-- The test of the loop, below the limit and above.
room : (m n : ℕ) → n ≤ m → ltb_ℤ (pos m) (pos n) ≡ false
room m n h = ground arith

room_over : (m n : ℕ) → ltb m n ≡ true → ltb_ℤ (pos m) (pos n) ≡ true
room_over m n h = ground arith

insert_both :
    (rv rk : Result Text) (d : Dict Text)
    → length ((lift rv >>= λ value. lift rk >>= λ key. modify (insert key value)) d).1
      ≤ suc (length d)
insert_both (ok v) (ok k) d = length-insert k v d
insert_both (ok v) (err e) d = omega arith
insert_both (err e) rk d = omega arith

continue-length :
    (m : ℕ) (rest : Dict Text → Result (Unit {0}) × Dict Text) (x : Result (Unit {0}) × Dict Text)
    → length x.1 ≤ suc m
    → ((d : Dict Text) → length d ≤ suc m → length (rest d).1 ≤ suc m)
    → length (continue x.0 (λ _. rest) x.1).1 ≤ suc m
continue-length m rest (ok u, d) h k = k d h
continue-length m rest (err e, d) h k = h

abbrev done : Dict Text → Result (Unit {0}) × Dict Text
done d = (ok tt, d)

module _ (b : Base64) where
  abbrev pair_text : Text → Text → Text
  pair_text k v = join (codes ":") (b.encode k ∷ b.encode v ∷ [])

  pair_text-Avoids : (k v : Text) → Avoids b',' (pair_text k v)
  pair_text-Avoids k v = Avoids-append b',' (b.encode k) _ (b.no_comma k) ((refl, b.no_comma v))

  pairs-AllAvoid : (d : Dict Text) → AllAvoid b',' (pairs b d)
  unfolding pairs
  pairs-AllAvoid [] = tt
  pairs-AllAvoid ((k, v) ∷ d) = (pair_text-Avoids k v, pairs-AllAvoid d)

  put_pair-pair_text :
      (k v : Text) (acc : Dict Text)
      → lookup k acc ≡ none
      → put_pair b (split b':' (pair_text k v)) acc ≡ (ok tt, acc ++ (k, v) ∷ [])
  unfolding put_pair
  put_pair-pair_text k v acc new =
      rw (split-join b':' (b.encode k) (b.encode v ∷ []) (b.no_colon k, (b.no_colon v, tt)))
        (rw (b.decode-encode v) (rw (b.decode-encode k) (rw (insert_new k v acc new))))

  put_pairs-pairs :
      (m : ℕ) (d acc : Dict Text)
      → Apart acc d
      → length acc + length d ≤ suc m
      → put_pairs b (pos m) (pairs b d) acc ≡ (ok tt, acc ++ d)
  unfolding put_pairs pairs
  put_pairs-pairs m [] acc h le = rw (append-nil acc)
  put_pairs-pairs m ((k, v) ∷ d) acc h le =
      let one : Dict Text = (k, v) ∷ [] in
      rw (room m (length acc) (omega arith)) (
        rw (put_pair-pair_text k v acc h.0) (
          put_pairs-pairs m d (acc ++ one) h.1 (omega (arith, length-append acc one))
          ∙ ap done (append_assoc acc one d)))

  -- A dict with different keys and at most one entry more than the maximum comes back from its
  -- own header, read into an empty dict, entry for entry and in order.
  pub set_correlation_val-val :
      (m : ℕ) (d : Dict Text)
      → Apart [] d
      → length d ≤ suc m
      → set_correlation_val b (pos m) (correlation_val b d) [] ≡ (ok tt, d)
  unfolding set_correlation_val correlation_val
  set_correlation_val-val m [] h le = refl
  set_correlation_val-val m ((k, v) ∷ d) h le =
      rw
        (not_empty-join (pair_text k v) (pairs b d)
          (not_empty-append (b.encode k) b':' (b.encode v)))
        (rw (split-join b',' (pair_text k v) (pairs b d) (pair_text-Avoids k v, pairs-AllAvoid d))
          (put_pairs-pairs m ((k, v) ∷ d) [] h (omega arith)))

  put_pair-length :
      (parts : List Text) (d : Dict Text) → length (put_pair b parts d).1 ≤ suc (length d)
  unfolding put_pair
  put_pair-length [] d = omega arith
  put_pair-length (k ∷ []) d = omega arith
  put_pair-length (k ∷ v ∷ []) d = insert_both (b.decode v) (b.decode k) d
  put_pair-length (k ∷ v ∷ w ∷ r) d = omega arith

  put_pairs-length :
      (m : ℕ) (ps : List Text) (d : Dict Text)
      → length d ≤ suc m
      → length (put_pairs b (pos m) ps d).1 ≤ suc m
  unfolding put_pairs
  put_pairs-length m [] d h = h
  put_pairs-length m (p ∷ ps) d h = elim (Bool-cases (ltb m (length d))) [
    | inl over ↦ rw (room_over m (length d) over) h
    | inr under ↦ rw (room m (length d) (ground arith)) (
        continue-length m (put_pairs b (pos m) ps) (put_pair b (split b':' p) d)
          (omega (arith, put_pair-length (split b':' p) d, ltb-false m (length d) under))
          (put_pairs-length m ps))
  ]

  -- No header, well-formed or not, read into a dict of at most one entry more than the maximum,
  -- makes the dict longer than that.
  pub set_correlation_val-length :
      (m : ℕ) (v : Text) (d : Dict Text)
      → length d ≤ suc m
      → length (set_correlation_val b (pos m) v d).1 ≤ suc m
  unfolding set_correlation_val
  set_correlation_val-length m v d h = ground (arith, put_pairs-length m (split b',' v) d h)
