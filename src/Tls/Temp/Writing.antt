-- ===== src/Tls/Temp/Writing.antt =====
-- What the writing of a temporary file of skywalking/utils/tls.py does to the disk.
use skywalking_python.Prelude.{
  ℕ, zero, suc, ◌+◌, ◌-◌, ◌≤◌, ◌≡◌, refl, true, false, Option, none, some, ◌++◌, arith,
  if◌then◌else◌, ltb, ◌==◌, Text, text_eq, text_eq_self, length, take, take_all, is_empty,
  Bool-cases, inl, inr, codes,
}
use skywalking_python.Tls.Env.{os_error, raise, Outcome, Outcome-cases, done, Disk, Host, State}
use skywalking_python.Tls.Temp.{put_file, write, write_all}

-- What is documented of `mkstemp`, a new file with a name, and that files of one's own can be
-- unlinked.
pub record IsTidy (h : Host) : Type 0 where
  pub fresh :
      (n : ℕ) (d : Disk) (suffix path : Text) → h.mkstemp n d suffix ≡ done path → d path ≡ none
  pub named :
      (n : ℕ) (d : Disk) (suffix path : Text)
      → h.mkstemp n d suffix ≡ done path
      → is_empty path ≡ false
  pub unlinks : (n : ℕ) (path : Text) → h.unlink n path ≡ true

-- What the module remembers of the files that it made.
pub record Caches : Type 0 where
  pub pair_key : Option (Text × Text)
  pub pair : Option (Text × Text)
  pub ca_key : Option Text
  pub ca : Option Text

abbrev pub caches : State → Caches
caches s = record {
  pair_key = s.mtls_file_cache_key;
  pair = s.mtls_file_cache;
  ca_key = s.ca_file_cache_key;
  ca = s.ca_file_cache;
}

-- Nothing is changed but one file, the log and the count of calls.
pub record Touches (path : Text) (s s' : State) : Type 0 where
  pub others : (f : Text) → text_eq path f ≡ false → s'.disk f ≡ s.disk f
  pub files : s'.mtls_temp_files ≡ s.mtls_temp_files
  pub same : caches s' ≡ caches s

pub Touches-self : (path : Text) (s : State) → Touches path s s
Touches-self path s = record { others = λ f e. refl; files = refl; same = refl }

pub Touches-trans :
    (path : Text) (s t u : State) → Touches path s t → Touches path t u → Touches path s u
Touches-trans path s t u p q = record {
  others = λ f e. ground (arith, p.others f e, q.others f e);
  files = cc (p.files, q.files);
  same = cc (p.same, q.same);
}

pub put_other :
    (d : Disk) (path f : Text) (v : Option Text)
    → text_eq path f ≡ false
    → put_file d path v f ≡ d f
put_other d path f v e = rw e refl

pub put_same : (d : Disk) (path : Text) (v : Option Text) → put_file d path v path ≡ v
put_same d path v = rw (text_eq_self path) refl

-- A file is written over, made, or unlinked.
pub put-Touches :
    (path : Text) (v : Option Text) (s : State) (n : ℕ)
    → Touches path s (record s { now = n; disk = put_file s.disk path v })
put-Touches path v s n = record {
  others = λ f e. put_other s.disk path f v e;
  files = refl;
  same = refl;
}

pub now-Touches : (path : Text) (s : State) (n : ℕ) → Touches path s (record s { now = n })
now-Touches path s n = record { others = λ f e. refl; files = refl; same = refl }

module _ (h : Host) (path bytes : Text) where
  -- What is in the file when the loop ends well is what was to be written.
  pub record Fills (s : State) (r : Outcome (Unit {0})) (s' : State) : Type 0 where
    pub touches : Touches path s s'
    pub filled : r ≡ done tt → s'.disk path ≡ some bytes

  abbrev pub Rest : ℕ → ℕ → State → Type 0
  Rest fuel offset s =
      length bytes ≤ offset + fuel
      → s.disk path ≡ some (take offset bytes)
      → Fills s (write_all h path bytes fuel offset s).0 (write_all h path bytes fuel offset s).1

  after_write :
      (w : ℕ) (s : State) (fuel offset : ℕ)
      → let t : State = record s {
        now = s.now + 1;
        disk = put_file s.disk path (some (take (offset + w) bytes));
      } in
        let r : Outcome (Unit {0}) × State =
          (if w == 0
              then raise (os_error (codes "Failed to write SSL PEM temp file " ++ path))
              else write_all h path bytes fuel (offset + w))
            t in
        Rest fuel (offset + w) t → length bytes ≤ offset + suc fuel → Fills s r.0 r.1
  after_write w s fuel offset rest bound =
      let t : State = record s {
        now = s.now + 1;
        disk = put_file s.disk path (some (take (offset + w) bytes));
      } in
      let first : Touches path s t =
        put-Touches path (some (take (offset + w) bytes)) s (s.now + 1) in
      elim (Bool-cases (w == 0)) [
        | inl nothing ↦ rw nothing (record { touches = first; filled = λ e. cc e })
        | inr something ↦
            let ends : Fills t _ _ =
              rest (ground arith) (put_same s.disk path (some (take (offset + w) bytes))) in
            rw something (record {
              touches = Touches-trans path s t _ first ends.touches;
              filled = ends.filled;
            })
      ]

  write_all-more :
      (fuel offset : ℕ) (s : State)
      → ((w : ℕ) (t : State) → Rest fuel (offset + w) t)
      → Rest (suc fuel) offset s
  unfolding write_all write
  write_all-more fuel offset s rest bound now = elim (Bool-cases (ltb offset (length bytes))) [
    | inr whole ↦ rw whole (record {
      touches = Touches-self path s;
      filled = λ _. ground (arith, take_all offset bytes);
    })
    | inl more ↦ rw more (elim (Outcome-cases (h.write s.now (length bytes - offset))) [
      | inr (e, failed) ↦
          rw (failed, write)
            (record { touches = now-Touches path s (s.now + 1); filled = λ e. cc e })
      | inl (w, written) ↦
          rw (written, write)
            (after_write w s fuel offset
              (rest w (record s {
                now = s.now + 1;
                disk = put_file s.disk path (some (take (offset + w) bytes));
              }))
              bound)
    ])
  ]

  pub write_all-Fills : (fuel offset : ℕ) (s : State) → Rest fuel offset s
  unfolding write_all
  write_all-Fills zero offset s bound now = record {
    touches = Touches-self path s;
    filled = λ _. ground (arith, take_all offset bytes);
  }
  write_all-Fills (suc fuel) offset s bound now =
      write_all-more fuel offset s (λ w t. write_all-Fills fuel (offset + w) t) bound now
