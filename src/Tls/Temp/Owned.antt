-- ===== src/Tls/Temp/Owned.antt =====
-- The temporary files of skywalking/utils/tls.py that the list of the process does not name: no
-- operation makes one, changes one or unlinks one.
use skywalking_python.Prelude.{
  ◌+◌, Bool, ◌||◌, ◌≡◌, refl, true, false, Option, none, some, List, [], ◌∷◌, ◌++◌, arith,
  if◌then◌else◌, Text, text_eq, text_eq_iff, is_empty, length, inl, inr,
}
use skywalking_python.Tls.Env.{
  Fault, Outcome, Outcome-cases, done, raised, Disk, Host, State, has_text,
}
use skywalking_python.Tls.Temp.{
  put_file, remove_text, ensure_atexit, create, mkstemp, write_all, unlink, pem_bytes_to_temp_file,
  new_file, fill_file,
}
use skywalking_python.Tls.Temp.Writing.{
  IsTidy, caches, Touches, Touches-trans, put-Touches, put_same, Fills, write_all-Fills,
}

-- What stands on the disk at a path, unless the list names it.
abbrev pub stray : State → Text → Option Text
stray s f = if has_text f s.mtls_temp_files then none else s.disk f

abbrev pub Keeps : State → State → Type 0
Keeps s t = (f : Text) → stray t f ≡ stray s f

-- Files that were there are there, with what they held.
abbrev pub Extends : Disk → Disk → Type 0
Extends d e = (f a : Text) → d f ≡ some a → e f ≡ some a

pub Keeps-trans : (s t u : State) → Keeps s t → Keeps t u → Keeps s u
Keeps-trans s t u p q f = ground (arith, p f, q f)

has_text-append :
    (f p : Text) (ps : List Text) → has_text f (ps ++ p ∷ []) ≡ (has_text f ps || text_eq p f)
has_text-append f p [] = ground arith
has_text-append f p (q ∷ ps) = ground (arith, has_text-append f p ps)

pub has_text-remove :
    (f p : Text) (ps : List Text)
    → text_eq p f ≡ false
    → has_text f (remove_text p ps) ≡ has_text f ps
has_text-remove f p [] e = refl
has_text-remove f p (q ∷ ps) e = ground (arith, has_text-remove f p ps e, text_eq_iff q p)

module _ (path : Text) (s t : State) (touches : Touches path s t) (new : s.disk path ≡ none) where
  -- A new file is put on the list, or is gone again.
  pub listed-Keeps : Keeps s (record t { mtls_temp_files = t.mtls_temp_files ++ path ∷ [] })
  listed-Keeps f = ground (
    arith,
    has_text-append f path t.mtls_temp_files,
    text_eq_iff path f,
    touches.others f,
    touches.files,
    new,
  )

  pub gone-Keeps : t.disk path ≡ none → Keeps s t
  gone-Keeps gone f = ground (arith, text_eq_iff path f, touches.others f, touches.files, new, gone)

  pub new-Extends : Extends s.disk t.disk
  new-Extends f a e = ground (arith, text_eq_iff path f, touches.others f, new, e)

-- What the making of a file does, whether it ends well or not.
pub record Made (bytes : Text) (s : State) (r : Outcome Text) (t : State) : Type 0 where
  pub keeps : Keeps s t
  pub extends : Extends s.disk t.disk
  pub same : caches t ≡ caches s
  pub holds : (p : Text) → r ≡ done p → t.disk p ≡ some bytes
  pub was_new : (p : Text) → r ≡ done p → (s.disk p ≡ none) × (is_empty p ≡ false)

-- Neither the disk, nor the list, nor the caches are changed.
pub record Calm (s t : State) : Type 0 where
  pub same_disk : t.disk ≡ s.disk
  pub same_files : t.mtls_temp_files ≡ s.mtls_temp_files
  pub same_caches : caches t ≡ caches s

ensure_atexit-Calm : (s : State) → Calm s (ensure_atexit s)
unfolding ensure_atexit
ensure_atexit-Calm s = by_flag s.atexit_registered
  where
    by_flag :
        (b : Bool)
        → Calm s (if b then s else record s { at_exit = s.at_exit + 1; atexit_registered = true })
    by_flag true = record { same_disk = refl; same_files = refl; same_caches = refl }
    by_flag false = record { same_disk = refl; same_files = refl; same_caches = refl }

pub Calm-Keeps : (s t : State) → Calm s t → Keeps s t
Calm-Keeps s t calm f = rw (calm.same_disk, calm.same_files) refl

Calm-Made :
    (bytes : Text) (s u : State) (r : Outcome Text) (t : State)
    → Calm s u
    → Made bytes u r t
    → Made bytes s r t
Calm-Made bytes s u r t calm made = record {
  keeps = Keeps-trans s u t (Calm-Keeps s u calm) made.keeps;
  extends = λ f a e. made.extends f a (rw calm.same_disk e);
  same = cc (made.same, calm.same_caches);
  holds = made.holds;
  was_new = λ p e. rw (← calm.same_disk) (made.was_new p e);
}

module _ (h : Host) (tidy : IsTidy h) where
  module _ (path bytes : Text) (s t : State) (new : s.disk path ≡ none) where
    -- The loop raised, and the file is unlinked.
    failed-Made : (e : Fault) → Touches path s t → Made bytes s (raised e) (unlink h path t)
    unfolding unlink
    failed-Made e touches =
        let u : State = record t { now = t.now + 1; disk = put_file t.disk path none } in
        let all : Touches path s u =
          Touches-trans path s t u touches (put-Touches path none t (t.now + 1)) in
        rw (tidy.unlinks t.now path) (record {
          keeps = gone-Keeps path s u all new (put_same t.disk path none);
          extends = new-Extends path s u all new;
          same = all.same;
          holds = λ p e. cc e;
          was_new = λ p e. cc e;
        })

    filled-Made :
        is_empty path ≡ false
        → Touches path s t
        → t.disk path ≡ some bytes
        → Made bytes s (done path) (record t { mtls_temp_files = t.mtls_temp_files ++ path ∷ [] })
    filled-Made named touches filled = record {
      keeps = listed-Keeps path s t touches new;
      extends = new-Extends path s t touches new;
      same = touches.same;
      holds = λ p e. let q : path ≡ p = cc e in rw (← q) filled;
      was_new = λ p e. let q : path ≡ p = cc e in rw (← q) (new, named);
    }

  -- From the making of the file on.
  written-Made :
      (path bytes : Text) (s : State)
      → s.disk path ≡ none
      → is_empty path ≡ false
      → let t : State = record s { now = s.now + 1; disk = put_file s.disk path (some []) } in
        let r : Outcome Text × State = fill_file h path bytes t in Made bytes s r.0 r.1
  unfolding fill_file
  written-Made path bytes s new named =
      let t : State = record s { now = s.now + 1; disk = put_file s.disk path (some []) } in
      let loop : Outcome (Unit {0}) × State = write_all h path bytes (length bytes) 0 t in
      let ends : Fills h path bytes t loop.0 loop.1 =
        write_all-Fills h path bytes (length bytes) 0 t (omega arith)
          (put_same s.disk path (some [])) in
      let touches : Touches path s loop.1 =
        Touches-trans path s t loop.1 (put-Touches path (some []) s (s.now + 1)) ends.touches in
      elim (Outcome-cases loop.0) [
        | inr (e, failed) ↦ rw failed (failed-Made path bytes s loop.1 new e touches)
        | inl (tt, written) ↦
            rw written (filled-Made path bytes s loop.1 new named touches (ends.filled written))
      ]

  new_file-Made :
      (bytes suffix : Text) (s : State)
      → Made bytes s (new_file h bytes suffix s).0 (new_file h bytes suffix s).1
  unfolding new_file mkstemp create
  new_file-Made bytes suffix s = elim (Outcome-cases (h.mkstemp s.now s.disk suffix)) [
    | inr (e, failed) ↦ rw failed (record {
      keeps = λ f. refl;
      extends = λ f a e. e;
      same = refl;
      holds = λ p e. cc e;
      was_new = λ p e. cc e;
    })
    | inl (path, made) ↦
        rw made (written-Made path bytes s (tidy.fresh _ _ _ _ made) (tidy.named _ _ _ _ made))
  ]

  pub pem_bytes_to_temp_file-Made :
      (bytes suffix : Text) (s : State)
      → Made bytes s
          (pem_bytes_to_temp_file h bytes suffix s).0
          (pem_bytes_to_temp_file h bytes suffix s).1
  unfolding pem_bytes_to_temp_file
  pem_bytes_to_temp_file-Made bytes suffix s =
      Calm-Made bytes s (ensure_atexit s) _ _ (ensure_atexit-Calm s)
        (new_file-Made bytes suffix (ensure_atexit s))
