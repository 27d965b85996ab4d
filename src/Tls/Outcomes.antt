-- ===== src/Tls/Outcomes.antt =====
-- How calls in skywalking/utils/tls.py end: a condition on the outcome, from whatever state.
use skywalking_python.Prelude.{
  ◌≡◌, refl, Bool, true, false, if◌then◌else◌, Bool-cases, inl, inr, Text, Option, none, is_empty,
}
use skywalking_python.Tls.Env.{
  Fault, Outcome, done, raised, is_os_value, is_path_fault, Host, State, Exec, catch, pure, ◌>>=◌,
  continue, ssl_file_path, configured_path, regular, os_error, value_error, runtime_error, other,
  handle,
}

pub record Ends {A : Type 0} (P : Outcome A → Type 0) (m : Exec A) : Type 0 where
  pub at : (s : State) → P (m s).0

-- Neither `OSError` nor `ValueError` is raised.
abbrev pub Clean : {A : Type 0} → Outcome A → Type 0
Clean (done _) = Unit
Clean (raised e) = is_os_value e ≡ false

abbrev pub Anything : {A : Type 0} → Outcome A → Type 0
Anything _ = Unit

module _ {A B : Type 0} where
  continue-Ends :
      (Q : Outcome A → Type 0) (P : Outcome B → Type 0) (k : A → Exec B)
      → ((e : Fault) → Q (raised e) → P (raised e))
      → ((a : A) → Q (done a) → Ends P (k a))
      → (r : Outcome A) (s : State) → Q r
      → P (continue r k s).0
  continue-Ends Q P k passes goes (done a) s q = (goes a q).at s
  continue-Ends Q P k passes goes (raised e) s q = passes e q

  pub >>=-Ends :
      (Q : Outcome A → Type 0) (P : Outcome B → Type 0) (m : Exec A) (k : A → Exec B)
      → Ends Q m
      → ((e : Fault) → Q (raised e) → P (raised e))
      → ((a : A) → Q (done a) → Ends P (k a))
      → Ends P (m >>= k)
  >>=-Ends Q P m k first passes goes = record {
    at = λ s. continue-Ends Q P k passes goes (m s).0 (m s).1 (first.at s);
  }

module _ {A : Type 0} where
  handle-Ends :
      (P : Outcome A → Type 0) (caught : Fault → Bool) (f : Fault → Exec A) (e : Fault) (s : State)
      → ((e : Fault) → caught e ≡ false → P (raised e))
      → ((e : Fault) → Ends P (f e))
      → P (if caught e then f e s else (raised e, s)).0
  handle-Ends P caught f e s missed handled = elim (Bool-cases (caught e)) [
    | inl taken ↦ rw taken ((handled e).at s)
    | inr left ↦ rw left (missed e left)
  ]

  caught-Ends :
      (P Q : Outcome A → Type 0) (caught : Fault → Bool) (f : Fault → Exec A)
      → ((a : A) → Q (done a) → P (done a))
      → ((e : Fault) → caught e ≡ false → P (raised e))
      → ((e : Fault) → Ends P (f e))
      → (r : Outcome A) (s : State) → Q r
      → P (handle r caught f s).0
  caught-Ends P Q caught f well missed handled (done a) s q = well a q
  caught-Ends P Q caught f well missed handled (raised e) s q =
      handle-Ends P caught f e s missed handled

  -- `Q` is what holds of a value that the body returns.
  pub catch-Ends :
      (P Q : Outcome A → Type 0) (m : Exec A) (caught : Fault → Bool) (f : Fault → Exec A)
      → Ends Q m
      → ((a : A) → Q (done a) → P (done a))
      → ((e : Fault) → caught e ≡ false → P (raised e))
      → ((e : Fault) → Ends P (f e))
      → Ends P (catch m caught f)
  catch-Ends P Q m caught f body well missed handled = record {
    at = λ s. caught-Ends P Q caught f well missed handled (m s).0 (m s).1 (body.at s);
  }

  pub if-Ends :
      (P : Outcome A → Type 0) (b : Bool) (x y : Exec A)
      → (b ≡ true → Ends P x)
      → (b ≡ false → Ends P y)
      → Ends P (if b then x else y)
  if-Ends P true x y hx hy = hx refl
  if-Ends P false x y hx hy = hy refl

  pub pure-Ends : (P : Outcome A → Type 0) (a : A) → P (done a) → Ends P (pure a)
  pure-Ends P a h = record { at = λ s. h }

  pub all-Anything : (m : Exec A) → Ends Anything m
  all-Anything m = record { at = λ s. tt }

path_fault : (e : Fault) → is_path_fault e ≡ false → is_os_value e ≡ false
path_fault (os_error t) h = cc
path_fault (value_error t) h = cc
path_fault (runtime_error t) h = cc
path_fault (other t) h = refl

pub ssl_file_path-Clean : (h : Host) (value : Text) → Ends Clean (ssl_file_path h value)
unfolding ssl_file_path
ssl_file_path-Clean h value =
    let text : Text = configured_path h value in
    let look : Exec (Option Text) = catch (regular h text) is_path_fault (λ _. pure none) in
    if-Ends Clean (is_empty text) (pure none) look (λ _. pure-Ends Clean none tt)
      (λ _.
        catch-Ends Clean Anything (regular h text) is_path_fault (λ _. pure none)
          (all-Anything (regular h text)) (λ a q. tt) path_fault (λ e. pure-Ends Clean none tt))
