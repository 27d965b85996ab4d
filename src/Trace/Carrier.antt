-- ===== src/Trace/Carrier.antt =====
-- skywalking/trace/carrier.py: the headers `sw8` and `sw8-correlation`. Base64 and the tables of
-- Unicode are the standard library's: an interface with the documented laws.
pub mod RoundTrip
pub mod Correlation
pub mod SpanId
use skywalking_python.Prelude.{
  ℕ, zero, suc, ◌+◌, ◌*◌, ◌≤◌, ◌<◌, ◌≡◌, refl, Bool, true, false, ◌&&◌, Option, none, some, List,
  [], ◌∷◌, arith, ltb, ◌==◌, if◌then◌else◌, Text, codes, join, split, is_empty, length, Avoids,
}
use skywalking_python.Prelude.Int.{ℤ, pos, ltb_ℤ}
use skywalking_python.Prelude.Dict.{Dict, insert}
use skywalking_python.Prelude.Result
use skywalking_python.Prelude.Result.{Result, ok, err, value_error, type_error, attribute_error}
use skywalking_python.Prelude.Exec.{Exec, pure, raise, lift, modify, gets, ◌>>=◌, ◌>>◌}

-- `base64` over UTF-8, as skywalking/utils/lang.py calls it: decoding may raise `ValueError`. The
-- alphabet has none of the separators of the headers.
pub record Base64 : Type 0 where
  pub encode : Text → Text
  pub decode : Text → Result Text
  pub decode-encode : (t : Text) → decode (encode t) ≡ ok t
  pub no_dash : (t : Text) → Avoids b'-' (encode t)
  pub no_comma : (t : Text) → Avoids b',' (encode t)
  pub no_colon : (t : Text) → Avoids b':' (encode t)

-- `str.isnumeric` of one character, and the value of a character as a decimal digit. Every
-- decimal digit is numeric; not every numeric character is a digit.
pub record Unicode : Type 0 where
  pub is_numeric : ℕ → Bool
  pub digit : ℕ → Option ℕ
  pub ascii_digit : (d : ℕ) → d < 10 → digit (b'0' + d) ≡ some d
  pub digit_numeric : (c d : ℕ) → digit c ≡ some d → is_numeric c ≡ true

-- `Carrier`. The dict of its `correlation_carrier` is named by its address; `raw` is the text
-- last assigned to `val`.
pub record Carrier : Type 0 where
  pub trace_id : Text
  pub segment_id : Text
  pub span_id : Text
  pub service : Text
  pub service_instance : Text
  pub endpoint : Text
  pub client_address : Option Text
  pub correlation : ℕ
  pub raw : Option Text

-- `Carrier()`, with its new dict at the given address.
abbrev pub blank : ℕ → Carrier
blank correlation = record {
  trace_id = [];
  segment_id = [];
  span_id = [];
  service = [];
  service_instance = [];
  endpoint = [];
  client_address = some [];
  correlation = correlation;
  raw = none;
}

-- `s.isnumeric()`: false of the empty text.
all_numeric : Unicode → Text → Bool
all_numeric u [] = true
all_numeric u (c ∷ s) = u.is_numeric c && all_numeric u s

pub isnumeric : Unicode → Text → Bool
unfolding all_numeric
isnumeric u s = if is_empty s then false else all_numeric u s

-- `len(s) > 0`, which raises `TypeError` on `None`
nonempty : Text → Bool
nonempty s = ltb 0 (length s)

valid_rest : Unicode → Text → Option Text → Result Bool
unfolding nonempty isnumeric
valid_rest u span_id none = err type_error
valid_rest u span_id (some a) = ok (if nonempty a then isnumeric u span_id else false)

-- `is_valid`: the tests are made from the left, and none after the first that fails.
unfoldable pub is_valid : Unicode → Carrier → Result Bool
unfolding nonempty valid_rest
is_valid u c =
    if nonempty c.trace_id
      && (nonempty c.segment_id
          && (nonempty c.service && (nonempty c.service_instance && nonempty c.endpoint)))
    then valid_rest u c.span_id c.client_address
    else ok false

negate : Result Bool → Result Bool
negate (ok b) = ok (if b then false else true)
negate (err e) = err e

-- `is_suppressed`: a text was assigned, and it did not make the carrier valid.
suppressed_by : Option Text → Result Bool → Result Bool
unfolding negate
suppressed_by none r = ok false
suppressed_by (some raw) r = if is_empty raw then ok false else negate r

unfoldable pub is_suppressed : Unicode → Carrier → Result Bool
unfolding suppressed_by
is_suppressed u c = suppressed_by c.raw (is_valid u c)

-- `int(s)` of a text of characters that are all numeric: `ValueError` at one that is no digit.
digits : Unicode → ℕ → Text → Result ℕ
digits u n [] = ok n
digits u n (c ∷ s) = digit_step (u.digit c) (λ d. digits u (n * 10 + d) s)
  where
    digit_step : Option ℕ → (ℕ → Result ℕ) → Result ℕ
    digit_step none k = err value_error
    digit_step (some d) k = k d

unfoldable pub int_of_text : Unicode → Text → Result ℤ
unfolding digits
int_of_text u s =
    if is_empty s then err value_error else Result.◌>>=◌ (digits u 0 s) (λ n. ok (pos n))

module _ (b : Base64) where
  encode_address : Option Text → Result Text
  encode_address none = err attribute_error
  encode_address (some a) = ok (b.encode a)

  -- `Carrier.val`
  unfoldable pub val : Carrier → Result Text
  unfolding encode_address
  val c = Result.◌>>=◌ (encode_address c.client_address) λ address. ok (
      join (codes "-") (
        codes "1"
        ∷ b.encode c.trace_id
        ∷ b.encode c.segment_id
        ∷ c.span_id
        ∷ b.encode c.service
        ∷ b.encode c.service_instance
        ∷ b.encode c.endpoint
        ∷ address
        ∷ []))

  -- One assignment `self.field = b64decode(part)`.
  assign : Text → (Text → Carrier → Carrier) → Exec Carrier (Unit {0})
  assign part store = lift (b.decode part) >>= λ t. modify (store t)

  assign_parts : List Text → Exec Carrier (Unit {0})
  unfolding assign
  assign_parts (v ∷ t ∷ g ∷ n ∷ s ∷ i ∷ e ∷ a ∷ []) = do
    assign t (λ x c. record c { trace_id = x })
    assign g (λ x c. record c { segment_id = x })
    modify (λ c. record c { span_id = n })
    assign s (λ x c. record c { service = x })
    assign i (λ x c. record c { service_instance = x })
    assign e (λ x c. record c { endpoint = x })
    assign a (λ x c. record c { client_address = some x })
  assign_parts _ = pure tt

  -- The setter of `Carrier.val`
  unfoldable pub set_val : Text → Exec Carrier (Unit {0})
  unfolding assign_parts
  set_val v = do
    modify (λ c. record c { raw = some v })
    if is_empty v then pure tt else assign_parts (split b'-' v)

  pairs : Dict Text → List Text
  pairs [] = []
  pairs ((k, v) ∷ d) = join (codes ":") (b.encode k ∷ b.encode v ∷ []) ∷ pairs d

  -- `SW8CorrelationCarrier.val`
  unfoldable pub correlation_val : Dict Text → Text
  unfolding pairs
  correlation_val d = if is_empty d then [] else join (codes ",") (pairs d)

  put_pair : List Text → Exec (Dict Text) (Unit {0})
  put_pair (k ∷ v ∷ []) = do
    value ← lift (b.decode v)
    key ← lift (b.decode k)
    modify (insert key value)
  put_pair _ = pure tt

  put_pairs : ℤ → List Text → Exec (Dict Text) (Unit {0})
  put_pairs max_number [] d = (ok tt, d)
  put_pairs max_number (per ∷ rest) d =
      if ltb_ℤ max_number (pos (length d))
      then (ok tt, d)
      else (put_pair (split b':' per) >>= λ _. put_pairs max_number rest) d

  -- The setter of `SW8CorrelationCarrier.val`, with `config.correlation_element_max_number`
  unfoldable pub set_correlation_val : ℤ → Text → Exec (Dict Text) (Unit {0})
  unfolding put_pairs put_pair
  set_correlation_val max_number v =
      if is_empty v then pure tt else put_pairs max_number (split b',' v)
