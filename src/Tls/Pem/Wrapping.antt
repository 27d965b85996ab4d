-- ===== src/Tls/Pem/Wrapping.antt =====
-- The PKCS#8 form that skywalking/utils/tls.py gives a private key, read by what the formats say.
use mathlib.Core.Path.{subst}
use skywalking_python.Prelude.{
  ℕ, zero, suc, ◌+◌, ◌*◌, ◌/◌, ◌%◌, ◌≤◌, ◌≡◌, refl, true, false, ◌&&◌, Option, none, some, List, [],
  ◌∷◌, ◌++◌, All, arith, if◌then◌else◌, ◌==◌, Text, is_empty, length, take, drop, take-append_drop,
  length-take, split, AllAvoid, Avoids, split-join_append, sym, ap, ◌∙◌,
}
use skywalking_python.Tls.Env.{
  Outcome, done, raised, value_error, os_error, runtime_error, other, Host,
}
use skywalking_python.Tls.Pem.{
  starts_with, find, occurs, slice, without_breaks, lines_of, pkcs1_pem_header, pkcs1_pem_footer,
  pkcs8_pem_header, pkcs8_pem_footer, pkcs8_preamble, pkcs8_of, pem_of, wrap, decoded_key,
  to_footer, from_header, normalize_private_key_pem,
}

-- A field of DER whose length takes two bytes: what it holds, if nothing stands behind it.
abbrev long_field : ℕ → Text → Option Text
long_field tag (t ∷ form ∷ hi ∷ lo ∷ rest) =
    if (t == tag && form == 0x82) && hi * 256 + lo == length rest then some rest else none
long_field tag _ = none

abbrev behind_preamble : Option Text → Option Text
behind_preamble none = none
behind_preamble (some s) =
    if starts_with pkcs8_preamble s then some (drop (length pkcs8_preamble) s) else none

abbrev key_field : Option Text → Option Text
key_field none = none
key_field (some s) = long_field 0x04 s

-- The key in a `PrivateKeyInfo`: a sequence of the version, the algorithm RSA, and a string of bytes.
abbrev pub read_pkcs8 : Text → Option Text
read_pkcs8 s = key_field (behind_preamble (long_field 0x30 s))

two_bytes : (n : ℕ) → n ≤ 65535 → n / 256 % 256 * 256 + n % 256 ≡ n
two_bytes n h = omega arith

read-pkcs8_of :
    (pkcs1 : Text) → length pkcs1 + 22 ≤ 65535 → read_pkcs8 (pkcs8_of pkcs1) ≡ some pkcs1
unfolding pkcs8_of starts_with
read-pkcs8_of pkcs1 h =
    ground (arith, two_bytes (length pkcs1 + 22) h, two_bytes (length pkcs1) (omega arith))

-- The lines are of 64 characters at most, and are all of the text together.
abbrev pub joined : List Text → Text
joined [] = []
joined (l ∷ ls) = l ++ joined ls

length-drop_64 : (c : ℕ) (s : Text) (n : ℕ) → length s ≤ n → length (drop 64 (c ∷ s)) ≤ n
length-drop_64 c s n h = length-drop 63 s n h
  where
    length-drop : (k : ℕ) (t : Text) (m : ℕ) → length t ≤ m → length (drop k t) ≤ m
    length-drop zero t m b = b
    length-drop (suc k) [] m b = omega arith
    length-drop (suc k) (x ∷ t) m b = length-drop k t m (omega arith)

joined-lines_of : (fuel : ℕ) (s : Text) → length s ≤ fuel → joined (lines_of fuel s) ≡ s
unfolding lines_of
joined-lines_of zero [] h = refl
joined-lines_of zero (c ∷ s) h = absurd (omega arith)
joined-lines_of (suc fuel) [] h = refl
joined-lines_of (suc fuel) (c ∷ s) h =
    ap (λ t. take 64 (c ∷ s) ++ t)
      (joined-lines_of fuel (drop 64 (c ∷ s)) (length-drop_64 c s fuel (omega arith)))
    ∙ take-append_drop 64 (c ∷ s)

lines_of-short : (fuel : ℕ) (s : Text) → All (λ l. length l ≤ 64) (lines_of fuel s)
unfolding lines_of
lines_of-short zero s = tt
lines_of-short (suc fuel) [] = tt
lines_of-short (suc fuel) (c ∷ s) = (length-take 64 (c ∷ s), lines_of-short fuel (drop 64 (c ∷ s)))

take-Avoids : (c n : ℕ) (s : Text) → Avoids c s → Avoids c (take n s)
take-Avoids c zero s h = tt
take-Avoids c (suc n) [] h = tt
take-Avoids c (suc n) (x ∷ s) h = (h.0, take-Avoids c n s h.1)

drop-Avoids : (c n : ℕ) (s : Text) → Avoids c s → Avoids c (drop n s)
drop-Avoids c zero s h = h
drop-Avoids c (suc n) [] h = tt
drop-Avoids c (suc n) (x ∷ s) h = drop-Avoids c n s h.1

lines_of-AllAvoid : (c fuel : ℕ) (s : Text) → Avoids c s → AllAvoid c (lines_of fuel s)
unfolding lines_of
lines_of-AllAvoid c zero s h = tt
lines_of-AllAvoid c (suc fuel) [] h = tt
lines_of-AllAvoid c (suc fuel) (x ∷ s) h = (
  take-Avoids c 64 (x ∷ s) h,
  lines_of-AllAvoid c fuel (drop 64 (x ∷ s)) (drop-Avoids c 64 (x ∷ s) h),
)

-- `base64`: what is encoded is no break of a line, and is decoded again.
pub record IsBase64 (h : Host) : Type 0 where
  pub decodes : (bytes : Text) → h.b64decode (h.b64encode bytes) ≡ done bytes
  pub one_line : (bytes : Text) → Avoids 10 (h.b64encode bytes)
  pub nonempty : (b : ℕ) (bytes : Text) → is_empty (h.b64encode (b ∷ bytes)) ≡ false

-- A file that holds one key in PKCS#8 form, and which key.
pub record Pkcs8Pem (h : Host) (pkcs1 out : Text) : Type 0 where
  pub lines : List Text
  pub framed : split 10 out ≡ pkcs8_pem_header ∷ (lines ++ pkcs8_pem_footer ∷ [] ∷ [])
  pub short : All (λ l. length l ≤ 64) lines
  pub der : Text
  pub decoded : h.b64decode (joined lines) ≡ done der
  pub read : read_pkcs8 der ≡ some pkcs1

pem_of-framed :
    (l : Text) (ls : List Text)
    → AllAvoid 10 (l ∷ ls)
    → split 10 (pem_of (l ∷ ls)) ≡ pkcs8_pem_header ∷ ((l ∷ ls) ++ pkcs8_pem_footer ∷ [] ∷ [])
unfolding pem_of
pem_of-framed l ls h =
    ap (λ t. pkcs8_pem_header ∷ t) (split-join_append 10 l ls (pkcs8_pem_footer ++ 10 ∷ []) h)

module _ (h : Host) (base64 : IsBase64 h) where
  encoded-Pkcs8Pem :
      (pkcs1 encoded : Text)
      → h.b64encode (pkcs8_of pkcs1) ≡ encoded
      → is_empty encoded ≡ false
      → length pkcs1 + 22 ≤ 65535
      → Pkcs8Pem h pkcs1 (pem_of (lines_of (length encoded) encoded))
  unfolding lines_of
  encoded-Pkcs8Pem pkcs1 [] e full fits = cc full
  encoded-Pkcs8Pem pkcs1 (c ∷ s) e full fits =
      let lines = lines_of (suc (length s)) (c ∷ s) in
      let one_line : Avoids 10 (c ∷ s) =
        subst (λ t. Avoids 10 t) e (base64.one_line (pkcs8_of pkcs1)) in
      record {
        lines = lines;
        framed =
            pem_of-framed (take 64 (c ∷ s)) (lines_of (length s) (drop 64 (c ∷ s)))
              (lines_of-AllAvoid 10 (suc (length s)) (c ∷ s) one_line);
        short = lines_of-short (suc (length s)) (c ∷ s);
        der = pkcs8_of pkcs1;
        decoded =
            ap h.b64decode (joined-lines_of (suc (length s)) (c ∷ s) (omega arith) ∙ sym e)
            ∙ base64.decodes (pkcs8_of pkcs1);
        read = read-pkcs8_of pkcs1 fits;
      }

  wrap-Pkcs8Pem : (pkcs1 out : Text) → wrap h pkcs1 ≡ done out → Pkcs8Pem h pkcs1 out
  unfolding wrap
  wrap-Pkcs8Pem pkcs1 out e =
      let encoded : Text = h.b64encode (pkcs8_of pkcs1) in
      let fits : length pkcs1 + 22 ≤ 65535 = ground arith in
      let made : pem_of (lines_of (length encoded) encoded) ≡ out = ground arith in
      subst (λ t. Pkcs8Pem h pkcs1 t) made
        (encoded-Pkcs8Pem pkcs1 encoded refl (unfold pkcs8_of in base64.nonempty _ _) fits)

  decoded_key-Pkcs8Pem :
      (r : Outcome Text) (out : Text)
      → decoded_key h r ≡ done out
      → (pkcs1 : Text) × (r ≡ done pkcs1) × Pkcs8Pem h pkcs1 out
  unfolding decoded_key
  decoded_key-Pkcs8Pem (done pkcs1) out e = (pkcs1, refl, wrap-Pkcs8Pem pkcs1 out e)
  decoded_key-Pkcs8Pem (raised (value_error t)) out e = cc e
  decoded_key-Pkcs8Pem (raised (os_error t)) out e = cc e
  decoded_key-Pkcs8Pem (raised (runtime_error t)) out e = cc e
  decoded_key-Pkcs8Pem (raised (other t)) out e = cc e

  footer_wraps :
      (text out : Text) (start : ℕ) (o : Option ℕ)
      → to_footer h text start o ≡ done out
      → (end : ℕ) × (pkcs1 : Text) × (o ≡ some end)
        × (h.b64decode (without_breaks (slice text (start + 31) end)) ≡ done pkcs1)
        × Pkcs8Pem h pkcs1 out
  unfolding to_footer
  footer_wraps text out start none e = cc e
  footer_wraps text out start (some end) e =
      let (pkcs1, decodes, pem) = decoded_key-Pkcs8Pem _ out e in (end, pkcs1, refl, decodes, pem)

  header_wraps :
      (text out : Text) (o : Option ℕ)
      → from_header h text o ≡ done out
      → (start : ℕ) × (end : ℕ) × (pkcs1 : Text) × (o ≡ some start)
        × (find pkcs1_pem_footer text start ≡ some end)
        × (h.b64decode (without_breaks (slice text (start + 31) end)) ≡ done pkcs1)
        × Pkcs8Pem h pkcs1 out
  unfolding from_header
  header_wraps text out none e = cc e
  header_wraps text out (some start) e =
      let (end, pkcs1, footer, decodes, pem) = footer_wraps text out start _ e in
      (start, end, pkcs1, refl, footer, decodes, pem)

  -- A key file with the header of PKCS#1 that is accepted: between its delimiters stands Base64 of the
  -- key, and what is returned is a PEM file of PKCS#8, framed, in lines of 64 characters at most, whose
  -- bytes are read, by the lengths they give, as the same key.
  pub normalize_wraps :
      (key_pem out : Text)
      → occurs pkcs1_pem_header (h.decode key_pem) ≡ true
      → normalize_private_key_pem h key_pem ≡ done out
      → (start : ℕ) × (end : ℕ) × (pkcs1 : Text) × (find pkcs1_pem_header (h.decode key_pem) 0
          ≡ some start)
        × (find pkcs1_pem_footer (h.decode key_pem) start ≡ some end)
        × (h.b64decode (without_breaks (slice (h.decode key_pem) (start + 31) end)) ≡ done pkcs1)
        × Pkcs8Pem h pkcs1 out
  unfolding normalize_private_key_pem occurs
  normalize_wraps key_pem out has e =
      header_wraps (h.decode key_pem) out (find pkcs1_pem_header (h.decode key_pem) 0)
        (ground (arith, has, e))
