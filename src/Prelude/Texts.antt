-- ===== src/Prelude/Texts.antt =====
-- Text is a list of code points, so that the sources' splits, joins and scans are recursions.
use Prim.Native.Nat.{ℕ}
use Prim.Native.Char.{code}
use Prim.Native.String.{String}
use mathlib.Core.Path.{◌≡◌, refl, ap, ◌∙◌}
use mathlib.Core.Logic.{◌↔◌}
use mathlib.Core.Bool.{Bool, true, false}
use mathlib.Core.List.{List, [], ◌∷◌, ◌++◌, append_assoc}
use native.Mathlib.Omega.{arith}
use skywalking_python.Prelude.Tests.{◌==◌, if◌then◌else◌}

abbrev pub Text : Type 0
Text = List ℕ

-- A text literal.
abbrev pub codes : String → Text
codes String.[] = []
codes (String.◌∷◌ c s) = code c ∷ codes s

abbrev pub text_eq : Text → Text → Bool
text_eq [] [] = true
text_eq [] (y ∷ t) = false
text_eq (x ∷ s) [] = false
text_eq (x ∷ s) (y ∷ t) = if x == y then text_eq s t else false

text_eq_sound : (s t : Text) → text_eq s t ≡ true → s ≡ t
text_eq_sound [] [] h = refl
text_eq_sound [] (y ∷ t) h = cc
text_eq_sound (x ∷ s) [] h = cc
text_eq_sound (x ∷ s) (y ∷ t) h = ground (arith, text_eq_sound s t)

pub text_eq_self : (s : Text) → text_eq s s ≡ true
text_eq_self [] = refl
text_eq_self (x ∷ s) = ground (arith, text_eq_self s)

pub text_eq_iff : (s t : Text) → (text_eq s t ≡ true) ↔ (s ≡ t)
text_eq_iff s t = (text_eq_sound s t, λ e. rw (← e) (text_eq_self s))

-- `not s`
abbrev pub is_empty {ℓ} : {A : Type ℓ} → List A → Bool
is_empty [] = true
is_empty (_ ∷ _) = false

-- `sep.join(parts)`
abbrev pub join : Text → List Text → Text
join sep [] = []
join sep (p ∷ []) = p
join sep (p ∷ q ∷ r) = p ++ (sep ++ join sep (q ∷ r))

-- The head of a split grows by one character.
abbrev pub grow : ℕ → List Text → List Text
grow c [] = (c ∷ []) ∷ []
grow c (p ∷ r) = (c ∷ p) ∷ r

-- `s.split(c)` for one separator character: always at least one part.
abbrev pub split : ℕ → Text → List Text
split sep [] = [] ∷ []
split sep (c ∷ s) = if c == sep then [] ∷ split sep s else grow c (split sep s)

-- No character of the text is the separator.
abbrev pub Avoids : ℕ → Text → Type 0
Avoids c [] = Unit
Avoids c (x ∷ s) = ((x == c) ≡ false) × Avoids c s

-- Nor of two texts together.
pub Avoids-append : (c : ℕ) (s t : Text) → Avoids c s → Avoids c t → Avoids c (s ++ t)
Avoids-append c [] t hs ht = ht
Avoids-append c (x ∷ s) t hs ht = (hs.0, Avoids-append c s t hs.1 ht)

split-Avoids : (c : ℕ) (s : Text) → Avoids c s → split c s ≡ s ∷ []
split-Avoids c [] h = refl
split-Avoids c (x ∷ s) h = ground (arith, split-Avoids c s h.1)

split-append : (c : ℕ) (s t : Text) → Avoids c s → split c (s ++ c ∷ t) ≡ s ∷ split c t
split-append c [] t h = ground arith
split-append c (x ∷ s) t h = ground (arith, split-append c s t h.1)

abbrev pub AllAvoid : ℕ → List Text → Type 0
AllAvoid c [] = Unit
AllAvoid c (p ∷ ps) = Avoids c p × AllAvoid c ps

-- Splitting what was joined gives the parts back.
pub split-join :
    (c : ℕ) (p : Text) (ps : List Text)
    → AllAvoid c (p ∷ ps)
    → split c (join (c ∷ []) (p ∷ ps)) ≡ p ∷ ps
split-join c p [] h = split-Avoids c p h.0
split-join c p (q ∷ r) h =
    split-append c p (join (c ∷ []) (q ∷ r)) h.0 ∙∙ ap (λ l. p ∷ l) (split-join c q r h.1)
  where
    infixr 30 ◌∙∙◌
    ◌∙∙◌ : {x y z : List Text} → x ≡ y → y ≡ z → x ≡ z
    p ∙∙ q = cc

-- What was joined, with more behind it.
pub split-join_append :
    (c : ℕ) (p : Text) (ps : List Text) (t : Text)
    → AllAvoid c (p ∷ ps)
    → split c (join (c ∷ []) (p ∷ ps) ++ c ∷ t) ≡ (p ∷ ps) ++ split c t
split-join_append c p [] t h = split-append c p t h.0
split-join_append c p (q ∷ r) t h =
    ap (split c) (append_assoc p (c ∷ join (c ∷ []) (q ∷ r)) (c ∷ t))
    ∙ split-append c p (join (c ∷ []) (q ∷ r) ++ c ∷ t) h.0
    ∙ ap (λ l. p ∷ l) (split-join_append c q r t h.1)
