-- ===== src/Plugins/Rules.antt =====
-- The rules of skywalking/plugins/__init__.py as a disjunction of conjunctions, and what is installed.
use skywalking_python.Prelude.{
  ℕ, ◌≡◌, refl, Bool, true, false, ◌&&◌, ◌||◌, not, Option, none, some, List, [], ◌∷◌, arith,
  if◌then◌else◌, Text, split, contains, All, Bool-cases, inl, inr,
}
use skywalking_python.Prelude.Result.{Result, ok, err}
use skywalking_python.Plugins.{
  Versions, Rule, Plugin, check, check_units, check_rules, check_package, pkg_version_check,
  install_one, install,
}

-- A check that answers, and with yes.
abbrev is_yes : Result Bool → Bool
is_yes (ok b) = b
is_yes (err e) = false

either : (b c : Bool) → (if b then ok true else ok c) ≡ ok (b || c)
either true c = refl
either false c = refl

split_absent : (c : ℕ) (s : Text) → contains c s ≡ false → split c s ≡ s ∷ []
split_absent c [] h = refl
split_absent c (x ∷ s) h = ground (arith, split_absent c s)

module _ (v : Versions) where
  -- The units of a rule, between spaces.
  pub holds_all : List Text → v.Version → Bool
  holds_all [] current = true
  holds_all (unit ∷ units) current = is_yes (check v unit current) && holds_all units current

  pub holds_any : List Text → v.Version → Bool
  holds_any [] current = false
  holds_any (rule ∷ rules) current = holds_all (split b' ' rule) current || holds_any rules current

  -- No check raises.
  abbrev pub Answers : List Text → v.Version → Type 0
  Answers [] current = Unit
  Answers (unit ∷ units) current =
      ((b : Bool) × (check v unit current ≡ ok b)) × Answers units current

  abbrev pub AllAnswer : List Text → v.Version → Type 0
  AllAnswer [] current = Unit
  AllAnswer (rule ∷ rules) current = Answers (split b' ' rule) current × AllAnswer rules current

  check_units-holds :
      (units : List Text) (current : v.Version)
      → Answers units current
      → check_units v units current ≡ ok (holds_all units current)
  unfolding check_units holds_all
  check_units-holds [] current h = refl
  check_units-holds (unit ∷ units) current ((b, e), h) =
      rw e (rw (check_units-holds units current h) refl)

  alone :
      (rule : Text) (current : v.Version)
      → Answers (rule ∷ []) current
      → check v rule current ≡ ok (holds_all (rule ∷ []) current)
  unfolding holds_all
  alone rule current ((b, e), h) = rw e (ground arith)

  -- A rule without a space is the one unit of its split.
  check_rule :
      (rule : Text) (current : v.Version)
      → Answers (split b' ' rule) current
      → (if not (contains b' ' rule)
          then check v rule current
          else check_units v (split b' ' rule) current)
        ≡ ok (holds_all (split b' ' rule) current)
  unfolding holds_all
  check_rule rule current h = elim (Bool-cases (contains b' ' rule)) [
    | inl spaced ↦ rw spaced (check_units-holds (split b' ' rule) current h)
    | inr plain ↦
        let one = split_absent b' ' rule plain in
        let answers : Answers (rule ∷ []) current = rw one at h in
        rw plain (rw one (alone rule current answers))
  ]

  check_rules-holds :
      (rules : List Text) (current : v.Version)
      → AllAnswer rules current
      → check_rules v rules current ≡ ok (holds_any rules current)
  unfolding check_rules holds_any
  check_rules-holds [] current h = refl
  check_rules-holds (rule ∷ rules) current h = rw (check_rule rule current h.0) (
      rw (check_rules-holds rules current h.1)
        (either (holds_all (split b' ' rule) current) (holds_any rules current)))

  -- What is known of the package, and whether its version is supported.
  abbrev PackageAnswers : Option Text → List Text → Type 0
  PackageAnswers none rules = Unit
  PackageAnswers (some text) rules =
      (current : v.Version) × (v.parse text ≡ ok current) × AllAnswer rules current

  abbrev by_parsed : List Text → Result v.Version → Bool
  by_parsed rules (ok current) = holds_any rules current
  by_parsed rules (err e) = false

  abbrev package_supported : Option Text → List Text → Bool
  package_supported none rules = true
  package_supported (some text) rules = by_parsed rules (v.parse text)

  abbrev pub RuleAnswers : Option Rule → Type 0
  RuleAnswers none = Unit
  RuleAnswers (some r) = PackageAnswers (v.get_pkg_version r.name) r.rules

  abbrev pub is_supported : Option Rule → Bool
  is_supported none = true
  is_supported (some r) = package_supported (v.get_pkg_version r.name) r.rules

  check_package_lem :
      (o : Option Text) (rules : List Text)
      → PackageAnswers o rules
      → check_package v o rules ≡ ok (package_supported o rules)
  unfolding check_package
  check_package_lem none rules h = refl
  check_package_lem (some text) rules (current, e, h) = rw e (check_rules-holds rules current h)

  pkg_version_check_lem :
      (r : Option Rule) → RuleAnswers r → pkg_version_check v r ≡ ok (is_supported r)
  unfolding pkg_version_check
  pkg_version_check_lem none h = refl
  pkg_version_check_lem (some r) h = check_package_lem (v.get_pkg_version r.name) r.rules h

  -- The plugins that are to be installed, and can be.
  pub selected : (Text → Bool) → List Plugin → List Text
  selected disabled [] = []
  selected disabled (p ∷ plugins) =
      let rest = selected disabled plugins in
      if not (disabled p.modname)
        && (is_supported p.rule && (p.has_install && not p.install_raises))
      then p.modname ∷ rest
      else rest

  one_more :
      (off supported has raises : Bool) (p : Plugin) (names : List Text)
      → p.has_install ≡ has
      → p.install_raises ≡ raises
      → (if off then ok names else install_one v supported p (ok names))
        ≡ ok (if not off && (supported && (has && not raises)) then p.modname ∷ names else names)
  unfolding install_one
  one_more true supported has raises p names h r = refl
  one_more false false has raises p names h r = refl
  one_more false true false raises p names h r = rw h refl
  one_more false true true true p names h r = rw h (rw r refl)
  one_more false true true false p names h r = rw h (rw r refl)

  -- Where no check of a rule raises, `install` installs exactly the plugins that no pattern disables,
  -- that have a function `install` which does not raise, and that have no rule, or a package that is
  -- not found, or a version of it for which all units of one of the rules hold; it goes in order.
  pub install_selects :
      (disabled : Text → Bool) (plugins : List Plugin)
      → All (λ p. RuleAnswers p.rule) plugins
      → install v disabled plugins ≡ ok (selected disabled plugins)
  unfolding install selected
  install_selects disabled [] h = refl
  install_selects disabled (p ∷ plugins) h = rw (install_selects disabled plugins h.1) (
      rw (pkg_version_check_lem p.rule h.0) (
        one_more (disabled p.modname) (is_supported p.rule) p.has_install p.install_raises p
          (selected disabled plugins) refl refl))
