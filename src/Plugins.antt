-- ===== src/Plugins.antt =====
-- skywalking/plugins/__init__.py with skywalking/utils/comparator.py: which plugins are installed,
-- by the patterns that disable them and by the rules on the versions of their packages. Versions are
-- those of the package `packaging`.
pub mod Rules
mod Tests
use skywalking_python.Prelude.{
  ℕ, Bool, true, false, ◌&&◌, ◌||◌, not, Option, none, some, List, [], ◌∷◌, ◌==◌, if◌then◌else◌,
  Text, codes, text_eq, split, contains,
}
use skywalking_python.Prelude.Result.{Result, ok, err, index_error, version_rule, ◌>>=◌}

-- `version.parse` and the order of versions; `none` is a package that is not found.
pub record Versions : Type 1 where
  pub Version : Type 0
  pub parse : Text → Result Version
  pub lt : Version → Version → Bool
  pub gt : Version → Version → Bool
  pub eq : Version → Version → Bool
  pub get_pkg_version : Text → Option Text

-- `version_rule` of a plugin
pub record Rule : Type 0 where
  pub name : Text
  pub rules : List Text

-- A module of the package: whether it has a function `install`, and whether that raises.
pub record Plugin : Type 0 where
  pub modname : Text
  pub rule : Option Rule
  pub has_install : Bool
  pub install_raises : Bool

module _ (v : Versions) where
  -- `operators`
  pub operator : Text → Option (v.Version → v.Version → Bool)
  operator symbol =
      if text_eq symbol (codes "<")
      then some (λ a b. v.lt a b)
      else if text_eq symbol (codes "<=")
      then some (λ a b. v.lt a b || v.eq a b)
      else if text_eq symbol (codes "==")
      then some (λ a b. v.eq a b)
      else if text_eq symbol (codes ">=")
      then some (λ a b. v.gt a b || v.eq a b)
      else if text_eq symbol (codes ">")
      then some (λ a b. v.gt a b)
      else if text_eq symbol (codes "!=")
      then some (λ a b. not (v.eq a b))
      else none

  apply_operator : Option (v.Version → v.Version → Bool) → v.Version → v.Version → Result Bool
  apply_operator none current expect = err version_rule
  apply_operator (some f) current expect = ok (f current expect)

  compare_with : Text → Text → v.Version → Result Bool
  unfolding operator apply_operator
  compare_with symbol expect current =
      v.parse expect >>= λ e. apply_operator (operator symbol) current e

  -- `check`
  unfoldable pub check : Text → v.Version → Result Bool
  unfolding compare_with
  check [] current = err index_error
  check (c ∷ []) current = err index_error
  check (c ∷ d ∷ rest) current =
      if d == b'='
      then compare_with (c ∷ d ∷ []) rest current
      else compare_with (c ∷ []) (d ∷ rest) current

  -- All units of a rule are checked; the rule holds unless one of them does not.
  check_units : List Text → v.Version → Result Bool
  check_units [] current = ok true
  check_units (unit ∷ units) current =
      check unit current >>= λ b. check_units units current >>= λ rest. ok (b && rest)

  -- The loop over the rules: one that holds is enough.
  pub check_rules : List Text → v.Version → Result Bool
  unfolding check_units
  check_rules [] current = ok false
  check_rules (rule ∷ rules) current =
      let rest = check_rules rules current in
      let holds =
        if not (contains b' ' rule)
        then check rule current
        else check_units (split b' ' rule) current in
      holds >>= λ b. if b then ok true else rest

  check_package : Option Text → List Text → Result Bool
  check_package none rules = ok true
  check_package (some text) rules = v.parse text >>= check_rules rules

  -- `pkg_version_check`
  unfoldable pub pkg_version_check : Option Rule → Result Bool
  unfolding check_package
  pkg_version_check none = ok true
  pkg_version_check (some r) = check_package (v.get_pkg_version r.name) r.rules

  install_one : Bool → Plugin → Result (List Text) → Result (List Text)
  install_one false p rest = rest
  install_one true p rest =
      if not p.has_install || p.install_raises
      then rest
      else rest >>= λ names. ok (p.modname ∷ names)

  -- `install`, where `disabled` says that a pattern matches: the plugins that were installed.
  unfoldable pub install : (Text → Bool) → List Plugin → Result (List Text)
  unfolding install_one
  install disabled [] = ok []
  install disabled (p ∷ plugins) =
      let rest = install disabled plugins in
      if disabled p.modname
      then rest
      else pkg_version_check p.rule >>= λ supported. install_one supported p rest
