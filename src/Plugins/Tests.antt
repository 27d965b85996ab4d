-- ===== src/Plugins/Tests.antt =====
-- The rules of plugins at concrete versions.
use skywalking_python.Prelude.{
  ℕ, ◌≡◌, refl, Bool, true, false, none, some, List, [], ◌∷◌, ◌==◌, ltb, if◌then◌else◌, Text, codes,
  text_eq,
}
use skywalking_python.Prelude.Result.{ok, err, value_error}
use skywalking_python.Plugins.{Versions, Plugin, check, install}
use skywalking_python.Plugins.Rules.{selected, install_selects}

-- Versions of one digit; the one package has version 4.
abbrev versions : Versions
versions = record {
  Version = ℕ;
  parse = λ t. elim t [ [] ↦ err value_error | c ∷ rest ↦ ok c ];
  lt = λ a b. ltb a b;
  gt = λ a b. ltb b a;
  eq = λ a b. a == b;
  get_pkg_version = λ name. if text_eq name (codes "sanic") then some (codes "4") else none;
}

abbrev plugin : Text → List Text → Plugin
plugin name rules = record {
  modname = name;
  rule = some (record { name = codes "sanic"; rules = rules });
  has_install = true;
  install_raises = false;
}

abbrev plugins : List Plugin
plugins =
    plugin (codes "old") (codes "<3" ∷ [])
    ∷ plugin (codes "new") (codes "<2" ∷ codes ">=4 !=5" ∷ [])
    ∷ []

abbrev disabled : Text → Bool
disabled name = text_eq name (codes "off")

install_selects_example :
    install versions disabled plugins ≡ ok (selected versions disabled plugins)
unfolding check
install_selects_example = install_selects versions disabled plugins (
  (52, refl, (((false, refl), tt), tt)),
  ((52, refl, (((false, refl), tt), (((true, refl), ((true, refl), tt)), tt))), tt),
)
