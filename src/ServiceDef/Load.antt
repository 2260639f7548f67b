-- ===== src/ServiceDef/Load.antt =====
-- `ServiceDef::load` and `load_all`: the files of the services directory. What the YAML reader makes
-- of a text is a parameter, and so are the files that the directory lists.
use codery.Base.{
  Option, none, some, List, [], ◌∷◌, ◌++◌, Text, codes, parse_error, Result, ok, bind_result, ok_or,
}
use codery.Files.{Files, read_to_string}
use codery.ServiceDef.{ServiceDef}

abbrev pub services_dir : Text
services_dir = codes "/opt/codery/services"

unfoldable pub definition_path : Text → Text
definition_path service = services_dir ++ (codes "/" ++ (service ++ codes ".yml"))

module _ (from_str : Text → Option ServiceDef) where
  unfoldable pub load : Files → Text → Result ServiceDef
  load fs service =
      bind_result (read_to_string fs (definition_path service))
        λ text. ok_or (from_str text) parse_error

  -- The paths of the directory whose extension is `yml`.
  unfoldable pub load_each : Files → List Text → Result (List ServiceDef)
  load_each fs [] = ok []
  load_each fs (path ∷ paths) =
      let later = load_each fs paths in
      bind_result (read_to_string fs path) λ text.
        bind_result (ok_or (from_str text) parse_error)
          λ def. bind_result later λ defs. ok (def ∷ defs)

  -- `none`: the directory does not exist.
  unfoldable pub load_all : Files → Option (List Text) → Result (List ServiceDef)
  unfolding load_each
  load_all fs none = ok []
  load_all fs (some paths) = load_each fs paths
