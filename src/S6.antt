-- ===== src/S6.antt =====
-- The bundles of the apps for s6 (db.rs: sync_s6_to_dir and below) and the reading of s6's answers
-- (s6.rs). The directory of the bundles is a map from names to bundles; a bundle is written as a
-- whole, and what the JSON reader makes of the variables of an app is a parameter.
pub mod Quoting
pub mod Sync
pub mod Svstat
use codery.Base.{
  Bool, ◌&&◌, Option, none, some, List, [], ◌∷◌, ◌++◌, eqb, if◌then◌else◌, and_then, Text, codes,
  ◌==◌, retain, any, flat_map, Assoc, insert, io_error, Result, ok, err, Exec, ◌>>=◌, ◌>>◌,
}
use codery.Base.Lists.Sorted.{sort_by}
use codery.Base.Maps.Keys.{key_of}
use codery.Db.{AppRecord, Tables, list_apps}

-- The files of a bundle.
pub record Bundle : Type 0 where
  pub kind : Text
  pub base : Text
  pub timeout_kill : Text
  pub run : Text
  pub finish : Option Text

quote_chars : Text → Text
quote_chars [] = []
quote_chars (c ∷ s) =
    let rest = quote_chars s in if eqb c 39 then codes "'\\''" ++ rest else c ∷ rest

-- Every `'` is replaced by `'\''`, and all is put between `'`.
unfoldable pub shell_quote : Text → Text
unfolding quote_chars
shell_quote s = codes "'" ++ (quote_chars s ++ codes "'")

export_line : Text × Text → Text
unfolding shell_quote
export_line e = codes "export " ++ (e.0 ++ (codes "=" ++ (shell_quote e.1 ++ codes "\n\n")))

abbrev pub is_runtime : AppRecord → Bool
is_runtime app = app.source == codes "runtime"

unfoldable pub managed : List AppRecord → Text → Bool
managed apps name = any (λ a. a.name == name && is_runtime a) apps

-- `removable`: whether a directory can be removed.
unfoldable pub prune_bundles :
    (Text → Bool) → List AppRecord → Assoc Bundle → Result (Unit {0}) × Assoc Bundle
unfolding managed
prune_bundles removable apps [] = (ok tt, [])
prune_bundles removable apps (e ∷ bundles) =
    let (r, rest) = prune_bundles removable apps bundles in
    if managed apps e.0
    then (r, e ∷ rest)
    else if removable e.0
    then (r, rest)
    else (err io_error, e ∷ bundles)

module _ (read_json : Text → Option (Assoc Text)) where
  exports : Option Text → Text
  unfolding export_line
  exports env = elim (and_then env read_json) [
    | none ↦ []
    | some pairs ↦ flat_map export_line (sort_by key_of pairs)
  ]

  unfoldable pub render_run : AppRecord → Text
  unfolding exports shell_quote
  render_run app =
      codes
        "#!/bin/bash\n. /usr/local/bin/s6-load-locale-env\nexport PATH=\"/nix/var/nix/profiles/default/bin:$PATH\"\nexport HOME=/home/gem\n"
      ++ (exports app.env
          ++ (codes "cd "
              ++ (shell_quote app.directory
                  ++ (codes "\n\nexec /command/s6-setuidgid "
                      ++ (shell_quote app.user
                          ++ (codes " bash -c " ++ (shell_quote app.command ++ codes "\n\n")))))))

  unfoldable pub render_finish : Text → Text
  render_finish policy =
      if policy == codes "on_failure"
      then codes "#!/bin/bash\nif [ \"$1\" = \"0\" ]; then exec /command/s6-svc -d .; fi\nexit 0\n"
      else codes "#!/bin/bash\nexec /command/s6-svc -d .\n"

  -- With the policy `always` there is no finish script.
  unfoldable pub bundle_of : AppRecord → Bundle
  unfolding render_run render_finish
  bundle_of app = record {
    kind = codes "longrun\n";
    base = [];
    timeout_kill = codes "10000\n";
    run = render_run app;
    finish = if app.restart == codes "always" then none else some (render_finish app.restart);
  }

  -- `writable`: whether the files of a bundle can be written.
  unfoldable pub write_bundles : (Text → Bool) → List AppRecord → Exec (Assoc Bundle) (Unit {0})
  unfolding bundle_of
  write_bundles writable [] bundles = (ok tt, bundles)
  write_bundles writable (app ∷ apps) bundles =
      let later = write_bundles writable apps (insert app.name (bundle_of app) bundles) in
      if writable app.name then later else (err io_error, bundles)

  unfoldable pub sync_s6_to_dir :
      (Text → Bool) → (Text → Bool) → Tables → Exec (Assoc Bundle) (Unit {0})
  unfolding prune_bundles write_bundles
  sync_s6_to_dir removable writable t = do
    prune_bundles removable (list_apps t)
    write_bundles writable (retain is_runtime (list_apps t))
