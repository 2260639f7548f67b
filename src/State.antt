-- ===== src/State.antt =====
-- system/orchestrator/src/state.rs: the files that record the active color and SHA of a service.
-- The file system is a state: what stands at each path, and where a write succeeds.
pub mod Laws
use codery.Base.{
  not, Option, ◌++◌, if◌then◌else◌, unwrap_or, map_option, filter_option, Text, codes, trim,
  starts_with, is_empty, Result, ok, bind_result, Exec, ok_option,
}
use codery.Config.{state_dir, Color, blue, as_str, parse}
use codery.Files.{Files, exists, read_to_string, write}

-- `PathBuf::from(dir).join(name)`: an absolute name replaces the directory.
unfoldable pub join : Text → Text → Text
join dir name = if starts_with (codes "/") name then name else dir ++ (codes "/" ++ name)

unfoldable pub state_path : Text → Text
unfolding join
state_path service = join state_dir (service ++ codes ".color")

unfoldable pub sha_path : Text → Text
unfolding join
sha_path service = join state_dir (service ++ codes ".sha")

unfoldable pub read_active : Text → Files → Result Color
read_active service fs =
    if not (exists fs (state_path service))
    then ok blue
    else bind_result (read_to_string fs (state_path service))
        λ color. ok (unwrap_or (parse (trim color)) blue)

unfoldable pub write_active : Text → Color → Exec Files (Unit {0})
write_active service color = write (state_path service) (as_str color ++ codes "\n")

unfoldable pub read_active_sha : Text → Files → Option Text
read_active_sha service fs =
    filter_option (λ s. not (is_empty s))
      (map_option trim (ok_option (read_to_string fs (sha_path service))))

unfoldable pub write_active_sha : Text → Text → Exec Files (Unit {0})
write_active_sha service sha = write (sha_path service) (sha ++ codes "\n")
