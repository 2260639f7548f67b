-- ===== src/Mcp.antt =====
-- system/orchestrator/src/mcp.rs: the tools of the MCP server that change the state or decide
-- something; the wording of their answers is left out.
pub mod Apps
pub mod Services
pub mod Removal
pub mod Addition
use codery.Base.{
  ℕ, Bool, not, ◌||◌, Option, none, some, List, [], ◌∷◌, ◌++◌, leb, eqb, if◌then◌else◌, Text, codes,
  ◌==◌, lines, number_text, length, retain, all, find_first, is_empty, io_error, parse_error,
  invalid_name, no_local_images, not_found, Result, ok, err, bind_result, ok_or, Exec, pure, query,
  ◌>>=◌, ◌>>◌,
}
use codery.Config.{Color, container_name}
use codery.Deploy.Flow.{same_sha}
use codery.Deploy.Real.{load_definition, run_deploy, recreate_active_container}
use codery.Docker.{CommandOutput}
use codery.Files.{exists, read_to_string, write, rename, remove_file}
use codery.Images.{LocalImage}
use codery.Images.Pull.{local_images}
use codery.Preflight.{contains}
use codery.ServiceDef.Load.{definition_path}
use codery.State.{read_active, read_active_sha}
use codery.World.{World, System, on_docker, on_files}

-- What both streams of a program held, and how it ended. A program that fails counts as run.
unfoldable pub shell_output : Option CommandOutput → Result Text
shell_output none = err io_error
shell_output (some out) =
    let combined : Text =
      if is_empty out.stdout
      then out.stderr
      else if is_empty out.stderr
      then out.stdout
      else out.stdout ++ (codes "\n[stderr]\n" ++ out.stderr) in
    let mark =
      codes "[exited "
      ++ (elim out.code [ none ↦ codes "-1" | some n ↦ number_text n ] ++ codes "]") in
    if out.success
    then ok combined
    else if is_empty combined
    then ok mark
    else ok (mark ++ (codes "\n" ++ combined))

unfoldable pub validate_service_name : (ℕ → Bool) → Text → Result (Unit {0})
validate_service_name is_alphanumeric name =
    if is_empty name
    then err invalid_name
    else if all (λ c. is_alphanumeric c || (eqb c b'-' || eqb c b'_')) name
    then ok tt
    else err invalid_name

unfoldable pub service_path : (ℕ → Bool) → Text → Result Text
unfolding validate_service_name
service_path is_alphanumeric name =
    bind_result (validate_service_name is_alphanumeric name) λ u. ok (definition_path name)

-- The lines of `ss` that are shown for a port: the header, and those with the port's text.
listed_lines : Text → List Text → List Text
listed_lines port_text [] = []
listed_lines port_text (header ∷ rest) =
    header ∷ retain (λ line. contains (codes ":" ++ port_text) line) rest

-- What is shown of the output for a port; the guidance behind it is left out.
unfoldable pub listening_lines : ℕ → Text → List Text
unfolding listed_lines
listening_lines port raw =
    let found = listed_lines (number_text port) (lines raw) in
    if leb (length found) 1 then found ++ codes "(no listeners found for this port)" ∷ [] else found

abbrev pub service_guidance : Text
service_guidance =
    codes
      "\n\n---\nGuidance: Edit with upsert_service, then reload_routes to apply routing changes."

or_not_found : Result Text → Result Text
or_not_found (ok text) = ok text
or_not_found (err e) = err not_found

module _ {D : Type 0} (sys : System D) where
  unfoldable pub container_exec : Text → List Text → Exec (World D) Text
  unfolding shell_output
  container_exec service command = do
    color ← query (λ w. read_active service w.files)
    on_docker λ d.
        let (out, after) = sys.engine.exec_cli (container_name service color) command d in
        (shell_output out, after)

  -- The image that a rollback deploys: the first one whose SHA is not the recorded one.
  unfoldable pub rollback_image : Text → World D → Result LocalImage
  rollback_image service w = bind_result (local_images sys.engine service w.docker) λ images.
      ok_or (find_first (λ i. not (same_sha (read_active_sha service w.files) i.sha)) images)
        no_local_images

  unfoldable pub rollback_tool : Text → Exec (World D) Text
  unfolding rollback_image
  rollback_tool service = do
    def ← query (load_definition sys service)
    image ← query (rollback_image service)
    run_deploy sys service image.sha
    pure image.sha

  unfoldable pub restart_service : Text → Exec (World D) (Color × Text)
  restart_service service = recreate_active_container sys service

  -- What is shown of a definition: the text of its file, and the guidance behind it.
  unfoldable pub get_service : Text → World D → Result Text
  unfolding service_path or_not_found
  get_service name w = bind_result (service_path sys.is_alphanumeric name) λ path.
      bind_result (or_not_found (read_to_string w.files path)) λ text. ok (text ++ service_guidance)

  -- The definition is written to a temporary file, which then takes the place of the old one.
  unfoldable pub upsert_service : Text → Text → Exec (World D) (Unit {0})
  unfolding service_path
  upsert_service name yaml = do
    query (λ w. validate_service_name sys.is_alphanumeric name)
    def ← query (λ w. ok_or (sys.from_str yaml) parse_error)
    query (λ w. if def.service == name then ok tt else err invalid_name)
    path ← query (λ w. service_path sys.is_alphanumeric name)
    on_files (write (path ++ codes ".tmp") yaml)
    on_files (rename (path ++ codes ".tmp") path)

  unfoldable pub delete_service : Text → Exec (World D) (Unit {0})
  unfolding service_path
  delete_service name = do
    path ← query (λ w. service_path sys.is_alphanumeric name)
    query (λ w. if exists w.files path then ok tt else err not_found)
    on_files (remove_file path)
