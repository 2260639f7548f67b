-- ===== src/Ui/Ops.antt =====
-- What becomes of the operation that is shown for a container.
use codery.Base.{Option, none, some, if◌then◌else◌, Text}
use codery.Ui.{
  Op, started, died, stopped, other_action, is_ending, OpsStep, dispatched, spawn_failed, expired,
  event,
}

-- The container that a step is about.
abbrev subject : OpsStep → Text
subject (dispatched name op) = name
subject (spawn_failed name) = name
subject (expired name) = name
subject (event action name) = name

-- What a step makes of the operation of its container.
abbrev next : OpsStep → Option Op → Option Op
next (dispatched name op) o = some op
next (spawn_failed name) o = none
next (expired name) o = none
next (event started name) o = none
next (event other_action name) o = o
next (event died name) o = if is_ending o then none else o
next (event stopped name) o = if is_ending o then none else o
