-- ===== src/Logging.antt =====
-- internal/logging/logging.go: levels, the threshold, and the lines that pass it. The formatting is not modelled.
use x.Base.{
  ℕ, Bool, true, false, not, ◌||◌, List, [], ◌∷◌, if◌then◌else◌, leb, ◌==◌, Bytes, codes, eqb,
  is_empty,
}
use x.Text.{to_lower, trim_space}

-- `Level`.
abbrev pub level_debug : ℕ
level_debug = 0

abbrev pub level_info : ℕ
level_info = 1

abbrev pub level_warn : ℕ
level_warn = 2

abbrev pub level_error : ℕ
level_error = 3

-- `Level.String`.
unfoldable pub level_name : ℕ → Bytes
level_name l =
    if l == level_debug
    then codes "debug"
    else if l == level_info
    then codes "info"
    else if l == level_warn
    then codes "warn"
    else if l == level_error
    then codes "error"
    else codes "unknown"

-- The switch of `Parse`: the level, and whether the name is unknown.
unfoldable pub level_of : Bytes → ℕ × Bool
level_of s =
    if eqb s (codes "debug")
    then (level_debug, false)
    else if eqb s (codes "info") || is_empty s
    then (level_info, false)
    else if eqb s (codes "warn") || eqb s (codes "warning")
    then (level_warn, false)
    else if eqb s (codes "error")
    then (level_error, false)
    else (level_info, true)

-- `Parse`.
unfoldable pub parse : Bytes → ℕ × Bool
unfolding level_of
parse s = level_of (to_lower (trim_space s))

-- `Enabled`, the threshold first.
unfoldable pub enabled : ℕ → ℕ → Bool
enabled current l = leb current l

-- The threshold that `init` sets.
abbrev pub initial_level : ℕ
initial_level = level_info

-- The lines of the log, the last first, under the threshold `current`.
pub record Log : Type 0 where
  pub current : ℕ
  pub lines : List Bytes

-- The package after `init`.
abbrev pub new_log : Log
new_log = record { current = initial_level; lines = [] }

-- `SetLevel`; `GetLevel` is the field.
unfoldable pub set_level : ℕ → Log → Log
set_level l log = record log { current = l }

-- `emit`, on the line as it is formatted; `Debugf`, `Infof`, `Warnf` and `Errorf` are `emit` at their levels.
unfoldable pub emit : ℕ → Bytes → Log → Log
unfolding enabled
emit l line log =
    if not (enabled log.current l) then log else record log { lines = line ∷ log.lines }
