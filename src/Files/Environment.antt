-- ===== src/Files/Environment.antt =====
-- The environment of a process, and paths from its variables.
use keyvisor.Wire.Utf8.{codes}
use keyvisor.Files.Paths.{FilePath}
use keyvisor.Wire.Endian.{Bytes}
use keyvisor.Prelude.{
  Bool, true, false, ◌||◌, Option, none, some, [], ◌∷◌, ◌++◌, ◌==◌, if◌then◌else◌, is_empty,
  bytes_eq,
}

-- `env::var_os`
abbrev pub Environment : Type 0
Environment = Bytes → Option Bytes

-- `.filter(|value| !value.is_empty())`
unfoldable pub set_var : Environment → Bytes → Option Bytes
set_var environment name = elim (environment name) [
  | none ↦ none
  | some value ↦ if is_empty value then none else some value
]

-- The components of a path's text; an empty one and `.` are none.
abbrev pub with_component : Bytes → FilePath → FilePath
with_component component rest =
    if is_empty component || bytes_eq component (codes ".") then rest else component ∷ rest

components_from : Bytes → Bytes → FilePath
components_from component [] = with_component component []
components_from component (c ∷ s) = elim (c == b'/') [
  | true ↦ with_component component (components_from [] s)
  | false ↦ components_from (component ++ c ∷ []) s
]

unfoldable pub components : Bytes → FilePath
unfolding components_from
components text = components_from [] text

-- `path.join(text)`, for a text that is no absolute path.
unfoldable pub join_path : FilePath → Bytes → FilePath
unfolding components
join_path path text = path ++ components text

unfoldable pub graphical_session_available : Environment → Bool
unfolding set_var
graphical_session_available environment =
    (elim (set_var environment (codes "WAYLAND_DISPLAY")) [ none ↦ false | some value ↦ true ])
    || (elim (set_var environment (codes "DISPLAY")) [ none ↦ false | some value ↦ true ])
