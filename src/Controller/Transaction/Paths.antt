-- ===== src/Controller/Transaction/Paths.antt =====
-- Names of files as the standard library takes them apart: `Path::components` on Unix, and
-- `is_plain_file_name` of src/controller.rs.
use smart_fec_tunnel.Base.{
  ℕ, Bool, true, false, ◌&&◌, ◌||◌, ◌==◌, if◌then◌else◌, Option, none, some, List, [], ◌∷◌, ◌++◌,
}

abbrev pub Name : Type 0
Name = List ℕ

-- Path::components, on Unix.
pub data Component : Type 0 where
  root_dir cur_dir parent_dir : Component
  normal : Name → Component

unfoldable pub split_slash : Name → List Name
split_slash [] = [] ∷ []
split_slash (c ∷ cs) = elim (split_slash cs) [
  | [] ↦ []
  | part ∷ parts ↦ if c == b'/' then [] ∷ part ∷ parts else (c ∷ part) ∷ parts
]

-- A part that is not at the start of the path.
abbrev pub later_component : Name → List Component
later_component [] = []
later_component (c ∷ []) = if c == b'.' then [] else normal (c ∷ []) ∷ []
later_component (c ∷ d ∷ []) =
    if c == b'.' && d == b'.' then parent_dir ∷ [] else normal (c ∷ d ∷ []) ∷ []
later_component (c ∷ d ∷ e ∷ part) = normal (c ∷ d ∷ e ∷ part) ∷ []

unfoldable pub later_components : List Name → List Component
later_components [] = []
later_components (part ∷ parts) = later_component part ++ later_components parts

-- `.` counts at the start of a path only.
abbrev pub is_dot : Name → Bool
is_dot [] = false
is_dot (c ∷ []) = c == b'.'
is_dot (c ∷ d ∷ part) = false

abbrev pub is_absolute : Name → Bool
is_absolute [] = false
is_absolute (c ∷ cs) = c == b'/'

abbrev pub first_components : Bool → List Name → List Component
first_components absolute [] = []
first_components true (part ∷ parts) = root_dir ∷ later_components parts
first_components false (part ∷ parts) =
    if is_dot part then cur_dir ∷ later_components parts else later_components (part ∷ parts)

unfoldable pub components : Name → List Component
unfolding split_slash later_components
components path = first_components (is_absolute path) (split_slash path)

abbrev pub is_single_normal : List Component → Bool
is_single_normal (normal n ∷ []) = true
is_single_normal (normal n ∷ c ∷ cs) = false
is_single_normal (root_dir ∷ cs) = false
is_single_normal (cur_dir ∷ cs) = false
is_single_normal (parent_dir ∷ cs) = false
is_single_normal [] = false

-- The empty name has no components.
unfoldable pub is_plain_file_name : Name → Bool
unfolding components
is_plain_file_name value = is_single_normal (components value)

unfoldable pub has_slash : Name → Bool
has_slash [] = false
has_slash (c ∷ cs) = c == b'/' || has_slash cs

-- The entry of a directory that the path of a plain name leads to: a slash or `/.` behind the name
-- changes nothing. `begin` lets no other previous revision through.
unfoldable pub entry_of : Name → Option Name
unfolding components
entry_of path = elim (components path) [ (normal n ∷ []) ↦ some n | _ ↦ none ]
