-- ===== src/Controller/Transaction/Names.antt =====
-- An artifact's name cannot leave the directory of the candidate.
use smart_fec_tunnel.Base.{
  ◌≡◌, refl, sym, ◌∙◌, Bool, true, false, ◌&&◌, ◌||◌, ◌==◌, none, some, if◌then◌else◌, Bool-cases,
  inl, inr, List, [], ◌∷◌, arith,
}
use smart_fec_tunnel.Controller.Transaction.{
  Name, Component, root_dir, cur_dir, parent_dir, normal, split_slash, later_components, is_dot,
  is_absolute, first_components, components, is_single_normal, is_plain_file_name, entry_of,
}

abbrev is_dot_dot : Name → Bool
is_dot_dot [] = false
is_dot_dot (c ∷ []) = false
is_dot_dot (c ∷ d ∷ []) = c == b'.' && d == b'.'
is_dot_dot (c ∷ d ∷ e ∷ part) = false

abbrev is_blank : Name → Bool
is_blank [] = true
is_blank (c ∷ cs) = false

abbrev parent : List Name → List Name
parent [] = []
parent (d ∷ dirs) = dirs

-- How the system follows a path from a directory, innermost name first: empty parts and `.` stay,
-- `..` goes up.
unfoldable pub walk : List Name → List Name → List Name
walk dirs [] = dirs
walk dirs (part ∷ parts) =
    walk
      (if is_blank part || is_dot part
        then dirs
        else if is_dot_dot part
        then parent dirs
        else part ∷ dirs)
      parts

walk-nothing : (dirs parts : List Name) → later_components parts ≡ [] → walk dirs parts ≡ dirs
unfolding walk later_components
walk-nothing dirs [] h = refl
walk-nothing dirs ([] ∷ parts) h = walk-nothing dirs parts h
walk-nothing dirs ((c ∷ []) ∷ parts) h = ground (arith, walk-nothing dirs parts)
walk-nothing dirs ((c ∷ d ∷ []) ∷ parts) h = ground (arith, walk-nothing dirs parts)
walk-nothing dirs ((c ∷ d ∷ e ∷ part) ∷ parts) h = absurd (ground arith)

walk-normal :
    (dirs parts : List Name) (n : Name)
    → later_components parts ≡ normal n ∷ []
    → walk dirs parts ≡ n ∷ dirs
unfolding walk later_components
walk-normal dirs [] n h = absurd (ground arith)
walk-normal dirs ([] ∷ parts) n h = walk-normal dirs parts n h
walk-normal dirs ((c ∷ []) ∷ parts) n h =
    ground (arith, walk-normal dirs parts n, walk-nothing ((c ∷ []) ∷ dirs) parts)
walk-normal dirs ((c ∷ d ∷ []) ∷ parts) n h =
    ground (arith, walk-normal dirs parts n, walk-nothing ((c ∷ d ∷ []) ∷ dirs) parts)
walk-normal dirs ((c ∷ d ∷ e ∷ part) ∷ parts) n h =
    ground (arith, walk-nothing ((c ∷ d ∷ e ∷ part) ∷ dirs) parts)

if_false : {A : Type 0} (b : Bool) (x y : A) → b ≡ false → (if b then x else y) ≡ y
if_false b x y h = rw h refl

single-entry :
    (cs : List Component) (id : Name)
    → (elim cs [ (normal n ∷ []) ↦ some n | _ ↦ none ]) ≡ some id
    → cs ≡ normal id ∷ []
single-entry [] id h = cc
single-entry (normal n ∷ []) id h = ground arith
single-entry (normal n ∷ c ∷ cs) id h = cc
single-entry (parent_dir ∷ cs) id h = cc
single-entry (root_dir ∷ cs) id h = cc
single-entry (cur_dir ∷ cs) id h = cc

single-normal :
    (cs : List Component) → is_single_normal cs ≡ true → (n : Name) × (cs ≡ normal n ∷ [])
single-normal [] h = cc
single-normal (normal n ∷ []) h = (n, refl)
single-normal (normal n ∷ c ∷ cs) h = cc
single-normal (parent_dir ∷ cs) h = cc
single-normal (root_dir ∷ cs) h = cc
single-normal (cur_dir ∷ cs) h = cc

first_components_relative :
    (absolute : Bool) (parts : List Name) (n : Name)
    → first_components absolute parts ≡ normal n ∷ []
    → (absolute ≡ false) × (later_components parts ≡ normal n ∷ [])
first_components_relative absolute [] n h = absurd (ground arith)
first_components_relative true (part ∷ parts) n h = absurd (ground arith)
first_components_relative false (part ∷ parts) n h = elim (Bool-cases (is_dot part)) [
  | inl dot ↦ absurd (ground arith)
  | inr other ↦ (refl, sym (if_false (is_dot part) _ _ other) ∙ h)
]

-- The path leads from a directory to this member of it.
abbrev pub LeadsTo : Name → Name → Type 0
LeadsTo path id = (is_absolute path ≡ false) × (walk [] (split_slash path) ≡ id ∷ [])

pub entry_of-LeadsTo : (path id : Name) → entry_of path ≡ some id → LeadsTo path id
unfolding entry_of
entry_of-LeadsTo path id h =
    let e : components path ≡ normal id ∷ [] = single-entry (components path) id h in
    let (relative, later) = first_components_relative (is_absolute path) (split_slash path) id e in
    (relative, walk-normal [] (split_slash path) id later)

-- A name that `stage` and `begin` accept is a relative path that the system resolves to a direct
-- member of the directory it is looked up in, and to nothing above or below.
pub plain-walk :
    (name : Name) (dirs : List Name)
    → is_plain_file_name name ≡ true
    → (is_absolute name ≡ false) × ((n : Name) × (walk dirs (split_slash name) ≡ n ∷ dirs))
unfolding is_plain_file_name
plain-walk name dirs h =
    let (n, e) = single-normal (components name) h in
    let (relative, later) = first_components_relative (is_absolute name) (split_slash name) n e in
    (relative, (n, walk-normal dirs (split_slash name) n later))
