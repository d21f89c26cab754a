-- ===== src/CleanPath.antt =====
-- `clean_path` of src/host/inventory.rs, and the calls of `std::path::Path` that the checks of
-- identities use. Paths are Unix paths: components stand between the bytes `/`, and an empty
-- component or `.` is not one.
pub mod Normal
pub mod Idempotent
use mathlib.Core.List.{reverse}
use komizo.Prelude.{
  ◌≡◌, refl, Bool, true, false, Text, text_eq, codes, split, join, List, [], ◌∷◌, ◌++◌, Option,
  none, some, if◌then◌else◌, ◌==◌, ◌||◌, is_empty,
}

abbrev pub slash : Text
slash = codes "/"

abbrev pub dot : Text
dot = codes "."

abbrev pub dot_dot : Text
dot_dot = codes ".."

-- `Path::is_absolute`
unfoldable pub is_absolute : Text → Bool
is_absolute [] = false
is_absolute (c ∷ s) = c == b'/'

-- A part between slashes that is no component.
unfoldable pub is_blank : Text → Bool
unfolding text_eq
is_blank part = is_empty part || text_eq part dot

unfoldable pub keep_components : List Text → List Text
unfolding is_blank
keep_components [] = []
keep_components (p ∷ ps) = let rest = keep_components ps in if is_blank p then rest else p ∷ rest

-- `Path::components`, without the root.
unfoldable pub components : Text → List Text
unfolding keep_components split
components s = keep_components (split b'/' s)

-- The arm `Component::ParentDir`, on the stack of the parts so far, last first.
unfoldable pub parent : Bool → List Text → List Text
parent absolute [] = if absolute then [] else dot_dot ∷ []
parent absolute (top ∷ rest) =
    if text_eq top dot_dot then (if absolute then top ∷ rest else dot_dot ∷ top ∷ rest) else rest

-- The loop over the components.
unfoldable pub walk : Bool → List Text → List Text → List Text
unfolding parent
walk absolute stack [] = reverse stack
walk absolute stack (p ∷ ps) =
    walk absolute (if text_eq p dot_dot then parent absolute stack else p ∷ stack) ps

unfoldable pub print : Bool → List Text → Text
print true parts = slash ++ join b'/' parts
print false [] = dot
print false (p ∷ ps) = join b'/' (p ∷ ps)

unfoldable pub clean_path : Text → Text
unfolding is_absolute components walk print join
clean_path [] = dot
clean_path (c ∷ s) =
    print (is_absolute (c ∷ s)) (walk (is_absolute (c ∷ s)) [] (components (c ∷ s)))

last_part : List Text → Option Text
unfolding text_eq
last_part [] = none
last_part (p ∷ []) = if text_eq p dot_dot then none else some p
last_part (p ∷ q ∷ ps) = last_part (q ∷ ps)

-- `Path::file_name`
unfoldable pub file_name : Text → Option Text
unfolding components last_part
file_name s = last_part (components s)

dots_cleaned : clean_path (codes "/srv/./a//b/../c") ≡ codes "/srv/a/c"
unfolding clean_path
dots_cleaned = refl

above_root : clean_path (codes "/../../etc") ≡ codes "/etc"
unfolding clean_path
above_root = refl

relative_above : clean_path (codes "a/../../b/") ≡ codes "../b"
unfolding clean_path
relative_above = refl

name_of_route : file_name (codes "/srv/proxy/routes/a.caddy") ≡ some (codes "a.caddy")
unfolding file_name
name_of_route = refl
