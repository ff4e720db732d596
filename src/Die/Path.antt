-- ===== src/Die/Path.antt =====
-- `normalizePath` (backend/die/implementation.go), with `path.Clean` for paths that do not begin with
-- a slash: empty and `.` segments go, `..` takes back the segment before it, or stays at the front.
pub mod Canonical
use software_engineering_pla.Shared.{
  ℕ, Bool, true, false, ◌&&◌, ◌||◌, List, [], ◌∷◌, ◌++◌, map, ◌==◌, if◌then◌else◌,
}
use software_engineering_pla.Die.Model.{Result, ok, err, Error, error, invalid_input}
use software_engineering_pla.Die.Text.{Text, text, text_eq, is_empty, contains_byte, has_prefix}

abbrev pub slash : ℕ
slash = b'/'

-- `strings.ReplaceAll(v, "\\", "/")`
unfoldable pub replace_backslashes : Text → Text
replace_backslashes v = map (λ c. if c == 92 then slash else c) v

-- the text up to each slash; never empty
unfoldable pub split_from : Text → Text → List Text
split_from seen [] = seen ∷ []
split_from seen (c ∷ v) =
    let ended = split_from [] v in
    if c == slash then seen ∷ ended else split_from (seen ++ c ∷ []) v

abbrev pub dot : Text
dot = b'.' ∷ []

abbrev pub dot_dot : Text
dot_dot = b'.' ∷ b'.' ∷ []

abbrev pub pop : List Text → List Text
pop [] = dot_dot ∷ []
pop (top ∷ kept) = if text_eq top dot_dot then dot_dot ∷ top ∷ kept else kept

-- one segment after those on the stack, the last one first
abbrev pub clean_segment : List Text → Text → List Text
clean_segment kept segment =
    if is_empty segment || text_eq segment dot
    then kept
    else if text_eq segment dot_dot
    then pop kept
    else segment ∷ kept

unfoldable pub clean_segments : List Text → List Text → List Text
clean_segments kept [] = kept
clean_segments kept (s ∷ segments) = clean_segments (clean_segment kept s) segments

-- the segments of a stack, in order, with slashes between them
abbrev pub join_onto : List Text → Text → Text
join_onto [] out = out
join_onto (s ∷ kept) out = join_onto kept (s ++ slash ∷ out)

abbrev pub join_stack : List Text → Text
join_stack [] = dot
join_stack (s ∷ kept) = join_onto kept s

unfoldable pub clean : Text → Text
unfolding split_from clean_segments
clean v = join_stack (clean_segments [] (split_from [] v))

abbrev unsafe : Result Text
unsafe = err (error invalid_input "unsafe_repository_path")

unfoldable pub normalize_path : Text → Result Text
unfolding replace_backslashes
normalize_path v =
    if is_empty v
    then ok []
    else let w = replace_backslashes v in
      if has_prefix w (slash ∷ []) || (contains_byte b':' w || contains_byte 0 w)
      then unsafe
      else let c = clean w in
        if text_eq c dot
        then ok []
        else if text_eq c dot_dot || has_prefix c (dot_dot ++ slash ∷ [])
        then unsafe
        else ok c
