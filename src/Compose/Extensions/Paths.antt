-- ===== src/Compose/Extensions/Paths.antt =====
-- Go's path/filepath on Unix, as pkg/compose calls it.
use orcinus.Prelude.{
  trim_right, nat_eq, Bool, true, false, ◌||◌, String, Option, none, some, List, [], ◌∷◌, ◌==◌, ◌⊕◌,
  if◌then◌else◌,
}
use orcinus.Prelude.{has_prefix, split_at, join}

unfoldable pub is_abs : String → Bool
unfolding has_prefix
is_abs p = has_prefix p "/"

-- One component on the reversed stack of those before it, as `filepath.Clean` treats it.
unfoldable pub push : Bool → String → List String → List String
push rooted c stack =
    if c == "" || c == "."
    then stack
    else (if c == ".."
        then elim stack [
          | [] ↦ if rooted then [] else ".." ∷ []
          | top ∷ below ↦ if top == ".." then ".." ∷ top ∷ below else below
        ]
        else c ∷ stack)

unfoldable pub clean_parts : Bool → List String → List String → List String
clean_parts rooted [] stack = stack
clean_parts rooted (c ∷ cs) stack = clean_parts rooted cs (push rooted c stack)

abbrev reversed : List String → List String → List String
reversed [] out = out
reversed (s ∷ ss) out = reversed ss (s ∷ out)

unfoldable pub cleaned : Bool → String → String
cleaned true body = "/" ⊕ body
cleaned false body = if body == "" then "." else body

unfoldable pub clean : String → String
clean p =
    let rooted = is_abs p in
    cleaned rooted (join (reversed (clean_parts rooted (split_at b'/' p) []) []) "/")

-- `filepath.Join` of two elements.
unfoldable pub join_path : String → String → String
join_path a b =
    if a == ""
    then (if b == "" then "" else clean b)
    else (if b == "" then clean a else clean (a ⊕ "/" ⊕ b))

abbrev in_directory : Option String → String → Option String
in_directory none p = none
in_directory (some d) p = some (join_path d p)

-- `filepath.Abs`, for the directory that `os.Getwd` returns.
unfoldable pub abs : Option String → String → Option String
abs cwd p = if is_abs p then some (clean p) else in_directory cwd p

-- The component behind the last slash, once the trailing slashes are off.
abbrev last : List String → String
last [] = ""
last (s ∷ []) = s
last (s ∷ t ∷ ts) = last (t ∷ ts)

-- `filepath.Base`.
unfoldable pub base : String → String
base p =
    if p == ""
    then "."
    else (let name = last (split_at b'/' (trim_right (λ c. nat_eq c b'/') p)) in
        if name == "" then "/" else name)
