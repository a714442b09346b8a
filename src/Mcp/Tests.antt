-- ===== src/Mcp/Tests.antt =====
-- A session of four lines with a server of the built-in tools.
use orcinus.Prelude.{
  ℕ, true, false, ◌||◌, String, none, some, List, [], ◌∷◌, ◌≡◌, refl, ◌==◌, if◌then◌else◌, map,
}
use orcinus.Prelude.{trim_space, byte_length}
use orcinus.Prelude.Dict.{Dict}
use orcinus.Prelude.Result.{Result, ok}
use orcinus.Value.{Value, null}
use orcinus.Mcp.{Surroundings, Tool, builtin_tools, Server, serve, Input, not_read}
use orcinus.Mcp.Sessions.{ReadersKeep, serve-Keeps, Served, serve-Answers}

-- A line calls the tool that it names; a line that begins a comment is no request.
abbrev surroundings : Surroundings
surroundings = record {
  request = λ line.
      if line == "#"
      then none
      else some (record {
        id = if line == "list_nodes" then "" else line;
        method = "tools/call";
        params = line;
      });
  call = λ params. some (params, []);
  uri = λ params. none;
  sends = λ r. true;
  version = "test";
  skills = [];
}

-- The state counts the objects on the cluster, and a tool that writes removes them.
abbrev handler : String → Dict Value → ℕ → ℕ × Result String String
handler name args n =
    if name == "remove_project" || name == "deploy" then (0, ok "done") else (n, ok "read")

abbrev tools : List (Tool ℕ)
tools = builtin_tools ℕ (λ name. null) handler

abbrev server : Server ℕ
server = record { allow_write = false; tools = tools }

abbrev lines : List String
lines = "#" ∷ "remove_project" ∷ "list_nodes" ∷ "list_pods" ∷ []

-- The reader fails behind the last line.
abbrev input : Input
input = record { lines = lines; failure = some "reset" }

readers : ReadersKeep ℕ (λ n. n ≡ 3) tools
unfolding builtin_tools
readers = (
  λ e args s h. h,
  (
    λ e args s h. h,
    (
      λ e args s h. h,
      (
        λ e args s h. h,
        (
          λ e args s h. h,
          (
            λ e args s h. h,
            (
              λ e args s h. h,
              (
                λ e args s h. h,
                (
                  λ e args s h. h,
                  (
                    λ e. absurd (cc),
                    (
                      λ e. absurd (cc),
                      (
                        λ e. absurd (cc),
                        (λ e. absurd (cc), (λ e. absurd (cc), (λ e. absurd (cc), tt))),
                      ),
                    ),
                  ),
                ),
              ),
            ),
          ),
        ),
      ),
    ),
  ),
)

serve-Keeps_example : (serve ℕ surroundings server input 3).0 ≡ 3
serve-Keeps_example = serve-Keeps ℕ (λ n. n ≡ 3) surroundings server input 3 refl readers refl

answered :
    map (λ r. r.id) (serve ℕ surroundings server input 3).1 ≡ "remove_project" ∷ "list_pods" ∷ []
unfolding serve trim_space builtin_tools byte_length
answered = refl

read_failure : (serve ℕ surroundings server input 3).2 ≡ some (not_read "reset")
unfolding serve trim_space builtin_tools byte_length
read_failure = refl

serve-Answers_example :
    Served ℕ surroundings server input.failure input.lines (serve ℕ surroundings server input 3)
serve-Answers_example = serve-Answers ℕ surroundings server input 3 (λ r. refl)
