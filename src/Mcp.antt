-- ===== src/Mcp.antt =====
-- The tool server: the session of pkg/mcp/mcp.go and the table of tools of pkg/mcp/tools.go.
pub mod Sessions
mod Tests
use orcinus.Prelude.{
  ltb, leb, ℕ, zero, suc, ◌+◌, ◌-◌, ◌≤◌, ◌<◌, Bool, true, false, ◌&&◌, ◌||◌, not, String, Option,
  none, some, List, [], ◌∷◌, ◌++◌, ◌≡◌, ◌≢◌, refl, sym, ap, ◌∙◌, ◌↔◌, ◌⊎◌, inl, inr, arith, ◌==◌,
  eq_iff, eq_refl, ◌⊕◌, if◌then◌else◌, Bool-cases, Option-cases, All, Some, any, contains, length,
  is_nil, append_assoc, append-nil, map,
}
use orcinus.Prelude.{trim_space, cut_prefix, byte_length}
use orcinus.Prelude.Dict.{Dict}
use orcinus.Prelude.Result.{Result, ok, err}
use orcinus.Value.{Value, text, bool, list, list_of, object, object_of}

-- A request as the JSON decoder fills it: the raw identifier, empty if there is none, and the raw
-- parameters.
pub record RpcRequest : Type 0 where
  pub id : String
  pub method : String
  pub params : String

pub data RpcError : Type 0 where
  invalid_params : RpcError
  unknown_tool : String → RpcError
  unknown_resource : String → RpcError
  method_not_found : String → RpcError

pub record RpcResponse : Type 0 where
  pub id : String
  pub outcome : Result RpcError Value

-- The input: its lines, the carriage return of a line included, and the reader's error, if it is not
-- the end of the file that ends the input.
pub record Input : Type 0 where
  pub lines : List String
  pub failure : Option String

-- The errors of `Serve`.
pub data ServeError : Type 0 where
  not_sent : ServeError
  line_too_long : ServeError
  not_read : String → ServeError

abbrev pub read_error : Option String → Option ServeError
read_error none = none
read_error (some e) = some (not_read e)

-- The size of the scanner's buffer, in bytes, and whether it holds a line with the byte behind it.
abbrev pub max_line : ℕ
max_line = 16777216

unfoldable pub fits : String → Bool
unfolding byte_length
fits line = ltb (byte_length line) max_line

-- A card of package skills.
pub record Skill : Type 0 where
  pub name : String
  pub description : String
  pub body : String

-- What the server calls: the JSON decoder on a line, on the parameters of a call and on those of a
-- resource, the encoder of a response with the writer behind it, and the embedded data.
pub record Surroundings : Type 0 where
  pub request : String → Option RpcRequest
  pub call : String → Option (String × Dict Value)
  pub uri : String → Option String
  pub sends : RpcResponse → Bool
  pub version : String
  pub skills : List Skill

abbrev fields : Dict Value → Value
fields m = object (object_of m)

abbrev values : List Value → Value
values vs = list (list_of vs)

unfoldable pub tool_result : String → Bool → Value
tool_result t is_error = fields (
    ("content", values (fields (("type", text "text") ∷ ("text", text t) ∷ []) ∷ []))
    ∷ ("isError", bool is_error)
    ∷ [])

unfoldable pub skill_resources : List Skill → List Value
skill_resources [] = []
skill_resources (c ∷ cs) =
    fields (
      ("uri", text ("orcinus://skills/" ⊕ c.name))
      ∷ ("name", text c.name)
      ∷ ("description", text c.description)
      ∷ ("mimeType", text "text/markdown")
      ∷ [])
    ∷ skill_resources cs

unfoldable pub skill_named : String → List Skill → Option Skill
skill_named name [] = none
skill_named name (c ∷ cs) =
    let rest = skill_named name cs in if c.name == name then some c else rest

-- `strings.TrimPrefix`.
abbrev trim_prefix : String → String → String
trim_prefix s p = elim (cut_prefix s p) [ none ↦ s | some rest ↦ rest ]

abbrev contents_of : String → Skill → Value
contents_of uri c = fields (
    (
      "contents",
      values (
          fields (
            ("uri", text uri)
            ∷ ("mimeType", text "text/markdown")
            ∷ ("text", text ("# " ⊕ c.name ⊕ " — " ⊕ c.description ⊕ "\n\n" ⊕ c.body))
            ∷ [])
          ∷ []),
    )
    ∷ [])

abbrev read_uri : List Skill → Option String → Result RpcError Value
read_uri skills none = err invalid_params
read_uri skills (some uri) = elim (skill_named (trim_prefix uri "orcinus://skills/") skills) [
  | none ↦ err (unknown_resource uri)
  | some c ↦ ok (contents_of uri c)
]

module _ (S : Type 0) where
  -- A tool, whose handler changes the state and returns a text or an error.
  pub record Tool : Type 0 where
    pub name : String
    pub description : String
    pub schema : Value
    pub write : Bool
    pub handle : Dict Value → S → S × Result String String

  module _ (schema : String → Value)
      (handle : String → Dict Value → S → S × Result String String) where
    abbrev tool_of : String → String → Bool → Tool
    tool_of name description write = record {
      name = name;
      description = description;
      schema = schema name;
      write = write;
      handle = handle name;
    }

    -- `builtinTools`, by their handlers and schemas.
    unfoldable pub builtin_tools : List Tool
    builtin_tools =
        tool_of "orcinus_skills"
          "Learn how to use orcinus. Returns a recipe by name, or the catalog if no name." false
        ∷ tool_of "version" "orcinus build and component versions." false
        ∷ tool_of "convert"
            "Render a docker-compose/manifest source to Kubernetes YAML without applying (dry-run)."
            false
        ∷ tool_of "list_projects" "List deployed orcinus projects and readiness." false
        ∷ tool_of "list_pods" "List a project's pods (status, node)." false
        ∷ tool_of "project_config"
            "Read a deployed project's live configuration; export it as Kubernetes manifests or as an orcinus.yml."
            false
        ∷ tool_of "list_nodes" "List cluster nodes (status, roles, version)." false
        ∷ tool_of "list_plugins" "List available cluster add-on plugins and install state." false
        ∷ tool_of "cluster_status" "Cluster name, state, runtime and nodes." false
        ∷ tool_of "deploy" "Convert + apply a compose/manifest source to the cluster." true
        ∷ tool_of "remove_project" "Remove all resources of a project." true
        ∷ tool_of "scale" "Scale a service to N replicas." true
        ∷ tool_of "restart" "Restart a service's pods (rolling; the spec is unchanged)." true
        ∷ tool_of "rollback" "Roll a service back to its previous revision." true
        ∷ tool_of "create_registry_secret"
            "Create a private-registry pull secret (verifies the login first)." true
        ∷ []

  pub record Server : Type 0 where
    pub allow_write : Bool
    pub tools : List Tool

  module _ (x : Surroundings) (server : Server) where
    abbrev describe_tool : Tool → Value
    describe_tool t = fields (
        ("name", text t.name)
        ∷ (
          "description",
          text (if t.write then t.description ⊕ " (mutates the cluster)" else t.description),
        )
        ∷ ("inputSchema", t.schema)
        ∷ [])

    -- `toolDefs`.
    unfoldable pub tool_defs : List Tool → List Value
    tool_defs [] = []
    tool_defs (t ∷ ts) =
        let rest = tool_defs ts in
        if t.write && not server.allow_write then rest else describe_tool t ∷ rest

    abbrev pub Answer : Type 0
    Answer = S × Result RpcError Value

    abbrev result_of : S × Result String String → Answer
    result_of (s, ok t) = (s, ok (tool_result t false))
    result_of (s, err e) = (s, ok (tool_result ("error: " ⊕ e) true))

    unfoldable pub run_tool : Tool → Dict Value → S → Answer
    unfolding tool_result
    run_tool t args s =
        if t.write && not server.allow_write
        then (
          s,
          ok (
              tool_result
                ("tool " ⊕ t.name
                  ⊕ " is disabled (start `orcinus mcp --allow-write` to enable cluster changes)")
                true),
        )
        else result_of (t.handle args s)

    -- The first tool of the name.
    unfoldable pub call_named : List Tool → String → Dict Value → S → Answer
    unfolding run_tool
    call_named [] name args s = (s, err (unknown_tool name))
    call_named (t ∷ ts) name args s =
        let rest = call_named ts name args s in if t.name == name then run_tool t args s else rest

    -- `callTool`.
    unfoldable pub call_tool : Option (String × Dict Value) → S → Answer
    unfolding call_named
    call_tool none s = (s, err invalid_params)
    call_tool (some (name, args)) s = call_named server.tools name args s

    abbrev greeting : Value
    greeting = fields (
        ("protocolVersion", text "2024-11-05")
        ∷ ("capabilities", fields (("tools", fields []) ∷ ("resources", fields []) ∷ []))
        ∷ ("serverInfo", fields (("name", text "orcinus") ∷ ("version", text x.version) ∷ []))
        ∷ [])

    -- `dispatch`.
    unfoldable pub dispatch : RpcRequest → S → Answer
    unfolding call_tool tool_defs skill_resources skill_named cut_prefix
    dispatch req s =
        if req.method == "initialize"
        then (s, ok greeting)
        else if req.method == "ping"
        then (s, ok (fields []))
        else if req.method == "tools/list"
        then (s, ok (fields (("tools", values (tool_defs server.tools)) ∷ [])))
        else if req.method == "tools/call"
        then call_tool (x.call req.params) s
        else if req.method == "resources/list"
        then (s, ok (fields (("resources", values (skill_resources x.skills)) ∷ [])))
        else if req.method == "resources/read"
        then (s, read_uri x.skills (x.uri req.params))
        else (s, err (method_not_found req.method))

    -- The state, the responses, and the error that `Serve` returns, if any.
    abbrev pub Session : Type 0
    Session = S × List RpcResponse × Option ServeError

    abbrev pub after_response : RpcResponse → Session → Session
    after_response r (s, rs, failure) = (s, r ∷ rs, failure)

    -- A line that is blank or no request is skipped.
    unfoldable pub request_of : String → Option RpcRequest
    unfolding trim_space
    request_of line = if trim_space line == "" then none else x.request (trim_space line)

    -- A notification has no response.
    unfoldable pub reply : RpcRequest → Answer → Session → Session
    reply req (s, outcome) rest =
        let response : RpcResponse = record { id = req.id; outcome = outcome } in
        if req.id == ""
        then rest
        else if x.sends response
        then after_response response rest
        else (s, [], some not_sent)

    unfoldable pub on_request : (S → Session) → Option RpcRequest → S → Session
    unfolding reply dispatch
    on_request later none s = later s
    on_request later (some req) s = reply req (dispatch req s) (later (dispatch req s).0)

    -- The loop over the lines, and the scanner's error: that of a line that does not fit its buffer, or
    -- that of the reader behind the last line.
    unfoldable pub serve_lines : Option String → List String → S → Session
    unfolding on_request request_of fits
    serve_lines failure [] s = (s, [], read_error failure)
    serve_lines failure (line ∷ lines) s =
        let rest = on_request (λ s'. serve_lines failure lines s') (request_of line) s in
        if fits line then rest else (s, [], some line_too_long)

    -- `Serve`.
    unfoldable pub serve : Input → S → Session
    unfolding serve_lines
    serve input s = serve_lines input.failure input.lines s
