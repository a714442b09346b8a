-- ===== src/Mcp/Sessions.antt =====
-- What a session of the tool server may change, and what it answers.
use orcinus.Prelude.{
  Bool, true, false, String, Option, none, some, List, [], ◌∷◌, ◌≡◌, refl, ap, inl, inr, ◌==◌, ◌++◌,
  ◌⊎◌, ◌≤◌, ◌<◌, ltb, arith, sym, if◌then◌else◌, Bool-cases, All, map,
}
use orcinus.Prelude.{subst, byte_length}
use orcinus.Prelude.Dict.{Dict}
use orcinus.Prelude.Result.{Result, ok, err}
use orcinus.Value.{Value}
use orcinus.Mcp.{
  RpcRequest, RpcResponse, Surroundings, Tool, Server, Answer, result_of, run_tool, call_named,
  call_tool, dispatch, Session, request_of, reply, on_request, serve, serve_lines, Input,
  ServeError, line_too_long, read_error, max_line, fits,
}

module _ (S : Type 0) (P : S → Type 0) where
  -- The handlers of the tools that are not marked as writing keep what holds of the state.
  abbrev pub ReadersKeep : List (Tool S) → Type 0
  ReadersKeep tools =
      All (λ t. t.write ≡ false → (args : Dict Value) → (s : S) → P s → P (t.handle args s).0) tools

  module _ (x : Surroundings) (server : Server S) (closed : server.allow_write ≡ false)
      (readers : ReadersKeep server.tools) where
    by_test : {A : Type 0} (b : Bool) (p q : S × A) → P p.0 → P q.0 → P (if b then p else q).0
    by_test true p q h k = h
    by_test false p q h k = k

    result_of-Keeps : (p : S × Result String String) → P p.0 → P (result_of S x server p).0
    result_of-Keeps (s, ok t) h = h
    result_of-Keeps (s, err e) h = h

    run_tool-Keeps :
        (t : Tool S) (args : Dict Value) (s : S)
        → (t.write ≡ false → P (t.handle args s).0)
        → P s
        → P (run_tool S x server t args s).0
    unfolding run_tool
    run_tool-Keeps t args s keeps h = elim (Bool-cases t.write) [
      | inl e ↦ rw (e, closed) h
      | inr e ↦ rw e (result_of-Keeps (t.handle args s) (keeps e))
    ]

    call_named-Keeps :
        (ts : List (Tool S)) (name : String) (args : Dict Value) (s : S)
        → ReadersKeep ts
        → P s
        → P (call_named S x server ts name args s).0
    unfolding call_named
    call_named-Keeps [] name args s r h = h
    call_named-Keeps (t ∷ ts) name args s (r, rs) h =
        by_test (t.name == name) _ _ (run_tool-Keeps t args s (λ e. r e args s h) h)
          (call_named-Keeps ts name args s rs h)

    call_tool-Keeps :
        (call : Option (String × Dict Value)) (s : S) → P s → P (call_tool S x server call s).0
    unfolding call_tool
    call_tool-Keeps none s h = h
    call_tool-Keeps (some (name, args)) s h = call_named-Keeps server.tools name args s readers h

    dispatch-Keeps : (req : RpcRequest) (s : S) → P s → P (dispatch S x server req s).0
    unfolding dispatch
    dispatch-Keeps req s h = by_test (req.method == "initialize") _ _ h (
        by_test (req.method == "ping") _ _ h (
          by_test (req.method == "tools/list") _ _ h (
            by_test (req.method == "tools/call") _ _ (call_tool-Keeps (x.call req.params) s h) (
              by_test (req.method == "resources/list") _ _ h
                (by_test (req.method == "resources/read") _ _ h h)))))

    reply-Keeps :
        (req : RpcRequest) (a : Answer S x server) (rest : Session S x server)
        → P a.0
        → P rest.0
        → P (reply S x server req a rest).0
    unfolding reply
    reply-Keeps req (s, outcome) rest h k = elim (Bool-cases (req.id == "")) [
      | inl e ↦ simp e k
      | inr e ↦ elim (Bool-cases (x.sends (record { id = req.id; outcome = outcome }))) [
        | inl f ↦ simp (e, f) k
        | inr f ↦ simp (e, f) h
      ]
    ]

    on_request-Keeps :
        (later : S → Session S x server) (found : Option RpcRequest) (s : S)
        → ((s' : S) → P s' → P (later s').0)
        → P s
        → P (on_request S x server later found s).0
    unfolding on_request
    on_request-Keeps later none s l h = l s h
    on_request-Keeps later (some req) s l h =
        reply-Keeps req (dispatch S x server req s) _ (dispatch-Keeps req s h)
          (l (dispatch S x server req s).0 (dispatch-Keeps req s h))

    serve_lines-Keeps :
        (failure : Option String) (lines : List String) (s : S)
        → P s
        → P (serve_lines S x server failure lines s).0
    unfolding serve_lines
    serve_lines-Keeps failure [] s h = h
    serve_lines-Keeps failure (line ∷ lines) s h = elim (Bool-cases (fits line)) [
      | inr e ↦ rw e h
      | inl e ↦ rw e (
          on_request-Keeps (λ s'. serve_lines S x server failure lines s')
            (request_of S x server line) s (serve_lines-Keeps failure lines) h)
    ]

-- Started without --allow-write, the server changes nothing but through the handlers of the tools
-- that are not marked as writing: what these keep, for any request, holds at the end of every
-- session that it held at the beginning of.
pub serve-Keeps :
    (S : Type 0) (P : S → Type 0) (x : Surroundings) (server : Server S) (input : Input) (s : S)
    → server.allow_write ≡ false
    → ReadersKeep S P server.tools
    → P s
    → P (serve S x server input s).0
unfolding serve
serve-Keeps S P x server input s closed readers h =
    serve_lines-Keeps S P x server closed readers input.failure input.lines s h

module _ (S : Type 0) (x : Surroundings) (server : Server S) where
  abbrev id_of : Option RpcRequest → List String → List String
  id_of none rest = rest
  id_of (some req) rest = if req.id == "" then rest else req.id ∷ rest

  -- The identifiers of the requests that have one.
  abbrev pub ids_of : List String → List String
  ids_of [] = []
  ids_of (line ∷ lines) = id_of (request_of S x server line) (ids_of lines)

  -- A session that has answered these identifiers and ends with this error, or none.
  abbrev pub Answers : List String → Option ServeError → Session S x server → Type 0
  Answers ids failure r = (map (λ r. r.id) r.1 ≡ ids) × (r.2 ≡ failure)

  abbrev pub AllFit : List String → Type 0
  AllFit lines = All (λ l. byte_length l < max_line) lines

  -- Every line fits the scanner's buffer, and the session has answered them all and returns the
  -- reader's error, if there is one; or a first line does not fit, and the session has answered those
  -- before it and returns the scanner's error.
  abbrev pub Served : Option String → List String → Session S x server → Type 0
  Served failure lines r =
      (AllFit lines × Answers (ids_of lines) (read_error failure) r)
      ⊎ ((front : List String) × (long : String) × (rest : List String) × (lines
            ≡ front ++ long ∷ rest)
          × AllFit front
          × (max_line ≤ byte_length long)
          × Answers (ids_of front) (some line_too_long) r)

  reply-Answers :
      (req : RpcRequest) (a : Answer S x server) (rest : Session S x server) (ids : List String)
      (failure : Option ServeError)
      → ((r : RpcResponse) → x.sends r ≡ true)
      → Answers ids failure rest
      → Answers (id_of (some req) ids) failure (reply S x server req a rest)
  unfolding reply
  reply-Answers req (s, outcome) rest ids failure sends (same, ends) =
      elim (Bool-cases (req.id == "")) [
        | inl e ↦ simp e (same, ends)
        | inr e ↦ simp (e, sends) (ap (λ ids. req.id ∷ ids) same, ends)
      ]

  on_request-Answers :
      (later : S → Session S x server) (found : Option RpcRequest) (s : S) (ids : List String)
      (failure : Option ServeError)
      → ((r : RpcResponse) → x.sends r ≡ true)
      → ((s' : S) → Answers ids failure (later s'))
      → Answers (id_of found ids) failure (on_request S x server later found s)
  unfolding on_request
  on_request-Answers later none s ids failure sends l = l s
  on_request-Answers later (some req) s ids failure sends l =
      reply-Answers req (dispatch S x server req s) _ ids failure sends
        (l (dispatch S x server req s).0)

  line-Answers :
      (failure : Option String) (line : String) (lines : List String) (s : S) (ids : List String)
      (ends : Option ServeError)
      → ((r : RpcResponse) → x.sends r ≡ true)
      → byte_length line < max_line
      → ((s' : S) → Answers ids ends (serve_lines S x server failure lines s'))
      → Answers
          (id_of (request_of S x server line) ids)
          ends
          (serve_lines S x server failure (line ∷ lines) s)
  unfolding serve_lines fits
  line-Answers failure line lines s ids ends sends short later =
      let fine : ltb (byte_length line) max_line ≡ true = ground arith in
      rw fine (
        on_request-Answers (λ s'. serve_lines S x server failure lines s')
          (request_of S x server line) s ids ends sends later)

  all_lines-Answers :
      (failure : Option String) (lines : List String) (s : S)
      → ((r : RpcResponse) → x.sends r ≡ true)
      → AllFit lines
      → Answers (ids_of lines) (read_error failure) (serve_lines S x server failure lines s)
  unfolding serve_lines
  all_lines-Answers failure [] s sends h = (refl, refl)
  all_lines-Answers failure (line ∷ lines) s sends (h, hs) =
      line-Answers failure line lines s (ids_of lines) (read_error failure) sends h
        (λ s'. all_lines-Answers failure lines s' sends hs)

  front-Answers :
      (failure : Option String) (front : List String) (long : String) (rest : List String) (s : S)
      → ((r : RpcResponse) → x.sends r ≡ true)
      → AllFit front
      → max_line ≤ byte_length long
      → Answers
          (ids_of front)
          (some line_too_long)
          (serve_lines S x server failure (front ++ long ∷ rest) s)
  unfolding serve_lines fits
  front-Answers failure [] long rest s sends h k =
      let wide : ltb (byte_length long) max_line ≡ false = ground arith in rw wide (refl, refl)
  front-Answers failure (line ∷ front) long rest s sends (h, hs) k =
      line-Answers failure line (front ++ long ∷ rest) s (ids_of front) (some line_too_long) sends h
        (λ s'. front-Answers failure front long rest s' sends hs k)

  -- A line that does not fit, the first of its kind.
  record FirstLong (lines : List String) : Type 0 where
    front : List String
    long : String
    rest : List String
    splits : lines ≡ front ++ long ∷ rest
    fitting : AllFit front
    too_long : max_line ≤ byte_length long

  first_long : (lines : List String) → AllFit lines ⊎ FirstLong lines
  first_long [] = inl tt
  first_long (line ∷ lines) = elim (Bool-cases (ltb (byte_length line) max_line)) [
    | inr e ↦ inr (record {
      front = [];
      long = line;
      rest = lines;
      splits = refl;
      fitting = tt;
      too_long = ground arith;
    })
    | inl e ↦ elim (first_long lines) [
      | inl hs ↦ inl (ground arith, hs)
      | inr f ↦ inr (record {
        front = line ∷ f.front;
        long = f.long;
        rest = f.rest;
        splits = ap (λ ls. line ∷ ls) f.splits;
        fitting = (ground arith, f.fitting);
        too_long = f.too_long;
      })
    ]
  ]

-- While the responses can be sent, the session answers every request that has an identifier, once, in
-- order and under that identifier, and no other line, in one of two ways. Either every line is shorter
-- than 16 MiB, it answers to the end of the input, and returns the reader's error, if that is how the
-- input ends, or none; or it answers up to the first line of 16 MiB or more and returns the scanner's
-- error.
pub serve-Answers :
    (S : Type 0) (x : Surroundings) (server : Server S) (input : Input) (s : S)
    → ((r : RpcResponse) → x.sends r ≡ true)
    → Served S x server input.failure input.lines (serve S x server input s)
unfolding serve
serve-Answers S x server input s sends = elim (first_long S x server input.lines) [
  | inl h ↦ inl (h, all_lines-Answers S x server input.failure input.lines s sends h)
  | inr f ↦ inr (
    f.front,
    f.long,
    f.rest,
    f.splits,
    f.fitting,
    f.too_long,
    subst
        (λ ls.
          Answers S x server (ids_of S x server f.front) (some line_too_long)
            (serve_lines S x server input.failure ls s))
        (sym f.splits)
        (front-Answers S x server input.failure f.front f.long f.rest s sends f.fitting f.too_long),
  )
]
