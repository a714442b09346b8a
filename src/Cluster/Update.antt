-- ===== src/Cluster/Update.antt =====
-- The ingress ports of a node: `inspectNode` and `Update` of pkg/cluster/update.go, with the saved
-- state of the cluster (pkg/cluster/cluster.go).
use orcinus.Prelude.{
  ℕ, Bool, false, ◌&&◌, ◌||◌, not, String, Option, none, some, List, [], ◌∷◌, ◌==◌, ◌⊕◌,
  if◌then◌else◌, any,
}
use orcinus.Prelude.{has_prefix, trim_space}
use orcinus.Prelude.Int.{ℤ, leb_ℤ}
use orcinus.Prelude.Result.{Result, ok, err}
use orcinus.Cluster.Docker.{Docker, container_state, wait_ready, was_found}
use orcinus.Cluster.Arguments.{NodeContainer, published_port, create_args}
use orcinus.Cluster.Recreate.{RecreateError, Host, recreate}

-- `InitResult`.
pub record SavedState : Type 0 where
  pub name : String
  pub image : String
  pub server_url : String
  pub token : String
  pub api_port : ℤ
  pub kubeconfig_path : String
  pub runtime : String

-- `LoadState`, with none for its error, and `saveState`, whose error the callers drop; and the JSON
-- decoder on the output of `docker inspect`.
pub record Files (d : Docker) : Type 0 where
  pub load_state : d.State → Option SavedState
  pub save_state : SavedState → d.State → d.State
  pub decode_nodes : String → Option (List NodeContainer)

-- `*int` is an option.
pub record UpdateOptions : Type 0 where
  pub name : String
  pub http_port : Option ℤ
  pub https_port : Option ℤ

pub data UpdateError : Type 0 where
  is_standalone : UpdateError
  not_running : String → UpdateError
  not_inspected : String → UpdateError
  not_recreated : RecreateError → UpdateError

abbrev pub default_name : String
default_name = "orcinus"

abbrev saved_name : Option SavedState → String
saved_name none = default_name
saved_name (some st) = st.name

unfoldable pub node_name : String → Option SavedState → String
node_name name st = if name == "" then saved_name st else name

abbrev pub is_standalone_state : Option SavedState → Bool
is_standalone_state none = false
is_standalone_state (some st) = st.runtime == "standalone"

abbrev pub int_or : Option ℤ → ℤ → ℤ
int_or none n = n
int_or (some m) n = m

abbrev pub int_eq : ℤ → ℤ → Bool
int_eq a b = leb_ℤ a b && leb_ℤ b a

-- The loop over the command.
unfoldable pub is_advertised : List String → Bool
unfolding has_prefix
is_advertised cmd = any (λ a. has_prefix a "--node-external-ip=") cmd

module _ (d : Docker) (files : Files d) (host : Host) (fuel : ℕ) where
  abbrev only_one : Option (List NodeContainer) → Option NodeContainer
  only_one none = none
  only_one (some []) = none
  only_one (some (c ∷ [])) = some c
  only_one (some (c ∷ _ ∷ _)) = none

  abbrev decoded : d.State × Option String → d.State × Option NodeContainer
  decoded (s, none) = (s, none)
  decoded (s, some out) = (s, only_one (files.decode_nodes out))

  unfoldable pub inspect_node : String → d.State → d.State × Option NodeContainer
  inspect_node name s = decoded (d.run s ("inspect" ∷ name ∷ []))

  abbrev address_query : String
  address_query = "{{range .NetworkSettings.Networks}}{{.IPAddress}}{{end}}"

  with_address : SavedState → d.State × Option String → d.State
  unfolding trim_space
  with_address st (s, none) = s
  with_address st (s, some ip) =
      if trim_space ip == ""
      then s
      else files.save_state (record st { server_url = "https://" ⊕ trim_space ip ⊕ ":6443" }) s

  -- The address of the new container becomes that of the cluster.
  unfoldable pub record_address : String → List String → Option SavedState → d.State → d.State
  unfolding with_address is_advertised
  record_address name cmd none s = s
  record_address name cmd (some st) s =
      if st.name == name && not (is_advertised cmd)
      then with_address st (d.run s ("inspect" ∷ "-f" ∷ address_query ∷ name ∷ []))
      else s

  abbrev pub Updated : Type 0
  Updated = d.State × Result UpdateError (ℤ × ℤ)

  unfoldable pub after_recreate :
      String → List String → Option SavedState → ℤ × ℤ → d.State × Option RecreateError → Updated
  unfolding record_address
  after_recreate name cmd st ports (s, some e) = (s, err (not_recreated e))
  after_recreate name cmd st ports (s, none) = (record_address name cmd st s, ok ports)

  unfoldable pub change_ports :
      String → NodeContainer → Option SavedState → ℤ × ℤ → d.State → Updated
  unfolding published_port create_args recreate wait_ready after_recreate
  change_ports name c st (http, https) s =
      if int_eq http (published_port "80" c) && int_eq https (published_port "443" c)
      then (s, ok (http, https))
      else after_recreate name c.cmd st (http, https)
          (recreate d host name c.cmd (create_args c name http https)
            (λ s. was_found d (wait_ready d fuel name 180 s)) s)

  unfoldable pub update_node :
      UpdateOptions → String → Option SavedState → d.State × Option NodeContainer → Updated
  unfolding change_ports published_port
  update_node o name st (s, none) = (s, err (not_inspected name))
  update_node o name st (s, some c) =
      change_ports name c st
        (int_or o.http_port (published_port "80" c), int_or o.https_port (published_port "443" c)) s

  unfoldable pub update_running :
      UpdateOptions → String → Option SavedState → d.State × Bool × Bool → Updated
  unfolding update_node inspect_node
  update_running o name st (s, exists, running) =
      if not exists || not running
      then (s, err (not_running name))
      else update_node o name st (inspect_node name s)

  -- `Update`.
  unfoldable pub update : UpdateOptions → d.State → Updated
  unfolding update_running container_state node_name
  update o s =
      let st = files.load_state s in
      let name = node_name o.name st in
      if is_standalone_state st
      then (s, err is_standalone)
      else update_running o name st (container_state d name s)
