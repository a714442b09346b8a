-- ===== src/Cluster/Upgrade.antt =====
-- Newer releases for a node: `upgradeNode` and `Upgrade` of pkg/cluster/upgrade.go, and `gpuImage`
-- of pkg/cluster/gpu.go.
use orcinus.Prelude.{
  ltb, ℕ, Bool, true, false, ◌&&◌, ◌||◌, not, String, Option, none, some, List, [], ◌∷◌, ◌==◌, ◌⊕◌,
  if◌then◌else◌, length,
}
use orcinus.Prelude.{cut, split_at, trim_space, is_space, code}
use orcinus.Prelude.Result.{Result, ok, err}
use orcinus.Cluster.Versions.{
  last_of, target_version, VersionError, upgrade_steps, docker_tag, from_docker_tag,
}
use orcinus.Cluster.Docker.{
  Docker, Polled, container_state, wait_node_version, wait_running, was_found, quiet, output,
}
use orcinus.Cluster.Arguments.{NodeContainer, published_port, create_args}
use orcinus.Cluster.Recreate.{RecreateError, Host, recreate}
use orcinus.Cluster.Update.{SavedState, Files, inspect_node, node_name, is_standalone_state}

pub data UpgradeError : Type 0 where
  not_running : String → UpgradeError
  not_inspected : String → UpgradeError
  bad_version : VersionError → UpgradeError
  not_listed : UpgradeError
  many_servers : UpgradeError
  no_image : String → UpgradeError
  not_recreated : RecreateError → UpgradeError

-- `strings.LastIndex(base, ":")`: the text behind it, or the whole.
unfoldable pub tag_of : String → String
unfolding split_at
tag_of base = last_of base (split_at b':' base)

-- `strings.Fields`, with the field that is being read.
abbrev close : String → List String → List String
close field rest = if field == "" then rest else field ∷ rest

unfoldable pub fields_from : String → String → List String
unfolding is_space
fields_from field String.[] = close field []
fields_from field (String.◌∷◌ c s) =
    let here = fields_from (field ⊕ String.◌∷◌ c "") s in
    let next = fields_from "" s in if is_space (code c) then close field next else here

abbrev before_colon : String → Option (String × String) → String
before_colon s none = s
before_colon s (some (a, b)) = a

abbrev behind_colon : Option (String × String) → String
behind_colon none = ""
behind_colon (some (a, b)) = b

module _ (d : Docker) (files : Files d) (host : Host) (fuel : ℕ) where
  built : String → d.State × Option String → d.State × Option String
  built img (s, none) = (s, none)
  built img (s, some out) = (s, some img)

  build_in : String → String → Option String → d.State → d.State × Option String
  unfolding built
  build_in img base none s = (s, none)
  build_in img base (some dir) s =
      built img (d.run s ("build" ∷ "-t" ∷ img ∷ "--build-arg" ∷ ("K3S_IMAGE=" ⊕ base) ∷ dir ∷ []))

  found_image : String → String → d.State × Option String → d.State × Option String
  unfolding build_in
  found_image img base (s, some out) = (s, some img)
  found_image img base (s, none) = build_in img base host.temp_dir s

  -- `gpuImage`: the image, which is built where it is missing.
  unfoldable pub gpu_image : String → d.State → d.State × Option String
  unfolding found_image tag_of
  gpu_image base s =
      let img = "orcinus/k3s-nvidia:" ⊕ tag_of base in
      found_image img base (d.run s ("image" ∷ "inspect" ∷ img ∷ []))

  fetched : String → d.State × Option String → d.State × Option String
  fetched img (s, none) = (s, none)
  fetched img (s, some out) = (s, some img)

  -- The image of a step, before the node goes down.
  unfoldable pub fetch_image : Bool → String → d.State → d.State × Option String
  unfolding gpu_image fetched
  fetch_image true img s = gpu_image img s
  fetch_image false img s = fetched img (d.run s ("pull" ∷ img ∷ []))

  -- The logs of a container that exited are shown.
  stays_up : String → Polled d.State → d.State × Bool
  unfolding quiet
  stays_up name (Polled.found s) = (quiet d ("logs" ∷ "--tail" ∷ "20" ∷ name ∷ []) s, false)
  stays_up name (Polled.expired s) = (s, true)
  stays_up name (Polled.out_of_fuel s) = (s, false)

  unfoldable pub node_ready : Bool → String → String → String → d.State → d.State × Bool
  unfolding stays_up wait_node_version wait_running
  node_ready true name hostname v s = was_found d (wait_node_version d fuel name hostname v 300 s)
  node_ready false name hostname v s = stays_up name (wait_running d fuel name 20 s)

  abbrev pub Upgraded : Type 0
  Upgraded = d.State × Option UpgradeError

  abbrev recreated : d.State × Option RecreateError → Upgraded
  recreated (s, none) = (s, none)
  recreated (s, some e) = (s, some (not_recreated e))

  -- The end of the loop's body: the new container of version `v`.
  unfoldable pub step_to :
      String → NodeContainer → Bool → String → String → d.State × Option String → Upgraded
  unfolding recreate create_args published_port node_ready
  step_to name c server img v (s, none) = (s, some (no_image img))
  step_to name c server img v (s, some fetched) =
      let c' = record c { image = fetched } in
      recreated (
        recreate d host name c.cmd
          (create_args c' name (published_port "80" c) (published_port "443" c))
          (node_ready server name c.hostname v) s)

  -- Only the image of the container changes from step to step.
  unfoldable pub run_steps :
      String → NodeContainer → Bool → Bool → String → List String → d.State → Upgraded
  unfolding step_to fetch_image docker_tag
  run_steps name c server gpu repo [] s = (s, none)
  run_steps name c server gpu repo (v ∷ vs) s =
      let img = repo ⊕ ":" ⊕ docker_tag v in
      let r = step_to name c server img v (fetch_image gpu img s) in
      elim (r.1) [ none ↦ run_steps name c server gpu repo vs r.0 | some e ↦ r ]

  -- The lines of the list, of which one is a control plane.
  abbrev counted : d.State × Option String → Upgraded
  counted (s, none) = (s, some not_listed)
  counted (s, some out) =
      if ltb 1 (length (split_at 10 (trim_space out))) then (s, some many_servers) else (s, none)

  unfoldable pub check_servers : String → Bool → d.State → Upgraded
  unfolding split_at trim_space
  check_servers name false s = (s, none)
  check_servers name true s = counted (
      d.run s (
        "exec" ∷ name ∷ "kubectl" ∷ "get" ∷ "nodes" ∷ "--no-headers" ∷ "-l"
        ∷ "node-role.kubernetes.io/control-plane" ∷ []))

  abbrev is_server : List String → Bool
  is_server [] = false
  is_server (c ∷ cs) = c == "server"

  abbrev last_step : Bool → List String → List String
  last_step true steps = steps
  last_step false [] = []
  last_step false (v ∷ vs) = last_of v vs ∷ []

  abbrev is_gpu_repo : String → Bool
  is_gpu_repo repo = repo == "orcinus/k3s-nvidia"

  abbrev base_repo : String → String
  base_repo repo = if is_gpu_repo repo then "rancher/k3s" else repo

  checked_upgrade : String → NodeContainer → Bool → String → List String → Upgraded → Upgraded
  unfolding run_steps
  checked_upgrade name c step repo steps (s, some e) = (s, some e)
  checked_upgrade name c step repo steps (s, none) =
      run_steps name c (is_server c.cmd) (is_gpu_repo repo) (base_repo repo) (last_step step steps)
        s

  unfoldable pub upgrade_through :
      String
      → NodeContainer
      → Bool
      → String
      → Result VersionError (List String)
      → d.State
      → Upgraded
  unfolding checked_upgrade check_servers
  upgrade_through name c step repo (err e) s = (s, some (bad_version e))
  upgrade_through name c step repo (ok []) s = (s, none)
  upgrade_through name c step repo (ok (v ∷ vs)) s =
      checked_upgrade name c step repo (v ∷ vs) (check_servers name (is_server c.cmd && step) s)

  unfoldable pub upgrade_inspected : String → Bool → d.State × Option NodeContainer → Upgraded
  unfolding upgrade_through upgrade_steps from_docker_tag cut
  upgrade_inspected name step (s, none) = (s, some (not_inspected name))
  upgrade_inspected name step (s, some c) =
      let parts = cut c.image ":" in
      upgrade_through name c step (before_colon c.image parts)
        (upgrade_steps (from_docker_tag (behind_colon parts))) s

  unfoldable pub upgrade_node : String → Bool → d.State → Upgraded
  unfolding upgrade_inspected inspect_node
  upgrade_node name step s = upgrade_inspected name step (inspect_node d files host fuel name s)

  -- The other nodes of the cluster on this host.
  unfoldable pub upgrade_others : String → List String → d.State → Upgraded
  unfolding upgrade_node
  upgrade_others name [] s = (s, none)
  upgrade_others name (n ∷ ns) s =
      let r = upgrade_node n false s in
      let rest = upgrade_others name ns s in
      let next = upgrade_others name ns r.0 in
      if n == name then rest else elim (r.1) [ none ↦ next | some e ↦ r ]

  -- The workers and extra servers follow the server of the saved cluster.
  unfoldable pub upgrade_cluster : String → Option SavedState → Upgraded → Upgraded
  unfolding upgrade_others fields_from docker_tag
  upgrade_cluster name st (s, some e) = (s, some e)
  upgrade_cluster name none (s, none) = (s, none)
  upgrade_cluster name (some st) (s, none) =
      if st.name == name
      then (let s1 =
            files.save_state (record st { image = "rancher/k3s:" ⊕ docker_tag target_version }) s in
          let (s2, out) =
            output d
              ("ps"
                ∷ "--format"
                ∷ "{{.Names}}"
                ∷ "--filter"
                ∷ ("label=orcinus.cluster=" ⊕ name)
                ∷ [])
              s1 in
          upgrade_others name (fields_from "" out) s2)
      else (s, none)

  upgrade_running : String → Option SavedState → d.State × Bool × Bool → Upgraded
  unfolding upgrade_cluster upgrade_node
  upgrade_running name st (s, exists, running) =
      if not exists || not running
      then (s, some (not_running name))
      else upgrade_cluster name st (upgrade_node name true s)

  -- `Upgrade` of the Docker runtime; `standalone` is `upgradeStandalone`.
  unfoldable pub upgrade : (standalone : String → d.State → Upgraded) → String → d.State → Upgraded
  unfolding upgrade_running container_state node_name
  upgrade standalone name s =
      let st = files.load_state s in
      let node = node_name name st in
      if is_standalone_state st
      then standalone node s
      else upgrade_running node st (container_state d node s)
