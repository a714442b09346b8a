-- ===== src/Cluster/Arguments.antt =====
-- A node's container and how it is created: `nodeContainer`, `publishedPort` and `createArgs` of
-- pkg/cluster/update.go.
use orcinus.Prelude.{◌&&◌, not, String, none, some, List, [], ◌∷◌, ◌++◌, ◌==◌, ◌⊕◌, if◌then◌else◌}
use orcinus.Prelude.{has_prefix, text_ltb}
use orcinus.Prelude.Int.{ℤ, pos, ltb_ℤ}
use orcinus.Prelude.Dict.{Dict, lookup}
use orcinus.Prelude.Decimal.{decimal, scan_int}

-- A port binding: the host's address and port.
abbrev pub Binding : Type 0
Binding = String × String

pub record Mount : Type 0 where
  pub type : String
  pub name : String
  pub source : String
  pub destination : String

pub record DeviceRequest : Type 0 where
  pub driver : String
  pub ids : List String

-- The part of `docker inspect`.
pub record NodeContainer : Type 0 where
  pub image : String
  pub cmd : List String
  pub hostname : String
  pub env : List String
  pub labels : Dict String
  pub port_bindings : Dict (List Binding)
  pub devices : List DeviceRequest
  pub restart_policy : String
  pub mounts : List Mount

abbrev pub bindings_at : String → NodeContainer → List Binding
bindings_at p c = elim (lookup p c.port_bindings) [ none ↦ [] | some bs ↦ bs ]

-- The first host port that is a number, which `docker inspect` prints in decimal.
unfoldable pub first_port : List Binding → ℤ
unfolding scan_int
first_port [] = pos 0
first_port ((ip, port) ∷ bs) =
    let rest = first_port bs in elim (scan_int port) [ some n ↦ n | none ↦ rest ]

unfoldable pub published_port : String → NodeContainer → ℤ
unfolding first_port lookup
published_port port c = first_port (bindings_at (port ⊕ "/tcp") c)

unfoldable pub label_args : Dict String → List String
unfolding has_prefix
label_args [] = []
label_args ((k, v) ∷ labels) =
    let rest = label_args labels in
    if has_prefix k "orcinus." then "--label" ∷ (k ⊕ "=" ⊕ v) ∷ rest else rest

unfoldable pub env_args : List String → List String
unfolding has_prefix
env_args [] = []
env_args (e ∷ es) = let rest = env_args es in if has_prefix e "K3S_" then "-e" ∷ e ∷ rest else rest

unfoldable pub mount_args : List Mount → List String
mount_args [] = []
mount_args (m ∷ ms) =
    let rest = mount_args ms in
    if m.type == "volume"
    then "-v" ∷ (m.name ⊕ ":" ⊕ m.destination) ∷ rest
    else (if m.type == "bind" then "-v" ∷ (m.source ⊕ ":" ⊕ m.destination) ∷ rest else rest)

insert_text : String → List String → List String
unfolding text_ltb
insert_text p [] = p ∷ []
insert_text p (q ∷ qs) =
    let rest = insert_text p qs in if text_ltb q p then q ∷ rest else p ∷ q ∷ qs

-- The ports but those of the ingress, sorted.
unfoldable pub other_ports : Dict (List Binding) → List String
unfolding insert_text
other_ports [] = []
other_ports ((p, bs) ∷ m) =
    let rest = other_ports m in
    if not (p == "80/tcp") && not (p == "443/tcp") then insert_text p rest else rest

abbrev pub publish : String → Binding → List String
publish p (ip, port) = "-p" ∷ (ip ⊕ ":" ⊕ port ⊕ ":" ⊕ p) ∷ []

unfoldable pub publish_all : String → List Binding → List String
publish_all p [] = []
publish_all p (b ∷ bs) = publish p b ++ publish_all p bs

unfoldable pub port_args : NodeContainer → List String → List String
unfolding publish_all lookup
port_args c [] = []
port_args c (p ∷ ps) = publish_all p (bindings_at p c) ++ port_args c ps

unfoldable pub ingress_args : String → ℤ → List String
unfolding decimal
ingress_args port n =
    if ltb_ℤ (pos 0) n then "-p" ∷ ("0.0.0.0:" ⊕ decimal n ⊕ ":" ⊕ port) ∷ [] else []

abbrev id_args : List String → List String
id_args [] = []
id_args (id ∷ ids) = "--device" ∷ id ∷ id_args ids

unfoldable pub device_args : List DeviceRequest → List String
device_args [] = []
device_args (r ∷ rs) =
    let rest = device_args rs in if r.driver == "cdi" then id_args r.ids ++ rest else rest

unfoldable pub restart_args : String → List String
restart_args policy =
    if not (policy == "") && not (policy == "no") then "--restart" ∷ policy ∷ [] else []

-- What stands before the image.
unfoldable pub create_options : NodeContainer → ℤ → ℤ → List String
unfolding label_args env_args mount_args other_ports port_args ingress_args device_args restart_args
create_options c http_port https_port =
    label_args c.labels
    ++ (env_args c.env
        ++ (mount_args c.mounts
            ++ (port_args c (other_ports c.port_bindings)
                ++ (ingress_args "80" http_port
                    ++ (ingress_args "443" https_port
                        ++ (device_args c.devices ++ restart_args c.restart_policy))))))

unfoldable pub create_args : NodeContainer → String → ℤ → ℤ → List String
unfolding create_options
create_args c name http_port https_port =
    "create"
    ∷ "--privileged"
    ∷ "--name"
    ∷ name
    ∷ "--hostname"
    ∷ c.hostname
    ∷ (create_options c http_port https_port ++ c.image ∷ c.cmd)
