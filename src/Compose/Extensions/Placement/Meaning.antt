-- ===== src/Compose/Extensions/Placement/Meaning.antt =====
-- What a Swarm constraint means for the nodes.
use orcinus.Prelude.{
  Bool, true, false, ◌⊎◌, not, String, Option, none, some, [], ◌∷◌, ◌≡◌, refl, sym, ap, ◌∙◌, eq_iff,
  ◌⊕◌, inl, inr, arith, ◌==◌, if◌then◌else◌, Bool-cases,
}
use orcinus.Prelude.{cut_prefix, cut_prefix-append, equal_fold}
use orcinus.Prelude.Dict.{Dict, lookup}
use orcinus.Prelude.Result.{ok}
use orcinus.Compose.Config.{NodeConstraint}
use orcinus.Compose.Attach.Scheduled.{label_matches, allowed}
use orcinus.Compose.Extensions.Placement.{
  control_plane_key, same_bool, map_node_label_key, role_constraint, label_constraint,
  constraint_of,
}

-- A node of a swarm, by the attributes that a constraint can name.
pub data Role : Type 0 where
  manager : Role
  worker : Role

pub record Node : Type 0 where
  pub host : String
  pub role : Role
  pub arch : String
  pub os : String
  pub engine_os : String
  pub labels : Dict String

pub data Attribute : Type 0 where
  hostname : Attribute
  node_role : Attribute
  platform_arch : Attribute
  platform_os : Attribute
  engine_system : Attribute
  node_label : String → Attribute

-- The keys of docs/USAGE.md, and the engine label that the code takes as well.
abbrev pub key_of : Attribute → String
key_of hostname = "node.hostname"
key_of node_role = "node.role"
key_of platform_arch = "node.platform.arch"
key_of platform_os = "node.platform.os"
key_of engine_system = "engine.labels.operatingsystem"
key_of (node_label k) = "node.labels." ⊕ k

abbrev role_text : Role → String
role_text manager = "manager"
role_text worker = "worker"

abbrev is_manager : Role → Bool
is_manager manager = true
is_manager worker = false

abbrev pub value_of : Node → Attribute → Option String
value_of n hostname = some n.host
value_of n node_role = some (role_text n.role)
value_of n platform_arch = some n.arch
value_of n platform_os = some n.os
value_of n engine_system = some n.engine_os
value_of n (node_label k) = lookup k n.labels

-- Swarm's `key == val`, which compares without regard to case.
abbrev equals : Option String → String → Bool
equals none val = false
equals (some v) val = equal_fold val v

abbrev pub swarm_equal : Node → Attribute → String → Bool
swarm_equal n a val = equals (value_of n a) val

abbrev pub present : Option String → Bool
present none = false
present (some v) = true

-- The labels of the Kubernetes node: the well-known ones, the label of the control plane on a manager,
-- and the node's own.
pub record Describes (n : Node) (labels : Dict String) : Type 0 where
  pub host : lookup "kubernetes.io/hostname" labels ≡ some n.host
  pub arch : lookup "kubernetes.io/arch" labels ≡ some n.arch
  pub os : lookup "kubernetes.io/os" labels ≡ some n.os
  pub engine_os : lookup "kubernetes.io/os" labels ≡ some n.engine_os
  pub role : present (lookup control_plane_key labels) ≡ is_manager n.role
  pub own : (k : String) → lookup k labels ≡ lookup k n.labels

-- The value names a role, or it is no other spelling of the node's value.
abbrev pub SameCase : Option String → String → Type 0
SameCase none val = Unit
SameCase (some v) val = equal_fold val v ≡ true → val ≡ v

abbrev pub Plain : Node → Attribute → String → Type 0
Plain n node_role val = (val ≡ "manager") ⊎ (val ≡ "worker")
Plain n hostname val = SameCase (some n.host) val
Plain n platform_arch val = SameCase (some n.arch) val
Plain n platform_os val = SameCase (some n.os) val
Plain n engine_system val = SameCase (some n.engine_os) val
Plain n (node_label k) val = SameCase (lookup k n.labels) val

abbrev signed : Bool → Bool → Bool
signed neg b = if neg then not b else b

equal_fold_refl : (s : String) → equal_fold s s ≡ true
unfolding equal_fold
equal_fold_refl String.[] = refl
equal_fold_refl (String.◌∷◌ c s) = ground (arith, equal_fold_refl s)

same_text : (v val : String) → SameCase (some v) val → (val == v) ≡ equal_fold val v
same_text v val h = elim (Bool-cases (val == v)) [
  | inl e ↦
      let same : val ≡ v = ground (arith, eq_iff val v) in rw (e, same) (sym (equal_fold_refl v))
  | inr e ↦ elim (Bool-cases (equal_fold val v)) [
    | inl f ↦ absurd (let same = h f in ground (arith, eq_iff val v))
    | inr f ↦ rw (e, f)
  ]
]

made_label :
    (neg : Bool) (label : Option String) (val : String)
    → SameCase label val
    → label_matches (if neg then "NotIn" else "In") label (val ∷ []) ≡ signed neg (equals label val)
made_label true none val h = refl
made_label false none val h = refl
made_label true (some v) val h = ground (arith, same_text v val h)
made_label false (some v) val h = ground (arith, same_text v val h)

-- The requirement that the code makes for a key, and which nodes it allows.
Made : Bool → String → String → Dict String → Bool → Type 0
Made neg key val labels b =
    (c : NodeConstraint) × (constraint_of neg key val ≡ ok c) × (allowed labels c ≡ signed neg b)

label-Made :
    (neg : Bool) (key k val : String) (labels : Dict String) (label : Option String)
    → (key == "node.role") ≡ false
    → map_node_label_key key ≡ some k
    → lookup k labels ≡ label
    → SameCase label val
    → Made neg key val labels (equals label val)
unfolding Made constraint_of label_constraint
label-Made neg key k val labels label plain mapped found h = (
  record { key = k; operator = if neg then "NotIn" else "In"; values = val ∷ [] },
  rw (plain, mapped),
  rw found (made_label neg label val h),
)

role_matches :
    (neg manager : Bool) (label : Option String)
    → label_matches (if same_bool manager neg then "DoesNotExist" else "Exists") label []
      ≡ signed neg (if manager then present label else not (present label))
role_matches true true none = refl
role_matches true true (some v) = refl
role_matches true false none = refl
role_matches true false (some v) = refl
role_matches false true none = refl
role_matches false true (some v) = refl
role_matches false false none = refl
role_matches false false (some v) = refl

role_equal :
    (val : String) (r : Role)
    → (val ≡ "manager") ⊎ (val ≡ "worker")
    → (if val == "manager" then is_manager r else not (is_manager r)) ≡ equal_fold val (role_text r)
unfolding equal_fold
role_equal val manager (inl v) = rw v refl
role_equal val worker (inl v) = rw v refl
role_equal val manager (inr v) = rw v refl
role_equal val worker (inr v) = rw v refl

role-Made :
    (neg : Bool) (val : String) (r : Role) (labels : Dict String)
    → present (lookup control_plane_key labels) ≡ is_manager r
    → (val ≡ "manager") ⊎ (val ≡ "worker")
    → Made neg "node.role" val labels (equal_fold val (role_text r))
unfolding Made constraint_of role_constraint
role-Made neg val r labels h v = (
  role_constraint neg val,
  refl,
  role_matches neg (val == "manager") (lookup control_plane_key labels)
      ∙ ap (signed neg) (rw h (role_equal val r v)),
)

-- A text with a prefix is none that lacks it.
prefix-differs : (p r t : String) → cut_prefix t p ≡ none → (p ⊕ r == t) ≡ false
prefix-differs p r t h = elim (Bool-cases (p ⊕ r == t)) [
  | inr e ↦ e
  | inl e ↦
      let same : p ⊕ r ≡ t = ground (arith, eq_iff (p ⊕ r) t) in
      absurd (let k = cut_prefix-append p r in cc)
]

label_differs :
    (k t : String) → cut_prefix t "node.labels." ≡ none → ("node.labels." ⊕ k == t) ≡ false
label_differs k t h = prefix-differs "node.labels." k t h

node_label-mapped : (k : String) → map_node_label_key ("node.labels." ⊕ k) ≡ some k
unfolding map_node_label_key cut_prefix
node_label-mapped k =
    rw
      (
        label_differs k "node.hostname" refl,
        label_differs k "node.platform.arch" refl,
        label_differs k "node.platform.os" refl,
        label_differs k "engine.labels.operatingsystem" refl,
      )
      (cut_prefix-append "node.labels." k)

-- A constraint `key == val` (or, with `neg`, `key != val`) on an attribute that the documentation lists
-- is accepted, and the requirement made of it allows a node exactly if Swarm's constraint holds (or does
-- not) of the node. The labels of the Kubernetes node are to describe the Swarm node, whose engine label
-- operatingsystem is its system; the value for a role is `manager` or `worker`, and another value does
-- not differ from the node's by case alone, which Swarm's comparison passes over.
pub constraint_of-allowed :
    (neg : Bool) (a : Attribute) (val : String) (n : Node) (labels : Dict String)
    → Describes n labels
    → Plain n a val
    → (c : NodeConstraint) × (constraint_of neg (key_of a) val ≡ ok c)
      × (allowed labels c ≡ (if neg then not (swarm_equal n a val) else swarm_equal n a val))
unfolding map_node_label_key cut_prefix Made
constraint_of-allowed neg hostname val n labels d h =
    label-Made neg "node.hostname" "kubernetes.io/hostname" val labels _ refl refl d.host h
constraint_of-allowed neg platform_arch val n labels d h =
    label-Made neg "node.platform.arch" "kubernetes.io/arch" val labels _ refl refl d.arch h
constraint_of-allowed neg platform_os val n labels d h =
    label-Made neg "node.platform.os" "kubernetes.io/os" val labels _ refl refl d.os h
constraint_of-allowed neg engine_system val n labels d h =
    label-Made neg "engine.labels.operatingsystem" "kubernetes.io/os" val labels _ refl refl
      d.engine_os h
constraint_of-allowed neg (node_label k) val n labels d h =
    label-Made neg ("node.labels." ⊕ k) k val labels _ (label_differs k "node.role" refl)
      (node_label-mapped k) (d.own k) h
constraint_of-allowed neg node_role val n labels d h = role-Made neg val n.role labels d.role h
