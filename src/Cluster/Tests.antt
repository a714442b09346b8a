-- ===== src/Cluster/Tests.antt =====
-- A small Docker on which the theorems about pkg/cluster are applied.
use orcinus.Prelude.{
  Bool, true, false, String, Option, none, some, List, [], ◌∷◌, ◌≡◌, ◌≢◌, refl, ap, inl, inr, arith,
  ◌==◌, eq_iff, eq_refl, if◌then◌else◌, Bool-cases, Option-cases, contains,
}
use orcinus.Prelude.Int.{pos}
use orcinus.Prelude.Result.{ok}
use orcinus.Prelude.Dict.{Dict, lookup, put, remove, lookup-put, lookup-remove}
use orcinus.Cluster.Versions.{minor_patch, upgrade_steps, target_version}
use orcinus.Cluster.Versions.Steps.{Ascending, EndsAt, upgrade_steps-Ascending}
use orcinus.Cluster.Docker.{Docker}
use orcinus.Cluster.Arguments.{NodeContainer, create_args}
use orcinus.Cluster.Recreate.{restored, not_ready, Host, recreate}
use orcinus.Cluster.Recreate.Documented.{Names, Obliging, name_keeping}
use orcinus.Cluster.Recreate.Preserved.{Preserved, recreate-Preserved}
use orcinus.Cluster.Recreate.Restored.{Back, recreate-Back}

steps_of_33 :
    upgrade_steps "v1.33.13+k3s2" ≡ ok ("v1.34.12+k3s1" ∷ "v1.35.9+k3s1" ∷ "v1.36.5+k3s1" ∷ [])
unfolding upgrade_steps minor_patch
steps_of_33 = refl

read_33 : minor_patch "v1.33.13+k3s2" ≡ some (pos 33, pos 13)
unfolding minor_patch
read_33 = refl

upgrade_steps-Ascending_example :
    Ascending (pos 33, pos 13) ("v1.34.12+k3s1" ∷ "v1.35.9+k3s1" ∷ "v1.36.5+k3s1" ∷ [])
    × EndsAt target_version ("v1.34.12+k3s1" ∷ "v1.35.9+k3s1" ∷ "v1.36.5+k3s1" ∷ [])
upgrade_steps-Ascending_example =
    upgrade_steps-Ascending "v1.33.13+k3s2" (pos 33, pos 13) _ read_33 steps_of_33

-- The container of each name, and whether the container of each id runs.
record Containers : Type 0 where
  names : Dict String
  running : Dict Bool

removed : Containers → List String → Containers × Option String
removed s (flag ∷ n ∷ []) = (record s { names = remove n s.names }, some "")
removed s _ = (s, none)

rename_to :
    Containers → String → String → Option String → Option String → Containers × Option String
rename_to s a b (some id) none = (record s { names = put b id (remove a s.names) }, some "")
rename_to s a b _ _ = (s, none)

renamed : Containers → List String → Containers × Option String
unfolding rename_to
renamed s (a ∷ b ∷ []) = rename_to s a b (lookup a s.names) (lookup b s.names)
renamed s _ = (s, none)

create_as : Containers → String → Option String → Containers × Option String
create_as s n none = (record s { names = put n "new" s.names }, some "new")
create_as s n (some id) = (s, none)

created : Containers → List String → Containers × Option String
unfolding create_as
created s (privileged ∷ flag ∷ n ∷ rest) = create_as s n (lookup n s.names)
created s _ = (s, none)

start_id : Containers → Option String → Containers × Option String
start_id s none = (s, none)
start_id s (some id) = (record s { running = put id true s.running }, some "")

started : Containers → List String → Containers × Option String
unfolding start_id
started s (n ∷ []) = start_id s (lookup n s.names)
started s _ = (s, none)

docker_run : Containers → List String → Containers × Option String
unfolding removed renamed created started
docker_run s [] = (s, none)
docker_run s (cmd ∷ rest) =
    if cmd == "rm"
    then removed s rest
    else if cmd == "rename"
    then renamed s rest
    else if cmd == "create"
    then created s rest
    else if cmd == "start"
    then started s rest
    else (s, some "")

abbrev docker : Docker
docker = record {
  State = Containers;
  run = docker_run;
  message = λ s args. "";
  now = λ s. 0;
  sleep = λ n s. s;
}

abbrev id_of : Containers → String → Option String
id_of s n = lookup n s.names

abbrev truth : Option Bool → Bool
truth none = false
truth (some b) = b

abbrev runs : Containers → String → Bool
runs s id = truth (lookup id s.running)

started_names : (s : Containers) (rest : List String) → (started s rest).0.names ≡ s.names
unfolding started
started_names s [] = refl
started_names s (n ∷ []) = elim (Option-cases (lookup n s.names)) [
  | inl e ↦ rw e
  | inr (id, e) ↦ rw e
]
started_names s (n ∷ m ∷ rest) = refl

keeps_names :
    (s : Containers) (cmd : String) (rest : List String) (m : String)
    → contains cmd name_keeping ≡ true
    → id_of (docker_run s (cmd ∷ rest)).0 m ≡ id_of s m
unfolding docker_run
keeps_names s cmd rest m h = elim (Bool-cases (cmd == "rm")) [
  | inl e ↦ absurd (let k = rw ((eq_iff cmd "rm").0 e) at h in cc)
  | inr e ↦ elim (Bool-cases (cmd == "rename")) [
    | inl f ↦ absurd (let k = rw ((eq_iff cmd "rename").0 f) at h in cc)
    | inr f ↦ elim (Bool-cases (cmd == "create")) [
      | inl g ↦ absurd (let k = rw ((eq_iff cmd "create").0 g) at h in cc)
      | inr g ↦ elim (Bool-cases (cmd == "start")) [
        | inl i ↦ rw (e, f, g, i) (ap (lookup m) (started_names s rest))
        | inr i ↦ rw (e, f, g, i) refl
      ]
    ]
  ]
]

removes_one :
    (s : Containers) (n m : String)
    → (n == m) ≡ false
    → id_of (docker_run s ("rm" ∷ "-f" ∷ n ∷ [])).0 m ≡ id_of s m
unfolding docker_run removed
removes_one s n m h = ground (arith, lookup-remove n m s.names)

creates_one :
    (s : Containers) (n m : String) (rest : List String)
    → (n == m) ≡ false
    → id_of (docker_run s ("create" ∷ "--privileged" ∷ "--name" ∷ n ∷ rest)).0 m ≡ id_of s m
unfolding docker_run created
creates_one s n m rest h = as_named (lookup n s.names)
  where
    as_named : (o : Option String) → id_of (create_as s n o).0 m ≡ id_of s m
    as_named none = ground (arith, lookup-put n m "new" s.names)
    as_named (some id) = refl

rename_to_gives :
    (s : Containers) (a b : String) (o p : Option String) {out : String}
    → (rename_to s a b o p).1 ≡ some out
    → id_of (rename_to s a b o p).0 b ≡ o
unfolding rename_to
rename_to_gives s a b (some id) none h = rw (lookup-put, eq_refl)
rename_to_gives s a b none p h = absurd (cc)
rename_to_gives s a b (some id) (some i) h = absurd (cc)

rename_to_fails :
    (s : Containers) (a b m : String) (o p : Option String)
    → (rename_to s a b o p).1 ≡ none
    → id_of (rename_to s a b o p).0 m ≡ id_of s m
unfolding rename_to
rename_to_fails s a b m (some id) none h = absurd (cc)
rename_to_fails s a b m none none h = refl
rename_to_fails s a b m none (some i) h = refl
rename_to_fails s a b m (some id) (some i) h = refl

renames :
    (s : Containers) (a b : String) {out : String}
    → (docker_run s ("rename" ∷ a ∷ b ∷ [])).1 ≡ some out
    → id_of (docker_run s ("rename" ∷ a ∷ b ∷ [])).0 b ≡ id_of s a
unfolding docker_run renamed
renames s a b h = rename_to_gives s a b (lookup a s.names) (lookup b s.names) h

renames_nothing :
    (s : Containers) (a b m : String)
    → (docker_run s ("rename" ∷ a ∷ b ∷ [])).1 ≡ none
    → id_of (docker_run s ("rename" ∷ a ∷ b ∷ [])).0 m ≡ id_of s m
unfolding docker_run renamed
renames_nothing s a b m h = rename_to_fails s a b m (lookup a s.names) (lookup b s.names) h

names : Names docker id_of
names = record {
  keeps = keeps_names;
  removes_one = removes_one;
  creates_one = creates_one;
  renames = renames;
  renames_nothing = renames_nothing;
}

frees : (s : Containers) (n : String) → id_of (docker_run s ("rm" ∷ "-f" ∷ n ∷ [])).0 n ≡ none
unfolding docker_run removed
frees s n = rw (lookup-remove, eq_refl)

rename_to_free :
    (s : Containers) (a b : String) (o p : Option String)
    → o ≢ none
    → p ≡ none
    → (rename_to s a b o p).1 ≢ none
unfolding rename_to
rename_to_free s a b none p h k e = h refl
rename_to_free s a b (some id) none h k e = cc
rename_to_free s a b (some id) (some i) h k e = cc

renames_to_free :
    (s : Containers) (a b : String)
    → id_of s a ≢ none
    → id_of s b ≡ none
    → (docker_run s ("rename" ∷ a ∷ b ∷ [])).1 ≢ none
unfolding docker_run renamed
renames_to_free s a b h k = rename_to_free s a b (lookup a s.names) (lookup b s.names) h k

starts :
    (s : Containers) (n : String) {id : String}
    → id_of s n ≡ some id
    → runs (docker_run s ("start" ∷ n ∷ [])).0 id ≡ true
unfolding docker_run started start_id
starts s n {id} h =
    let on : lookup id (put id true s.running) ≡ some true = rw (lookup-put, eq_refl) in
    rw h (ap truth on)

copies :
    (s : Containers) (a b id : String) → runs (docker_run s ("cp" ∷ a ∷ b ∷ [])).0 id ≡ runs s id
unfolding docker_run
copies s a b id = refl

obliging : Obliging docker id_of runs
obliging = record {
  frees = frees;
  renames_to_free = renames_to_free;
  starts = starts;
  copies = copies;
}

abbrev node : NodeContainer
node = record {
  image = "rancher/k3s:v1.35.9-k3s1";
  cmd = "server" ∷ [];
  hostname = "orcinus";
  env = "K3S_TOKEN=secret" ∷ [];
  labels = [];
  port_bindings = ("6443/tcp", ("127.0.0.1", "6443") ∷ []) ∷ [];
  devices = [];
  restart_policy = "always";
  mounts = [];
}

abbrev one_node : Containers
one_node = record { names = ("orcinus", "first") ∷ []; running = ("first", true) ∷ [] }

abbrev host : Host
host = record { is_linux = true; executable = none; temp_dir = some "/tmp/update" }

never_ready : Containers → Containers × Bool
never_ready s = (s, false)

ready_keeps : (s : Containers) (m : String) → id_of (never_ready s).0 m ≡ id_of s m
unfolding never_ready
ready_keeps s m = refl

abbrev after_failure : Containers
after_failure = record {
  names = ("orcinus", "first") ∷ [];
  running = ("first", true) ∷ ("new", true) ∷ [];
}

update_fails :
    recreate docker host "orcinus" node.cmd
      (create_args node "orcinus" (pos 8080) (pos 0))
      never_ready
      one_node
    ≡ (after_failure, some (restored not_ready))
unfolding recreate create_args never_ready docker_run lookup put remove
update_fails = refl

first_there : id_of one_node "orcinus" ≡ some "first"
unfolding lookup
first_there = refl

first_runs : runs one_node "first" ≡ true
unfolding lookup
first_runs = refl

recreate-Preserved_example : Preserved docker id_of "orcinus" "first" after_failure
recreate-Preserved_example =
    recreate-Preserved docker id_of names host "orcinus" "first" node (pos 8080) (pos 0) never_ready
      one_node after_failure (restored not_ready) ready_keeps first_there update_fails

recreate-Back_example : Back docker id_of runs "orcinus" "first" (restored not_ready) after_failure
recreate-Back_example =
    recreate-Back docker id_of names runs obliging host "orcinus" "first" node (pos 8080) (pos 0)
      never_ready one_node after_failure (restored not_ready) ready_keeps first_there first_runs
      update_fails
