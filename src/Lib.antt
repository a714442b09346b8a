-- ===== src/Lib.antt =====
-- orcinus: a model of the program's core, with the theorems that make it correct.
--
-- The program deploys Docker Compose documents to Kubernetes. pkg/compose reads the documents with
-- their x-orcinus-* keys and turns them into Kubernetes objects, with a fork of kompose as its
-- conversion engine; pkg/deploy applies the objects to a cluster, deletes what a project no longer
-- has, and waits for the workloads. The two meet in the ownership labels: what Compose.Decorate
-- stamps is what Deploy.Prune selects by. pkg/engine is the pipeline from documents to the cluster:
-- pkg/detect tells Compose documents from manifests, pkg/compose converts, pkg/plugin installs the
-- add-ons that the objects need, pkg/deploy applies. pkg/cluster makes nodes out of Docker
-- containers, and recreates them to change their ports or their k3s version.
--
-- Which file models what:
-- - Prelude and its children: names from the libraries, Boolean tests, lists measured by native
--   numbers, Go's strings functions on texts (Text), maps as association lists (Dict), signed
--   integers with the conversion int32 (Int), decimal printing and scanning of integers
--   (Decimal), values or errors (Result), and the stable sort of package sort (Stable).
-- - Value: interface{} as the YAML and JSON decoders fill it, with the type assertions.
-- - Deploy (pkg/deploy/apply.go). Api: the API server and the accessors of unstructured objects,
--   which are parameters (records Cluster and Machinery). Claims: claimPrefixes and
--   isStatefulSetClaim. Prune: prune and RemoveProject. Wait: wait, workloadReady and, from
--   pkg/deploy/list.go, workloadReadyFromStatus. Apply: Apply with resolveMapping and
--   cleanForApply. The state is that of the cluster, which every operation passes on.
-- - Compose (pkg/compose). Config: the hint records of pkg/compose/extensions.go. Objects: of the
--   API's structs the fields that the code reads or writes, with podSpecOf, templateMetaOf and
--   workloadSelector. Then the steps of Convert in pkg/compose/compose.go on the list of objects:
--   Decorate (decorate, ownershipLabels), Secrets (applySecrets), Ingress (applyIngressConfig,
--   stripPrefixesFor, traefikStripPrefix, allIngressHosts), Attach (applyImagePullSecrets,
--   applyEnvFromSecrets, applyBindMounts, applyPlacement, applyNodeSelector, applyGPUResources), Vms
--   (convertVMs with deploymentToVM, of pkg/compose/vm.go), Rollouts
--   (convertRollouts, deploymentToRollout), Autoscale (buildAutoscalers, autoscaleMetrics),
--   Strategy (applyStrategy), Sort (sortObjects, kindName). Pipeline composes them as Convert does
--   behind the engine.
-- - Compose.Extensions (pkg/compose/extensions.go). Scalars: stringExt, intExt, stringSliceExt,
--   stringMapExt, serviceInProfiles, normalizeLabels. Resources: parseGenericResources. Placement:
--   parsePlacement, parseConstraint, mapNodeLabelKey. Paths: path/filepath on Unix. Binds:
--   extractBindMounts and what resolves host paths. Update: parseUpdateConfig and parseVM. Hints:
--   the body of the loop of injectKomposeLabels over the services, from the labels on. EnvFiles:
--   stageEnvFiles and envFileDest. Inject: injectKomposeLabels between the YAML decoder and encoder,
--   with resolveFileRefs.
-- - Detect (pkg/detect/detect.go): ParseMode, SplitDocuments, Classify.
-- - Deploy.Manifests (pkg/deploy/manifests.go): DecodeManifests, DeleteObjects, DeploymentReady,
--   WaitForDeployment.
-- - Deploy.Secrets (pkg/deploy/secret.go): the operations on a Secret, on the state of the client
--   (record SecretApi). Deploy.Workloads: scale.go, restart.go and rollback.go of pkg/deploy, on that of
--   the workloads (record WorkloadApi). Deploy.Export and its child modules (pkg/deploy/config.go):
--   ProjectConfig, RenderK8s and RenderCompose, as functions of the objects that the cluster lists.
-- - Plugin (pkg/plugin): the types and the state file, with the plugins that exclude one another.
--   Plugin.Catalogue: Registry and Profiles, with Plugin.Builders for the builders of plugin.go, hami.go, kubevirt.go and
--   storage.go. Plugin.Install: Install, InstallProfile, Remove, Upgrade, Ready, as steps on a world of
--   the cluster and the state file that return or fail.
-- - Engine (pkg/engine/engine.go): BuildObjects, AutoInstall, Apply, Deploy and what the objects
--   need, on the same world.
-- - Mcp (pkg/mcp): the JSON-RPC session of mcp.go on the lines of its input,
--   with the scanner's limit on a line and the reader's error, and the tools of tools.go
--   by their names and marks; what a tool's handler does to the state is a parameter.
-- - Cluster (pkg/cluster). Versions: upgradePath, minorPatch, upgradeSteps and the image tags of
--   upgrade.go. Docker: the docker command line and the clock, which are parameters (record Docker),
--   containerState, waitReady, waitNodeVersion and waitRunning. Arguments: nodeContainer, publishedPort
--   and createArgs of update.go. Recreate: recreate with its restore, and applyVXLANChecksumFix of
--   cluster.go. Update: Update and inspectNode. Upgrade: Upgrade and upgradeNode, with gpuImage of
--   gpu.go.
-- - Deploy.Tests, Compose.Tests, Cluster.Tests, Engine.Tests, Mcp.Tests and their children: concrete clusters and documents.
--
-- Conventions. Updates through a pointer return the changed object; where two loops share objects by
-- pointer (the ConfigMaps of applySecrets), the list of objects is the state that they pass on. A
-- map's order of iteration is the order of the association list, and every theorem holds for every
-- order. An error that ends a function is none or err. Numbers are native; a 64-bit integer that
-- Go converts to 32 bits is wrapped by int32.
--
-- Bounds and fuel. The polling loops of Wait, of resolveMapping, of WaitForDeployment and of pkg/cluster take fuel, one unit a round;
-- wait_lem states how much is enough, from the deadline and the interval. Printing a
-- 64-bit integer takes nineteen rounds, one for each digit it can have. envFileDest takes two rounds
-- more than there are paths in use, which env_file_dest_lem shows to be enough. Everything else is
-- structural. A line of the tool server's input is measured in the bytes of its UTF-8 encoding.
--
-- Parameters. The API server, its discovery, the clock, the conversion of a typed Deployment to its
-- unstructured form and that of a pod's affinity, the parser of Kubernetes quantities, the working
-- and home directories, which files exist, what time.ParseDuration returns, the YAML and JSON
-- decoders, what a URL answers, the file plugins.json, the saved state of the cluster, and what the
-- docker command prints and leaves behind; upgradeStandalone, and of pkg/plugin the literals of typed
-- objects and the embedded chart. For Engine the reading of the hints with the conversion engine is
-- one parameter, since the model of Compose begins with a decoded document.
-- Texts are lists of characters: the separators and words that the program compares with are ASCII.
--
-- Not modelled: of Convert, the files that are read and written for the engine; of pkg/deploy what
-- lists and describes for display, runs commands in containers and logs in to image registries; of pkg/cluster
-- init, join, down, status and the standalone runtime, which are processes and files; the command
-- line and the HTTP server (pkg/cli, pkg/api), the handlers of the tools of pkg/mcp, pkg/runtime and
-- pkg/skills. third_party/kompose
-- is another project.
pub mod Prelude
pub mod Value
pub mod Deploy
pub mod Compose
pub mod Cluster
pub mod Detect
pub mod Plugin
pub mod Engine
pub mod Mcp
