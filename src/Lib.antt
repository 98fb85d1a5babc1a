-- ===== src/Lib.antt =====
-- provider-dip: a Crossplane provider for the DIP platform.
--
-- A reconciler calls the controller of a managed resource. Its `Connect` reads the ProviderConfig
-- that the resource names and the credentials secret, and makes an authenticated DIP client. Its
-- `Observe`, `Create`, `Update` and `Delete` then compare the resource with what DIP holds and call
-- DIP. The resource's annotation `external-name` carries the id that DIP gave.
--
-- Files and the code that they model:
--   Base, Go, Managed  what the program uses of Go and of crossplane-runtime: texts as bytes, errors,
--                      panics, mutable state, conditions, the external name.
--   Regex              the part of Go's regular expressions that the program writes: classes, `+`,
--                      capture groups; leftmost match, greedy first.
--   Util               internal/util/util.go: `IsValidUUID`, `IsNotFoundOrInvalidID`.
--   Dip/Key            internal/clients/dip/client.go: `formatPrivateKey`. The loop over the body runs
--                      on fuel, the length of the body: every round moves on by 64.
--   Dip/Config         the same file: `Config` and `ConfigFromSecret`.
--   Dip/Client         the same file: `Client` and `NewClient`.
--   Kube               apis/v1alpha1/types.go and the Kubernetes calls of the connectors.
--   Apis               apis/iam/v1alpha1, apis/mdm/v1alpha1 and apis/provisioning/v1alpha1: the spec and
--                      the status of the resources, and the type assertions on managed resources.
--   Controller         the steps that the handlers of all controllers share.
--   Controller/Connect the connectors: `Connect`.
--   Controller/Secrets `getSecretValue` of the controllers that read two secrets.
--   Controller/Session sequences of calls of an `external`, in any order, with changes of DIP and of
--                      the cluster in between.
--   Controller/Reconcile the calls in the order in which a reconciler makes them, an abstract machine
--                      with the phases missing, stale and current, and the laws between the two.
--   Iam                internal/controller/<kind>/<kind>.go for the ten IAM kinds: `Observe`,
--                      `isUpToDate`, `Create`, `Update`, `Delete` and the helpers of each.
--   Mdm                internal/controller/mdm/<kind>/<kind>.go for the six MDM kinds.
--   Provisioning       internal/controller/provisioning/orgconfiguration/orgconfiguration.go.
--   Setup              `Setup` of every controller, internal/controller/config/config.go and the loop of
--                      internal/controller/register.go.
--   Apis/References    `ResolveReferences` of the kinds, apis/{iam,mdm}/v1alpha1/zz_generated.resolvers.go.
--   Provider           cmd/provider/main.go, from the parsed flags on.
--   Tests              runs, and the results at concrete data, with a service in memory.
--
-- A handler is a function from the managed resource and the world to an outcome (a value, an error
-- or a nil dereference) and the new resource and world. The world is a type parameter: what DIP and
-- the cluster hold. go-dip-api, the Kubernetes client, the usage tracker, the credential extractor
-- and encoding/json are parameters. What the results on sequences of calls assume of DIP is named:
-- `StoresCreated` and `StoresUpdated` (what was created or updated is what a later GET returns, in
-- the fields that the controllers compare), `GivesUuid` (what was created has a UUID), `OnlyReads`
-- (a GET changes nothing), `Forgets` (a deleted id is answered by 400 or 404), and `Available`
-- (what is asked for is carried out). The order of the calls in `Reconciled` is the documented
-- contract of `managed.ExternalClient`.
--
-- The reference resolver of crossplane-runtime is a parameter too; `KeepsValues` names its documented
-- behaviour on an id that the spec gives, where no policy asks to resolve always.
--
-- Not modelled: the flag parser, the other generated code (deep copies and accessors), and
-- `Disconnect`, which does nothing. A resource's reference and selector fields are read by the
-- resolvers only, and stand beside the resource there. A context that is cancelled shows up as an
-- error of a call. Integers of the specs are unbounded: they are copied and compared only.
pub mod Base
pub mod Regex
pub mod Util
pub mod Go
pub mod Dip
pub mod Kube
pub mod Managed
pub mod Apis
pub mod Controller
pub mod Iam
pub mod Mdm
pub mod Provisioning
pub mod Setup
pub mod Provider
pub mod Tests
