-- ===== src/Lib.antt =====
-- ovh-cli, a command-line client for OVHcloud: the store of credentials, the flows that obtain them,
-- the cache of the API description, and the commands that use it.
--
-- The program keeps the credentials of a region and profile in three places: `ovh.conf` (an INI
-- file shared with other clients), the system's keyring, which holds the secrets that `ovh.conf`
-- names by placeholders, and `hosts.yml`, which holds OAuth2 sessions. Credentials come from the
-- OAuth2 flow, whose callback a server on the loopback interface receives and whose tokens are
-- refreshed against the stored ones, or from the classic flow, which has the user validate a consumer
-- key in the browser. The program also keeps, for each region, a description of the API in a
-- directory with two JSON files, fetched over HTTP and answered from without network; the commands
-- under `ovh schema` refresh and print it.
--
-- Files and what they model:
--   Auth/Regions        internal/auth/regions.go: the registry, `RegionByID`, `ValidateHost`
--   Auth/Credentials    internal/auth/credentials.go: `Credentials`, `IsZero`
--   Auth/Keyring        internal/auth/keyring.go: placeholders, `keyringSet`, `keyringGet`,
--                       `keyringDelete`
--   Auth/Conf           internal/auth/ovhconf.go: `loadDefaultConf`, `readCredsFromConf`,
--                       `resolveSecret`, `applyCreds`, `writeOvhConf`
--   Auth/Hosts          internal/auth/hostsyml.go: the document's types
--   Auth/HostsFile      internal/auth/hostsyml.go: its reads and writes
--   Auth/Store          internal/auth/store.go: `LoadCredentials`, `StoreCredentials`,
--                       `DeleteCredentials`
--   Auth/Loopback       internal/auth/oauth.go: `LoopbackServer` with its handler, `Wait`, `Close`
--   Auth/OAuth          internal/auth/oauth.go: `NewPKCE`, `RandomState`, `ExchangePKCE`,
--                       `RefreshOAuth2`, `resolveTokenEndpoint`
--   Auth/Flow           internal/auth/flow.go: `RunConsumerKeyFlow`, `postAuthCredential`
--   Auth/Flow/Poll      internal/auth/flow.go: `pollUntilValidated`
--   Auth/World          what internal/auth runs against, and its state
--   Schema/Types        internal/schema/types.go
--   Schema/Interface    internal/schema/querier.go: the interface `Querier`
--   Schema/Raw          what encoding/json makes of the raw JSON in a description
--   Schema/Querier      internal/schema/querier_impl.go: `Stale`, `HasPath`, `Describe`, `Paths`,
--                       `Search`
--   Schema/Diff         internal/schema/diff.go: `Compare`
--   Schema/Cache        internal/schema/cache.go: `openCacheAt`
--   Schema/Fetch        internal/schema/fetch.go: `fetchAPISpace` and `assertHostAllowed`
--   Schema/Refresh      internal/schema/refresh.go: `refreshFrom`
--   Schema/Refresh/Steps  the same, one system call at a time, for refreshes at the same time
--   Schema/World        what internal/schema runs against
--   Paths               internal/xdgpaths/paths.go
--   Cli/Regions         internal/cli/schema/regions.go: the commands' own map of regions
--   Cli/Schema          internal/cli/schema: the commands `refresh`, `show`, `path` and `diff`
--   Cli/Command         internal/cli/root.go and the `NewCmd` functions: the tree of commands and what
--                       each declares
--   Cli/Completion      internal/cli/completion/completion.go
--   Cli/Root            internal/cli/root.go: `Execute`, from cobra's parsing to a command's `RunE`
--   Cli/ExitCode        internal/cli/exitcode/exitcode.go: the codes and `From`
--   Cli/Main            cmd/ovh/main.go: `run` and `main`
--   Cli/Version         internal/cli/version/version.go: `resolve` and what `ovh version` prints
--   Platform            third-party code and the operating system, as records of operations
--   Errors, Effect      Go's errors and panics as a result, alone and beside a state
--   Prelude             library names, dictionaries, and the order of texts
--   Tests               runs over libraries in memory, and the theorems at concrete inputs
-- The other files below a component have its lemmas and theorems.
--
-- State. A load is a function of the world, which is the disk, the keyring, the environment and the
-- home directory; a store or a refresh returns the new state beside a result. The classic flow's
-- state is what the user meets: the prompts and the pages that were opened. A result is a value, an
-- error or a panic. An error keeps its sentinel and its chain of formats, so that a test by
-- `errors.Is` can be made of it. A Go map is a list of entries in the order in which a loop meets
-- them. What a command prints is the list of its calls of fmt.
--
-- Concurrency. The goroutines of a fetch write their services under a lock, so a run of them is a
-- sequence of writes in the order of a schedule, which is any function on the list of entries; a
-- theorem says what it asks of the schedule. The limit of eight requests at a time only restricts
-- the schedules. The loopback server's handler, the command that waits and its deferred `Close` take
-- their steps in any order; the channel between them has room for one result, and a `select` is the
-- step with the case that it takes. A call of `RefreshOAuth2` takes the result of a call with the
-- same key if one is under way, and runs by itself otherwise. A refresh of the cache is a function,
-- and also a process that takes one system call at a time; an order in which several of them step is
-- a list of their numbers.
--
-- Assumptions. The file system with github.com/google/renameio, github.com/zalando/go-keyring,
-- gopkg.in/ini.v1, the YAML and JSON encodings, net/url, net/http, golang.org/x/oauth2, go-ovh,
-- github.com/adrg/xdg, crypto/rand and SHA-256 are parameters. Records of laws beside the
-- operations state what theorems may use of them. The INI library does not read every file back as
-- it wrote it: it writes a text without the quotes it had, and joins a line that ends in a
-- backslash with the next. A predicate of the parameter tells the files that it does read back, it
-- is only asked to hold of a file that a theorem starts from, and its laws keep it through the
-- changes with plain names and texts. The JSON encoder writes raw JSON with its own layout, which
-- is a function of the text; what is read back has that layout, in services that are otherwise the
-- same. The HTTP client and its decoders return a value or an error, and do not panic. Where
-- net/http follows a redirect, the further requests are its own. The libraries in memory of Tests
-- meet all of these laws. A load and a store have the disk to themselves; refreshes may interrupt
-- each other between any two system calls.
--
-- Bounds. A time is a natural number of nanoseconds since year 1, and `t.Sub(u)` stops at the
-- largest `time.Duration`. Polling has fuel for 25 requests: its delays are 2, 4, 8, 16 and then 30
-- seconds each, so that no further request fits into its ten minutes. All other recursion is on
-- lists and texts.
--
-- The command line. cobra is a parameter: it turns the arguments into a command with its flags and
-- operands, or handles them itself, which is help and wrong arguments; its contract is that it runs a
-- command only with operands that the declared check accepts. The process either exits with a code
-- and what it wrote to stderr, or panics.
--
-- Not modelled: the long help texts; the maximum of eight requests at a time, as said above; the
-- cancelling of the context by a signal, and contexts other than in the waits above; nil contexts and
-- a nil prompt.
pub mod Prelude
pub mod Errors
pub mod Effect
pub mod Platform
pub mod Auth
pub mod Schema
pub mod Paths
pub mod Cli
mod Tests
