-- ===== src/Lib.antt =====
-- Ryba's command line tool (legacy/masson): from a configuration of clusters, services and nodes
-- to the instances of each service on each node, and what the commands ask of the result.
--
-- legacy/masson/lib/config/normalize.js turns the files of the user into one configuration, by
-- passes that each read and change the whole of it; legacy/masson/lib/config/affinities.js
-- selects the nodes of a service; legacy/masson/lib/config/store.js answers queries on the
-- normalised configuration; legacy/masson/lib/secrets.js keeps an encrypted file;
-- legacy/masson/lib/server.js stops an HTTP server and tells whether it runs. The commands under
-- legacy/masson/lib/commands work on what these give, and legacy/masson/lib/index.js adds a
-- command for each one that the services have.
--
-- The files, and what each models:
--   Base, Text, Assoc: shared names, lists and options, texts split at a character, and
--     association lists for objects that serve as tables, in the order of insertion.
--   Js: JavaScript values with the operations that the source uses of them, its exceptions
--     (`Error`), and `Result`, which an operation that may throw returns.
--   Affinity: affinities.js. Affinity.Normalize has `handlers.*.normalize`, Affinity.Resolve
--     `handlers.*.resolve`, Affinity.Match `match.all`, `match.any`, `match.none` and `any`.
--     Affinity.Policy is an abstract view: a policy is a predicate on nodes, `encode` writes it
--     as an affinity, and Affinity.Policy.Refinement relates the two.
--   Config: the records of a configuration (`config.clusters`, `config.nodes`, `config.graph`).
--   Normalize: normalize.js, a child module per part, in the order of the source: Discover (the
--     cluster and the service of each dependency in `discover_service`; its child Drafts has the
--     services that it works on, and Modules the whole of that function, with the modules that
--     are loaded and the services that `auto` adds, and the loops that call it), then the passes
--     Services, Deps, Nodes, Graph, Placement, Ordering, Local, Inject, Configure. A pass is a
--     function from a configuration to a `Result`; Normalize.Each has the loops over clusters
--     and services. Normalize.Run composes the passes, and Normalize.Whole puts the checks of
--     the sections and discovery in front of them.
--   Loading: legacy/masson/lib/config/load.js, from paths to the merged configuration.
--   Store: store.js. A query that throws on a missing argument returns a `Result`.
--   Util: flatten.js, unique.js, multimatch.js and array_get.js under legacy/masson/lib/utils.
--   Secrets: secrets.js as functions on a state, which is the file and the two buffers of a
--     `Store`. Secrets.Sync has `getSync`, Secrets.Options the constructor and `password`,
--     Secrets.Commands the commands init, get, set and unset of
--     legacy/masson/lib/commands/secrets.
--   Server: `stop` and `status` of server.js on a state of the machine, which is the file of the
--     process identifier and the processes. Server.Commands has the exit codes of
--     legacy/masson/lib/commands/server.
--   Commands: clusters.js, exec.js, graph.js and configure.js of legacy/masson/lib/commands.
--     Commands.Filter has the filters of clusters.js, Commands.Clusters what is asked of nikita
--     on a node, Commands.Discovered the table that index.js makes of the commands of the
--     services, Commands.Exec.Selection compares the loop of exec.js with that of clusters.js,
--     Commands.Exec.Output has what exec.js writes (exec.js is modelled from its line 25 on, as
--     it runs where the import of its line 7, which has no extension, is resolved),
--     Commands.Print the formats of graph.js and configure.js. Commands.Pki has the scripts of
--     legacy/masson/lib/commands/pki on the files of their directory, and
--     Commands.Pki.Hosts.Reach what they make of it, in any order.
--   Samples and the modules named Tests: a small configuration, and the theorems at it.
--
-- Fuel. Affinities nest, so `Affinity.Normalize.normalize` and `Affinity.Resolve.resolve` have
-- fuel. The passes give them one more than the number of arrays and objects in the affinity,
-- which bounds the depth of its nesting. `discover_all` has fuel for the services that are
-- discovered inside one another; with modules that depend on `modules` only, more than the
-- number of modules times that of clusters is enough. `out_of_fuel` is no outcome of the
-- program.
--
-- Parameters. `tsort` (the package's sort), `minimatch`, `merge` and `mutate` of `mixme`, the
-- import of a module (`load`), the file system where load.js looks for files, the call of a
-- `configure` function, which may change the whole configuration, the editor of exec.js, the
-- commands of openssl, the formats of the printed values, and for the secrets a record of what
-- is used of `crypto`, `Buffer`, `JSON`, `lodash` and `fs.writeFile`, which may fail. What is
-- assumed of them are the named predicates `IsSorter`, `IsUniqueSorter`, `KeepsOutline`,
-- `AreClosed`, `IsOpenssl` and `IsPlatform`. `minimatch` is taken to throw on what is no text,
-- which it does for every pattern that is neither empty nor a comment. `IsPlatform` holds with a
-- password, an algorithm with an initial vector of 16 bytes and a file that can be written.
-- `IsOpenssl` is about the subject of the authority and those of hosts whose common name has 1
-- to 64 lower-case letters, digits, dashes and dots and is not adaltas.com, before the
-- certificates expire and in a directory that can be written. A process that is signalled ends
-- (those that the file names belong to the user), and `rm` of a file succeeds.
--
-- Not modelled. In normalize.js, services of the configuration that are neither `true` nor
-- objects. The wrapper chain.js around the store and the import in
-- legacy/masson/lib/utils/load.js; params.js, which is a table; the parsing of arguments in
-- index.js, which is that of the package `shell`; the commands init, which writes files from
-- templates, and grpc. `start` of server.js and the command show of the secrets, which call
-- `require` in an ES module and throw before they do anything else; the loop of the command get,
-- which throws before it (`get_command`). Numbers are natural numbers; keys that read as array
-- indexes, which JavaScript lists before other keys, and keys of `Object.prototype` are left
-- apart.
pub mod Base
pub mod Text
pub mod Assoc
pub mod Js
pub mod Affinity
pub mod Util
pub mod Config
pub mod Samples
pub mod Store
pub mod Normalize
pub mod Secrets
pub mod Server
pub mod Commands
pub mod Loading
