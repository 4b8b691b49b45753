-- ===== src/Lib.antt =====
-- git-proxy-go: a proxy in front of git hosts that lets a push through only once it was reviewed.
--
-- A request reaches the handler (internal/proxy/git/proxy.go, Proxy.antt), which filters it by its
-- path (internal/giturl/giturl.go, GitUrl.antt), buffers the body of a push and calls Execute of
-- the chain (internal/chain/chain.go, Chain/Engine.antt). Execute builds an action (action.go,
-- Chain/Action.antt), runs the processors of its chain one after the other, cleans the checkout up,
-- and writes the action to the store. The handler answers with a packet, or sends the request on.
--
-- The processors of a push, in their order: parsePush (parsepush.go; Chain/ParsePush.antt over the
-- parsers of Pack/: PktLine for packet lines, Objects for the pack, Person and Commit for commit
-- headers); checkEmptyBranch, checkRepoInAuthorisedList, checkCommitMessages, checkAuthorEmails and
-- checkUserPushPermission (Chain/Checks.antt, Chain/Emails.antt); pullRemote and writePack
-- (Chain/Clone.antt, with internal/git/engine.go in Chain/Git.antt); checkHiddenCommits, preReceive
-- and getDiff (Chain/Inspect.antt); gitleaks (Chain/Gitleaks.antt); scanDiff (Chain/ScanDiff.antt
-- over the parser of Chain/DiffParser.antt); checkIfWaitingAuth and blockForAuth (Chain/Gate.antt).
-- Chain/Context.antt holds what they share: the request, the store's interface and the outcome of a
-- processor. Chain/Config.antt holds the parts of the configuration that they read.
--
-- The records that are stored (internal/db/model.go) are in Model.antt. The SQLite store
-- (internal/db/sqlite/store.go) is in Db/: its tables are lists of rows (Db/Tables.antt), and each
-- method is a function on the database (Db/Pushes.antt, Db/Repos.antt, Db/Users.antt). What a push
-- is behind its round trip through JSON is in Db/Json.antt. The interface of
-- a store (internal/db/store.go) is in Db/Interface.antt, with the SQLite store as its instance.
--
-- Over that interface stand: the management API (internal/proxy/http/api_routes.go, Api/), whose
-- handlers are a chain of checks and a write: Caller for who calls, Review for the decisions on a
-- push, Repos and Users; logins and tokens (internal/auth and internal/proxy/http, Auth/): Registry
-- for the local login, Jwk and Jwt for bearer tokens, Oidc for OpenID Connect, Login for the routes
-- of /api/auth over a session, Csrf for the double-submit check; and the migration of a Node
-- git-proxy's data (internal/migrate, Migrate/): Replay for a neDB log, Run for a run with its report.
--
-- The SSH front end (internal/proxy/ssh, Ssh/) parses a client's command (Command), serves the requests
-- of a session (Session), and hands the command to the handler (Handler, over Request), which
-- relays the upstream host's advertisement (Advertisement), runs the same chain on the pack and
-- writes it to the upstream host. KnownHosts holds the host keys that are accepted of it.
--
-- The program (cmd/git-proxy/main.go) reads its environment and its configuration (internal/config;
-- Settings/: Env, Load, and Validate for the checks), creates the listed repositories and the default
-- accounts, and serves the hosts of the repositories (Startup.antt).
--
-- State is passed on explicitly. The clock, the file system and the processes that the chain starts
-- (git, the pre-receive hook, gitleaks), go-git's clone, compress/zlib, regexp and path/filepath
-- are operations of an abstract host on an abstract world (Host.antt). Of them only package regexp
-- has laws, where a theorem takes the record Flags (Settings/Compiled.antt).
-- The chain runs over any store; a failing call is a value. Go strings and byte slices are lists of
-- bytes (Base/Text.antt), and errors are kept by their messages (Base/Errors.antt). The expressions
-- of the program itself (paths, e-mail addresses, person lines, hunk headers) are matched by
-- functions.
--
-- Loops are structural recursion where a list or a count drives them. parsePacketLines runs on one
-- more unit of fuel than the buffer has bytes, and so does readRefAdvertisement: each round takes four
-- bytes or more.
-- decompressGitObjects is driven by the number of entries. Lengths and offsets are natural numbers:
-- the body is limited to 1 GiB. The value of an ofs-delta offset wraps at 64 bits.
--
-- The libraries that the program calls are parameters: bcrypt, JWT, OAuth2 and OIDC, sessions, SSH, and the
-- HTTP requests for the keys of an authority. What is assumed of the JWT and the session library are
-- the records JwtLaws and SessionLaws. A JSON body is given as the handler's struct holds it behind
-- encoding/json, and a JSON answer as the value behind it.
--
-- Not modelled: the answer of the upstream host and log lines; the router, the static files and the
-- listeners (internal/proxy/http/server.go, serve.go), since they are calls of net/http; the listener
-- and the dial of SSH, the host key file, the MongoDB reader and OIDC discovery, for the same reason;
-- the settings of the session manager, the choice of the database and the shutdown
-- (cmd/git-proxy/main.go), the command line, the rate limits of the
-- configuration, and the PostgreSQL store (internal/session, internal/cli, internal/db/postgres). Random step
-- ids are left out, since nothing reads them.
pub mod Base
pub mod Pack
pub mod Model
pub mod GitUrl
pub mod Host
pub mod Chain
pub mod Db
pub mod Proxy
pub mod Api
pub mod Auth
pub mod Ssh
pub mod Migrate
pub mod Settings
pub mod Startup
pub mod Tests
