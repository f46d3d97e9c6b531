-- ===== src/Lib.antt =====
-- A model of the MarbleRun coordinator.
--
-- The coordinator keeps its state in a sealed key-value store, accepts one manifest, admits marbles
-- whose quotes comply with it, and lets the users of the manifest read and write secrets and update
-- packages.
--
-- Base              shared lists, texts, maps and numbers, the ways in which a Go call ends, and the
--                   rules for what an action establishes (Post) or keeps (Keeps)
-- User              coordinator/user/user.go: users and permissions
-- Quote             coordinator/quote/ert.go, mock.go: properties of quotes, and the mock validator
-- Strconv           the functions of strconv that the store wrapper uses
-- Store             coordinator/store/stdstore.go: the store, its transactions and iterators, over a
--                   sealer and a codec that are parameters
-- Seal              coordinator/seal/seal.go: AESGCMSealer and NoEnclaveSealer over a platform that is a
--                   parameter, and MockSealer
-- Manifest          coordinator/manifest/manifest.go: the manifest, what is checked of it, and the
--                   encoders of secrets
-- Util              util/util.go: the environment, exclusive or, and the limits of SGX memory; Tls is
--                   util/tls.go
-- Http              net/http as the handlers use it: a request and the writer of its response
-- Injector          injector/injector.go: the mutation of pods, over kubernetes as a record
-- Server            coordinator/server: the handlers of client_api.go and the routes of server.go over
--                   the interface ClientCore. Server/Mux is the router, whose choice of a route is a
--                   parameter; Server/Coordinator puts the core in the place of the interface
-- Premain           marble/premain/premain.go: the start of a marble, over file systems and a
--                   coordinator that are parameters; Premain/Admitted puts the core in the place of the
--                   coordinator
-- Cli               cli/cmd: packageInfo.go, over the file system and the ELF reader, and the changes
--                   of graminePrepare.go, over the TOML tree
-- Services          what the core calls outside its code, as one record
-- Recovery          coordinator/recovery: the interface, and the single-party recovery of single.go
-- Core              coordinator/core: Getters and Putters are storewrapper.go; States, Start, Certs,
--                   Secrets and Users are core.go; Client and its child modules, with DryRun, are
--                   clientapi.go; Activation and its child modules are marbleapi.go; Transactions
--                   is what the handlers share, BeginTransaction, Commit and the deferred Rollback;
--                   Reached is the relation of one call after another, in any order, by any callers
--
-- A handler such as Activate is an action on the record Core, which holds the store beside the sealer,
-- the recovery, the quote, the text of the update logger, and the entropy that the clock and the
-- random source will give. Handlers lock the mutex of the core, so they follow one another. The body
-- of a transaction is an action on the core and the transaction.
--
-- A Go call ends with a value, an error, a panic, or never (a lock that is not released); that is
-- the type Result of Base/Results. An action on a state is a function to a result and a state
-- (Base/Exec). Maps are association lists, and a theorem about a loop over a map holds for every
-- order of the list. A byte slice is an Option of a list, since the code tells nil from empty.
-- Numbers are natural numbers; the wrap-around of uint32 in the format of the sealed file and of
-- uint in the counter of activations is written out. Loops are structural recursion; the one on fuel
-- is the loop over an iterator in Store/Iterator.
--
-- Encryption, the file system, the random source, encoding/json, crypto/x509 and text/template are
-- parameters; what is relied on of them are the records PlatformLaws and DataCodecLaws, each with a
-- concrete instance. Of the server's encoders IsTotal says that a response can be encoded. CoreLaws
-- is what the server relies on in the core, and Server/Coordinator gives it for the core of the
-- coordinator. FsLaws is what the start of a marble relies on in a file system.
--
-- Not modelled: logging and metrics, the listeners of the HTTP and gRPC servers, the other commands
-- of the command line interface, the generated protocol code, the SGX quote validator, and the quote
-- issuers of Gramine and Occlum.
pub mod Base
pub mod User
pub mod Quote
pub mod Strconv
pub mod Store
pub mod Seal
pub mod Manifest
pub mod Services
pub mod Recovery
pub mod Core
pub mod Util
pub mod Injector
pub mod Http
pub mod Server
pub mod Premain
pub mod Cli
