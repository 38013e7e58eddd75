-- ===== src/Lib.antt =====
-- gRPEAKEC-go: a model of the Go packages pkerr, pkmiddleware, pksync, pkservices, pkclients and
-- pktesting and of the scripts of the documentation pages, and what is proved of it.
--
-- The program is a set of packages for gRPC services. pkerr makes errors that keep their identity
-- over a call: a sentinel (sentinelErr.go, sentinelIssuer.go) names a kind of error, a generator
-- (generator.go, generatorMiddleware.go) turns any error of a handler into a status that carries
-- an Error with a trace, and turns it back on the client's side. pkmiddleware builds interceptors
-- from middleware and logs calls. pksync has a wait group that ends with a context. pkservices
-- runs services with all of these. The documentation is a set of pages with their own scripts:
-- docs/_static/language_data.js, searchtools.js and doctools.js, which Sphinx has put there, and
-- zdocs/source/_static/godocs.js, which is godoc's.
--
-- Files:
--   Prelude        names, Boolean tests, lists, integers, texts and decimal numbers
--   Errors         the error values, the heap, and the methods Error, Unwrap, As and Is
--   Pkerr          Panic: handlePanic.go; Sentinel: sentinelIssuer.go, sentinelErrDefaults.go;
--                  ApiError: apiError.go;
--                  Generator: generator.go and the conversion in generatorMiddleware.go;
--                  Server and Client: the rest of generatorMiddleware.go, notFoundMiddleware.go;
--                  Status: the interface to google.golang.org/grpc/status; Rpc: both sides of a call
--   Pkmiddleware   Chain: serverInterceptors.go, clientInterceptors.go; Logging: logging.go
--   Pksync         WaitGroup: ctxWaitGroup.go; ConcurrentMap: concurrentMap.go
--   Pkservices     Options: managerOpts.go; Report: errs.go and collectServicesErrors; Manager:
--                  the stages of Run in manager.go; Shutdown: Run, the listeners and the contexts of
--                  manager.go as a system of steps; Log: logErrors; Services: NewManager and
--                  pingService.go; Tester: managerTester.go
--   Pkclients      waitForGrpcServer.go
--   Pktesting      AssertErr: assertErr.go; Suite: managerSuite.go
--   Docs           the page scripts. Regex and Strings: what they use of the language; Options:
--                  documentation_options.js; Words and Stemmer: language_data.js; Search:
--                  searchtools.js; Doctools: doctools.js; Html: the HTML of the
--                  analysis in godocs.js; Godocs: the rest of godocs.js
--   Tests of each  sample values, and the theorems at them
--
-- Pointers: *SentinelError and *Error are addresses in a Heap, since ApplyNewIssuer and
-- applySettings write through them. Go code is a function from a heap to a heap and an outcome,
-- returned or panicked. A panic keeps the value that recover() gives.
-- Contexts and channels: a CtxWaitGroup and its callers are one system whose steps are the cases of
-- the selects, so a theorem about reachable systems holds under every schedule.
-- Numbers: a code is a uint32 and the counter of a CtxWaitGroup an int64, with their wrap-around
-- written out; any other int is an integer.
-- Not under the repository, so parameters: package status of grpc (the laws of StatusApi),
-- anypb.New, reflect, uuid, the time, the stack (the record World), zerolog (the record Zerolog).
-- The conversions are structural. Fuel: decimal digits, where a number itself is enough, and the
-- two loops that try again, whose fuel is the list of what each round meets.
-- A run of a manager is modelled twice: as the results of its stages (Manager), with the calls of
-- StartShutdown by other goroutines as an input, and as steps with the listeners (Shutdown).
-- Not modelled: a search for a word that every object has as the name of a property, gRPC,
-- generated code, the mocks for tests,
-- jQuery and underscore, which docs/_static has copies of. The page scripts take what they call of
-- them, of the browser and of Unicode's letter case as parameters.
pub mod Prelude
pub mod Errors
pub mod Pkerr
pub mod Pkmiddleware
pub mod Pksync
pub mod Pkservices
pub mod Pkclients
pub mod Pktesting
pub mod Docs
