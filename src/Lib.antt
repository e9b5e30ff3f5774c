-- ===== src/Lib.antt =====
-- Tera Agent: the agent that runs beside a company's printers. It holds a session with the
-- Backend, keeps the printer profiles that the Backend sends, composes a pipeline for each print
-- job (renderer, encoder, driver), and stores which jobs are done and which results wait to be
-- sent. A local service and a local panel take requests over HTTP; the panel holds the configuration,
-- which is a file. The agent runs as an application of a user or as a service, whose folder is closed.
--
-- How the parts work together: Session holds an attempt to connect and its frames. A frame of
-- profiles goes to Profiles/Cache; a frame of a job goes through the Store, which knows the jobs
-- that are done, and Dispatch, which hands it to the handler of prints; that one and the local
-- service (Http) call Print/Engine, which asks Print/Resolver for the pipeline. Escpos and Raster
-- are encoders of a pipeline, Binarizer makes the bitmaps of Escpos. Agent is the machine of states
-- that the session moves.
--
-- The modules and the code they model, with paths from the root of the repository:
-- - Base: Boolean tests, lists and signed integers over the native numbers, shared by all modules;
--   Base/Duration has Go's `time.Duration`.
-- - Maps: Go's maps as association lists. Failure: errors, results and slices with their panic.
-- - Texts: what the source uses of Go's strings, and the bytes of a text.
-- - Config: internal/app/ports/config.go, the configuration, its managed printers and what is resolved
--   from them.
-- - ConfigFile: internal/adapters/config/file.go. ConfigFile/Quoted is about the texts in the first file
--   of an installation, ConfigFile/RoundTrip about what is saved and loaded.
-- - Wiring: internal/infra/di/container.go and `buildUIServer` of cmd/tera-agent/main.go, how a change of
--   the configuration reaches what runs. Wiring/Applied is about a change of a printer in the panel.
-- - Cli: cmd/tera-agent/main.go, the commands that print. Cli/Found is about the profile they print with.
-- - Scope: cmd/tera-agent/scope.go, `prepareForRun` and `cmdSetupData`, with internal/adapters/apppath;
--   Scope/Register is `cmdRegister`, with Saved about what it leaves; Scope/Acl is
--   internal/adapters/fsacl, with Closed about what its check finds. Scope/Guarded puts the start of the
--   service, its folder and the panel together.
-- - Printing: internal/domain/printing, the formats (Printing/Format, Printing/Device), the kinds
--   of artifact (Printing/Kind), profiles, jobs, and the ports of the engine as records of
--   functions.
-- - Agent: internal/domain/agent/state.go, `Machine` with `Transition` and its observers.
--   Agent/Diagram is about the table of transitions and Agent/Trace about what an observer sees.
-- - Print: internal/app/print. Print/Resolver is `resolver.Resolve`, with Sound and Complete about
--   what it chooses; Print/Passthrough, Print/Roles and Print/Engine are the files of the same
--   names. Print/Engine/Capability is about what is sent to a driver.
-- - Profiles: Profiles/Cache is internal/adapters/printing/profile/memory.go with the wrapper of
--   platform/profile_cache.go; Profiles/Normalize is
--   internal/adapters/printing/platform/normalize.go.
-- - Escpos: internal/adapters/printing/encoder/escpos. Escpos/Printer reads ESC/POS commands
--   independently of the encoders; Feed, Bands, Trim and Encode are about the bytes the encoders
--   make.
-- - Raster: internal/adapters/printing/encoder/raster/multipng.go, `Encode` and `DecodeMultiPNG`.
--   Raster/RoundTrip is about the one after the other, and about any input of the second.
-- - Binarizer: internal/adapters/printing/binarizer, `toGray`, `pack` and the fixed threshold.
--   Bits and Dots are about bytes as rows of dots, Pack about the packed bitmap.
-- - Gdi: internal/adapters/printing/driver/gdi/raster_prep.go, `packMono1bpp`, `downscaleGray`
--   with `span`, and the sizes of a device-independent bitmap. Gdi/Mono is about the packed dots,
--   Gdi/Spans about the cuts of an axis, Gdi/Average and Gdi/Downscale about the averages of boxes.
-- - Store: internal/adapters/store/filestore.go. Store/Prune is about the bound on the jobs it
--   remembers, Store/Recovery about restarts and the frames that wait.
-- - Dispatch: internal/app/dispatcher/dispatcher.go, internal/app/print/handler.go and
--   internal/domain/job/job.go.
-- - Session: internal/app/lifecycle/lifecycle.go. Session/Messages has the messages of
--   internal/domain/comms/messages.go, Session the frames of the Backend, the jobs and their
--   results, Session/Connection an attempt (`runOnce`) and the loop of `Run`. Session/Jobs is about
--   one job, Session/Ledger (with Ledger/Frames) about the results that were sent or wait,
--   Session/Idle about what changes no state. Of the modules under Session/Connection, Handshake
--   and Phases are about the states on the way, and Delivery about results over a run.
-- - Update: internal/app/update/service.go and internal/domain/update. Update/Version is
--   version.go, Update/Version/Order is about the order it gives, Update/Guards about the service.
-- - Http: internal/adapters/api/httpapi, with Http/Parse for parse.go. Http/Access is about the
--   requests that print.
-- - Panel: internal/adapters/ui/guard.go; Panel/Reach is about the requests that the guard lets
--   through. The others are server.go: Panel/Managed has the list of the managed printers (Laws is
--   about it as a map), Panel/Local the local actions, Panel/Server the state of the panel, with the
--   handlers of the printers (Printers) and of the status, the settings and the registration
--   (Connection), the states that are pushed (Push), and the changes that handlers make to the
--   configuration as a relation (Edits, with Linked for the settings and the registration).
--   Panel/Routes is `routes`; Steps carries a property of those changes over any requests, Sound and
--   ReadOnly are two such properties, Own is about the requests that change nothing, and Secret
--   about what is shown of the token.
--
-- A Go call that holds a lock is one step, and so is a frame of the Backend. State is passed
-- explicitly. What a driver, a renderer, a transport or an observer does to the world is a function
-- on a type `W`, and images are a type `Image`; both are parameters, and so are JSON and PNG, the
-- clock, Go's multiplexer, url.Parse, YAML, the files, the lists of access of Windows, what is
-- typed in a console, the discovery of printers, the number of pages that the memory has room to
-- list, the source and the applier of updates, the order of an unstable
-- sort and whether a file could be written. The binarizer is a parameter of Escpos. What an attempt
-- to connect meets outside (which frames arrive and when, whether the context is cancelled) is its
-- input, and a run is a list of attempts, of any length. A byte is a number below
-- 256; a text of the source is a String, or a list of its code points where it is taken apart.
--
-- Loops are structural recursion where the source ranges over a slice, over inputs or over
-- attempts. The loop of `escJFeed` runs on fuel, the number of dots, of which each turn takes at
-- least one; the loop of `writeRaster` runs on fuel, the height, of which each turn takes at least
-- one row; the loop of `DecodeMultiPNG` recurses on the number of pages left, and the trimming and
-- packing loops on the number of rows and of dots.
--
-- Network, files, windows, external programs and the operating system stay outside, and so do the
-- binarizers and the scales for GDI that compute on floats, the panel's pages, logs, and the rest of the
-- command line. A margin in millimetres is a finite float that is only copied and compared, and stands
-- as the whole number of its 2 ^ -1074ths; an interval is a `time.Duration`, an
-- `int64` of nanoseconds, whose products wrap around. `ticker.Reset` panics on an interval that is not
-- positive, which a frame of the Backend that asks for more than 9223372036 seconds can make; the
-- session here has no such panic, and goes on.
mod Base
pub mod Maps
pub mod Scope
pub mod Texts
pub mod Cli
pub mod Config
pub mod Failure
pub mod ConfigFile
pub mod Printing
pub mod Agent
pub mod Profiles
pub mod Escpos
pub mod Raster
pub mod Gdi
pub mod Binarizer
pub mod Store
pub mod Update
pub mod Wiring
pub mod Print
pub mod Dispatch
pub mod Session
pub mod Http
pub mod Panel
