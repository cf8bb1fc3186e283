-- ===== src/Lib.antt =====
-- Verification of unifi-emu: emulated UniFi devices that a network controller can adopt, and the
-- herder that runs fleets of them in containers.
--
-- Common: shared helpers. Boolean tests, lists and texts, Go's (value, error) pairs as Result,
-- int64 arithmetic, big-endian integers, maps as association lists, and the functions of Go's
-- library that the code uses (strings.TrimSpace, Split and Cut, strconv.ParseBool, net.ParseMAC).
--
-- Discovery (discovery/packet.go): the UDP discovery packet. `marshal` is Announcement.Marshal and
-- `parse` is Parse. The loop of Parse runs on fuel; the length of the body is enough, since each
-- round takes three bytes at least.
--
-- Inform (inform/): the device's side of the inform protocol. Session is the adoption state with one
-- function per handler of Apply; Payload and Tables build what a device reports; Packet and Crypto
-- are the TNBU packet, its padding and its two modes. JSON decoding and encoding, AES, GCM, zlib and
-- snappy are parameters: records of functions, with what the libraries document as hypotheses. The
-- random IV and the clock are arguments.
--
-- Emu (the package at the root): Profile is the catalog of models and the descriptor of a device
-- (models.go, registry.go, profile.go, descriptor.go); Device couples a session to an observable
-- state (device.go); Loop is one inform and the repetition of it (loop.go), where the network is a
-- function from a request to its outcome; Fleet is the set of devices (emu.go); Entries waits for
-- a state, reads the entries of a fleet file and lists the models (emu.go, device.go, profile.go);
-- InformUrl resolves the host of the inform URL (informurl.go). A device's inform goes through Payload
-- and Packet to the network, and the decoded reply through Session to Device.
--
-- Net: functions of Go's net and strconv on texts (SplitHostPort, the IPv4 part of ParseIP, Atoi).
--
-- Herder (internal/herder/): Protocol is the event stream on stdout with its ordering rules
-- (protocol.go), Plan the assignment of devices to containers (plan.go, and the mapping of
-- runtimeconfig.go), Inputs the checks of the request and the inform URL (request.go, informurl.go),
-- Config the file of runtime images (runtimeconfig.go), Contract the checks of images and the
-- redaction (images.go), Release the public image (plan.go), Readiness the verdicts on an inspected
-- container (readiness.go), Identity the checks and derivations of a device's names and addresses and
-- Allocation their allocation (identity.go), Run one run of the herder (run.go): Startup is validate
-- and start, Monitor the watch over the running containers, Execute the cleanup, the terminal event
-- and the exit status. What Docker, the clock and the signals answer is an environment, the monitor's
-- turns are a list of ticks. A run whose ticks are used up has no result.
--
-- Adopt (internal/adopt/): the adoption of a fleet against the answers of a controller (fleet.go, and
-- WaitAdopted of client.go), with Dialect (dialect.go). A turn holds what the calls of one round of a
-- loop meet.
--
-- Cli (cmd/unifi-emu/): Devices is the choice of a fleet among flags and environment, Fleet the
-- addresses that it is filled with (devices.go), AdoptSettings the settings of the adoption
-- (adopt.go).
--
-- Texts and bytes are lists of natural numbers; a map of Go is an association list. Tests hold runs
-- at concrete inputs, Samples their data.
--
-- Not modelled: goroutines, locks and timers; the calls of the Docker backend of the herder; the
-- HTTP client of the adoption (internal/adopt/client.go); the rest of the command line tools (cmd/),
-- among them the generator of the model catalog; the wording of errors and log lines.
pub mod Common
pub mod Discovery
pub mod Inform
pub mod Net
pub mod Emu
pub mod Herder
pub mod Adopt
pub mod Cli
