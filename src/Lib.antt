-- ===== src/Lib.antt =====
-- A model of the signer's core, hsm-core: the session of an SSH certificate authority on a USB device,
-- its storage on NOR flash, its PIN counter, clock and random generator.
--
-- The parts and how they interact. The firmware feeds bytes to the line assembler; a line holds one
-- request, which the session `Hsm` answers. The session owns the flash, the entropy source, the timer,
-- the generator and the clock; a handler changes them in place and returns a response. What a handler
-- wrote before it failed stays written: a step (Prelude/Steps.antt, `Exec`) returns the state beside a
-- result or an error.
--
--   Prelude     tests, lists, bytes, 64-bit signed integers and steps; it models no code
--   Hal         hsm-core/src/hal.rs: the traits `FlashStore`, `EntropySource` and `Monotonic` as records
--               of operations; Hal/Nor has the laws of a NOR flash, Hal/Mock the flash in memory of
--               hsm-core/src/testhal.rs, which keeps them, Hal/Snapshot its snapshots, and Hal/Sources
--               the entropy source and the clock of that file
--   Pin         hsm-core/src/pin.rs: `count`, `tick`, `reset` and `backoff_ms`
--   Clock       hsm-core/src/clock.rs: `Clock` with `set`, `trusted_now` and `now_unix`
--   LineIo      hsm-core/src/lineio.rs: `LineAssembler`
--   Storage     hsm-core/src/storage.rs: records (Record), `AbPair` (AbPair), `DeviceConfig` and
--               `KeyBlob` (Config); RoundTrip, ParseWrite, Write, Stored, Pairs, PowerFail, Histories
--               and FailClosed hold lemmas and theorems
--   Crypto      the crates that hsm-core calls: ciphers, hashes and signatures, as parameters
--   Rng         hsm-core/src/rng.rs: the health checks and `Drbg`
--   Wrap        hsm-core/src/wrap.rs and hsm-core/src/keys.rs: key derivation, the wrapped seed, the
--               public forms of the CA key
--   Text        what the sources use of Rust's `str`: `trim`, `lines`, `split_whitespace`
--   Maps        what they use of `BTreeMap`: pairs in the order of their keys
--   GoDuration  hsm-core/src/goduration.rs: `format_duration` here, `parse_duration` in Reading;
--               Digits, ReadClock, RoundTrip and Total hold lemmas and theorems
--   Sshwire     hsm-core/src/sshwire.rs: the cursor (Reader), `parse_key_kind` (Key) and
--               `parse_authorized_key` (Line); Cursor, Tokens, Bodies, Accepted, Sizes, Mpint, Panic and
--               NoPanic hold the theorems
--   Cert        hsm-core/src/cert.rs: `build_certificate`; Decode is a reader of certificates after
--               PROTOCOL.certkeys, which models no code, RoundTrip compares the two, and Sizes has
--               the lengths of merged options
--   Validate    hsm-core/src/validate.rs: `validate`; Permitted holds what a granted request is
--   Metrics     hsm-core/src/metrics.rs: `build`
--   Proto       hsm-core/src/proto.rs: the management requests and responses; Outer has the top-level
--               ones
--   Selftest    hsm-core/src/selftest.rs: the known-answer tests
--   Dispatch    hsm-core/src/dispatch.rs and hsm-core/src/state.rs: the session (Session), `boot` and
--               `load_from_flash` (Boot), `verify_pin` and the wipe (Pins), and the handlers: `hsm_init`
--               (Setup), keys and locking (Keys), time, status and self test (Time), the resets (Reset)
--               and `handle_hsm` (Handle); `handle_sign` and the rest of the signer path (Sign),
--               `handle` and `process_line` (Lines); Runs, Frames, Leaves, Keeps, Quiet and PinRuns reason
--               about handlers, and Safety, KeySafety, ResetSafety, Commands, Lockout, Signing,
--               Issued, Window and LineSafety hold the theorems
--   Firmware    hsm-fw/src: the device around the core. Otp is otp_secret.rs, the secret in
--               one-time-programmable memory: Rows has the laws of the memory and which rows a step
--               touches, Slots what a slot holds, Burn, Guard, Secret and Again the theorems; FlashHal is
--               flash_hal.rs, and FlashHal/IsNor compares it with Hal/Nor; Led is led.rs; Usb is the
--               protocol loop of usb.rs, with Serves for what becomes of lines and Safety for what holds
--               between two events; Start is the beginning of `run` with security.rs, and Running puts
--               the two together; Sources is entropy_hal.rs and time_hal.rs
--   Simulator   hsm-sim/src/main.rs: the command line (Args), `main` (Run), and what it answers
--               (Answers)
--   Tests       the theorems at concrete devices
--
-- How the code is written down. Numbers are natural numbers; where a machine integer wraps, the model
-- has its `%`, and where it saturates, its `min`. An `i64` is a whole number with the saturating and
-- checked operations of Rust. A fixed array is a list of bytes. A live CA key is its seed. An `expect`
-- that finds nothing and a sum of `i64` that does not fit are panics, a way to end of its own. A reading of the timer does not change within
-- a call. Loops are structural, or have the number of rounds that the source gives them: 16 samples of
-- entropy, two attempts at an erase or a reset. Three loops take fuel: the one of `parse_duration` takes
-- the length of the text, since each round takes a byte at least, and ends in an outcome of its own if
-- that were too little (GoDuration/Total); the one that writes digits takes twenty rounds, the digits
-- of a 64-bit number (GoDuration/Digits); the one that waits takes a reading of the timer for each
-- microsecond (Firmware/Sources). The platform's word is a parameter (Sshwire/Reader, `Target`):
-- an addition of `usize` past it panics, as `overflow-checks` in Cargo.toml has it.
--
-- Parameters, since their code is not in the repository: the CRC-32, the hash, the cipher, key
-- derivation, Ed25519, base64 both ways, the points of the three NIST curves, ChaCha20, `serde_json`
-- and the floating-point operations of fractional durations and of the metrics. The hardware is behind
-- the traits of hsm-core/src/hal.rs, and where the firmware implements them, behind the drivers of
-- `embassy_rp` and `embassy_usb`: the one-time-programmable memory with its lock registers, the flash
-- chip, the serial port and the glitch detectors. The theorems on what a write leaves in the flash and those on the
-- PIN counter take the laws of a NOR flash (Hal/Nor): a read returns the sector, an erase that succeeds
-- leaves ones, a program that succeeds clears bits. Those on the secret take of its memory only that a
-- row that is written leaves the others alone and that a read that succeeds gives what the row holds.
-- A bus reset and a suspend set a flag that the loop looks at before it answers a line: they are events
-- between two answers. The light is the color that was last written to it.
--
-- The simulator's standard output is a parameter too, and its input is the lines that reading it gives.
--
-- Not modelled: of the firmware (hsm-fw) the heap, the executor, the USB descriptors and the drivers'
-- set-up, and the harvest of uninitialized memory; of hsm-core/src/testhal.rs the setters that only tests
-- call; and the host tools in Go.
pub mod Prelude
pub mod Hal
pub mod Pin
pub mod Clock
pub mod LineIo
pub mod Storage
pub mod Crypto
pub mod Rng
pub mod Wrap
pub mod Text
pub mod Maps
pub mod Validate
pub mod Metrics
pub mod GoDuration
pub mod Sshwire
pub mod Cert
pub mod Proto
pub mod Selftest
pub mod Dispatch
pub mod Firmware
pub mod Simulator
pub mod Tests
