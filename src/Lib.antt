-- ===== src/Lib.antt =====
-- Verification of the LuminalVGD virtual display driver's portable logic.
--
-- The driver's logic that needs no operating system stands in crates/luminal-vgd-core and in the
-- portable modules of crates/luminal-vgd-driver, over the constants and request records of
-- crates/luminal-driver-proto. A host asks the driver to create monitors, through the requests that
-- crates/luminal-vgd-driver/src/dispatch.rs reads, checks against the handle's handshake and
-- answers, with the effects that the driver's shell then carries out. The session table decides
-- which it admits, gives each a connector through the identity table, a render adapter through the
-- adapter selection and a list of modes through the mode checks. While a monitor lives, its host
-- may ask for another subset of its modes; the request is parked, the driver pushes it at the
-- operating system, and a report of that push settles it. A monitor leaves by a call or because its
-- lease runs out. Each monitor's frames pass through a ring of slots.
--
-- Files, and the code that each models:
--   Proto, Proto/*          crates/luminal-driver-proto/src/lib.rs: bit depths, limits, error codes,
--                           capability, ring and slot values, the requests that the core reads
--   Error                   crates/luminal-vgd-core/src/error.rs: CoreError
--   Adapter, Adapter/*      crates/luminal-vgd-core/src/adapter.rs: select_adapter
--   Modes, Modes/*          crates/luminal-vgd-core/src/modes.rs: Mode::validate, Mode::validate_list,
--                           Mode::select_targets, Mode::doubled_refresh
--   Ring, Ring/*            crates/luminal-vgd-core/src/ring.rs: RingPolicy and all its operations
--   Identity, Identity/*    crates/luminal-vgd-core/src/identity.rs: ConnectorTable, identifier ranges
--   Session, Session/*      crates/luminal-vgd-core/src/session.rs: SessionTable; State has its data,
--                           Lease the leases, Create, Update, Settle and Removal the operations,
--                           Invariant what all of them keep, Reports and Again how requests and
--                           their reports follow each other
--   Permanent, Permanent/*  crates/luminal-vgd-core/src/permanent.rs: the pool's requests, reconcile
--   Persist, Persist/*      crates/luminal-vgd-core/src/persist.rs: serialize and parse
--   Edid, Edid/*            crates/luminal-vgd-core/src/edid.rs: Timing has the detailed timing and its
--                           choice, Text the text descriptors, Blocks the two blocks and generate
--   Dispatch, Dispatch/*    crates/luminal-vgd-driver/src/dispatch.rs: State has the device, its effects
--                           and replies, Wire the requests' bytes, Pool apply_pool and startup,
--                           Handlers, Updates and Main the arms of dispatch and watchdog_tick; Gate,
--                           Totality, Mirror, Plugged, Sweep and Parked prove what they do, and
--                           Life what holds in every state of a device
--   ModePush, ModePush/*    crates/luminal-vgd-driver/src/modepush.rs: push outcomes, parked_push,
--                           live_gate, CommittedMode, preferred_monitor_mode_idx
--   Committed, Committed/*  crates/luminal-vgd-driver/src/modepush.rs: CommittedPaths; Sequential has its
--                           operations one after another, Seqlock a slot that is read while it is
--                           written, Token the writer token under any number of writers
--   Tdr, Tdr/*              crates/luminal-vgd-driver/src/tdr.rs: RingLive and ring_tick
--   Recovery, Recovery/*    crates/luminal-vgd-driver/src/shell/control.rs: the device duck, from
--                           queue_tdr_duck over run_tdr_device_duck and device_duck_poller to
--                           run_tdr_requalify and run_tdr_deadline_depart
--   Host, Host/*            crates/luminal-vgd-host/src: Notice (notice.rs), Actions and Controller
--                           (controller.rs and config.rs) with its ladder, its restore loop and the
--                           capture thread that drives it, RingWatch (ring_watch.rs)
--   Prelude, Prelude/*      lists, tests, ordered maps, results, integers and bits
--   Tests, Tests/*          runs at concrete inputs
--
-- A method on &mut self is a function from the state to its answer and the new state. A panic (an index
-- out of range, a slice beyond the end, an expect that fails) is none of an Option, so a theorem that a
-- call answers some says that it does not panic. A BTreeMap is an association list in ascending key order. A u32 or u64 is a
-- natural number: what the code adds wraps where the code can overflow, as in a release build, and
-- saturating operations are written out. debug_assert is absent, as in a release build. All functions
-- are structurally recursive. The loop of choose_dtd, which halves a rate of 32 bits, has fuel for 33
-- rounds, and it is proved that it ends before them. Atomic accesses are single steps of a relation, in
-- any order between threads and in program order within one: the fences of modepush.rs are what
-- provides the latter, and weaker orders are not modelled.
--
-- Bounds: the sequence counters of the ring and of the mode updates are u64, and statements that need
-- them not to wrap say so. A protocol field that the core only copies is an opaque number or list.
--
-- The dispatcher takes two arguments for what stands elsewhere: the EDID generator, of which nothing is
-- assumed, and the commit token that modepush::committed_token reads. Its output buffer is given by its
-- size, and a reply that fits is the value written there. Requests are read field by field from
-- little-endian bytes; the repr(C) requests have no padding.
--
-- The host's side watches the ring and chooses what feeds the encoder: the driver's ring, Windows
-- Graphics Capture or Desktop Duplication. The floating-point luminance codes of an EDID are an argument
-- of its generator.
--
-- The device duck reads the time, the adapter's epoch, the monitors with the mirrors of their rings, the
-- outcome of sends, spawns and probe threads, and the number of displays that duck_sessions departed: all
-- are arguments of each operation, so they may differ from one to the next. Tracing is left out. The
-- parked set is changed by duck_sessions and replug_ducked, which are not modelled.
--
-- Not modelled: the slot and cursor layouts of the shared sections, the rest of the driver's shell (whose
-- calls go to WDF, IddCx and Direct3D), the host's device access, the C interface and the tools.
pub mod Prelude
pub mod Proto
pub mod Error
pub mod Adapter
pub mod Modes
pub mod Ring
pub mod Identity
pub mod Session
pub mod Permanent
pub mod Persist
pub mod Edid
pub mod Dispatch
pub mod ModePush
pub mod Committed
pub mod Tdr
pub mod Recovery
pub mod Host
pub mod Tests
