-- ===== src/Lib.antt =====
-- Verification of the SkySweep32 firmware, a passive radio monitor for the ESP32. The models are
-- translations of the C++ code: a member function takes the object's fields as a record and returns
-- the new record; a C array is a list of fixed length, and an access outside it is the fault `none`;
-- an unsigned integer is a natural number with its wrap-around written out.
--
-- The parts of the program, and the files that model them:
--
-- * Byte parsers of telemetry, which hostile transmitters may feed. Crsf (src/protocols/crsf_parser):
--   Crc is `crsfCrcAccumulate`, Parser is `CRSFParser::parseByte` and `parseBuffer`, Decode the
--   payload decoders. Mavlink (src/protocols/mavlink_parser): Crc, Parser and Decode likewise. Both
--   are compared with a receiver on lists (Frame): Relation, Complete, Byte and Stream carry the
--   refinement, Wire, Found and Delivery say what it means for a stream, Channels, LinkStats and
--   Received are about the decoders.
-- * Mesh (src/espnow_mesh): Node is the peer table with the receive callback, Send the messages and
--   the life of a node. Table says what the array means as a list of peers; Lookup, Receive, Expiry
--   and Heartbeat are the proofs.
-- * Activity (src/activity_classifier) gives each reading a level, and remembers the current activity.
-- * Alert (src/alert_manager): Manager has the patterns of the buzzer, the LED and the motor as a
--   list of actions.
-- * Monitor (src/main.cpp, `taskRFScanning`): Receivers reads the three receivers and scans the
--   bands at every tenth sweep, under the bus lock; Sweep joins the classifier and the alert manager
--   for the readings of one sweep. Steady is about the readings and the scan of the bands,
--   Escalation about sweeps in sequence.
-- * Spi (src/spi_manager): Bus has the chip selects and the mutex, and records the traffic. Line says
--   when traffic keeps to the rules, Lock what the mutex restores, Session is about all operations.
-- * Cc1101 (src/drivers/cc1101): Registers has the addresses, Radio the accesses of the chip, Scan the
--   operations that tune it. Safety, Wires, Owner and Receive are the lemmas on single operations:
--   on the rules of the bus, on what else of it changes, on the chip selects, and on the received
--   data. Tuning and Spectrum say what the registers hold and what a scan reads, Session is about
--   all operations.
-- * Sx1281 (src/drivers/sx1281): Driver has the sweep over the 2.4 GHz channels.
-- * Logger (src/data_logger): Card is the interface of the SD library, Rotation, Entries and Export
--   are the logger's functions over it. What the library sends on the bus is recorded in sessions,
--   apart from the traffic of the receivers. Balance is about the bus lock and the sessions, Oldest
--   about the rotation.
-- * Web (src/web_server): Server has the start and the broadcasts, Body the collection of a body,
--   Routes the handlers, which call Config, Power and the card of Logger. Guard is about requests in
--   sequence, Upload about a posted configuration and about downloads.
-- * RemoteId (src/remote_id_detector): Message has the message parsers, Detector the table of drones.
-- * Config (src/config_manager): Storage has the data, the checks and the saved document, Manager the
--   operations on the configuration. Import and RoundTrip are about them.
-- * Rx5808 (src/drivers/rx5808): Driver has the channel pins and the scans of the 5.8 GHz receiver.
-- * Power (src/power_manager): Manager has the power modes and the reaction to a critical battery,
--   Gauge the reading of the fuel gauge. Mode and Charge are about them.
-- * Gnss (src/gps_module): Receiver has the fix and the geofences, Fences is about the latter.
-- * Boot (src/main.cpp, `setup`): Setup starts the components; Configured is about the configuration
--   it starts with, Protected about what holds at the end.
-- * Firmware (src/main.cpp, the tasks, `loop` and the callbacks): World has all the objects, Screen
--   what `taskDisplayUpdate` draws, Scanning the round of `taskRFScanning`, Duties the other tasks and
--   the callbacks, Calls the interleavings of their calls. Sound says what holds at all times;
--   Observing, Attending, Start, Safety and Reached carry it through the calls, Messages and Private
--   are about what leaves for the mesh, Stealth about the display.
-- * Prelude has the shared tests, lists, words, memory and bit operations.
--
-- What comes from outside is an argument: readings of `millis()`, answers of ESP-NOW and SPIFFS,
-- parsed JSON documents, random numbers, battery readings and signal strengths, whether a semaphore
-- is obtained, and the bytes that devices on the bus answer; a library of which more is used is a
-- record of functions, with what it documents as hypotheses. A `float` that is only passed on is
-- its 32-bit pattern (Mesh); one that is computed from an integer is that integer (RemoteId); where
-- more is done with it, its type and operations are given (Sx1281, Gnss). Loops run over a number
-- of rounds that the code fixes before it starts them (a length byte, a count of entries, the
-- length of the input), so no fuel is needed and every function is total. In Firmware the tasks are
-- interleaved at whole calls. The mutex of the bus is a count of takes.
-- The chip of a receiver answers by what was sent to the receivers: what the SD library sends, while
-- that chip is deselected, does not reach it.
--
-- Not modelled: the bearing of src/gps_module and the range check of src/remote_id_detector; the
-- creation of tasks in src/main.cpp; the voltage,
-- the ADC branch and the runtime estimate of src/power_manager; delays; the dispatch of requests to
-- routes, which is the HTTP library's; the traffic of the SD card that the handlers of the logs
-- cause; the texts of replies; tables of names for output; messages on the serial line; generated
-- headers and libraries. Whether ArduinoJson takes a constant variant for a JsonObject is an
-- argument, since load and fromJSON depend on it.
mod Prelude
pub mod Crsf
pub mod Logger
pub mod Mavlink
pub mod Mesh
pub mod Alert
pub mod Activity
pub mod Monitor
pub mod RemoteId
pub mod Cc1101
pub mod Config
pub mod Rx5808
pub mod Spi
pub mod Sx1281
pub mod Web
pub mod Gnss
pub mod Boot
pub mod Firmware
pub mod Power
