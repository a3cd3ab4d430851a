-- ===== src/Lib.antt =====
-- The web manager component of ESP-IDF: a Wi-Fi state machine, the login sessions and the user
-- accounts behind its web server (cpp/webmanager*.hh), the serial protocol of the fingerprint
-- readers (cpp/grow_fingerprint_serial_protocol.hh), the reader R503Pro with its manager of
-- fingers (cpp/r503pro*.hh), the timers of the scheduler (cpp/scheduler*.hh), and the time series
-- in flash (cpp/timeseries.hh).
--
-- How the parts interact. webmanager.hh has class M, the Wi-Fi state machine. Its state is driven
-- by the events of the driver (wifi_event_handler, OnIpEvent), by the requests that the websocket
-- brings (handleRequestWifiConnect, handleRequestWifiDisconnect) and by the periodic Supervise.
-- webmanager_base.hh has its base class: the login page checks a password against the user's
-- record and creates a session; the pages of the administrator ask require_role, which asks the
-- table of sessions, and change the records and revoke sessions; the pages for files and updates
-- ask nobody. The websocket asks the table of sessions too, and its messages go to class M and to
-- the plugins, of which the scheduler is one. r503pro_manager.hh keeps a name, an action and a
-- schedule for each finger of a reader; when the reader has recognised a finger, it asks the
-- scheduler whether the action is to be done.
--
-- Which file models which part:
-- - Prelude, Esp, Constants, CLib: lists, byte strings, machine integers, error codes, the
--   constants of webmanager_constants.hh, and the functions of the C library that the sources
--   call.
-- - Wifi: class M. Wifi.Device is what it calls (driver, non-volatile storage, websocket, codec)
--   as a record of functions, with the assumptions KeepsMode and KeepsStrings, which has the
--   restart of the device and keeps only what was committed over it. Wifi.State has the record
--   Manager and the helpers, Wifi.Config the stored credentials, Wifi.Events the event handlers,
--   Supervise and StartNetworkStateMachine, Wifi.Requests the two requests. Wifi.Reach has the
--   runs as a step relation.
-- - Hex, Sessions: bytes_to_hex and the tokens; the array of sessions as a list, and one function
--   for each operation on it.
-- - Users: the records. Users.Form takes fields out of a form, Users.Secrets compares hashes and
--   parses roles, Users.Platform is what the records call (files, SHA-256, random numbers, codec)
--   with the assumptions KeepsFiles and KeepsUsers, and Users.Store loads, saves, lists and
--   counts. Users.Memory is a platform that meets the assumptions.
-- - Web: the pages. Web.Http has requests, replies and the server's state, Web.Login the pages to
--   log in and out and require_role, Web.Admin the pages of the administrator, and Web.Socket the
--   websocket: its handshake, the dispatch of messages to the plugins, and the queue of answers.
-- - Files: the pages to list, read, write and delete files, and in Files.Update the page to update
--   the firmware. Files.Disk is the file system and the connection as records of functions, with
--   the assumptions KeepsContents, HasRoom and Delivers; the updater has the assumption
--   KeepsImage, and Arrives is a connection that may fail. Files.Tests has instances that meet
--   them.
-- - Fingerprint: grow_fingerprint_serial_protocol.hh. Fingerprint.Port is the UART and the access
--   functions of common.hh, with the assumption IsBigEndian; Fingerprint.Frame builds and checks
--   packages, Fingerprint.Instructions and Fingerprint.Commands send them, Fingerprint.System
--   reads blocks of data, and Fingerprint.Identify has the loop of AutoIdentify.
-- - Scheduler: the timers of scheduler_timers.hh as one data type, and GetCurrentValueOfSchedule
--   of scheduler.hh, with `time` and `localtime` as arguments. Scheduler.Map is the map
--   name2timer, a list that the names order; Scheduler.Requests has Begin and the requests that
--   the websocket brings, which answer through Web.Socket. Scheduler.Flash is what they call: the
--   blobs in the flash, the codec, and the arithmetic of the hours, with the assumptions
--   KeepsBlobs, which has the restart and keeps only committed blobs over it, and RoundTrips,
--   which Scheduler.Memory meets.
-- - Fingers: Fingers has what r503pro_manager.hh stores, Fingers.Manager its class, Fingers.R503
--   the task and the start of r503pro.hh, and Fingers.Adopt what Begin stores of the fingers in
--   the reader. Fingers.Storage is the non-volatile storage as a record of functions, with the
--   assumption KeepsEntries, and Fingers.Memory a storage that meets it.
-- - TimeSeries: timeseries.hh. TimeSeries.Flash is the partition as a record of functions, with
--   the assumptions KeepsFlash and Works; TimeSeries has the ring of sectors of one granularity,
--   TimeSeries.Timer the averages and the timer's callback, and TimeSeries.Log what a ring stands
--   for. TimeSeries.Memory is a partition that meets the assumptions.
-- - Modules named Tests hold runs and the theorems at concrete data; the other modules below a
--   component hold its proofs.
--
-- Names are those of the source in snake_case: connectAsSTA is connect_as_sta, tTimeout_us is
-- t_timeout_us. A function that the source writes as one body is split where a branch or a loop
-- deserves a name, and the comment above it says which part it is.
--
-- How the code is read. Times are int64_t and are kept as bit patterns below 2 ^ 64 with addition
-- that wraps; a uint32_t and a size_t wrap at 2 ^ 32. ESP_ERROR_CHECK ends in abort, which is
-- `none`. Semaphores make each handler one step, so a run is a sequence of steps;
-- esp_timer_get_time() is the argument `now`. A C string is the list of its bytes before the NUL.
-- Every loop is a structural recursion on a list; some have fuel: `decimal`, which prints a
-- number, 20 digits, more than an int64_t has; crack, which tries passwords and takes their number
-- as its fuel (the source tries 2 ^ 32 - 1); the loops that send and receive the bodies of the
-- pages for files and updates, for which the number of bytes and one more is enough; and
-- identify_loop, which the source runs until the reader's last package, so that its fuel bounds
-- the packages read and too little of it is `none`.
--
-- Not modelled: Begin and BringUpNetwork (set-up of drivers), sendResponseNetworkInformation,
-- RegisterHTTPDHandlers and BeginBase (set-up too), the daily Loop of the scheduler with the
-- floating-point arithmetic of its sun timer (NewDayHasBegun), the systeminfo and usersettings
-- plugins, the set-up of the UART in r503pro.hh, and webmanager_eth_only.hh, which sets up a
-- driver. r303s.hh does not compile against the present base class.
pub mod Prelude
pub mod Esp
pub mod Constants
pub mod Wifi
pub mod CLib
pub mod Hex
pub mod Users
pub mod Sessions
pub mod Web
pub mod Files
pub mod Fingerprint
pub mod Scheduler
pub mod Fingers
pub mod TimeSeries
