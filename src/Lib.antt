-- ===== src/Lib.antt =====
-- open-madt is the server of a MADT terminal: a program that shows web pages in tabs and is told what to
-- show by clients over TCP. A client sends JSON objects, one after the other and without any framing;
-- each names a request (NewWebTab, KillTab, SetSettings, Stop, ...), and the server answers each with
-- one JSON object. This library models the parts that decide what happens and proves what they promise.
--
-- The parts, and how they interact:
--
--   bytes of a connection
--     -> request loop (madt-server/madt-server.cpp, Server::request)
--     -> framing (Server::extractSingleJsonObject), JSON library
--     -> handler (Server::handle...), which reads and changes the members of Server
--     -> user interface call (madt-server/gui.h), answered by Browser (madt-server/Browser.cpp)
--     -> response on the same connection
--
-- Beside the requests, a timer ends expired leases (Server::pruneExpiredTabs), and the end of a
-- connection ends the tabs that it owns (eventcb). The server runs in a second thread
-- (madt-server/main.cpp); it announces the terminal by DNS-SD (madt-server/AvahiService.cpp).
--
-- The files:
--
--   Prelude            names of the standard libraries that all files share, Boolean tests on numbers
--                      and byte strings, lists over the native numbers, signed integers (Prelude/Int),
--                      std::map as a list of entries in the order of the keys (Prelude/Map) and
--                      properties of all entries (Prelude/Entries).
--   Framing            extractSingleJsonObject of madt-server/madt-server.cpp, byte by byte.
--                      Framing/Grammar describes, apart from the code, the texts that it has to find.
--   Number             strtoul and stoull of the C and C++ libraries, as the code calls them.
--   Json               nlohmann/json as a record of operations, with its documented laws; Json/Access has
--                      the reads that the handlers make, which end with a value, by an exception or
--                      outside the defined behaviour.
--   Settings           SettingsState, settingsToJson, isValidSettingsPatch and mergeSettings of
--                      madt-server/runtime-config.cpp; Settings/Volume has settingsVolumeToPercent.
--   Config             RuntimeConfig; Config/Load has each loader of madt-server/runtime-config.cpp and
--                      loadJsonFile of utils/json_file.hpp, Config/Runtime has loadRuntimeConfig.
--   Crypto             the helpers over OpenSSL of madt-server/madt-server.cpp, with OpenSSL as a record.
--   Gui                the calls of madt-server/gui.h and their answers.
--   Server/State       the members of Server, and handlers as actions that pass the world on: the server,
--                      the user interface, the responses that were written and the exit code.
--   Server/Leases      tabLeases, shortcutLeases, connectionTabs and extraTabId: ownership, renewal,
--                      expiry and the end of a connection.
--   Server/Auth        authorizeWithPassword, authorizeControlRequest and the nonces.
--   Server/Queries, Server/Sound, Server/Tabs, Server/Control
--                      the handlers.
--   Server/Dispatch    the table of commands, the switch, the catch block and the loop of request.
--   Browser            BrowserPage, ShortcutEntry, zones and orders; Browser/Allocation has the positions
--                      of tabs and shortcuts, Browser/Handlers the slots that serve the calls,
--                      Browser/Bar the order of the tab bar (pagesInDisplayOrder, syncTabOrder), and
--                      Browser/Window the slots with what they do to the tab bar, the overlay of the
--                      extra zone and the blinking of tabs. Browser/Popup has the shortcuts' popup and
--                      its launcher.
--   Server/Steps       the callbacks of the event loop as steps from one state to the next.
--   Terminal           the server with the browser behind it, as madt-server/gui.cpp connects them.
--   IconLoader         madt-server/IconLoader.cpp: its cache and the callbacks that wait for a reply.
--   Devices            readBacklightMaxValue, applyBacklightBrightness, applyAudioVolume and the part of
--                      ApplySettings that uses them, of madt-server/gui.cpp.
--   Advertiser         AvahiService of madt-server/AvahiService.cpp.
--   DnsSd              the names of the service: sanitizeUniqueId, detectHostUniqueId and
--                      resolveServiceName of madt-server/dns-sd-advertiser.cpp (which the build leaves
--                      out), and buildDnsSdServiceName of madt-server/madt-server.cpp.
--   Lifecycle          run, stop, requestExit and waitForStartupReady of madt-server/gui.cpp, main of
--                      madt-server/main.cpp and the loop of process/process.cpp: two threads,
--                      with the requests that touch the state of both.
--   Process            the events that process/process.cpp makes, owns and frees.
--
-- The other files prove: Server/Rules has rules for actions, Server/Responses and Server/Stream count
-- responses, Server/Stable carries invariants through every handler, Server/Ownership, Server/Kept,
-- Server/Replay, Server/Expiry, Server/Closing and Server/Authority use them; Browser/Tally counts
-- entries, Browser/Placement, Browser/Zone, Browser/Invariant, Browser/Slots and Browser/Lowest are
-- about positions, Browser/Capacity and Browser/Limits about numbers of tabs; Browser/TabMap,
-- Browser/Shelf and Browser/Reads are about the tab map, the shortcuts and reads outside a vector;
-- Terminal/Tabs puts the two sides together. Browser/Bar/Moves and Browser/Bar/Order are about the
-- moves of tabs, Browser/Bar/Places and Browser/Bar/Ascending about what the order depends on; the
-- files below Browser/Window go through the slots; Browser/Popup/Current is about buttons.
-- IconLoader/Counts, IconLoader/Fair, IconLoader/Steps and
-- IconLoader/Served are about callbacks, Devices/Backlight and Devices/Outcomes about devices,
-- Advertiser/Frame, Advertiser/Published, Advertiser/Names and Advertiser/Runs about what Avahi is told,
-- DnsSd/UniqueId about names, Lifecycle/Statements, Lifecycle/Order, Lifecycle/Ending, Lifecycle/Reached,
-- Lifecycle/Behind, Lifecycle/Fewer, Lifecycle/WindDown, Lifecycle/Hang and Lifecycle/Stranded about the two threads, Process/Owned about events, Number/RoundTrip and Server/Sound/Flags about the texts of
-- numbers. Examples has concrete inputs.
--
-- Choices of the model:
--
--   * Bytes are numbers, texts are lists of bytes. An int is an unbounded integer where the code only
--     compares, stores and passes it on; the conversion of sound flags to 32 bits is written out.
--   * A std::map is a list of entries; the order of a set of pages is that of its keys.
--   * The clock, a fresh UUID, random bytes and the formatted time come in as a Moment for each request.
--     Time counts nanoseconds.
--   * A call of the user interface is a step of its state: the server waits for each answer, and the
--     interface serves its calls in order. KillTab and KillShortcut without a response are the same
--     step, as no other call overtakes them.
--   * A connection is the address of its bufferevent, and 0 is nullptr.
--   * The request loop runs on fuel, one round more than the buffer has bytes, which is enough since each
--     round takes at least one byte.
--   * What C++ leaves undefined (operator[] of a constant JSON object at a missing key, reads past the
--     end of a vector) is an outcome of its own, and ends the run.
--   * Qt is a record of what QTabWidget and QTabBar do to the order of tabs (Browser/Bar). Avahi is a
--     function from the calls so far to the answer of the next one; the callback that it makes within
--     avahi_client_new is taken to come after AvahiService::start. Processes and files are a record of
--     how they end. libevent gives and refuses events as an input says; a break of its loop has an
--     effect only while the loop runs, an exit also before.
--   * The threads of the process take one statement at a time, those of Process::stop, requestExit and
--     Gui::stop too. One step are the test of appInstance with the call of quit behind it, and the test
--     and the update of the timer of run. After a request that ends the process, the loop of
--     Server::request goes on to the rest of its buffer, and a request that the browser answers holds
--     the second thread until it does: it is a call that is posted, and the wait for the answer. What
--     else a request does is in Server. A broken loop starts no further callback; one that SIGQUIT has
--     asked to exit may. From the last request on, nine statements are left to the second thread, five
--     to the first, and the timer: fifteen.
--   * The arguments of a call are evaluated from left to right, where C++ leaves the order open; this
--     matters only where two of them throw or are undefined (Server::handleNavigateTo).
--   * The brightness is a number from 0 to 255, as the checks of settings leave it.
--   * A callback of the icon loader is a number, and does not call the loader.
--   * Log messages are left out.
--
-- Not modelled: sockets and timers (Server::start, accept_conn_cb), which are calls of libevent; the
-- watchdog (utils/wdog.cpp), whose functions are empty; the rest of madt-server/dns-sd-advertiser.cpp,
-- which the build leaves out; of Browser.cpp and gui.cpp, what only sets the looks of widgets, and
-- screenshots, the sound player and the geometry of the overlay; that Qt itself
-- ends exec when the last window is closed; loghelper/ and scripts/.
mod Prelude
pub mod Framing
pub mod Number
pub mod Json
pub mod Settings
pub mod Config
pub mod Browser
pub mod Crypto
pub mod Gui
pub mod Server
pub mod Terminal
pub mod Advertiser
pub mod DnsSd
pub mod Devices
pub mod IconLoader
pub mod Lifecycle
pub mod Process
mod Examples
