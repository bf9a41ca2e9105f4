-- ===== src/Lib.antt =====
-- picolibs: C++ libraries for the Raspberry Pi Pico, in three parts. `ir` sends and receives remote
-- control messages, `util` holds devices and text handling, `network` a web server.
--
-- Base, Bits and Alarm hold what the parts share: lists measured by native numbers, maps as lists of entries, steps that may
-- fault, machine words with their wrap-around, bit operations, and the alarm ids of the SDK.
--
-- Ir (ir/):
--   Ir.Pulse           ir/ir_receiver.h, `compare_pulse`, and pulse trains within a band of a nominal one
--   Ir.PulseDistance   the bit loops of ir/nec_*.cpp and ir/samsung_*.cpp
--   Ir.Nec, Ir.Samsung, Ir.Sony
--                      ir/nec_*, ir/samsung_*, ir/sony_*: `Transmitter` has the times that
--                      `setMessageTimes` loads, `Receiver` the static `decode`
--   Ir.Protocol        the virtual functions of ir/ir_receiver.h as an interface
--   Ir.Receiver        ir/ir_receiver.cpp: edges (`store_timestamp`), alarms (`timeout_msg`,
--                      `timeout_bit`), `reset`, `message_complete`, `message_error`
--   Ir.Led             ir/ir_led.cpp: `setOutputTimes`, `transmit`, `repeat`, `stop`, `set_next`
-- A transmitter turns an address and a function into pulse times, and `IR_LED` puts these out, one
-- alarm after the other. An `IR_Receiver` measures the edges of its input, asks its protocol whether
-- a message starts, stores the pulses, and has the protocol decode the whole message for the
-- application's callback.
--
-- Network (network/):
--   Network.Ws         network/ws.cpp, `BuildPacket` over a string and `ParsePacket`; the bytes of a mask,
--                      which `rand` gives, are an argument, and `char` is unsigned, as on the Pico
--   Network.Http       network/httprequest.{h,cpp}: the request, its request line, headers and cookies;
--                      `Parse` has `parseRequest`, `Post` and `Multipart` the bodies, `uri_decode` and `query`, `Reply` the
--                      functions on the header of a reply
--   Network.Send       network/web.{h,cpp}, `WEB::SENDBUF` and the queue of a `WEB::CLIENT`
--   Network.Client     network/web.cpp, the requests of a `WEB::CLIENT`: `addToRqst`, `rqstIsReady`, `resetRqst`
--   Network.Web        network/web.{h,cpp}, the clients of `WEB`: `addClient`, `deleteClient`, `findClient`, `nextHandle`,
--                      `close_client`, `write_next`, `send_buffer`; `Serve` has requests, upgrades and messages,
--                      `Serve.Callbacks` the functions `tcp_server_*` that lwIP calls
--   Network.Wifi       network/web.{h,cpp}, the WiFi of `WEB`: `connect_to_wifi`, `update_wifi`, `check_wifi`, the
--                      access point, and scans
--
-- Util (util/):
--   Util.Memory        arrays of bytes, `memcpy`, `strncpy`, and the copy loops of util/txt.cpp
--   Util.Txt           util/txt.{h,cpp}: the buffer, `expand`, `contract`, `=`, `+=`, `insert`, `replace`,
--                      `substitute`, `find`; `Util.Txt.Holds` is the text that a buffer holds
--   Util.Text          the static functions of util/txt.cpp on strings
--   Util.Button        util/button.{h,cpp}: timers and events, and the list of buttons; `Util.Button.Trace`
--                      is the abstract machine of its events
--   Util.Led           util/led.{h,cpp}: `setFlash`, `setFlashPattern`, and the timer of an LED
--   Util.DbgFlag       util/dbgflag.{h,cpp}: the characters that are typed, and the flags that they set
--   Util.JsonMap       util/jsonmap.{h,cpp}: `itemCount`, `fromMap`, loading and looking up, over a parser
--   Util.JsonString    util/jsonstring.{h,cpp}: a text in its own buffer or in the data of a parser
--   Util.FileLogger    util/file_logger.{h,cpp}: counting the lines of the log, and `trim_file`
-- `WS::BuildPacket` has a second form over a `TXT`, which is `Network.Ws.InPlace`. What `new char[n]` holds is a
-- parameter `fresh`, of which only the size is used.
--
-- State is a record, and each operation a function on it. A pointer to a client of the server is its handle, and `none`
-- stands for an access through a pointer whose client is deleted, or through the null pointer. What lwIP, the driver of
-- the WiFi, the clock and the application answer are parameters. An access outside an array is `none` or sets the `fault` of the receiver. What a receiver asks of the SDK and of the application is a log,
-- newest first; the ids of granted alarms are a function of that log. Loops run over their lists or
-- over the rounds that are left; the loop of `TXT::split` has the length of its text as fuel, which
-- is shown to be enough. The loops of `HTTPRequest` have fuel too: the number of lines is bounded by the
-- length of the text, and those for which no fuel is enough are among the results. The loop of `nextHandle` has fuel for
-- each client and one more, which is shown to be enough; the loop over the lines of a log has its length; that of
-- `tcp_server_recv` has its fuel as an argument, and is `none` without enough. `std::stoul`,
-- `sscanf` and `std::to_string` are parameters, with what the code relies on as hypotheses.
--
-- Not modelled: GPIO and PWM registers, the registry of receivers, blocking waits, the raw receiver, sound, servos
-- and power, which set registers; the DHCP server, which is third-party code; starting and stopping to listen, the
-- forms of sending that take a `TXT`, who owns the memory of a send buffer; time stamps and formats of the logs; and the
-- storage that strings reserve.
pub mod Base
pub mod Alarm
pub mod Bits
pub mod Ir
pub mod Network
pub mod Util
