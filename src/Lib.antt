-- ===== src/Lib.antt =====
-- HighWire, a web browser for Atari computers.
--
-- The program reads a page through jobs of a small scheduler (src/schedule.c): the loader, the
-- parser and the image decoders are functions that the main loop calls again and again by
-- `schedule` until their queue is empty. The loader asks what kind of file it holds
-- (src/mime.c), the parser gets the names of tags, keys and CSS properties from the scanner
-- (src/scanner.c, token.h), the text of the page is written in the encoding of the font
-- (src/encoding.c), and so are the markers of lists (src/list.c). Cookies are kept in jars of
-- twenty places (src/cookie.c); the lines of an answer's header set them (src/http.c). The names
-- of hosts are kept once each, with flags for their domains (src/Location.c). Each of these parts is a
-- module here:
--
--   Schedule   src/schedule.c. `Sched` is the file's static state, its queue the doubly linked
--              list in the order of `Next`, each node with its address. `sort_in`, `move_out`,
--              `sched_init`, `sched_insert`, `sched_remove`, `sched_clear` and `schedule` are
--              functions on it. What a job does is the parameter `run`: it gets the state and
--              returns another one, so that a job may call the scheduler. The calls of the
--              control function are recorded in the state. Queue is about the order of the
--              list, Remove and Clear about the two ways to drop jobs, Run about the rounds.
--   Encoding   src/encoding.c with en_uni.h, en_bics.h and en_atari.h. An encoder is a function
--              from the bytes at `*src` to what it leaves there and what it writes to `dst`.
--              Row and Tables are the search for a replacement, Utf8 the decoder, Unicode, Bics,
--              Atari and Aes the encoders for three kinds of fonts and for the AES, Select the
--              choice among them. Lookup is about the search, Utf8.Decode, Utf8.Strict and
--              Utf8.Advance about the decoder, Bounds and Steps about how much is read and
--              written, Ascii, Agree and RoundTrip about what is written; Latin9 is ISO 8859-15 itself.
--   Scanner    src/scanner.c and token.h: `scan_tag`, `scan_key`, `scan_css` and `scan_encoding`,
--              each a function from the text to a symbol and what is left of the text; Entities
--              has `scan_namedchar` and Text `scan_string_to_16bit`, which write characters too.
--              Tags, Keys, Css and Entities have the tables; Lookup is about the search in them,
--              Words, Names, Properties and Entities.Names about what is read, Text.Ends about
--              the loop over a text. Numeric has `scan_numeric`, in 1/256, and Numeric.Range its
--              bounds.
--   Mime       src/mime.c and mime.h: `mime_by_extension`, `mime_to_extension` and
--              `mime_by_string` with the tables that they search.
--   Numbering  src/list.c: the text of `list_marker` and the routines for decimal, alphabetic
--              and Roman numbers.
--   Cookie     src/cookie.c: `Jars` is the file's static state, a list of jars of twenty places each.
--              Attributes reads the text of a header, Slots is what `cookie_set` does to the places of
--              a jar, Set the function itself, Collect `cookie_Jar`. Slots.Packed and Slots.Front are
--              about the places as a list, Set.Domain, Set.Safe and Set.Own about the jar that is
--              written to, Collect.Expired, Collect.Order and Collect.Best about what is sent.
--              What `malloc` gives in a call, `http_date` and the time are parameters.
--   Http       src/http.c: Date is `http_date`, Charset `http_charset`, Fields the functions for the
--              fields of a header and the loop over its lines. Date.Written and Date.Asctime are about
--              three forms of a date, Charset.Named about the name that is looked up, Fields.Realm
--              about `WWW-Authenticate`, Fields.Exclusive and Jars about what the lines keep. `mktime`
--              and the time zone are parameters.
--   Location   src/Location.c: the lists of hosts, domains and paths with their flags. Store is the
--              search that the lists share, Hosts `host_entry` and `location_DBhost`, Domains
--              `location_DBdomain`, Paths `path_check` and `location_DBpath`. Store.Interned,
--              Store.Kept, Hosts.Kept and Hosts.Found are about what stays and is found again,
--              Domains.Missed about what is not.
--   Common     C strings as lists of bytes, tests on numbers, and the binary search that the
--              tables of the program share.
--
-- A `char` is unsigned, as the build's flags say, and a word of memory has its more significant
-- byte first, as on the machine. Numbers are natural numbers with the wrap-around of the C type
-- written out; signed numbers are `Int.ℤ`. A fault, such as a NULL or a dangling pointer that is
-- followed, is `none`.
--
-- Fuel: `schedule` and `sched_clear` take fuel because the jobs may make their loops endless.
-- A call of `schedule` that is limited to n jobs needs more than n, `sched_clear` more than the
-- number of queued jobs if the jobs leave the scheduler alone, and `scan_string_to_16bit` more
-- than the length of its text. The binary search is given the size of the table, and `decimal`
-- and `alpha` the number plus one, since they divide it in each round.
--
-- Not modelled: everything that draws or talks to the system (windows, fonts, images, network)
-- and the layout of the page; of the scanner, `scan_color`; of the list markers, their boxes; of
-- the cookies, their file; of HTTP, the request and the connection; of the locations, the splitting
-- of URLs and the directories. Out of reach is a call of `schedule` that performs 2^31 jobs. In
-- UTF-16 a text that ends within a character makes the source read on behind its end: for
-- `scan_string_to_16bit` this is a fault, and the encoder alone stops at the end.
pub mod Common
pub mod Schedule
pub mod Encoding
pub mod Scanner
pub mod Mime
pub mod Numbering
pub mod Cookie
pub mod Http
pub mod Location
