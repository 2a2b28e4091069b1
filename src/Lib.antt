-- ===== src/Lib.antt =====
-- libytdl: a verification library for the C library and command line tool that download videos.
--
-- The program and the files that model it:
--   src/buffer.c, include/ytdl/buffer.h: the byte buffer. Buffer.antt.
--   src/net.c, include/ytdl/net.h: HTTP request texts. Net/Request.antt, one function for each
--     builder; Net/Url.antt has what the code reads of a parsed URL; Net/VideoId.antt finds the id of
--     a video in a URL.
--   src/sig.c, include/ytdl/sig.h: the names and calls that a player's script deciphers signatures
--     with, Sig.antt; the extraction of both with its memory, Sig/Extract.antt; the file that keeps them, Sig/File.antt; the script for a URL, Sig/Script.antt.
--   src/dl.c, include/ytdl/dl.h: the downloaders, driven by the HTTP parser's callbacks.
--     Dl/Queue.antt is the info downloader (`ytdl_dl_ctx_t`), and its shutdown is Dl/Queue/Shutdown.antt; Dl/Cache.antt is the file of its players,
--     Dl/Media.antt the media downloader
--     (`ytdl_dl_media_ctx_t`), Dl/Stream.antt the DASH downloader (`ytdl_dl_dash_ctx_t`).
--   src/info.c, include/ytdl/info.h: the formats of a video and the choice among them, Info.antt; the
--     percent decoding of their URLs, Info/Decode.antt; the reversal of a signature,
--     Info/Reverse.antt; all the actions on a signature, Info/Decipher.antt; the URL of a format from
--     its cipher, Info/Url.antt; the watch page, Info/Page.antt; the player response,
--     Info/Response.antt, over the state in Info/Context.antt; the choice on that state,
--     Info/Select.antt.
--   src/http/http.c, include/ytdl/http/http.h: the client's reading and writing. Http.antt.
--   src/http/tcp.c, and the connection of src/http/http.c: the resolution of a host, the TCP
--     connection, the TLS session and its handshake. Http/Connect.antt; the tear-down,
--     Http/Shutdown.antt.
--   src/dash.c, include/ytdl/dash.h: the DASH manifest. Dash.antt, Dash/Format.antt and
--     Dash/Segments.antt.
--   src/mux.c, include/ytdl/mux.h: the copying of an audio and a video file into one. Mux.antt has
--     the loop, Mux/Files.antt the calls around it.
--   src/cli.c, include/ytdl/cli.h: the command line tool, Cli.antt: what it does with the two
--     downloads of a video; what it starts for a video, Cli/Start.antt; its URLs, Cli/Main.antt.
--
-- The command line tool starts the downloads that Info chooses, and joins them by the muxer; the
-- media and the DASH downloader send the texts of Net through the client of Http; the info downloader
-- reads a player's script by Sig, and Info.Decipher uses the actions that Sig finds.
--
-- Base.antt passes on the shared names: tests on numbers, lists, C text (`c_str` is the text before
-- the first NUL, `snprintf` bounds a text by its buffer), runs that may fault. Tests.antt holds
-- concrete runs.
--
-- A function of the source is a function of the same name without the prefix `ytdl_`. State is
-- passed explicitly. A callback that the user gives is recorded when it is called and does not call
-- back. Sizes are natural numbers; arithmetic that may wrap around is written modulo 2^64, and modulo
-- 2^32 for an `int`, which is its 32-bit pattern; a number that is passed as the `int` precision of
-- `%.*s` is cut to one. A result `none` is undefined behaviour where its file does not say
-- otherwise. Allocation succeeds, or its success is an argument.
--
-- Fuel: `decimal` has fuel for the 20 digits of a 64-bit number; `chunk_ranges` has fuel for the
-- number of chunks in the resource and one more; `decode_from` has fuel for the length of its text,
-- and more does not change its result; `reverse_from` has fuel for the length of its text;
-- `mux_loop` has fuel for a round for each packet of either file and two more; `load` of the player
-- cache has fuel for a round for each byte of the file and one more.
--
-- Not modelled: the copies of QuickJS, libregexp, libunicode, cutils, yyjson, llhttp, http_parser
-- and hashmap, which are other projects; where the code calls them they are parameters, except for
-- `strnstr` of src/cutils.c, which is in Base/Search.antt. Of the rest: the options and messages of
-- src/cli.c and the build-time src/regexc.c.
pub mod Base
pub mod Buffer
pub mod Net
pub mod Sig
pub mod Info
pub mod Dash
pub mod Http
pub mod Dl
pub mod Mux
pub mod Cli
pub mod Tests
