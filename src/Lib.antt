-- ===== src/Lib.antt =====
-- The currency rates service: a Windows service that fetches the exchange rates of a bank each
-- day, stores them, and fetches again the days that failed. This library models the logic of the
-- service and the support library that it stands on.
--
-- Parts, bottom up, with paths from the root of the repository:
--   Text, Utf8   support/str_util.hpp and support/str_util.cpp: trimming, splitting, replacing,
--                numbers in a radix, hexadecimal and base64 text, UTF-8. A `std::string` is the
--                list of its bytes.
--   Map          `std::map` as a list of entries whose keys ascend.
--   Json         support/json.hpp and support/json.cpp: the dynamic value `object`, its members by
--                name and by index, its conversions, the serializer, `translate`, which makes a
--                value of the parser's document tree, and the deserializer of tokens with its
--                stack. A member that returns a reference is a function that changes what the
--                reference stands for. Json/Documents is the part of the JSON grammar that the
--                parser is relied on to read.
--   Dates        src/misc_utils.hpp and the ISO 8601 scanner of
--                support/time/windows/timespec_wrapper.hpp.
--   Query        src/api_queries_composer.hpp.
--   Disk         support/file_util.cpp over a file system.
--   Schedule     src/fetch_schedule.hpp: the dates that failed, in memory and in their file.
--   Storage      src/rates_storage.hpp: the rates by date and currency.
--   Config       src/configuration.hpp: the configuration and its file.
--   Threads      support/threading/: the readers-writer lock and the spin lock, one atomic access
--                at a time, in any order of the threads.
--   Jobs         support/command_queue.hpp and support/command_queue.cpp: the job queue with its
--                clients and workers, and the queue of deferred jobs.
--   Fetch        src/exchange_rates_fetch_logic.hpp: fetching, the retry job and the cron threads.
--   Bits         support/bit_util.hpp: the bits of a byte, the order of a number's bytes, bsort, and
--                maps of bits.
--   Serial       support/serialization.hpp: sizes as bytes, buffers between their sizes, and the
--                iterators over them, in memory that is a list of bytes.
--   Tokenizer    support/fsm_tokenizer.hpp: the state machine that cuts a text into tokens by rules.
--   SetOf        support/set_of.hpp: the operations of sets.
--   Ring         support/containers/ring_buffer.hpp: a bounded queue over raw storage.
--   Prelude      what the modules share; Tests, a concrete world and the theorems in it.
-- Fetch calls Query for the address, Json for the body, Dates to validate it, Storage to keep it,
-- and Schedule where it failed. Storage and Schedule write and read their files through Disk, with
-- the serializer and the parser of Json. State is passed from call to call: the disk, the stored
-- value and the schedule. A call that throws returns an `err`, and `catch` reads it.
--
-- Parameters, which stand for code that the repository does not hold: the calendar of the C library
-- (Dates/Civil), floating point (Json/Real), the file system (Disk), the JSON parser and the cron
-- library, which are copies of other projects, and the network's answers. The tokenizer is modelled
-- over any test of a symbol for a class, of which the program's is one.
--
-- Loops are recursion over what they walk. Where they count, they recurse on the rounds left: as
-- many as the index has values. The digits of a word take 64 rounds, which every radix of 2 or more
-- keeps to. Splitting and replacing take one round more than there are characters, and each round
-- uses up a separator. UTF-8 decoding takes a round for each byte. The calls that the
-- tokenizer makes of itself are counted: rules may make it call itself for ever, and rules that let
-- the initial state take each symbol need two. The retry job has fuel, since it need not end; where
-- the bank answers, one round more than there are dates is enough.
--
-- Threads and Jobs are step relations: a state, what each thread does next, and the states that are
-- reached by steps in any order. The numbers of threads are arbitrary.
--
-- Not modelled: logging, the wrappers that hold a lock around a value, the statistics by which the
-- command queue starts and stops its workers, the Windows service entry points, the registry, the
-- HTTP client with sockets and TLS, the tokenizer's parser of rules and its classes of symbols, and
-- other parts of the support library that the service does not call.
pub mod Prelude
pub mod Map
pub mod Text
pub mod Utf8
pub mod Json
pub mod Dates
pub mod Query
pub mod Ring
pub mod Disk
pub mod Schedule
pub mod Storage
pub mod Config
pub mod Fetch
pub mod Threads
pub mod Jobs
pub mod Bits
pub mod Serial
pub mod Tokenizer
pub mod SetOf
pub mod Tests
