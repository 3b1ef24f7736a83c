-- ===== src/Lib.antt =====
-- A model of arango-cpp, a C++ client for the ArangoDB server, and theorems about it.
--
-- The program. A user holds an API object: `ArangoDBCollectionAPI`, `ArangoDBGraphAPI` or
-- `ArangoDBUsersAPI`, all of class `ArangoDBAPIBase`. Each operation makes an `HttpMessage` with a
-- Velocypack body, hands it to the virtual `sendREQUEST`, and reads the answer. `sendREQUEST` takes
-- a libcurl handle from a pool, translates the message to options of curl, performs the transfer,
-- reads the answer from the buffers that two callbacks fill, and gives the handle back.
--
-- The files, with the code that each models:
--   Base             names of the libraries; texts as lists of bytes (Base/Texts), `std::map` and
--                    `std::set` as sorted lists (Base/Maps), `int64_t` and `int` (Base/Int),
--                    exceptions as values and actions on a state (Base/Results)
--   Detail           src/arangodetail.h, `split` of src/arangocurl.cpp, members of std::string
--   Velocypack       the calls of the Velocypack library, a parameter of all that follows
--   Requests         src/arangorequests.h, src/arangorequests.cpp
--   Connection       include/arango-cpp/arangoconnect.h, src/arangoconnect.cpp
--   Query            include/arango-cpp/arangoquery.h, src/arangoquery.cpp
--   Curl             src/arangocurl.h, src/arangocurl.cpp
--   Api              src/curlobjects_pool.h, `ArangoDBAPIBase` of include/arango-cpp/arangocollection.h
--                    and src/arangocollection.cpp, `sendREQUEST` of src/arangodbusers.cpp
--   Collections, Select, Removal    `ArangoDBCollectionAPI` of src/arangocollection.cpp
--   Documents        the operations on single documents against a database of documents, over any
--                    client (Documents/Refines) and over the pool and libcurl (Documents/Stack)
--   Graph            src/arangograph.cpp; records of one type, vertices or edges, against the database
--                    of Documents (Graph/Refines)
--   Users            src/arangodbusers.cpp; users against a map of names to accounts (Users/Refines)
--   Root             `ArangoDBRootClient` of src/arangoconnect.cpp
--   Programs         main.cpp and the programs of examples/
--   Existence, Handles    theorems over the operations of several API classes
--   Tests            runs on concrete inputs
-- Theorems about a file stand in the files below it: Requests/Slices, Select/Cursor and so on.
--
-- How code is translated. A function that may throw is an action `M S A`: a function from a state
-- to a result, which is a value or a `Fault`, and the state afterwards, which an exception leaves
-- as it was when it was thrown. A `try` block is `catching`. An operation of an API class is an
-- action over any state: it takes a `Client`, with `sendREQUEST` as a field, the static members of
-- `ArangoDBConnection` and the batch size. `send_base` and `send_users` of Api are the two versions
-- of `sendREQUEST` that the code has, over the pool and the world that curl works in. A callback is
-- an action over the same state; the versions of an operation that return a vector run it over the
-- state with a list beside it. A name in the model is the C++ name in snake case: `selectQuery` is
-- `select_query`, and `select_query_list` where it returns a vector; `createREQUEST` is
-- `new_request`, or `request_with` where a body follows; the other `create...Request` functions
-- lose the verb, as `createAQLRequest` is `aql_request`.
--
-- Parameters. `VPack` has a field for each call of Velocypack that the code makes, and for the
-- documents that it builds; `IsLawful` says what is documented of the encoding of whole values, for
-- a `Slice` that is always one, and only theorems that need it take it; on other bytes `slices()`
-- is described without it. `Net` has what libcurl does: whether a handle is made, and what a
-- transfer gives for the options that were set; `CurlLib` of Curl/Handles has what
-- `curl_easy_setopt` is documented to do to a handle, and `Answers` of Api/Stack says that a
-- transfer depends on the request that the options of its handle make, on whether they await a
-- response body, and on the callbacks. The model of a handle keeps the options since its
-- constructor, which sets the callbacks. What a server does is never defined: Documents/Server says
-- in `IsServer` what it promises about documents, where it chooses the keys of documents that ask
-- for none, and the texts that it keeps, with a revision or other fields of its own, afresh in each
-- call; Documents/Http in `IsHttpServer` how it does so over HTTP, Graph/Records and Users/Accounts
-- what it promises about the records of a graph and about users, Existence/Names in `Keeps` what it
-- promises about collections, Removal/Server in `IsServer` what it promises about edges, and
-- Select/Pages in `ServesAs` which pages it serves, and theorems take these as hypotheses. The
-- contents of configuration files are a function. `Collection::merge` of Velocypack, the double
-- `10.01*ii`, the clock and `std::stoi` are parameters of Programs. The floating-point type of the
-- comparisons in src/arangodetail.h is the record `Floating` of Detail/Comparing, with the laws
-- `IsIeee`.
--
-- Bounds and fuel. `slices()` is given one round for each byte of the payload and one more, and
-- `split` one for each byte and one more; Requests.Slices and Detail.Split show that these are
-- never used up, but for a payload with a value of size 0, on which the loop of the code does not
-- end either. The cursor loop depends on the server, which decides how many pages there are: it
-- takes a number of rounds and ends with the fault `unfinished` beyond it, and Select.Cursor shows
-- that a round for each page is enough, and Select.Finite that the loop ends within a number of
-- rounds that a measure of the server's state gives, if further pages use that measure up.
-- `std::isalnum`, `std::isspace` and `tolower` are those of the C locale. The error number of the
-- server is converted to an `int` modulo 2^32; the batch size is an `int` whose double is one, too.
-- Sizes in memory are natural numbers. Texts that are passed on by `c_str()`, such as the address,
-- the header lines and the user, have no NUL byte; `Parser::fromJson` is one function of the text,
-- with and without the options that the constructor of the collection API sets.
--
-- Not modelled: logging; the option that turns off the check of certificates; the field `_request`,
-- which only keeps a message alive; what happens inside a call of the pool, which is one step, as
-- its mutex makes it (Api/Pool and Api/Threads have the steps of several threads); tests/,
-- which needs a running server.
pub mod Base
pub mod Detail
pub mod Api
pub mod Velocypack
pub mod Requests
pub mod Connection
pub mod Query
pub mod Curl
pub mod Collections
pub mod Select
pub mod Removal
pub mod Graph
pub mod Users
pub mod Existence
pub mod Tests
pub mod Handles
pub mod Documents
pub mod Root
pub mod Programs
