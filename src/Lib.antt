-- ===== src/Lib.antt =====
-- Verification library of the strus bindings.
--
-- The program offers the libraries of strus to languages and to web services. This library models
-- six of its parts. Requests use the pool of transactions, the map of contexts, the paths and the
-- error codes of the others; the other parts do not share state.
--
-- * Transaction models src/webrequest/transaction.cpp and src/webrequest/transaction.hpp, the pool
--   of the open transactions of a service: a hash table of slots with a table of references from
--   indices to slots, and a garbage collection by a clock. Transaction/Id has the hexadecimal
--   identifiers (transactionId_, transactionIndex_), Transaction/Pool the state, the generator of
--   indices and the probing loops, Transaction/Operations the calls (createTransaction,
--   fetchTransaction, returnTransaction, collectGarbage, and the destructor of a transaction).
--   Transaction/System runs the calls of any number of clients against one pool. The other files
--   prove what the calls do: Transaction/Invariant and Transaction/Preservation,
--   Transaction/Exchange and Transaction/Lifecycle, Transaction/Garbage and Transaction/Expiry,
--   Transaction/Construction, Transaction/Faults, Transaction/Disposal. The clock, the address
--   from which the generator starts and the success of allocations are arguments; each call is one
--   step. This is a limit of the model, which is about calls that do not overlap: newTransaction
--   has two critical sections and writes entries outside of them, fetchTransaction reads the entry
--   of the index without a lock, and collectGarbage empties slots without the mutexes of the
--   slots, so that the interleavings of calls of several threads, and their data races, are not
--   modelled. The random generator is modelled as it is written.
--
-- * WebRequest models helpers of src/webrequest. WebRequest/ErrorCode, WebRequest/Content,
--   WebRequest/Accept, WebRequest/AcceptChoice and WebRequest/Encoding are about
--   src/webrequest/webRequestUtils.cpp and include/strus/webRequestContent.hpp: HTTP states, names
--   of content types, the scanning of headers like Accept, the choice of a content type and an
--   encoding, and the cutting of a text. WebRequest/Scanning, WebRequest/Rounds and
--   WebRequest/AcceptTermination are about the loops of the scanner, WebRequest/AcceptOrder and
--   WebRequest/Choice about the order of the elements and the choice. WebRequest/PathBuf is
--   src/webrequest/pathBuf.hpp, the path of a request with its iterator. WebRequest/TypeNames,
--   WebRequest/Truncation and WebRequest/ByteOrder are about the names of types, the cut of a text
--   and the encodings. The weights of a header are floats that another library reads, so they are
--   the parameter Weights; the functions of papuga on encodings are the parameter Encodings. A
--   thrown exception is an error value; the source does not tell its exceptions apart here.
--
-- * Config models src/webrequest/configurationHandler.cpp and
--   src/webrequest/configurationHandler.hpp, the stored configurations of a service.
--   Config/FileName has the names of the files, Config/ContextMap the std::map of contexts as its
--   ordered list of entries, Config/Handler the operations in memory, Config/Storage and
--   Config/Stored those on files, as actions on the handler and the store that return a value or
--   throw. The file system is the parameter FileSystem, whose calls return the error codes the
--   source tests; the time stamp of a call is an argument. Config/FileNameParts and Config/Counter
--   are about the names, Config/Commit about commits, Config/StoredOnce about reading the stored
--   files. Not modelled are getSubConfigurations and createSubConfig, which walk a structure of
--   papuga.
--
-- * Parser models the scanner and the patterns of src/parser/interfaceParser.cpp. Parser/Lexical
--   has characters and skipping, Parser/Annotations the annotations of comments, Parser/Comments
--   comments and brackets, Parser/Output and Parser/Pattern the patterns of variable types and
--   their outputs, Parser/Structure the skipping of templates and structures. The two pointers of
--   a scanner are the list of the bytes between them; a pointer that has passed the end of the
--   source is the error overrun. Parser/Skipping, Parser/AnnotationEnds, Parser/CommentEnds and
--   Parser/PatternEnds are about the loops, Parser/Overrun and Parser/Brackets about comments and
--   brackets, Parser/Annotated about the map of annotations, Parser/PatternBinds about patterns
--   and outputs. Not modelled are the type system and the parsing of classes.
--
-- * EventLoop models src/webrequest/curlEventLoop.cpp and src/webrequest/curlMessage.cpp, the
--   thread that sends requests to other services over libcurl and calls functions periodically.
--   EventLoop/Message has the URL, the port and the options of a request, EventLoop/State the
--   state and what is outside, EventLoop/Jobs the constructor of CurlMessage and
--   WebRequestDelegateJob, EventLoop/Client what other threads call (send, addTickerEvent, start,
--   stop), EventLoop/Thread the steps of the thread (activateIdleJobs, processEvents, listen,
--   tick, checkTick, terminatePendingRequests) and EventLoop/Run its loop. These are actions on
--   the state that return a value or throw. libcurl, the pipe, the receivers and the tickers are
--   the parameter Outside, with one state of their own, World; the calls of other threads take
--   effect before the tests of the flag of termination, which the mutexes and the wait of the loop
--   allow. A handle is named by the number of handles made before it. The trace has the calls of
--   send and what happens to receivers and tickers. EventLoop/Account counts the answers,
--   EventLoop/Batches is about the reading of messages, EventLoop/Shutdown and
--   EventLoop/Termination about the end of the thread, EventLoop/Ticks about the tickers,
--   EventLoop/SendErrors about failures of send. Left out are the lines of the log and the state
--   m_logState that suppresses repeated ones, the setting up and release of the multi handle and
--   the pipe, and failures of memory for lists and jobs.
--
-- * Request models the requests of a web service: the files src/webrequest/webRequestContext*.cpp
--   and, of src/webrequest/webRequestHandler.cpp, pathToSelf. Request/State has the state of a
--   request, with the pool of transactions and the handler of configurations that it refers to;
--   Request/Object the object a path addresses (initRequestObject, initSchemaDescriptionObject),
--   Request/Transact the calls of methods into variables and the transactions
--   (callHostObjMethodToVariable, executePostTransaction, executeCommitTransaction),
--   Request/Execute the dispatch of executeObjectRequest with the marks [1] to [4] of the source,
--   Request/Complete execute and complete, Request/Configure and Request/Configure/Removal the
--   requests for configurations with what they store. These are actions on the request that return
--   a value or throw; no_behaviour stands for what C++ does not define. Request/Format has the
--   format strings of environment variables (parseFormatElement), Request/SelfPath the test for an
--   address of the service itself. papuga is the parameter Papuga; the calls of methods, the links
--   of answers and the variables of papuga are the parameter Calls; the content type, the results,
--   the printing of answers and the execution of schemas are the parameter Handlers, and what the
--   requests for configurations need of the schemas and of the store of files is the parameter
--   Schemas. with_configurations puts these requests into the place of those of Handlers. Each of
--   these is an action on the whole request. Request/Explained, Request/Configure/Answers and
--   Request/Configure/Deletes are about the answers of requests that fail,
--   Request/Configure/Pending is about the transaction of a request for a configuration, for which
--   Config/Prepared says what storing a description leaves, Request/Silent is about requests that
--   fail without an answer, Request/GivesBack and Request/Addressed about requests and the pool,
--   Request/Format/Expands and Request/SelfPath/Addresses about formats and addresses. Left out
--   are the lines of the log; the message of an error is not kept, only its code.
--
-- Base has what the parts share: Boolean tests and lists on native numbers, texts as lists of
-- bytes, integers of 32 and 64 bits, results, and actions on a state.
--
-- A loop without a structural bound runs on fuel: the length of its text for scanners, since each
-- round takes a byte at least; the number of tries for the pool, which the source counts; one more
-- than the entries of a type for temporary names, since each index that is taken takes an entry;
-- one more than a number for its digits; and one more than the messages of libcurl for the loops
-- that read them, with two rounds of curl_multi_perform; and one more than the length of a format
-- for its variables, each of which takes a byte. A scanner or a search for a name that uses the
-- fuel up has an error value or a result of its own, which is not that of the source.
--
-- The rest of the program is not modelled: the loading of stored configurations at the start,
-- delegated requests, the schemas and results of papuga, the bindings of the classes of strus, the
-- generators of sources, templates of languages, and tests.
pub mod Base
pub mod Transaction
pub mod WebRequest
pub mod Config
pub mod Parser
pub mod EventLoop
pub mod Request
