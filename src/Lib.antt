-- ===== src/Lib.antt =====
-- The filters of the envoy-wasm-filters repository, as functions on explicit state, and what they
-- guarantee. The repository holds three Envoy filters compiled to WebAssembly, each a root
-- context, which reads the configuration, and a context per request, whose callbacks the proxy
-- calls.
--
-- Base: what the models share: tests on numbers, lists, functions that differ at one number, byte
--   strings, bit masks, decimal texts and two's complement.
--
-- AwsLambda: extensions/aws_lambda. Requests to a Lambda function are signed.
--   AwsLambda/Gmtime: gmtime.cc, the replacement of `gmtime`. The year loop has the number of
--     days and one more as fuel: every round takes at least one day off. Calendar states the
--     Gregorian calendar without the loops; Loops, Unique, Correct and Centuries compare the two,
--     Range bounds the fields, and Injective tells times apart. The integers of the model are not
--     bounded; on the target, where time_t and long have 32 bits, times end in 2038.
--   AwsLambda/Hex: HexEncode of aws_authenticator.cc.
--   AwsLambda/Platform: the SHA-256 library, the proxy's headers, body and clock, doubles, the
--     width of time_t and the contents of freed memory, which are parameters, with their
--     documented laws. Reading the freed path, as every signature does, is undefined in C++; the
--     parameter read_freed gives nothing where the program cannot go on, or the bytes that it
--     goes on with.
--   AwsLambda/Authenticator: aws_authenticator.{h,cc}. The strings and the set of headers are
--     here, the methods in Signing under their own names; Spec states the signature on whole
--     strings, and Headers, Url, Correct and Sign show that the methods compute it. Keyed follows
--     a caller that constructs an authenticator, gives it a key, feeds it a payload and signs,
--     Dates is about the texts of a date, HeaderSets about the set to sign as a quotient of
--     lists.
--   AwsLambda/Filter: filter.{h,cc}: the callbacks, `lambdafy`, and sequences of callbacks. The
--     context owns an authenticator, whose `sign` it calls. A null pointer that is read is
--     `none`. The filter never gives its authenticator a key: Laws is about calls without one,
--     and Path about the path of an invocation.
--
-- Common: extensions/common, which the metrics filter calls.
--   Common/ResponseFlag: parseResponseFlag of util.cc.
--   Common/Context: context.{h,cc}: what is collected about a request, and the traffic direction.
--
-- Transformation: extensions/transformation. Headers are rewritten by templates.
--   Transformation/Headers: getHeader and round of utils.cc; First says what getHeader finds.
--   Transformation/Matcher: matcher.{h,cc}. The unordered map is a list in the order of
--     iteration, and Entries and Laws show that the order has no effect on the answer.
--   Transformation/Engine: regular expressions, JSON values, the template engine and the proxy's
--     header maps, which are parameters, and exceptions as values. Results is about loops that
--     throw.
--   Transformation/Transformer: Extractor, TransformerInstance and InjaTransformer of
--     transformation.cc. Make and Throwing are about their construction, Spec states what a
--     template renders to without the class's map and loops, Extract is about the group of a
--     match, Render and Rewrite about the loop that writes the headers.
--   Transformation/Routes: TransformationConfig of transformation.cc, which gives a request the
--     route of a matching rule. Make is about its construction.
--   Transformation/Filter: filter.cc: the root context and the two handlers, which catch
--     exceptions. Configured is about sequences of configurations, Exchange about what a route
--     does to a request and its response, Lifetime about a response whose configuration is gone,
--     Copying about the configuration that the README shows, and Throwing is about the exceptions
--     of a configuration. A context points at a route of the root context's configuration: the
--     pointer carries the epoch of the configuration, and cannot be read in a later one. System
--     has the calls that the proxy makes of the root context and of the contexts of several
--     requests, in any order, as runs; Invariant holds along every run, and Interleaved follows a
--     request and its response between the calls of others.
--
-- Metrics: extensions/metrics/filter.{h,cc}. The callbacks collect a request's sizes and times;
--   onLog completes them with Common and reports the metrics. Sizes, Counters and Requests follow
--   a request from its callbacks to the report, Totals several requests on one root context, and
--   Streams the calls of several requests in any order, as functions on the contexts and the
--   metric calls so far.
--
-- In each part a module Tests has runs and concrete instances of the theorems; the modules
-- Instances have the small stand-ins for the parameters that they use. Names follow the source in
-- snake_case (`parseResponseFlag` is `parse_response_flag`, onConfigure `on_configure`); records
-- have the members without their trailing underscore. Texts are lists of bytes. Numbers of 64 and
-- 32 bits are their bit patterns, with the wrap-around written out where sums are taken. Loops
-- over containers are structural recursion. Decimal texts have the number and one more as fuel,
-- since each round divides by ten.
--
-- Not modelled: extensions/transformation/inja.hpp, a copy of another project's library; protobuf
-- and its JSON parser, whose messages are records; logging; the static buffer of gmtime's result,
-- which both callers format at once; the registration of the factories; handleDefaultBody and
-- cleanup, which are declared and never defined; build files and tool chains.
pub mod Base
pub mod AwsLambda
pub mod Common
pub mod Transformation
pub mod Metrics
