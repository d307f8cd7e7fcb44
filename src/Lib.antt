-- ===== src/Lib.antt =====
-- A model of libcxxext, a system library for C++, with the theorems that make its parts correct.
--
-- Integer models `sys::integer` (sys/Integer.h) and the integer casts of sys/Numeric.h. A value is
-- the bit pattern that `u()` returns, a natural number below 2 ^ width, and `value` reads it as the
-- signed or unsigned number. The operators of the class are functions over such patterns: `add`,
-- `sub`, `mul`, `div`, `mod_by`, `negate`, `shl`, `shr`, and `lt`, `le`, `gt`, `ge`, `eq` across
-- types; `saturate` and `numeric_cast` are the two `bnumeric_cast`, and `literal` the literal
-- suffixes. `int` is taken to have 32 bits. Integer/Arith, Integer/Shift and Integer/Cast are about
-- what they compute, Integer/Ring relates them to the integers, and Integer/Widening is about the
-- conversions that need no check (sys/meta/Builtin.h). Integer/Floats models the casts from `float`
-- and `double` of sys/Numeric.h, at floating-point numbers of IEC 60559, which are a NaN, an
-- infinity or an integer over a power of two; a bound of an integer type is rounded to the
-- floating-point type as its conversion does by default, and Integer/Floats/Casts is about these
-- casts.
--
-- Char models `sys::ch` (sys.Text/Char.h): `read_codepoint8`, `read_codepoint16` and
-- `read_codepoint32` are the overloads of `read_codepoint`, applied to the first unit of a buffer
-- and the units behind it, with `read_units8` for the reads of `read_codepoint8` that would be
-- behind the end of the buffer, and `write_codepoint8` and its like return the units that
-- `write_codepoint` stores. Char/Utf8 and Char/Utf16 turn their bit operations into arithmetic,
-- Char/RoundTrip and Char/Reading are about what they do, and Char/Leads about ill-formed bytes.
-- Char/Encoding is the interface, a record of the two operations and their laws, over which the
-- code above it is generic; its three values are UTF-8, UTF-16 and UTF-32.
--
-- Codepoints models `codepoint_iter` and `codepoint_view` (sys.Text/CodepointIterator.h). The loop
-- over a view takes fuel, the number of units, which is enough since each round moves by at least
-- one unit.
--
-- Text models `sys::string` (sys.Text/StringEx.h) as the list of its units: transcoding, trimming
-- with the whitespace table (sys.Text/data/UnicodeWhitespace.h), splitting, joining, searching and
-- comparison. Text/Search is about where a text stands in another: `std::basic_string::find`,
-- `starts_with` and `ends_with` are given as the standard describes them. The loops of trimming and
-- of splitting by a string take the size of the string as fuel, which is enough for the same
-- reason. Container arguments of `split` and `join` are lists, and an array separator is given
-- without its terminating null.
--
-- Casing models the casing of strings: `as_cased` and `folded` with their two contexts
-- (sys.Text/StringEx.h), over the functions of sys.Text/data/UnicodeCasing.h and UnicodeCCC.h.
-- Casing/Tables has the generated tables, one module for each function, as ranges and runs of code
-- points that Casing/Lookup reads. A table is in blocks, each named for its first code point, and
-- the large ones are in child modules. Casing/Contexts relates the contexts to the code points
-- around a position, Casing/Outputs bounds the conversions, and Casing/Strings is about whole
-- strings. Casing/Keys turns a property of every code point into one that is computed over the
-- entries of the tables; with it Casing/Fixed finds the code points that each conversion keeps
-- (Fixed/Checks computes, Fixed/Special adds the special rules), Casing/Idempotence is about
-- converting twice, and Casing/Caseless about folding what was cased.
--
-- Containers/Queue models `sys::inplace_queue` (sys.Containers/InplaceQueue.h), with the array as a
-- list of `Capacity` elements. Queue/Window has the elements from an index of a circular buffer,
-- Queue/Fifo relates the queue to a bounded queue, Queue/Traces does so for programs over it, and
-- Queue/Iterators is about the arithmetic of its iterators. What `try_dequeue` moves from stays in
-- its slot.
--
-- Containers/Vector models `sys::inplace_vector` (sys.Containers/InplaceVector.h), with a slot for
-- each place of the union, which holds an element or none. Vector/Lifetimes is about which slots
-- hold one, Vector/Elements about their values, Vector/Programs has programs over it and over a
-- bounded list, and Vector/Traces relates the two, with Vector/Layout for how the slots hold a list
-- and Vector/Scalars for scalar types, whose pseudo-destructor may be called where no element is.
--
-- Containers/Set models `sys::inplace_set` (sys.Containers/InplaceSet.h) over any element type with
-- an equality test, and Set/Members relates it to the list of its elements. Containers/AtomicSet
-- models `sys::inplace_atomic_set` (sys.Containers/InplaceAtomicSet.h): what other threads store
-- before each access is an argument, and so is where a weak exchange fails for no reason.
-- Containers/String models `sys::inplace_string` (sys.Containers/InplaceString.h) of `char`, whose
-- copy of whole bytes fits no wider unit.
--
-- Result models `sys::result` (sys/Result.h): the storage of a result is raw or has a value or an
-- error, `Kind` is what the source's `if constexpr` tells apart of the two types, and each
-- operation returns the results it changes, or that it violates a contract, or that it is undefined
-- because it destroys or reads an object that is not there or builds one over another.
-- Result/Lifetimes, Result/Exchange and Result/Taking are about the general template, Result/Void
-- about the specialization for two voids, and Result/Nullable about `nullable_value_result` and the
-- result of a pointer.
--
-- Guards models `sys::destructor`, `sys::optional_destructor` (sys/Destructor.h) and
-- `sys::resource_guard` (sys/ResourceGuard.h) by what their destructors call; both objects of an
-- assignment are different ones. Guards/Scopes is about the order of the cleanups at the end of a
-- scope.
--
-- Meta models computations on types (`replace_cv` and `parameter_pack` of sys/meta/Type.h,
-- sys/meta/TypeSwitch.h) and the size of `sys::aligned_storage` (sys/AlignedStorage.h); a type is
-- its unqualified type, its qualifiers and the kind of its reference, and Meta/Laws is about them.
--
-- Threading models sys.Threading. Once is a step relation over any number of threads and the two
-- atomic flags, an atomic access a step, in sequentially consistent order: the code's acquire and
-- release orders are taken to be enough for that. Semaphore is such a relation over the counter and
-- the mutex, at an unsigned counter type, where the platform's mutex is held by one thread at a
-- time, a wait gives it up while it lasts and may end at any time, and every call may fail but the
-- unlock by a guard, whose failure ends the program. Mutex and CondVar are the calls that one
-- thread makes of the platform's handles (sys.PlatformSupport.Threading), which are parameters;
-- Mutex/Guarded has programs over a mutex and a list of its guards. Thread is `managed_thread` over
-- such a handle, Thread/Programs has programs over a list of its objects, Thread/Functors is about
-- the functor that a thread runs, and Thread/Handles models `sys::thread` and `sys::thread_id` with
-- their results. `wait_until` has a number of tests of its predicate as fuel, and is `none` where
-- these are not enough.
--
-- BitTwiddling models sys/BitTwiddling.h over the operators of `sys::integer`; the values of
-- `std::hash` are arguments of `dhc2`, and BitTwiddling/Hashes is about it.
--
-- Prelude has what these share: Boolean tests, lists indexed by natural numbers, sums over the
-- objects of a program (Prelude/Slots), outcomes (Prelude/Outcome), signed integers, and the laws
-- of the bit operations. Examples holds tests and the theorems at concrete inputs.
--
-- Not modelled: arithmetic on floating-point numbers and `long double`; the concepts of sys/meta
-- and its tests for instances of a template, since there are no C++ expressions and templates here;
-- memory capacity and allocation failure of strings; weak memory orders; the comparison of
-- iterators of `sys::inplace_queue`, which does not compile, and so a loop over them; the wrappers
-- of `std::basic_string` that only pass their arguments on; the handles of
-- sys.PlatformSupport.Threading, which call tinycthread, a library that is not in the repository;
-- and the macros, compiler detection and warning tables, which have no behaviour at run time.
pub mod Prelude
pub mod Integer
pub mod BitTwiddling
pub mod Char
pub mod Codepoints
pub mod Text
pub mod Casing
pub mod Result
pub mod Guards
pub mod Meta
pub mod Threading
pub mod Containers
pub mod Examples
