-- ===== src/Lib.antt =====
-- SimCRS, a simulated central reservation system (CRS): a C++ service that sells travel solutions
-- by calls of four other components.
--
-- The parts and how they interact:
--   * `SIMCRS_Service` (simcrs/SIMCRS_Service.hpp, simcrs/service/SIMCRS_Service.cpp) is what
--     clients use. It holds a pointer on a service context, and each of its methods calls the
--     components that the context holds. Service.antt has its construction and destruction,
--     Service/Bom.antt what builds, loads and clones business objects, Service/Booking.antt the
--     travel solutions, fares, availability, sales and cancellations, Service/Display.antt the
--     exports. Service/Operation.antt gathers the public methods in the data type `Operation` and
--     runs one by `perform`; Service/Life.antt has what a client does to services as a step
--     relation.
--   * `SIMCRS_ServiceContext` (simcrs/service/SIMCRS_ServiceContext.hpp and .cpp) holds a smart
--     pointer on each component: Context.antt.
--   * `DistributionManager` (simcrs/command/DistributionManager.cpp) sells and cancels leg by
--     leg: Distribution.antt. Distribution/Plan.antt says what it should sell, without its loops,
--     and Distribution/Reference.antt is a sale in two steps, which reads the whole solution and
--     then sells.
--   * The factories (simcrs/factory/) make the contexts and delete them. Factory/Service.antt is
--     FacServiceAbstract.cpp, Factory/Bom.antt FacBomAbstract.cpp, Factory/ServiceContext.antt
--     FacSimcrsServiceContext.cpp and Factory/Supervisor.antt FacSupervisor.cpp. The identities
--     of business objects in FacBomAbstract.cpp are Factory/Identity.antt, over a hash function
--     as a parameter.
--   * The stream operators of the abstract classes (simcrs/bom/BomAbstract.hpp and
--     simcrs/service/ServiceAbstract.hpp) are Stream.antt.
--   * The batch program (simcrs/batches/simcrs.cpp) reads its options, makes a service, and sells
--     one travel solution. Batch/Options.antt has its tables of options, Batch/Configuration.antt
--     `readConfiguration` on the two standard streams, Batch/Run.antt `main`, which adds to these
--     streams what it does to the library, Batch/Vectors.antt its output operator on vectors.
--
-- The state. Memory.antt has the objects that SimCRS makes with `new`, at addresses that are
-- never used twice, and the two static instance pointers; a deleted object is `none`, so that a
-- dangling pointer, a double `delete` and a NULL pointer are each seen. (In C++ a new object may
-- get the address of a deleted one; that a new address is given out is a choice of the model.)
-- Program.antt adds the calls made of the other components so far. Exec.antt has the functions on
-- a state: they return a value, or end in a failed assertion, undefined behaviour or an
-- exception, and what was written before stays.
--
-- The other components (StdAir, AirTSP, AirInv, SimFQT) are libraries that this repository calls.
-- Stdair.antt has their types and accessors as a record, a parameter of the model; Calls.antt has
-- the calls and a parameter `World` that answers each, or raises an exception, as the calls
-- before it may determine. Nothing is assumed of the answers but where a theorem names it:
-- `Replying` is that no call raises an exception. Boost program options is a parameter too, the
-- record `ProgramOptions` of Batch/Options.antt, with what Boost documents of options with one
-- value and a default as the record `IsDocumented`.
--
-- The manual (man/simcrs.doc) describes `--builtin` the other way round from the code, and names
-- options that the program does not have; the model follows the code.
--
-- There is no fuel but in the text of a number: each loop of the code goes over a list, and a
-- std::size_t has at most 20 digits.
--
-- Not modelled: log lines, the log file and chronometers; the reference counts of the smart
-- pointers; an allocation that fails; what a list that a method changes in place holds after an
-- exception; the help texts of the options; the exception classes of simcrs/SIMCRS_Types.hpp,
-- which have no behaviour.
--
-- Exec.antt, Program/ and Base.antt have what the parts share: `Only` is what a function does at
-- most, `Keeps` what it leaves true of the objects, `attempt` a row of calls up to the first
-- exception, and `Traces` that a function is such a row; `Rounds` are calls in a row whose
-- answers count, one for each element of a list. Program/Returning.antt goes back from a result
-- to the answers before it. Service/Machine.antt is the abstract machine that the life of a
-- context follows, and Service/Delegation.antt says what each public method is for. Tests.antt
-- has a small inventory and its children run the program over it.
pub mod Base
pub mod Stdair
pub mod Calls
pub mod Exec
pub mod Context
pub mod Memory
pub mod Factory
pub mod Program
pub mod Distribution
pub mod Service
pub mod Stream
pub mod Batch
pub mod Tests
