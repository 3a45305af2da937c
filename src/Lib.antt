-- ===== src/Lib.antt =====
-- CGRAOmp compiles OpenMP kernels for coarse-grained reconfigurable architectures (CGRAs), as LLVM
-- passes. A CGRA is described by a JSON file; the passes read it, verify that a kernel fits the
-- CGRA, extract its data-flow graph, and optimise and print the graph.
--
-- Parts and files (paths from the root of the repository):
--   Prelude, Errors   shared names, the outcome of fallible calls; class ModelError of
--                     include/CGRAModel.hpp.
--   Llvm, Json        what the source calls of LLVM's IR classes and of llvm::json. These are
--                     interfaces: records of types and functions that every definition takes.
--   Annotation        src/Passes/CGRAOmpAnnotationPass: the annotations of functions, by which
--                     custom instructions are known.
--   InstMap           src/Passes/CGRAModel/CGRAInstMap.cpp: mapping conditions (Condition), the
--                     kinds of entries (Entry), and class InstMap, which says what operation of the
--                     CGRA an instruction is mapped to. Invariant and Preserved hold its
--                     well-formedness, Rules and Refinement its abstract view, Find its search.
--   Config            the parsers of the parts of the configuration: getStringArray,
--                     createMapCondition (Mapping), getCategory, getOption, parseAGConfig (Setting).
--   Model             src/Passes/CGRAModel/CGRAModel.cpp: class CGRAModel and parseCGRASetting.
--   Directed          what CGRADFG calls of llvm::DirectedGraph, an interface with its laws.
--   DataFlowGraph     include/CGRADataFlowGraph.hpp and
--                     src/Passes/CGRAOmpComponents/CGRADataFlowGraph.cpp: class CGRADFG. Invariant,
--                     Links and Operations say which nodes the virtual root points to, Incoming
--                     is about findIncomingEdgesToNode, Numbers about IDs. Its connect has the
--                     assertion of llvm::DirectedGraph that both nodes are in the graph.
--   BalanceTree       src/Passes/CGRAOmpDFGPass/BalanceTree.cpp: initWeight and, before its sort,
--                     findRootCandidates.
--   Verify            include/VerifyPass.hpp and src/Passes/CGRAOmpVerifyPass/VerifyPass.cpp: the
--                     results of a loop (Summary) and the check that the instructions of a kernel
--                     are supported (Availability).
--   Ir, ScalarEvolution
--                     what the analyses of loops call of LLVM's values and expressions, as interfaces.
--   Decoupled         src/Passes/CGRAOmpVerifyPass/DecoupledAnalysis.cpp: the loads, the stores and the
--                     computation of a kernel. Search is about its fuel, Reach about what it meets.
--   LoopDependency    src/Passes/CGRAOmpVerifyPass/LoopDependencyAnalysis.cpp: the dependencies between
--                     the iterations of a loop.
--   AffineAg          src/Passes/CGRAOmpVerifyPass/AGVerifyPass.cpp: whether addresses are affine, and
--                     their configurations. Simple and Affine describe the expressions.
--   DecoupledVerify   VerifyPass.cpp again: DecoupledVerifyPass::run, which calls these three analyses
--                     and asks the model for each instruction, and class VerifyResult.
--   TmVerify          VerifyPass.cpp again: TimeMultiplexedVerifyPass::run and the search for loop
--                     kernels, and what they call of src/Passes/CGRAOmpComponents/Utils.cpp.
--   DfgPass           src/Passes/CGRAOmpDFGPass/DFGPass.cpp: the data-flow graph of a kernel for a
--                     decoupled CGRA, by the operations of DataFlowGraph. Nodes and Edges hold the
--                     invariant of the two halves of its construction, Built the whole.
--   TypeName          include/CGRADataFlowGraph.hpp, DataNode::getTypeName.
--   GepStride         Utils.cpp and DFGPass.cpp: the strides of the indices of an address.
--   TmDfg             DFGPass.cpp again: the data-flow graph of a kernel for a time-multiplexed CGRA.
--                     Its parent holds the nodes, Deps the edges of dependencies between iterations,
--                     Geps the computation of addresses, and Graph the whole function. Grown says
--                     what no step loses; Kernel and Insts are about nodes, Linked, Dependency and
--                     Carried about dependencies, Addresses, Indices and Pointers about addresses,
--                     Remaining and Connected about the other edges; Given names what a kernel must
--                     be like, and Built puts the parts together.
--   OmpKernels, OmpSchedule
--                     include/CGRAOmpPass.hpp and src/Passes/CGRAOmpPass/CGRAOmpPass.cpp: the kernels
--                     that OpenMP has outlined, and the call that sets up their schedule.
--   OptKeyValue       include/OptionPlugin.hpp and src/Passes/CGRAOmpComponents/OptionPlugin.cpp:
--                     options of the form key=value.
--   Tests             an instance of each interface, runs, and the theorems at concrete inputs.
--
-- The model keeps the names of the source in snake case: InstMap::add_map_entry is
-- InstMap.add_map_entry, MapCondition::match is matches, InstMapEntry::match is match_inst. A method
-- that changes its object returns the new object. Expected<T> and Error are the type Result, whose
-- third case, fault, stands for a null pointer that is dereferenced, an empty std::function that is
-- called, an assertion that fails, a division by zero, a signed overflow, an object that is deleted
-- twice, or code that must not be reached. In the
-- analyses of loops a value of the IR is its address, and a set of pointers is a list of addresses
-- whose order no theorem uses; TmDfg, where the order decides about
-- faults, takes the orders in which sets and maps are walked as arguments. StringMap is an association list; the order in which LLVM
-- iterates over one is not modelled, and it shows only in the list of valid values of an error
-- message. A shared pointer to an entry is the entry with an address.
--
-- Loops run over lists, but for four. The search in Decoupled has fuel, and the instructions of
-- the loop and all users of values are enough of it. The search in AffineAg has the size of the
-- expression as its fuel, which always is enough. The skipping of casts has as fuel the number of
-- casts in a row, which is finite since the operations of a program do not depend on themselves in
-- a circle. The loop over pointer types in TypeName needs fuel of two, and with a pointer to a
-- pointer it never ends.
--
-- Not modelled: output to streams (print, dump, log, warnings, remarks), which returns nothing to
-- the program; destructors; the rewriting step of the balancing of graphs; the names of files and
-- of nodes; the proxies that ask LLVM for cached results; loops with several latches. An ID that is given by numbering has no upper bound in the model, and
-- neither has the number of dependencies of a loop.
pub mod Prelude
pub mod Errors
pub mod Llvm
pub mod InstMap
pub mod Annotation
pub mod Json
pub mod Config
pub mod Directed
pub mod Ir
pub mod GepStride
pub mod LoopDependency
pub mod ScalarEvolution
pub mod AffineAg
pub mod OptKeyValue
pub mod Decoupled
pub mod DecoupledVerify
pub mod TmVerify
pub mod DataFlowGraph
pub mod DfgPass
pub mod TmDfg
pub mod BalanceTree
pub mod Verify
pub mod TypeName
pub mod OmpKernels
pub mod OmpSchedule
pub mod Model
pub mod Tests
