-- ===== src/Lib.antt =====
-- The core data structures of SPTAG, a library for approximate nearest neighbour search, and the
-- messages between its server, aggregator and clients.
--
-- A search of an index keeps the nodes to visit in heaps (COMMON::Heap), the ids it has seen in a
-- hash table (OptHashPosVector), the distances found in a bounded queue (DistPriorityQueue), and the
-- results in a bounded heap that is sorted at the end (QueryResultSet). Vectors that are deleted are
-- marked in a column of bytes (LabelSet, VersionLabel over Dataset). A client sends a query as a
-- packet and waits for the response under a resource id (ResourceManager); the connections stand in a
-- pool (ConnectionManager). The posting lists of SPANN stand in a file of blocks (FileIO).
--
--   Base, Order, Array   names, numbers and lists shared by all; `operator<` of element types; arrays
--   Heap                 AnnService/inc/Core/Common/Heap.h
--   Pairs                AnnService/inc/Core/SearchResult.h, NodeDistPair
--   Results              AnnService/inc/Core/Common/QueryResultSet.h, AnnService/inc/Core/SearchQuery.h
--   Visited              AnnService/inc/Core/Common/WorkSpace.h, OptHashPosVector
--   Worst                AnnService/inc/Core/Common/WorkSpace.h, DistPriorityQueue
--   WorkSpace            AnnService/inc/Core/Common/WorkSpace.h, WorkSpace: the queues and the visited set
--                        of one search
--   Dataset              AnnService/inc/Core/Common/Dataset.h: rows in blocks, and in files
--   Labels               AnnService/inc/Core/Common/Dataset.h, LabelSet.h, VersionLabel.h
--   BlockPool            FileIO::BlockController of AnnService/inc/Core/SPANN/ExtraFileController.h and
--                        AnnService/src/Core/SPANN/ExtraFileController.cpp: the free blocks
--   FileIo               AnnService/inc/Core/SPANN/ExtraFileController.h, FileIO: the postings by key
--   Wire                 AnnService/inc/Socket/SimpleSerialization.h, Packet and RemoteSearchQuery of
--                        AnnService/inc/Socket and AnnService/src/Socket
--   Connections          AnnService/src/Socket/ConnectionManager.cpp
--   Resources            AnnService/inc/Socket/ResourceManager.h
--   Base64               AnnService/src/Helper/Base64Encode.cpp
--   Outcome              how a search ends: a result, a failure of CheckAndSet, a fault, or no fuel
--   Bkt                  AnnService/inc/Core/Common/BKTree.h (Bkt) and AnnService/src/Core/BKT/BKTIndex.cpp:
--                        Search (Bkt.Query, Bkt.Loop) and SearchIterative (Bkt.Iterative)
--   RelativeGraph        AnnService/inc/Core/Common/RelativeNeighborhoodGraph.h
--   QueryParser          AnnService/src/Server/QueryParser.cpp
--   Postings             AnnService/inc/Core/Common/PostingSizeRecord.h
--
-- State is a record with the fields of the class, without `m_`; a method is a function of the same
-- name from the state to its result and the new state. `Option` stands for what may fail: `none` is
-- an access outside an array, an exception, or the fuel of a loop running out. Well-formedness is
-- `IsValid` of each component.
--
-- Numbers are natural numbers; the wrap of a machine word is written where the code relies on it
-- (hashes, ids, counters). Indices of arrays are below 2 ^ 31. A float stands as its place in the
-- order of the floats, since the code only compares distances; NaN is left out. A template's type is
-- any type with a strict weak order.
--
-- Fuel: the loops of the heaps take one more than the number of entries, and each round goes to a
-- child or a parent. The loop of AddConnection has 512 rounds, twice the pool: the ids come in order,
-- so that every slot comes up twice, once at least under a valid id. The fuel of CheckAndSet is the
-- number of doublings that it may make; a doubling may fail to end in the code itself, and then there
-- is no result. A search passes this on: its outcome `overflow` names the set and the id for which
-- CheckAndSet failed. The loop of a search pops a node in each round, of which there are as many as
-- samples that were not visited and nodes in the queue; SearchTrees pops a cell of the trees in each
-- round, and a cell weighs more than its children together.
--
-- AddBatch of a dataset writes at least one row in each pass of its loop, so that as many rounds as
-- rows are enough; whether a block can be allocated is a parameter. Its blocks have 2 ^ rowsInBlockEx
-- rows, so that the shift and the mask of an index are its quotient and its remainder. The label sets
-- use their column as the sequence of its rows, which Dataset.Address.view is, and memory for new rows
-- of it is taken to suffice; a label set is initialized once, right after its construction.
--
-- A posting of SPANN is a string of bytes in blocks of a file. The file controller takes its blocks
-- from a pool and gives them back; while checkpoints are on, what is given back waits in a reserve for
-- the next checkpoint. Whether the file grows and which requests of a batch complete are parameters of
-- each call (BlockPool.Device). A cell of the mapping is no array, an array without a posting, or one
-- with a posting; the addresses behind the end of a posting are left out. A posting has less than
-- 2 ^ 31 bytes, and the capacity of the mapping is not reached.
--
-- The distance of the query to a sample, whether a vector is deleted, and whether it passes the filter
-- are parameters of a search. A well-formed index has its rows, centers and children inside its
-- arrays, and the duplicates of a node at the distance of the node. The threads that change the sizes
-- of postings make one access to memory at a time, in any order.
--
-- Not modelled: datasets that share their blocks (colStart) or lie in mapped memory, building the
-- trees and the searches that refine a graph, the breadth first start of a search (EnableBfs, off
-- by default), the KDT index, SPANN and SPFresh but for their file of postings, the LRU cache of that
-- file (off by default) and its reads into page buffers, quantizers and SIMD distances, CUDA, sockets,
-- threads, files and the programs. The calls of the managers, the label sets and the file of postings
-- run one after the other.
pub mod Base
pub mod Order
pub mod Array
pub mod Dataset
pub mod BlockPool
pub mod FileIo
pub mod Heap
pub mod Results
pub mod Pairs
pub mod Visited
pub mod Wire
pub mod Base64
pub mod Labels
pub mod Worst
pub mod WorkSpace
pub mod Outcome
pub mod Bkt
pub mod QueryParser
pub mod Postings
pub mod RelativeGraph
pub mod Connections
pub mod Resources
