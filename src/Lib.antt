-- ===== src/Lib.antt =====
-- Cayley, a graph database: its iterators, its transactions, and its in-memory quad store.
--
-- A query becomes a tree of iterators. Each node of the tree offers the same methods to the one
-- above it (graph/iterator.go): `Next` moves to the next result, `Contains` tests one value, and
-- `Err` says why the iterator stopped. Iterators at the leaves read a quad store, and the chain of
-- graph/iterate.go runs the root to its end. Writers collect changes as deltas in a transaction
-- (graph/transaction.go), which the store applies as a whole.
--
-- Prelude holds what the modules share: tests, lists, maps as association lists (Assoc), int64
-- with its wrap-around (Int64), and outcomes (Outcomes), since a call may return, panic, or run
-- out of the fuel that stands for its loops.
--
-- Quad                  quad/quad.go: directions, quads, Get and Set.
-- Quad.Streams          quad/rw.go: slices of quads as readers and writers, Copy, CopyBatch, ReadAll.
-- Graph.Value           graph/values.go: values that may be nil, Keyer, ToKey.
-- Graph.Tagger          graph/iterator.go: Tagger.
-- Graph.Stats           graph/iterator.go: IteratorStats and the counters.
-- Graph.Iterator        graph/iterator.go: the interface, as a record of functions on a state.
-- Graph.Iterate         graph/iterate.go: Each, All, Count, First and TagEach.
-- Graph.Transaction     graph/transaction.go: AddQuad and RemoveQuad, with deltas of quadwriter.go.
-- Iterator.And          graph/iterator/and.go, and Stats of and_optimize.go.
-- Iterator.Or, Fixed, Limit, Skip, Not, Unique, Optional, Count
--                       graph/iterator/or.go, fixed.go, limit.go, skip.go, not.go, unique.go,
--                       optional.go, count.go.
-- Shape                 graph/shape/shape.go: the shapes that a query is made of. Shape.Optimize has the
--                       Optimize methods, Shape.Rewrite puts them together, and Shape.Meaning says
--                       which values a shape stands for in a store. Shape.Path is
--                       graph/shape/path.go, the steps of a path.
-- Memstore              graph/memstore/quadstore.go: the data. Memstore.Resolve goes from values to
--                       ids (resolveVal, resolveQuad, findQuad), Memstore.Change adds and deletes
--                       quads (AddQuad, Delete, ApplyDeltas), Memstore.Read is what the store
--                       tells of its values (Quad, QuadDirection), and Memstore.AllIterator is
--                       all_iterator.go.
-- Tests                 the theorems at concrete inputs.
--
-- An iterator's state is a record with the fields of the Go struct, and a method that changes the
-- receiver returns the new state. Iterator.Laws says what an iterator promises: on the Next path
-- that it enumerates a sequence (`Enumerates`), and on the Contains path that it decides a set
-- (`Decides`). The theorems about an iterator take the promises of the ones below it as arguments,
-- and its own promise has the same form, for the ones above. The sub-iterators of an And or an Or
-- have one type of states, which may be a sum of several.
--
-- Fuel: a sequence has a cost, which bounds the calls of loops below a state and falls with each
-- value. The theorems ask for more fuel than the cost. Optimize of a shape takes one more than the
-- number of the shapes in the tree, which no replacement makes larger. The loops that copy quads
-- take one more than the reader has quads.
--
-- The values of a shape are those that its iterator finds, apart from order, repetition and tags:
-- a shape of nodes is asked about the nodes of the store, a shape of quads about its quads. Count
-- and Page, whose results depend on more, are not described. BuildIterator panics on a nil part of
-- an Intersect or a Union and where a direction is not set, and so does `find`, which builds the
-- iterator and asks it for a value; apart from that, BuildIterator is described by the values and
-- not translated. A plain shape has no such part or direction, its parts have values in the store,
-- and it has none of the forms for which Optimize is known to change the values.
--
-- Not modelled: contexts and their cancellation, logging, unique ids of iterators, locks, and
-- Optimize of iterators. The And iterator has at least one sub-iterator here. The trees of
-- graph/memstore/keys.go, a generated copy of a library, are a parameter, and so is what a value
-- tells the in-memory store: its text, and the id that an internal blank node spells. Left out so
-- far are the other back ends, the paths of graph/path, which build shapes, the query languages,
-- the formats, and the servers.
pub mod Prelude
pub mod Quad
pub mod Graph
pub mod Iterator
pub mod Shape
pub mod Memstore
pub mod Tests
