-- ===== src/Lib.antt =====
-- A verification of MPMC-with-memory-management: a pool of tagged messages, a lock-free ring that
-- passes them between threads, the wire formats that they carry, and the trading parts on top.
--
-- The program. `TaggedPool` (include/mem/memory_pool.hpp) owns a fixed number of message slots; who
-- acquires one owns its bytes. `MPMC` (include/mpmc/mpmc.hpp) is a ring of pointers to such messages:
-- `push` gives ownership away, `pop` and `try_pop` take it. `Runtime` (include/mpmc/mpmc_runtime.hpp)
-- starts and joins producer and consumer threads on both. The feed side (include/feed) splits the
-- frames of a shared inlet into messages, and pushes them; the trading side (include/trading)
-- turns ticks into signals, signals into orders, and orders into confirmations, each in the
-- message that carried the former. Every payload is a packed struct of include/proto, copied by
-- `std::memcpy`.
--
-- The files.
--   Base: numbers, lists, sums over lists, bits, signed integers.
--   Arch: include/core/arch.hpp.
--   Wire: a struct's byte image by its layout, as `std::memcpy` sees it: `load` and `store`.
--   Proto: the structs, one record each with its layout (Nasdaq, Nse, Signal, Sbe, Mcx), the
--     enumerations (Enums), `Kind` and `TaggedMessage` (Message), the decoders and splitters of
--     include/proto/itch_decode.hpp (ItchDecode), mtbt_decode.hpp (MtbtDecode), sbe/decode.hpp
--     (Sbe/Codec) and mcx/decode.hpp (Mcx/Codec).
--   Pool: `TaggedPool`, one function for each method.
--   Ring: `MPMC`, one function for each method and one for each of their loops.
--   Runtime: `advance` is one atomic access of a worker thread; `Step` in Runtime/System is one step
--     of any thread, and `Reach` any interleaving.
--   Trading: strategy.hpp (Strategy), producer.hpp (Producer), consumer.hpp (Consumer) and
--     gateway.hpp (Gateway) of include/trading; Ledger is the account of a pool's messages that
--     these share with Feed.
--   Codec: src/lz4_codec.cpp.
--   Feed: shared_inlet.hpp (Inlet), shared_inlet_map.hpp (InletMap), frame_ingress.hpp (Ingress),
--     feed_reader.hpp (Reader), multicast_receiver.hpp and multicast_simulator.hpp (Multicast) of
--     include/feed. Handoff is the writer and the reader of an inlet, one access at a time: `Step` is
--     one access of either, and `Reach` any interleaving. Compressed takes a frame through Codec,
--     Inlet and Reader.
--   Os: src/os_memory.cpp and include/mem/os_memory.hpp.
--   Program: the trading part of src/main.cpp, from the market queue to the confirmations, and the
--     frames that it publishes (Frames).
--   Net: src/udp_multicast.cpp and include/net/udp_multicast.hpp.
--
-- The model. A pointer is its address, `nullptr` is 0, and a pool stands at a base address with a
-- stride of 384 bytes. An integer is its bit pattern, a signed one by two's complement, a `double` by
-- its IEEE pattern; wrap-around is written out. A weak compare-exchange may fail spuriously: an
-- oracle says so for the sequential calls, and each step of a thread for the concurrent ones. Memory
-- is sequentially consistent. Loops that spin run on fuel: `push` needs as many attempts as the ring
-- has slots while one is empty; `split_itch_frame` has the length of its frame; `split_mtbt_frame`
-- takes its fuel from outside, since it need not end.
-- What the kernel answers to `mmap` and `mlock`, and the network to the calls of a socket, is a
-- parameter that may depend on the calls before; the model keeps the list of these. The functions
-- of the LZ4 library are parameters too. In Feed/Handoff each plain member of a slot is an access,
-- the payload is one, and the sequence has not wrapped; the ingestion of a frame is one step, which
-- is possible only if it returns, and other threads may change the pool and the queue at any time.
-- The wait of the hub runs on fuel, which is enough when the reader has processed the frame by one
-- of that many loads.
--
-- Not modelled: the Windows branches of src/os_memory.cpp, the inside of the kernel, of the network
-- and of the LZ4 library, the threads of the hub beyond the turns of their loops, and of src/main.cpp
-- the SBE part, the order of starts and stops, and what is printed.
pub mod Base
pub mod Arch
pub mod Wire
pub mod Proto
pub mod Pool
pub mod Ring
pub mod Runtime
pub mod Trading
pub mod Codec
pub mod Feed
pub mod Os
pub mod Net
pub mod Program
