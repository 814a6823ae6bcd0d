-- ===== src/Lib.antt =====
-- The own-game server: a verification library for the repository's C++ server. Paths are from the
-- root of the repository; the comment at the top of each file gives them from its directory src.
--
-- A client's bytes reach a ClientSession, which keeps them in a buffer and decodes them with the
-- frame codec; the decoded messages go to the router and from there to request handlers, which work
-- on the user-session map, the players and the rooms. A room holds a group of players and a match.
-- What is sent goes through the router to a session, which encodes it for its TcpConnection.
-- The files and the code that they model:
--   Codec           src/network/codec/mTcpCodec.hpp, src/protocol/mTcpProto.h. Codec.Header has the
--                   layout of a frame header, Codec.Encoder EncodeSync, Codec.Decoder DecodeSync.
--                   Codec.Passthrough is PassthroughCodec of src/network/codec/IMessageCodec.hpp.
--   ToolFunc        src/core/ToolFunc.hpp: Crc32C and ToHex. ToolFunc.Instructions has the
--                   branches of Crc32C for x86-64 and ARM, over their instructions as arguments.
--   ClientSession   src/network/session/ClientSession.cpp: onSocketRecv and SendMessage;
--                   ClientSession.Setup has the constructor, the setters and close.
--   SessionManager  src/network/session/SessionManager.cpp: sessions, heartbeats and the sweep.
--   UserSessionMap  src/protocol/Router/UserSessionMap.cpp: Bind, Unbind and the look-ups.
--   Group           src/business/Group/Group.hpp: AddMember, RemoveMember, SetCapacity and others.
--   Player          src/business/GamePlayer/GamePlayer.hpp, and the heap of player objects that the
--                   player manager and the rooms share.
--   PlayerManager   src/business/GamePlayer/GamePlayerManager.cpp.
--   UserState       src/core/User/UserStateManager.cpp.
--   RuntimeData     src/business/GameLogic/RuntimeData.hpp and GameProto.hpp.
--   Battle          src/business/GameLogic/GameCmdHandler.cpp: ProcessCommand, ValidateCmd and
--                   GameEndCheck; Battle.Handler has StartGame, Tick and the timer.
--   Room            src/business/GameRoom/GameRoom.cpp: the operations of one room.
--   RoomManager     src/business/GameRoom/GameRoomManager.cpp: the rooms by id and by code.
--   Messages        src/protocol/MessageProto.hpp: the result codes.
--   TcpConnection   src/network/session/TcpConnection.cpp: a socket's reads and its write queue.
--                   TcpConnection.Outbox is the abstract queue that it is compared with.
--   MsgRouter       src/protocol/Router/MsgRouter.cpp: sends to users, sessions and rooms, and the
--                   handler of a message type.
--   HeartbeatHandler, ReqHandler, RoomReqHandler
--                   src/business/HeartbeatHandler.hpp, ReqHandler.cpp and GameRoom/RoomReqHandler.cpp.
--   JsonTranslator  src/protocol/JsonTranslator.cpp over a record of the JSON library's operations.
--   GameMap         src/business/GameLogic/GameMapIO.cpp: the cache of maps and ParseMapData;
--                   GameMap.Print has the lines of testPrintMap.
--   PlayerProto     src/business/GamePlayer/GamePlayerProtoImpl.hpp.
--   RoomUtils       src/business/GameRoom/GameRoomUtils.hpp: room codes.
--   Server          src/main.cpp and src/network/TcpServer.cpp: the wiring, accepted connections, and
--                   the way of received bytes through sessions and router to the handlers.
--                   Server.Actions has what can happen to a running server: connections that
--                   are accepted, reads and writes that complete, and tasks that a handler
--                   has posted; Reach is the relation of its states.
-- Prelude and Assoc hold what the parts share: tests, lists, words of bytes, and maps as association
-- lists. An operation of the source is a function of the state it changes, with the same name in
-- lower case; where RoomManager has the name of a room's operation, it adds `of` or `in`.
--
-- Bytes and machine words are natural numbers, and arithmetic on words is written with its modulus.
-- A session keeps the whole read buffer: the used bytes, and the older ones behind them, which the
-- decoder reads at a frame without type bytes. The test of onSocketRecv for a copy past the buffer is
-- the model's: where it holds, the code writes out of bounds.
-- DecodeSync's loop runs on fuel, one more than the length of the input: every round consumes at
-- least the 26 bytes of a header. The other loops are structural.
-- Mutexes and strands make each operation one step; histories are lists of steps. Theorems on a
-- running server whose ids must not repeat take fewer than 2^32 actions, so that no counter wraps.
-- The map loader, the generated room codes, the clock, the text of a player's default name and the
-- bytes of a winner's id are arguments. A command that throws leaves the match as it was, and the
-- exception of StartGame is a result.
--
-- A std::string is a list of bytes where the code copies bytes, and a String where it is a key or a
-- name; text_of and bytes_of of Prelude go between the two.
--
-- Not modelled: the text that the JSON library writes and how it parses, opening the map files,
-- threads and the accept loop's socket calls, logging, the function PostToStrand, which nothing
-- calls, and undefined behaviour of C++ other than the accesses out of bounds, and the removal from
-- an empty queue, that are results of the model. Where one of these occurs, or an exception leaves a
-- handler, the run of a server ends: nothing in the code catches the exception and goes on. What the
-- CRC instructions of a processor do is a hypothesis. The message callback of a connection is given
-- its calls on the connection as an argument.
pub mod Prelude
pub mod Assoc
pub mod Messages
pub mod ToolFunc
pub mod Codec
pub mod ClientSession
pub mod Group
pub mod UserSessionMap
pub mod Player
pub mod RuntimeData
pub mod Battle
pub mod PlayerManager
pub mod Room
pub mod RoomManager
pub mod SessionManager
pub mod TcpConnection
pub mod MsgRouter
pub mod JsonTranslator
pub mod HeartbeatHandler
pub mod ReqHandler
pub mod RoomReqHandler
pub mod Server
pub mod PlayerProto
pub mod RoomUtils
pub mod GameMap
pub mod UserState
