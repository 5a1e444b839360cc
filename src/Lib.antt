-- ===== src/Lib.antt =====
-- collab-vm-server 2.0: a server that shares virtual machines among the users of a web page. Clients
-- connect over WebSocket, chat, join the channel of a machine, queue for the turn to control it, and
-- vote on its restart; administrators manage machines, accounts and invitations.
--
-- Every part keeps its state behind a strand of Boost.Asio, so a handler is one step. The library
-- models a handler as a function from the state before it to the state after it; the time at which it
-- runs, the random bytes it draws and the settings it reads are arguments, and the messages it queues
-- are recorded in order. A fault (an empty optional, an iterator out of range, a write past the end, an
-- uncaught exception) is `none`.
--
-- The parts, and how they interact:
--   Turn      TurnController.hpp: the queue of users for the control of a machine. `step` of Turn/Queue
--             runs one operation or the timer's handler. Users are numbers; `position` holds the field
--             turn_queue_position_ of every user. The calls of the virtual functions are recorded as
--             `notices`, which the machine handles.
--   Vote      VoteController.hpp: the vote on a restart, with 32-bit counters. Its calls of TBase are
--             returned as a `VoteEvent`, which the machine handles.
--   Channel   UserChannel.hpp: the users of a channel, the count of administrators, the lists and
--             broadcasts. TBase is the record `ChannelBase`. Channel/Users is the map of users, and
--             `update_username` the part of SetUserData in CollabVmServer.hpp that acts on a channel.
--   Vm        AdminVirtualMachine.hpp: a machine is the three of them together, with its settings and
--             its life cycle. Vm/State has the life cycle, Vm/Operations what users, administrators
--             and timers cause; Vm/Reach has the step relation and reachability.
--   Chat      CollabVmChatRoom.hpp: the ring of the last hundred messages.
--   Frame     SocketMessage.hpp and CapnpMessageFrameBuilder.hpp: the segment table of a message.
--   Accounts  Database/Database.cpp and Database.h: accounts, sessions, invitations, reserved names.
--             A table is a list of rows under its declared constraints.
--   Outbox    CollabVmServer.hpp: the messages that a client's socket is to send (SendMessage,
--             SendMessageBatch, SendMessageCallback, QueueMessage, QueueMessageBatch).
--   Captcha   CaptchaVerifier.hpp: the requests to the captcha service, one at a time, with retries.
--             An asynchronous operation under way is an entry of `operations`; Captcha/Run has
--             everything that can happen.
--   VmList    CollabVmServer.hpp (VirtualMachinesList): the map of machines, the lists that clients
--             and administrators see, and their refresh by questions to the machines (SetVmInfo of
--             AdminVirtualMachine.hpp). VmList/Resizable is ResizableList, VmList/Answers has the
--             handlers of the answers. The map keeps the order in which machines were added.
--   Panel     CollabVmServer.hpp: the messages about machines and settings that administrators may send,
--             and the request of the list that everybody may; `on_message` is the part of OnMessage
--             for them. It uses VmList, Config for the
--             settings of the server, and Database.h for the ids of machines.
--   Guests    CollabVmServer.hpp, CaseInsensitiveUtils.hpp, IPData.hpp: the names of the clients
--             without an account (GenerateUsername, CHANGE_USERNAME, OnDisconnect) and the number of
--             connections of an address.
--   Rooms     CollabVmServer.hpp: the channels that a client is in (CONNECT_TO_CHANNEL, OnDisconnect); of
--             a channel only its users count there.
--   Auth      CollabVmServer.hpp: registration, login, the second factor, the change of a password and
--             CreateSession, on the tables of Accounts. Auth/Rows and Auth/Tables are about what
--             these leave of names and rights in the database.
--   Direct    CollabVmServer.hpp: the private rooms of two clients (NEW_DIRECT and DIRECT of CHAT_MESSAGE).
--   Posts     CollabVmServer.hpp: CHAT_MESSAGE as a whole: its checks, and the rooms of Chat and Direct that
--             a message goes to. Posts/Reach relates the rooms of the channels to what is broadcast.
--   Config    CollabVmServer.hpp (ServerSettingsList) with UpdateList of Database.h and the table
--             ServerConfig of Database.cpp: the settings of the server in memory and on disk.
--             Config/Restart is about what a restart loads.
--   Machines  The settings of the machines: CreateVm of Database.cpp, the constructor of VirtualMachinesList
--             in CollabVmServer.hpp and GetInitialSettings of AdminVirtualMachine.hpp.
--   Utils     Utils.hpp: form_urlencode. Totp: Totp.hpp, the one-time passwords; Totp/Windows has
--             the codes of RFC 4226 as a reference.
--   Message   the messages that these parts build, as far as they fill them.
--   Timer     boost::asio::steady_timer, as an interface with laws; `plain_timer` meets them.
--   Base      shared tests, lists, maps and integers.
--
-- Code that is not in the repository is an argument: the timer, Argon2, HMAC, Cap'n Proto's blobs and
-- the schema's default values, Boost's replace_all and case folding, std::to_string,
-- Common::ValidateUsername, Common::vote_limit and the sizes and limits
-- of Common. Times are natural numbers of nanoseconds (of milliseconds where the source keeps those),
-- without the bounds of the machine's integers; a vote's counters and the count of administrators wrap at 2^32, and a position at 2^64. The loops of CreateSession and
-- CreateInvite recur on the list of random bytes that they would draw; a list is long enough when one
-- of its entries is not in use. The loop of GenerateUsername has one step of fuel more than there are
-- guests, which is enough by its theorem.
--
-- Not modelled: input and output (WebSocketServer.hpp, FileUploadReader.hpp, Main.cpp, file_body.hpp),
-- the calls of the Guacamole libraries (GuacamoleClient.hpp, CollabVmGuacamoleClient.hpp), the strand
-- guards, the rest of CollabVmServer.hpp (the other messages), and
-- of the settings in the database the test machine and the update of a machine's rows.
-- A machine's settings from the database (Machines), its object (Vm) and its place in the list (VmList,
-- which sees of it what SetVmInfo tells) are separate. `EndCurrentTurn` passes
-- a reference into the queue to `RemoveUser`, which is a fault once `erase` has invalidated it. Argon2
-- fills a hash of the declared length, as every stored one has, so that `std::equal` over the stored
-- hash is the equality of the two.
pub mod Base
pub mod Timer
pub mod Turn
pub mod Vote
pub mod Machines
pub mod Message
pub mod Channel
pub mod Vm
pub mod Chat
pub mod Frame
pub mod Captcha
pub mod Config
pub mod Direct
pub mod Utils
pub mod Totp
pub mod VmList
pub mod Panel
pub mod Guests
pub mod Rooms
pub mod Accounts
pub mod Auth
pub mod Outbox
pub mod Posts
