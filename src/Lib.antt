-- ===== src/Lib.antt =====
-- neli: netlink messages in Rust.
--
-- The library turns the structures of netlink into bytes and back. The trait `Nl` (src/lib.rs) has
-- `serialize`, `deserialize`, `size` and `asize`; a message is a header (src/nl.rs) with a payload:
-- a generic netlink payload (src/genl.rs) with a list of attributes (src/nlattr.rs), a routing message
-- with a list of routing attributes (src/rtnl.rs), or the report of an error (src/err.rs). Every
-- structure is read from a stream buffer whose size hint says how many bytes the payload that follows
-- has: the header sets it from its length field, and the payload takes it. Enums of constants
-- (src/consts) are made by macros, and hold an integer that is no constant as it is.
--
-- The files:
--   Outcome    how a call ends (`ok`, `err`, a panic), and calls that change a buffer
--   Err        the error types of src/err.rs and their conversions
--   Buffering  the parameters: the streams of `buffering` with the integers of `byteorder`, and the
--              constants of `libc`, with what the code relies on as laws
--   Nl         the trait of src/lib.rs as the record `Nl A`, `pad`, `strip`, `alignto` of
--              src/consts/mod.rs; Nl/Uint the integers, Nl/Bytes the byte slices and vectors, Nl/Text
--              `&str` and `String`, with the check of UTF-8 of the standard library,
--              Nl/Runs the rules for runs, Nl/Ends and Nl/Stops those for reads of any bytes,
--              Nl/Padding what is written between values, Nl/Laws the records of what an implementation promises, on
--              which its clients rest
--   Consts     `impl_var!` of src/consts/macros.rs as the record `ImplVar`; below it the enums
--   Flags      the folds and loops over flags that src/nl.rs and src/rtnl.rs repeat
--   Nlattr     src/nlattr.rs: attributes and lists of them; Nlattr/Build `new`, `set_payload`,
--              `add_nested_attribute`, `get_payload_as`; Nlattr/Handle `AttrHandle`
--   Nlmsghdr   src/nl.rs
--   Genlmsghdr src/genl.rs
--   Nlmsgerr   the error payload of src/err.rs
--   Rtnl       src/rtnl.rs: Rtattr the routing attributes, Link `Ifinfomsg`, Address `Ifaddrmsg` and
--              `Rtgenmsg`, Route `Rtmsg`, Neighbour `Ndmsg` and `NdaCacheinfo`, Queueing `Tcmsg`
--   Netfilter  src/netfilter.rs: `LogPacket`, `LogConfigReq` and `LogConfigMode`; Netfilter/Order
--              `to_be` and `from_be`, by the order of the bytes; Netfilter/Items the attributes of a
--              packet by what they say, Netfilter/Absorb and Netfilter/Packet how they are read
--   Kernel     the parameters of the socket: the system calls, which change a `World`
--   Socket     src/socket.rs: `NlSocket` and the calls that only pass a system call on; Socket/Messages
--              `send_nl`, `recv_nl`, `recv_ack` and the iterator, with Send, Receive, Answer, Ack,
--              Exchange, Frame and Numbers the theorems on them; Socket/Resolve `resolve_genl_family` and
--              `resolve_nl_mcast_group`; Socket/Stream `mod tokio`, with `PollEvented` as a parameter
--   Examples   the programs of examples/, on a socket and with what they print: RouteList
--              route-list.rs, with RouteList/Lines what belongs to a route; CtrlList ctrl-list.rs, with
--              CtrlList/Lines what belongs to a family; Nflog nflog.rs, GenlStream genl_stream.rs,
--              NestedAttributes the message of create-nested-attributes.rs
--   Tests      the parameters at concrete values, and the theorems at concrete inputs
-- A module RoundTrip, Laws, Lists, Total, AnyBytes, Short or Errors has theorems on the module above
-- it; AnyBytes and Total are about what is read from any bytes.
--
-- A method is a function of the same name, with the implementations of `Nl` for its type parameters
-- as arguments and the buffer passed along. `&mut self` is a state in and out. An `i32` is kept as
-- its bit pattern, below 2 ^ 32. A subtraction of `usize`s below 0 and a sum of `u16`s above 2 ^ 16
-- panic, as they do in a build with overflow checks. A loop over attributes runs on fuel: the hint
-- or the number of bytes left, and one more. A round that succeeds takes at least the 4 bytes of a
-- header off either, so this is enough on any bytes. The programs of examples/ listen for as long as
-- messages come; their loops run on a fuel that the theorems bound by the messages of a datagram.
--
-- A method of a socket is a function on a `Host`, the socket and the world; a call that fails leaves
-- both as they are then. `recv_nl` takes its messages from the buffer of the socket, which one `recv`
-- fills and which is dropped at its end. What the standard library does (UTF-8, byte order, times) is
-- written out as it documents it.
--
-- Not modelled: the registration of descriptors with mio, which passes calls on; logging; the text
-- that the examples print; and examples/neli.rs, which only calls the library on made-up names.
pub mod Base
pub mod Outcome
pub mod Err
pub mod Buffering
pub mod Nl
pub mod Consts
pub mod Flags
pub mod Nlattr
pub mod Nlmsghdr
pub mod Genlmsghdr
pub mod Nlmsgerr
pub mod Rtnl
pub mod Netfilter
pub mod Kernel
pub mod Socket
pub mod Examples
mod Tests
