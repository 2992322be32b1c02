-- ===== src/Examples/CtrlList.antt =====
-- examples/ctrl-list.rs: an imitation of `genl ctrl list`.
pub mod Lines
pub mod Order
use neli.Base.{ℕ, zero, suc, true, Option, none, some, List, [], ◌∷◌, length}
use neli.Outcome.{
  Result, ok, err, panic, out_of_fuel, pure, throw, lift, map_err, sub_or_panic, ◌>>=◌, ◌>>◌,
}
use neli.Err.{NlError, msg, nl_of_de, nl_of_ser}
use neli.Buffering.{Libc, Buffering}
use neli.Nl.Uint.{deserialize_uint}
use neli.Nl.Text.{deserialize_string}
use neli.Consts.{var}
use neli.Consts.Messages.{Nlmsg, nlmsg, GenlId, genl_id, NlmF}
use neli.Consts.Genl.{CtrlCmd, ctrl_cmd}
use neli.Consts.Attrs.{CtrlAttr, ctrl_attr}
use neli.Consts.Socket.{NlFamily}
use neli.Nlattr.{Nlattr}
use neli.Nlattr.Handle
use neli.Nlmsghdr
use neli.Nlmsghdr.{Nlmsghdr}
use neli.Genlmsghdr
use neli.Genlmsghdr.{Genlmsghdr, genlmsghdr}
use neli.Kernel.{Kernel}
use neli.Socket.{connect}
use neli.Socket.Messages.{send_nl, next}
use neli.Examples.{Left, Program, on_socket, print, with_socket}

abbrev pub genl_version : ℕ
genl_version = 2

-- What the calls of `println!` format.
pub data Line : Type 0 where
  name : List ℕ → Line
  id : ℕ → Line

abbrev pub Response : Type 0
Response = Nlmsghdr Nlmsg (Genlmsghdr CtrlCmd CtrlAttr)

abbrev pub retrieving : NlError
retrieving = msg "An error occurred while retrieving available families"

module _ ⦃b : Buffering⦄ (k : Kernel) where
  -- `attr.payload.len() - 1` panics on an empty payload.
  abbrev pub print_name : List ℕ → Program k Line Unit
  print_name payload = do
    hint ← sub_or_panic (length payload) 1
    s ← lift (map_err nl_of_de (deserialize_string (b.set_size_hint hint (b.new_read payload))).0)
    print k (name s ∷ [])

  abbrev pub print_id : List ℕ → Program k Line Unit
  print_id payload = do
    v ← lift (map_err nl_of_de (deserialize_uint 2 (b.new_read payload)).0)
    print k (id v ∷ [])

  abbrev pub print_attr : CtrlAttr → List ℕ → Program k Line Unit
  print_attr CtrlAttr.family_name payload = print_name payload
  print_attr CtrlAttr.family_id payload = print_id payload
  print_attr other payload = pure tt

  -- The loop over the attributes.
  unfoldable pub print_attrs : List (Nlattr CtrlAttr (List ℕ)) → Program k Line Unit
  print_attrs [] = pure tt
  print_attrs (attr ∷ attrs) = print_attr attr.nla_type attr.payload >> print_attrs attrs

module _ ⦃c : Libc⦄ ⦃b : Buffering⦄ (k : Kernel) where
  -- The `match` on the type, and the attributes, before the next round.
  abbrev pub answered : Program k Line Unit → Response → Nlmsg → Program k Line Unit
  answered rest response Nlmsg.error = throw retrieving
  answered rest response Nlmsg.done = pure tt
  answered rest response other =
      print_attrs k (Handle.iter (Genlmsghdr.get_attr_handle response.nl_payload)) >> rest

  -- `while let Some(Ok(response)) = …` ends at the first error.
  abbrev pub heard :
      Program k Line Unit → Result NlError (Option (Result NlError Response)) → Program k Line Unit
  heard rest (ok (some (ok response))) s = answered rest response response.nl_type s
  heard rest (ok other) s = (ok tt, s)
  heard rest (err e) s = (ok tt, s)
  heard rest panic s = (panic, s)
  heard rest out_of_fuel s = (out_of_fuel, s)

  -- The loop, on fuel: the program bounds the rounds by nothing.
  unfoldable pub listen : ℕ → Program k Line Unit
  listen zero s = (out_of_fuel, s)
  listen (suc fuel) s =
      let (r, h) = next k (var nlmsg) (genlmsghdr (var ctrl_cmd) (var ctrl_attr)) s.host in
      heard (listen fuel) r (record s { host = h })

  -- `Genlmsghdr::new(…)?` comes before the socket is used.
  abbrev pub program : ℕ → Program k Line Unit
  program fuel = do
    genlhdr ← lift (map_err nl_of_ser (Genlmsghdr.new CtrlCmd.getfamily genl_version []))
    on_socket k (
        send_nl k (var genl_id) (genlmsghdr (var ctrl_cmd) (var ctrl_attr)) (
          Nlmsghdr.new (var genl_id) (genlmsghdr (var ctrl_cmd) (var ctrl_attr)) none GenlId.ctrl
            (NlmF.request ∷ NlmF.dump ∷ []) none none genlhdr))
    listen fuel

  unfoldable pub main : ℕ → k.World → Result NlError Unit × Left k Line
  unfolding listen
  main fuel = with_socket k (connect k NlFamily.generic none none true) (program fuel)
