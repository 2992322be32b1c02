-- ===== src/Examples/Nflog.antt =====
-- examples/nflog.rs: the packets of a log group of netfilter.
use neli.Base.{ℕ, zero, suc, false, Option, none, some, List, [], ◌∷◌}
use neli.Outcome.{Result, ok, err, panic, out_of_fuel, lift, bind, map_err, ◌>>=◌, ◌>>◌}
use neli.Err.{NlError, SerError, nl_of_ser, nl_of_de}
use neli.Buffering.{Libc, Buffering}
use neli.Consts.{var}
use neli.Consts.Messages.{NlmF}
use neli.Consts.Netfilter.{
  LogCmd, log_cmd, NetfilterMsg, netfilter_msg, NfLogCfg, nf_log_cfg, LogCopyMode,
}
use neli.Consts.Socket.{NlFamily}
use neli.Nlattr.{Nlattr}
use neli.Nlattr.Build
use neli.Nlmsghdr
use neli.Nlmsghdr.{Nlmsghdr}
use neli.Netfilter
use neli.Netfilter.{LogPacket, LogConfigReq, log_packet, log_config_req, log_config_mode}
use neli.Kernel.{Kernel}
use neli.Socket.{connect}
use neli.Socket.Messages.{send_nl, recv_ack, next}
use neli.Examples.{Left, Program, on_socket, print, with_socket}

-- What the calls of `println!` format.
pub data Line : Type 0 where
  packet : LogPacket → Line
  other_message : Line

module _ ⦃c : Libc⦄ ⦃b : Buffering⦄ where
  abbrev cmd : LogCmd → Result SerError (Nlattr NfLogCfg (List ℕ))
  cmd of = Build.new (var nf_log_cfg) (var log_cmd) none NfLogCfg.cmd of

  unfoldable pub cmds : Result SerError (List (Nlattr NfLogCfg (List ℕ)))
  cmds = bind (cmd LogCmd.pf_unbind) λ unbind.
      bind
        (Build.new (var nf_log_cfg) log_config_mode none NfLogCfg.mode
          (record { copy_mode = LogCopyMode.packet; copy_range = 50 }))
        λ mode.
          bind (cmd LogCmd.pf_bind)
            λ pf_bind. bind (cmd LogCmd.bind) λ bound. ok (unbind ∷ mode ∷ pf_bind ∷ bound ∷ [])

  abbrev pub request : LogConfigReq → Nlmsghdr NetfilterMsg LogConfigReq
  request req =
      Nlmsghdr.new (var netfilter_msg) log_config_req none NetfilterMsg.log_config
        (NlmF.request ∷ NlmF.ack ∷ []) none none req

  abbrev pub line : Nlmsghdr NetfilterMsg LogPacket → NetfilterMsg → Line
  line pkt NetfilterMsg.log_packet = packet pkt.nl_payload
  line pkt other = other_message

module _ ⦃c : Libc⦄ ⦃b : Buffering⦄ (k : Kernel) where
  -- The body of the `for`, before the next round.
  abbrev pub shown :
      Program k Line Unit
      → Result NlError (Option (Result NlError (Nlmsghdr NetfilterMsg LogPacket)))
      → Program k Line Unit
  shown rest (ok none) s = (ok tt, s)
  shown rest (ok (some (ok pkt))) s = (print k (line pkt pkt.nl_type ∷ []) >> rest) s
  shown rest (ok (some (err e))) s = (err e, s)
  shown rest (ok (some panic)) s = (panic, s)
  shown rest (ok (some out_of_fuel)) s = (out_of_fuel, s)
  shown rest (err e) s = (err e, s)
  shown rest panic s = (panic, s)
  shown rest out_of_fuel s = (out_of_fuel, s)

  -- The loop, on fuel: the program bounds the rounds by nothing.
  unfoldable pub listen : ℕ → Program k Line Unit
  listen zero s = (out_of_fuel, s)
  listen (suc fuel) s =
      let (r, h) = next k (var netfilter_msg) log_packet s.host in
      shown (listen fuel) r (record s { host = h })

  abbrev pub program : ℕ → Program k Line Unit
  unfolding cmds listen
  program fuel = do
    attrs ← lift (map_err nl_of_ser cmds)
    req ← lift (map_err nl_of_de (Netfilter.new (c.constant "AF_INET") 10 attrs))
    on_socket k (send_nl k (var netfilter_msg) log_config_req (request req))
    on_socket k (recv_ack k)
    listen fuel

  unfoldable pub main : ℕ → k.World → Result NlError Unit × Left k Line
  main fuel = with_socket k (connect k NlFamily.netfilter none none false) (program fuel)
