-- ===== src/Examples/NestedAttributes.antt =====
-- examples/create-nested-attributes.rs: a message with attributes of different types inside two
-- attributes. Numbers of no stated type are `i32`s, and so is the type of an attribute `u16`.
use neli.Base.{ℕ, none, List, [], ◌∷◌}
use neli.Outcome.{Result, ok, bind}
use neli.Err.{SerError}
use neli.Buffering.{Libc, Buffering}
use neli.Nl.Uint.{u16, i32}
use neli.Nl.Bytes.{vec_u8}
use neli.Nl.Text.{str}
use neli.Consts.{var}
use neli.Consts.Messages.{Nlmsg, nlmsg, NlmF}
use neli.Consts.Genl.{CtrlCmd, ctrl_cmd}
use neli.Nlattr.{Nlattr}
use neli.Nlattr.Build
use neli.Nlattr.Build.{add_nested_attribute}
use neli.Nlmsghdr
use neli.Nlmsghdr.{Nlmsghdr}
use neli.Genlmsghdr
use neli.Genlmsghdr.{Genlmsghdr, genlmsghdr}

module _ ⦃c : Libc⦄ ⦃b : Buffering⦄ where
  abbrev Attr : Type 0
  Attr = Nlattr ℕ (List ℕ)

  abbrev added : Result SerError Unit × Attr → Result SerError Attr
  added (r, attr) = bind r λ _. ok attr

  -- An attribute of the type `ty`, with a string and a number in it.
  unfoldable pub pair : ℕ → List ℕ → ℕ → Result SerError Attr
  pair ty text number = bind (Build.new u16 vec_u8 none ty []) λ attr.
      bind (Build.new u16 str none 1 text) λ first.
        bind (added (add_nested_attribute u16 u16 vec_u8 first attr)) λ attr'.
          bind (Build.new u16 i32 none 2 number)
            λ second. added (add_nested_attribute u16 u16 vec_u8 second attr')

  unfoldable pub message : List ℕ → List ℕ → Result SerError (Nlmsghdr Nlmsg (Genlmsghdr CtrlCmd ℕ))
  unfolding pair
  message first_text second_text = bind (pair 0 first_text 0) λ attr1.
      bind (pair 2 second_text 5) λ attr2.
        bind (Genlmsghdr.new CtrlCmd.getfamily 2 (attr1 ∷ attr2 ∷ [])) λ genlmsg. ok (
          Nlmsghdr.new (var nlmsg) (genlmsghdr (var ctrl_cmd) u16) none Nlmsg.noop
            (NlmF.request ∷ []) none none genlmsg)
