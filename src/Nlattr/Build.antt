-- ===== src/Nlattr/Build.antt =====
-- src/nlattr.rs: building an attribute whose payload is bytes, and reading it as a type. `&mut self`
-- is the state; what was written before an error stays in the payload.
pub mod Laws
use neli.Base.{ℕ, ◌+◌, ◌%◌, ◌^◌, ltb, if◌then◌else◌, Option, none, some, List, []}
use neli.Outcome.{Result, Exec, ok, pure, abort, modify, ◌>>=◌, ◌>>◌, bind}
use neli.Err.{SerError, DeError}
use neli.Buffering.{Libc, Buffering}
use neli.Nl.{Nl, WritesBuffer}
use neli.Nl.Uint.{u16}
use neli.Nl.Bytes.{vec_u8}
use neli.Nlattr
use neli.Nlattr.{Nlattr}

-- `Option::unwrap_or`
abbrev pub unwrap_or {ℓ} : {A : Type ℓ} → Option A → A → A
unwrap_or (some a) d = a
unwrap_or none d = d

-- A method of an attribute whose payload is bytes.
abbrev pub Builds : Type 0 → Type 0 → Type 0
Builds T A = Exec (Nlattr T (List ℕ)) SerError A

module _ ⦃b : Buffering⦄ {T : Type 0} where
  -- A growable buffer over the payload, for as long as `m` runs.
  abbrev pub over_payload : (b.WriteBuffer → b.WriteBuffer) → WritesBuffer Unit → Builds T Unit
  over_payload position m self =
      let (r, buffer) = m (position (b.new_growable_ref self.payload)) in
      (r, record self { payload = b.contents buffer })

  -- `+=` on `u16`, built with overflow checks
  abbrev pub add_len : ℕ → Builds T Unit
  add_len n self =
      if ltb (self.nla_len + n) (2 ^ 16)
      then (ok tt, record self { nla_len = self.nla_len + n })
      else abort self

module _ ⦃c : Libc⦄ ⦃b : Buffering⦄ {T P : Type 0} (t : Nl T) (p : Nl P) where
  pub set_payload : P → Nlattr T (List ℕ) → Result SerError Unit × Nlattr T (List ℕ)
  set_payload payload = do
    over_payload (λ buffer. buffer) (p.serialize payload)
    modify (λ self. record self {
      nla_len = (u16.size self.nla_len + t.size self.nla_type + p.size payload) % 2 ^ 16;
    })

  pub new : Option ℕ → T → P → Result SerError (Nlattr T (List ℕ))
  new nla_len nla_type payload =
      let attr : Nlattr T (List ℕ) = record {
        nla_len = unwrap_or nla_len 0;
        nla_type = nla_type;
        payload = [];
      } in
      let (r, attr') = set_payload payload attr in bind r λ _. ok attr'

-- The attribute that is added may have another type parameter.
module _ ⦃c : Libc⦄ ⦃b : Buffering⦄ {T TT P : Type 0} (t : Nl T) (tt' : Nl TT) (p : Nl P) where
  pub add_nested_attribute :
      Nlattr TT P → Nlattr T (List ℕ) → Result SerError Unit × Nlattr T (List ℕ)
  add_nested_attribute attr self =
      let init_position = Nlattr.payload_size t vec_u8 self in
      (do
        over_payload (b.set_position init_position) (Nlattr.serialize tt' p attr)
        add_len (Nlattr.asize tt' p attr % 2 ^ 16))
        self

module _ ⦃c : Libc⦄ ⦃b : Buffering⦄ {T R : Type 0} (t : Nl T) (r : Nl R) where
  pub get_payload_as : Nlattr T (List ℕ) → Result DeError R
  get_payload_as self =
      let buf = b.set_size_hint (Nlattr.payload_size t vec_u8 self) (b.new_read self.payload) in
      (r.deserialize buf).0
