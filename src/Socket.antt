-- ===== src/Socket.antt =====
-- src/socket.rs: `NlSocket`. A method that changes the socket gets and gives the socket and the world
-- as a `Host`; one that only asks the kernel, the world. `u32` and `i32` arithmetic panics where it
-- leaves its range, as in a build with overflow checks.
pub mod Messages
pub mod Resolve
pub mod Stream
use neli.Base.{
  ℕ, zero, suc, ◌+◌, ◌-◌, ◌%◌, ◌^◌, ◌≤◌, bit_and, bit_or, ltb, leb, ◌==◌, ◌&&◌, if◌then◌else◌,
}
use neli.Base.{Option, none, some, List, [], ◌∷◌, Bool, true, false, length, replicate, ◌++◌}
use neli.Outcome.{Result, Exec, ok, err, panic, out_of_fuel, pure, modify, lift, ◌>>=◌, ◌>>◌}
use neli.Err.{IoError}
use neli.Buffering.{Libc, Buffering}
use neli.Consts.Socket.{netlink, addr_family_into, NlFamily, nl_family_into}
use neli.Nlattr.Build.{unwrap_or}
use neli.Kernel.{Kernel, ℤ, pos, negsuc, bits, Address, Received, failed, received}

module _ ⦃b : Buffering⦄ where
  pub record NlSocket : Type 0 where
    pub fd : ℕ
    pub buffer : Option b.ReadBuffer
    pub pid : Option ℕ
    pub seq : Option ℕ

  abbrev pub from_raw_fd : ℕ → NlSocket
  from_raw_fd fd = record { fd = fd; buffer = none; pid = none; seq = none }

  abbrev pub as_raw_fd : NlSocket → ℕ
  as_raw_fd self = self.fd

  -- The sum is not stored.
  unfoldable pub increment_seq : NlSocket → Result IoError Unit × NlSocket
  increment_seq self = elim self.seq [
    | none ↦ (ok tt, self)
    | some seq ↦ if ltb (seq + 1) (2 ^ 32) then (ok tt, self) else (panic, self)
  ]

-- `acc | (1 << (next - 1))`, on 32 bits
unfoldable pub group_mask : ℕ → List ℕ → Result IoError ℕ
group_mask acc [] = ok acc
group_mask acc (next ∷ groups) =
    if leb 1 next && leb next 32 then group_mask (bit_or acc (2 ^ (next - 1))) groups else panic

module _ (k : Kernel) where
  -- A call that only asks the kernel.
  abbrev pub Sys : Type 0 → Type 0
  Sys A = Exec k.World IoError A

  abbrev pub last_error : {A : Type 0} → Sys A
  last_error w = (err (k.last_os_error w), w)

  abbrev pub at_least_zero : ℤ → Sys ℕ
  at_least_zero (pos n) = pure n
  at_least_zero (negsuc n) = last_error

  abbrev pub zero_only : ℤ → Sys Unit
  zero_only (pos zero) = pure tt
  zero_only (pos (suc n)) = last_error
  zero_only (negsuc n) = last_error

  abbrev pub not_below_zero : ℤ → Sys Unit
  not_below_zero (pos n) = pure tt
  not_below_zero (negsuc n) = last_error

  -- `match … { i if i >= 0 => Ok(i), _ => Err(io::Error::last_os_error()) }`
  abbrev pub checked : (k.World → ℤ × k.World) → Sys ℕ
  checked call w = let (i, w') = call w in at_least_zero i w'

module _ ⦃c : Libc⦄ (k : Kernel) where
  -- The complement of `O_NONBLOCK` in 32 bits.
  abbrev pub not_nonblock : ℕ
  not_nonblock = 2 ^ 32 - 1 - c.constant "O_NONBLOCK"

  unfoldable pub block : ℕ → Sys k Unit
  block fd w =
      let (flags, w') = k.fcntl fd (c.constant "F_GETFL") 0 w in
      let (i, w'') = k.fcntl fd (c.constant "F_SETFL") (bit_and (bits flags) not_nonblock) w' in
      not_below_zero k i w''

  unfoldable pub nonblock : ℕ → Sys k Unit
  nonblock fd w =
      let (flags, w') = k.fcntl fd (c.constant "F_GETFL") 0 w in
      let (i, w'') =
        k.fcntl fd (c.constant "F_SETFL") (bit_or (bits flags) (c.constant "O_NONBLOCK")) w' in
      not_below_zero k i w''

  unfoldable pub is_blocking : ℕ → Sys k Bool
  is_blocking fd = do
    i ← checked k (k.fcntl fd (c.constant "F_GETFL") 0)
    pure (bit_and i (c.constant "O_NONBLOCK") == 0)

module _ (k : Kernel) where
  -- `send` gives the number of bytes sent.
  unfoldable pub send : ℕ → List ℕ → ℕ → Sys k ℕ
  send fd buf flags = checked k (k.send fd buf flags)

  abbrev pub copied : ℕ → Received → Sys k (ℕ × List ℕ)
  copied len failed = last_error k
  copied len (received bytes) = pure (length bytes, bytes ++ replicate (len - length bytes) 0)

  -- `recv` into a slice of `len` zeros gives the number of bytes received and the slice.
  unfoldable pub recv : ℕ → ℕ → ℕ → Sys k (ℕ × List ℕ)
  recv fd len flags w = let (r, w') = k.recv fd len flags w in copied len r w'

  abbrev pub drop_socket : ⦃b : Buffering⦄ → NlSocket → k.World → k.World
  drop_socket self w = k.close self.fd w

module _ ⦃b : Buffering⦄ (k : Kernel) where
  pub record Host : Type 0 where
    pub socket : NlSocket
    pub world : k.World

  abbrev pub Method : Type 0 → Type 0 → Type 0
  Method E A = Exec Host E A

  abbrev pub this : {E : Type 0} → Method E NlSocket
  this h = (ok h.socket, h)

  abbrev pub ask : {A : Type 0} → Sys k A → Method IoError A
  ask m h = let (r, w) = m h.world in (r, record h { world = w })

  abbrev pub set_pid : {E : Type 0} → Option ℕ → Method E Unit
  set_pid pid = modify (λ h. record h { socket = record h.socket { pid = pid } })

  abbrev pub set_seq : {E : Type 0} → Option ℕ → Method E Unit
  set_seq seq = modify (λ h. record h { socket = record h.socket { seq = seq } })

  abbrev pub set_buffer : {E : Type 0} → Option b.ReadBuffer → Method E Unit
  set_buffer buffer = modify (λ h. record h { socket = record h.socket { buffer = buffer } })

module _ ⦃c : Libc⦄ ⦃b : Buffering⦄ (k : Kernel) where
  unfoldable pub new : NlFamily → Bool → Sys k NlSocket
  new proto track_seq = do
    fd ←
        checked k
          (k.socket (addr_family_into netlink) (c.constant "SOCK_RAW") (nl_family_into proto))
    pure (record { fd = fd; buffer = none; pid = none; seq = if track_seq then some 0 else none })

  unfoldable pub set_mcast_groups : List ℕ → Method k IoError Unit
  unfolding group_mask
  set_mcast_groups groups = do
    grps ← lift (group_mask 0 groups)
    self ← this k
    ask k (λ w.
        let (i, w') =
          k.setsockopt self.fd (c.constant "SOL_NETLINK") (c.constant "NETLINK_ADD_MEMBERSHIP") grps
            4 w in
        zero_only k i w')
    set_pid k none
    pure tt

  abbrev pub join : Option (List ℕ) → Method k IoError Unit
  unfolding set_mcast_groups
  join none = pure tt
  join (some grps) = do set_mcast_groups grps; pure tt

  -- The address of the process, with no groups.
  abbrev pub address : Option ℕ → Address
  address pid = record {
    nl_family = addr_family_into netlink % 2 ^ 16;
    nl_pid = unwrap_or pid 0;
    nl_groups = 0;
  }

  unfoldable pub bind : Option ℕ → Option (List ℕ) → Method k IoError Unit
  bind pid groups = do
    set_pid k pid
    self ← this k
    ask k (checked k (k.bind self.fd (address pid)))
    join groups

  -- A socket that cannot be bound is dropped, and so closed.
  abbrev pub kept : Result IoError Unit → NlSocket → Sys k NlSocket
  kept (ok u) self w = (ok self, w)
  kept (err e) self w = (err e, drop_socket k self w)
  kept panic self w = (panic, drop_socket k self w)
  kept out_of_fuel self w = (out_of_fuel, w)

  unfoldable pub connect : NlFamily → Option ℕ → Option (List ℕ) → Bool → Sys k NlSocket
  unfolding new bind
  connect proto pid groups track_seq = do
    s ← new proto track_seq
    λ w. let (r, h) = bind pid groups (record { socket = s; world = w }) in kept r h.socket h.world
