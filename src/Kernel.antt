-- ===== src/Kernel.antt =====
-- The system calls that src/socket.rs makes. They are parameters: `World` is what lies outside of the
-- process. A call gives the number it returns, below 0 where it failed, and `recv` also what it wrote
-- to the front of the slice that it got, which is as many bytes.
use neli.Base.{ℕ, ◌-◌, ◌%◌, ◌^◌, List, String}
use neli.Err.{IoError}

-- `negsuc n` is -(n + 1).
pub data ℤ : Type 0 where
  pos : ℕ → ℤ
  negsuc : ℕ → ℤ

-- The bit pattern of a 32-bit integer.
abbrev pub bits : ℤ → ℕ
bits (pos n) = n % 2 ^ 32
bits (negsuc n) = 2 ^ 32 - 1 - n % 2 ^ 32

-- `sockaddr_nl`, of which the other fields are 0
pub record Address : Type 0 where
  pub nl_family : ℕ
  pub nl_pid : ℕ
  pub nl_groups : ℕ

pub data Received : Type 0 where
  failed : Received
  received : List ℕ → Received

pub record Kernel : Type 1 where
  pub World : Type 0
  pub socket : ℕ → ℕ → ℕ → World → ℤ × World
  -- `F_GETFL` and `F_SETFL`: descriptor, command and argument
  pub fcntl : ℕ → ℕ → ℕ → World → ℤ × World
  pub bind : ℕ → Address → World → ℤ × World
  -- descriptor, level, name, value and its size
  pub setsockopt : ℕ → ℕ → ℕ → ℕ → ℕ → World → ℤ × World
  pub send : ℕ → List ℕ → ℕ → World → ℤ × World
  -- descriptor, length of the slice, flags
  pub recv : ℕ → ℕ → ℕ → World → Received × World
  pub close : ℕ → World → World
  pub last_os_error : World → IoError
  -- `io::Error::from_raw_os_error(…).to_string()`, by the bit pattern of the number
  pub os_error_text : ℕ → String
