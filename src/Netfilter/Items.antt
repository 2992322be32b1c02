-- ===== src/Netfilter/Items.antt =====
-- src/netfilter.rs: the attributes of a packet by what they say, their payloads as the kernel sends them,
-- and what each leaves in the packet that is read.
use neli.Base.{ℕ, ◌+◌, ◌*◌, ◌^◌, ◌<◌, ◌≡◌, refl, ◌∙◌}
use neli.Base.{false}
use neli.Base.{some, List, [], ◌∷◌, ◌++◌, length}
use neli.Buffering.{Libc, Buffering}
use neli.Nl.Text.{has_nul}
use neli.Consts.Netfilter.{NfLogAttr}
use neli.Nlattr.{Nlattr}
use neli.Netfilter.{LogPacket}
use neli.Netfilter.Order.{big_bytes}

-- What an attribute says. The lists after a mark and in a hardware address are bytes that are not read.
pub data Item : Type 0 where
  mark : ℕ → List ℕ → Item
  timestamp_of : ℕ → ℕ → Item
  hwaddr : List ℕ → ℕ → ℕ → List ℕ → Item
  payload prefix : List ℕ → Item
  indev outdev phyindev phyoutdev uid gid : ℕ → Item
  other : NfLogAttr → List ℕ → Item

abbrev pub type_of : Item → NfLogAttr
type_of (mark n rest) = NfLogAttr.mark
type_of (timestamp_of secs usecs) = NfLogAttr.timestamp
type_of (hwaddr addr x y rest) = NfLogAttr.hwaddr
type_of (payload xs) = NfLogAttr.payload
type_of (prefix xs) = NfLogAttr.prefix
type_of (indev n) = NfLogAttr.ifindex_indev
type_of (outdev n) = NfLogAttr.ifindex_outdev
type_of (phyindev n) = NfLogAttr.ifindex_phyindev
type_of (phyoutdev n) = NfLogAttr.ifindex_phyoutdev
type_of (uid n) = NfLogAttr.uid
type_of (gid n) = NfLogAttr.gid
type_of (other ty xs) = ty

-- The types that a packet has no field for.
abbrev pub IsIgnored : NfLogAttr → Type 0
IsIgnored NfLogAttr.mark = ⊥
IsIgnored NfLogAttr.timestamp = ⊥
IsIgnored NfLogAttr.hwaddr = ⊥
IsIgnored NfLogAttr.payload = ⊥
IsIgnored NfLogAttr.prefix = ⊥
IsIgnored NfLogAttr.ifindex_indev = ⊥
IsIgnored NfLogAttr.ifindex_outdev = ⊥
IsIgnored NfLogAttr.ifindex_phyindev = ⊥
IsIgnored NfLogAttr.ifindex_phyoutdev = ⊥
IsIgnored NfLogAttr.uid = ⊥
IsIgnored NfLogAttr.gid = ⊥
IsIgnored _ = Unit

-- The numbers fit, and a prefix has no 0.
abbrev pub Fits : Item → Type 0
Fits (mark n rest) = n < 2 ^ 16
Fits (timestamp_of secs usecs) = (secs < 2 ^ 63) × (usecs < 10 ^ 6)
Fits (hwaddr addr x y rest) = length addr < 2 ^ 16
Fits (payload xs) = Unit
Fits (prefix xs) = has_nul xs ≡ false
Fits (indev n) = n < 2 ^ 32
Fits (outdev n) = n < 2 ^ 32
Fits (phyindev n) = n < 2 ^ 32
Fits (phyoutdev n) = n < 2 ^ 32
Fits (uid n) = n < 2 ^ 32
Fits (gid n) = n < 2 ^ 32
Fits (other ty xs) = IsIgnored ty

-- The packet with what an attribute says.
abbrev pub says : Item → LogPacket → LogPacket
says (mark n rest) p = record p { mark = n }
says (timestamp_of secs usecs) p = record p {
  timestamp = record { secs = secs; nanos = usecs * 1000 };
}
says (hwaddr addr x y rest) p = record p { hwaddr = addr }
says (payload xs) p = record p { payload = xs }
says (prefix xs) p = record p { prefix = xs }
says (indev n) p = record p { ifindex_in = some n }
says (outdev n) p = record p { ifindex_out = some n }
says (phyindev n) p = record p { ifindex_physin = some n }
says (phyoutdev n) p = record p { ifindex_physout = some n }
says (uid n) p = record p { uid = some n }
says (gid n) p = record p { gid = some n }
says (other ty xs) p = p

-- The packet with what all of them say, where a later one counts.
abbrev pub say_all : List Item → LogPacket → LogPacket
say_all [] p = p
say_all (item ∷ items) p = say_all items (says item p)

module _ ⦃c : Libc⦄ ⦃b : Buffering⦄ where
  -- Integers are sent from the high byte to the low one, but the mark is read in native order.
  abbrev pub body_of : Item → List ℕ
  body_of (mark n rest) = b.encode 2 n ++ rest
  body_of (timestamp_of secs usecs) = big_bytes 8 secs ++ big_bytes 8 usecs
  body_of (hwaddr addr x y rest) = big_bytes 2 (length addr) ++ (x ∷ y ∷ (addr ++ rest))
  body_of (payload xs) = xs
  body_of (prefix xs) = xs ++ (0 ∷ [])
  body_of (indev n) = big_bytes 4 n
  body_of (outdev n) = big_bytes 4 n
  body_of (phyindev n) = big_bytes 4 n
  body_of (phyoutdev n) = big_bytes 4 n
  body_of (uid n) = big_bytes 4 n
  body_of (gid n) = big_bytes 4 n
  body_of (other ty xs) = xs

  abbrev pub attr_of : Item → Nlattr NfLogAttr (List ℕ)
  attr_of item = record {
    nla_len = 4 + length (body_of item);
    nla_type = type_of item;
    payload = body_of item;
  }

  abbrev pub attrs_of : List Item → List (Nlattr NfLogAttr (List ℕ))
  attrs_of [] = []
  attrs_of (item ∷ items) = attr_of item ∷ attrs_of items

-- No attribute says the size of them all.
pub attr_len-say_all : (p : LogPacket) (items : List Item) → (say_all items p).attr_len ≡ p.attr_len
attr_len-say_all p [] = refl
attr_len-say_all p (item ∷ items) = attr_len-say_all (says item p) items ∙ same_attr_len p item
  where
    same_attr_len : (p : LogPacket) (item : Item) → (says item p).attr_len ≡ p.attr_len
    same_attr_len p (mark n rest) = refl
    same_attr_len p (timestamp_of secs usecs) = refl
    same_attr_len p (hwaddr addr x y rest) = refl
    same_attr_len p (payload xs) = refl
    same_attr_len p (prefix xs) = refl
    same_attr_len p (indev n) = refl
    same_attr_len p (outdev n) = refl
    same_attr_len p (phyindev n) = refl
    same_attr_len p (phyoutdev n) = refl
    same_attr_len p (uid n) = refl
    same_attr_len p (gid n) = refl
    same_attr_len p (other ty xs) = refl
