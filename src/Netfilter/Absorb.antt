-- ===== src/Netfilter/Absorb.antt =====
-- src/netfilter.rs, the loop of `LogPacket::deserialize`: each attribute leaves what it says in the packet.
use neli.Base.{ℕ, ◌*◌, ◌^◌, ◌<◌, ◌≡◌, refl, ap, sym, ◌∙◌, arith, ◌==◌}
use neli.Base.{Bool-cases, inl, inr, true, false, leb, le→leb, append-nil}
use neli.Base.{Option, none, some, List, [], ◌∷◌, ◌++◌, length, take-append_length}
use neli.Outcome.{ok}
use neli.Buffering.{Libc, Buffering, All}
use neli.Nl.Runs.{Reads, Reads-bind, Reads-last, Reads-pure}
use neli.Nl.Uint.{u16, u32, Reads-uint}
use neli.Nl.Text.{has_nul}
use neli.Consts.{var}
use neli.Consts.Netfilter.{NfLogAttr, nf_log_attr}
use neli.Nlattr.{Nlattr}
use neli.Nlattr.Build.{get_payload_as}
use neli.Nlattr.Build.Laws.{get_payload_as-Reads}
use neli.Netfilter.{
  LogPacket, timestamp, system_time, deserialize_timestamp, absorb, absorb_all, retain_nonzero,
  index_of, hwaddr_of, after_length,
}
use neli.Netfilter.Config.{Reads-big}
use neli.Netfilter.Order.{big_bytes, to_be, from_be-to_be}
use neli.Netfilter.Items.{
  Item, mark, timestamp_of, hwaddr, payload, prefix, indev, outdev, phyindev, phyoutdev, uid, gid,
  other, type_of, IsIgnored, Fits, says, say_all, body_of, attr_of, attrs_of,
}

retain_nonzero-terminated :
    (xs : List ℕ) → has_nul xs ≡ false → retain_nonzero (xs ++ (0 ∷ [])) ≡ xs
unfolding has_nul retain_nonzero
retain_nonzero-terminated [] none_in = refl
retain_nonzero-terminated (x ∷ xs) none_in = elim (Bool-cases (x == 0)) [
  | inl zeroed ↦ absurd (clash (rw zeroed at none_in))
  | inr nonzero ↦
      rw nonzero (ap (λ l. x ∷ l) (retain_nonzero-terminated xs (rw nonzero at none_in)))
]
  where
    clash : true ≡ false → ⊥
    clash e = cc

system_time_lem :
    (secs usecs : ℕ)
    → secs < 2 ^ 63
    → usecs < 10 ^ 6
    → system_time (record { secs = secs; usecs = usecs })
      ≡ ok (record { secs = secs; nanos = usecs * 1000 })
unfolding system_time
system_time_lem secs usecs fits_secs fits_usecs = ground arith

module _ ⦃c : Libc⦄ ⦃b : Buffering⦄ where
  index_lem :
      (item : Item) (n : ℕ)
      → body_of item ≡ big_bytes 4 n
      → n < 2 ^ 32
      → index_of (attr_of item) ≡ ok n
  index_lem item n body fits =
      let holds : body_of item ≡ big_bytes 4 n ++ [] = body ∙ sym (append-nil (big_bytes 4 n)) in
      rw
        (get_payload_as-Reads (var nf_log_attr) u32 (attr_of item) (big_bytes 4 n) [] (to_be 4 n) _
          holds (Reads-big 4 n (some (length (body_of item)))))
        (rw (from_be-to_be 4 n fits) refl)

  mark_lem :
      (n : ℕ) (rest : List ℕ)
      → n < 2 ^ 16
      → get_payload_as (var nf_log_attr) u16 (attr_of (mark n rest)) ≡ ok n
  mark_lem n rest fits =
      get_payload_as-Reads (var nf_log_attr) u16 (attr_of (mark n rest)) (b.encode 2 n) rest n _
        refl (Reads-uint 2 n (some (length (b.encode 2 n ++ rest))) fits)

  timestamp-Reads :
      (secs usecs : ℕ) (h : Option ℕ)
      → secs < 2 ^ 63
      → usecs < 10 ^ 6
      → Reads deserialize_timestamp h
          (big_bytes 8 secs ++ big_bytes 8 usecs)
          (record { secs = secs; usecs = usecs })
          h
  unfolding deserialize_timestamp
  timestamp-Reads secs usecs h fits_secs fits_usecs = Reads-bind _ _ (Reads-big 8 secs h) (
      Reads-last _ _ (Reads-big 8 usecs h) (
        rw (from_be-to_be 8 secs (omega arith), from_be-to_be 8 usecs (omega arith))
          (Reads-pure (record { secs = secs; usecs = usecs }))))

  timestamp_lem :
      (secs usecs : ℕ)
      → secs < 2 ^ 63
      → usecs < 10 ^ 6
      → get_payload_as (var nf_log_attr) timestamp (attr_of (timestamp_of secs usecs))
        ≡ ok (record { secs = secs; usecs = usecs })
  timestamp_lem secs usecs fits_secs fits_usecs =
      let xs = big_bytes 8 secs ++ big_bytes 8 usecs in
      get_payload_as-Reads (var nf_log_attr) timestamp (attr_of (timestamp_of secs usecs)) xs []
        (record { secs = secs; usecs = usecs }) _ (sym (append-nil xs))
        (timestamp-Reads secs usecs (some (length xs)) fits_secs fits_usecs)

  after_length_lem :
      (addr rest : List ℕ) (x y : ℕ)
      → after_length (big_bytes 2 (length addr) ++ (x ∷ y ∷ (addr ++ rest))) (length addr) ≡ ok addr
  unfolding big_bytes
  after_length_lem addr rest x y =
      let long : leb 4 (length (big_bytes 2 (length addr) ++ (x ∷ y ∷ (addr ++ rest)))) ≡ true =
        le→leb _ _ (omega arith) in
      rw long (rw (take-append_length addr rest) refl)

  hwaddr_lem :
      (addr rest : List ℕ) (x y : ℕ)
      → length addr < 2 ^ 16
      → hwaddr_of (body_of (hwaddr addr x y rest)) ≡ ok addr
  hwaddr_lem addr rest x y fits =
      let xs = big_bytes 2 (length addr) ++ (x ∷ y ∷ (addr ++ rest)) in
      rw (b.new_read_lem xs, (Reads-big 2 (length addr) none).at [] (x ∷ y ∷ (addr ++ rest)))
        (rw (from_be-to_be 2 (length addr) fits) (after_length_lem addr rest x y))

  ignored :
      (p : LogPacket) (ty : NfLogAttr) (attr : Nlattr NfLogAttr (List ℕ))
      → IsIgnored ty
      → absorb p ty attr ≡ ok p
  unfolding absorb
  ignored p NfLogAttr.mark attr i = absurd i
  ignored p NfLogAttr.timestamp attr i = absurd i
  ignored p NfLogAttr.hwaddr attr i = absurd i
  ignored p NfLogAttr.payload attr i = absurd i
  ignored p NfLogAttr.prefix attr i = absurd i
  ignored p NfLogAttr.ifindex_indev attr i = absurd i
  ignored p NfLogAttr.ifindex_outdev attr i = absurd i
  ignored p NfLogAttr.ifindex_phyindev attr i = absurd i
  ignored p NfLogAttr.ifindex_phyoutdev attr i = absurd i
  ignored p NfLogAttr.uid attr i = absurd i
  ignored p NfLogAttr.gid attr i = absurd i
  ignored p _ attr i = refl

  absorb-says :
      (p : LogPacket) (item : Item)
      → Fits item
      → absorb p (type_of item) (attr_of item) ≡ ok (says item p)
  unfolding absorb
  absorb-says p (mark n rest) fits = rw (mark_lem n rest fits) refl
  absorb-says p (timestamp_of secs usecs) (fits_secs, fits_usecs) =
      rw (timestamp_lem secs usecs fits_secs fits_usecs)
        (rw (system_time_lem secs usecs fits_secs fits_usecs) refl)
  absorb-says p (hwaddr addr x y rest) fits = rw (hwaddr_lem addr rest x y fits) refl
  absorb-says p (payload xs) fits = refl
  absorb-says p (prefix xs) fits = rw (retain_nonzero-terminated xs fits) (rw fits refl)
  absorb-says p (indev n) fits = rw (index_lem (indev n) n refl fits) refl
  absorb-says p (outdev n) fits = rw (index_lem (outdev n) n refl fits) refl
  absorb-says p (phyindev n) fits = rw (index_lem (phyindev n) n refl fits) refl
  absorb-says p (phyoutdev n) fits = rw (index_lem (phyoutdev n) n refl fits) refl
  absorb-says p (uid n) fits = rw (index_lem (uid n) n refl fits) refl
  absorb-says p (gid n) fits = rw (index_lem (gid n) n refl fits) refl
  absorb-says p (other ty xs) fits = ignored p ty (attr_of (other ty xs)) fits

  pub absorb_all-say_all :
      (p : LogPacket) (items : List Item)
      → All Fits items
      → absorb_all p (attrs_of items) ≡ ok (say_all items p)
  unfolding absorb_all
  absorb_all-say_all p [] fits = refl
  absorb_all-say_all p (item ∷ items) (fits, others) =
      rw (absorb-says p item fits) (absorb_all-say_all (says item p) items others)
