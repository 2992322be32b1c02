-- ===== src/Consts/Messages.antt =====
-- src/consts/nl.rs: types and flags of messages.
use neli.Base.{ℕ, ◌%◌, ◌^◌, List, [], ◌∷◌}
use neli.Buffering.{Libc}
use neli.Consts.{ImplVar}

pub data Nlmsg : Type 0 where
  noop error done overrun : Nlmsg
  unrecognized_variant : ℕ → Nlmsg

pub data GenlId : Type 0 where
  ctrl vfs_dquot pmcraid : GenlId
  unrecognized_variant : ℕ → GenlId

pub data NlmF : Type 0 where
  request multi ack echo dump_intr dump_filtered root match atomic dump replace : NlmF
  excl create append : NlmF
  unrecognized_variant : ℕ → NlmF

module _ ⦃c : Libc⦄ where
  abbrev pub nlmsg_into : Nlmsg → ℕ
  nlmsg_into Nlmsg.noop = c.constant "NLMSG_NOOP" % 2 ^ 16
  nlmsg_into Nlmsg.error = c.constant "NLMSG_ERROR" % 2 ^ 16
  nlmsg_into Nlmsg.done = c.constant "NLMSG_DONE" % 2 ^ 16
  nlmsg_into Nlmsg.overrun = c.constant "NLMSG_OVERRUN" % 2 ^ 16
  nlmsg_into (Nlmsg.unrecognized_variant i) = i

  abbrev pub nlmsg_variants : List Nlmsg
  nlmsg_variants = Nlmsg.noop ∷ Nlmsg.error ∷ Nlmsg.done ∷ Nlmsg.overrun ∷ []

  abbrev pub nlmsg : ImplVar Nlmsg
  nlmsg = record {
    width = 2;
    variants = nlmsg_variants;
    unrecognized_variant = Nlmsg.unrecognized_variant;
    into = nlmsg_into;
  }

  abbrev pub genl_id_into : GenlId → ℕ
  genl_id_into GenlId.ctrl = c.constant "GENL_ID_CTRL" % 2 ^ 16
  genl_id_into GenlId.vfs_dquot = c.constant "GENL_ID_VFS_DQUOT" % 2 ^ 16
  genl_id_into GenlId.pmcraid = c.constant "GENL_ID_PMCRAID" % 2 ^ 16
  genl_id_into (GenlId.unrecognized_variant i) = i

  abbrev pub genl_id_variants : List GenlId
  genl_id_variants = GenlId.ctrl ∷ GenlId.vfs_dquot ∷ GenlId.pmcraid ∷ []

  abbrev pub genl_id : ImplVar GenlId
  genl_id = record {
    width = 2;
    variants = genl_id_variants;
    unrecognized_variant = GenlId.unrecognized_variant;
    into = genl_id_into;
  }

  abbrev pub nlm_f_into : NlmF → ℕ
  nlm_f_into NlmF.request = c.constant "NLM_F_REQUEST" % 2 ^ 16
  nlm_f_into NlmF.multi = c.constant "NLM_F_MULTI" % 2 ^ 16
  nlm_f_into NlmF.ack = c.constant "NLM_F_ACK" % 2 ^ 16
  nlm_f_into NlmF.echo = c.constant "NLM_F_ECHO" % 2 ^ 16
  nlm_f_into NlmF.dump_intr = c.constant "NLM_F_DUMP_INTR" % 2 ^ 16
  nlm_f_into NlmF.dump_filtered = c.constant "NLM_F_DUMP_FILTERED" % 2 ^ 16
  nlm_f_into NlmF.root = c.constant "NLM_F_ROOT" % 2 ^ 16
  nlm_f_into NlmF.match = c.constant "NLM_F_MATCH" % 2 ^ 16
  nlm_f_into NlmF.atomic = c.constant "NLM_F_ATOMIC" % 2 ^ 16
  nlm_f_into NlmF.dump = c.constant "NLM_F_DUMP" % 2 ^ 16
  nlm_f_into NlmF.replace = c.constant "NLM_F_REPLACE" % 2 ^ 16
  nlm_f_into NlmF.excl = c.constant "NLM_F_EXCL" % 2 ^ 16
  nlm_f_into NlmF.create = c.constant "NLM_F_CREATE" % 2 ^ 16
  nlm_f_into NlmF.append = c.constant "NLM_F_APPEND" % 2 ^ 16
  nlm_f_into (NlmF.unrecognized_variant i) = i

  abbrev pub nlm_f_variants : List NlmF
  nlm_f_variants =
      NlmF.request ∷ NlmF.multi ∷ NlmF.ack ∷ NlmF.echo ∷ NlmF.dump_intr ∷ NlmF.dump_filtered
      ∷ NlmF.root ∷ NlmF.match ∷ NlmF.atomic ∷ NlmF.dump ∷ NlmF.replace ∷ NlmF.excl ∷ NlmF.create
      ∷ NlmF.append ∷ []

  abbrev pub nlm_f : ImplVar NlmF
  nlm_f = record {
    width = 2;
    variants = nlm_f_variants;
    unrecognized_variant = NlmF.unrecognized_variant;
    into = nlm_f_into;
  }
