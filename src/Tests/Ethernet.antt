-- ===== src/Tests/Ethernet.antt =====
-- A concrete EMAC with its memory, and packets of one segment.
use cannelloni_tms.Prelude.{
  ℕ, ◌<◌, ◌≡◌, ◌≢◌, refl, sym, ◌∙◌, arith, false, [], ◌∷◌, if◌then◌else◌, ◌==◌,
}
use cannelloni_tms.Prelude.{ok}
use cannelloni_tms.Mmio.{Device}
use cannelloni_tms.Mmio.Runs.{Settles, poll-ready}
use cannelloni_tms.Port.Hdkif.{
  Reg, bd_flags_pktlen, bd_pbuf, pbuf_next, bd_next, pbuf_payload, pbuf_tot_len, pbuf_len,
  softreset, ctrl_softreset, in_reset,
}
use cannelloni_tms.Port.Hdkif.Start.{Pbufs}
use cannelloni_tms.Port.Hdkif.Start.Ring.{LinkMemory, is_link}
use cannelloni_tms.Port.Hdkif.Start.Reception.{Chains}
use cannelloni_tms.Port.Hdkif.Interrupts.Sent.{DoneMemory}
use cannelloni_tms.Port.Hdkif.Transmit.Packet.{PacketMemory, is_word}

-- The memory: the links of the descriptors, and the words with their flags.
pub record Links : Type 0 where
  pub to : ℕ → ℕ
  pub word : ℕ → ℕ

abbrev pub emac_value : Reg → Links → ℕ
emac_value (bd_next a) m = m.to a
emac_value (bd_flags_pktlen a) m = m.word a
emac_value (pbuf_payload q) m = 0x1000
emac_value (pbuf_len q) m = 64
emac_value (pbuf_tot_len q) m = 64
emac_value r m = 0

abbrev pub emac_written : Reg → ℕ → Links → Links
emac_written (bd_next a) v m = record m { to = λ j. if j == a then v else m.to j }
emac_written (bd_flags_pktlen a) v m = record m { word = λ j. if j == a then v else m.word j }
emac_written r v m = m

abbrev pub emac : Device Reg Links
emac = record { read = λ r m. (emac_value r m, m); write = emac_written }

pub other_writes :
    (m : Links) (r : Reg) (v j : ℕ) → is_link r ≡ false → (emac_written r v m).to j ≡ m.to j
other_writes m (bd_next a) v j h = ground arith
other_writes m r v j h = refl

pub other_words :
    (m : Links) (r : Reg) (v j : ℕ) → is_word r ≡ false → (emac_written r v m).word j ≡ m.word j
other_words m (bd_flags_pktlen a) v j h = ground arith
other_words m r v j h = refl

abbrev pub emac_links : LinkMemory emac (λ r. r)
emac_links = record {
  next_of = λ m. m.to;
  write_next = λ m a v j. refl;
  others = other_writes;
  read_next = λ m a. refl;
  read_kept = λ m r j. refl;
}

abbrev pub emac_packets : PacketMemory emac (λ r. r)
emac_packets = record {
  seg = λ m q. record { next = 0; payload = 0x1000; len = 64 };
  read_next = λ m q. refl;
  read_payload = λ m q. refl;
  read_len = λ m q. refl;
  read_kept = λ m r q. refl;
  write_kept = λ m r v q h. refl;
  word_of = λ m. m.word;
  read_word = λ m d. refl;
  word_kept = λ m r d. refl;
  word_others = other_words;
  set_word = λ m a v d h. refl;
}

abbrev pub segments : ℕ → ℕ
segments q = if q == 0 then 0 else 1

abbrev pub one_segment : Pbufs Reg Links
one_segment = record {
  pbuf_alloc = λ n m. ok (0x2000, m, []);
  pbuf_clen = λ p m. ok (segments p, m, []);
  pbuf_free = λ p m. ok (tt, m, []);
  pbuf_ref = λ p m. ok (tt, m, []);
}

pub segments_of : (q : ℕ) → q ≢ 0 → segments q ≡ 1
segments_of q ne = ground arith

pub one_lt_two : 1 < 2
one_lt_two = omega arith

abbrev pub emac_chains : Chains emac (λ r. r) one_segment 2
emac_chains = record {
  Chain = λ m q c. segments q ≡ c;
  null = λ m c h. sym h;
  next = λ m q c ne h. (0, sym h ∙ segments_of q ne, refl);
  write = λ m r v q c h k. k;
  read = λ m r q c h. h;
  alloc = λ m n. record {
    result = 0x2000;
    state = m;
    trace = [];
    run = refl;
    post = (1, one_lt_two, refl);
  };
  clen =
      λ m p c h. record { result = segments p; state = m; trace = []; run = refl; post = (h, h) };
  free = λ m p. record { result = tt; state = m; trace = []; run = refl; post = tt };
}

pub ctrl_reset_ends : Settles emac 2 ctrl_softreset in_reset
ctrl_reset_ends m = (m, poll-ready emac 1 ctrl_softreset in_reset m refl)

pub reset_ends : Settles emac 2 softreset in_reset
reset_ends m = (m, poll-ready emac 1 softreset in_reset m refl)

-- The memory of packets that have been sent: the words with the flags of their descriptors.
pub record Flags : Type 0 where
  pub word : ℕ → ℕ

abbrev pub done_value : Reg → Flags → ℕ
done_value (bd_flags_pktlen a) m = m.word a
done_value (bd_pbuf a) m = 0x2000
done_value r m = 0

abbrev pub done_written : Reg → ℕ → Flags → Flags
done_written (bd_flags_pktlen a) v m = record { word = λ j. if j == a then v else m.word j }
done_written r v m = m

abbrev pub done : Device Reg Flags
done = record { read = λ r m. (done_value r m, m); write = done_written }

abbrev pub freeing : Pbufs Reg Flags
freeing = record {
  pbuf_alloc = λ n m. ok (0, m, []);
  pbuf_clen = λ p m. ok (1, m, []);
  pbuf_free = λ p m. ok (tt, m, record { reg = pbuf_next p; value = 0 } ∷ []);
  pbuf_ref = λ p m. ok (tt, m, []);
}

abbrev pub done_memory : DoneMemory done (λ r. r) freeing
done_memory = record {
  word_of = λ m. m.word;
  next_of = λ m d. 0;
  buffer_of = λ m d. 0x2000;
  freed = λ p. record { reg = pbuf_next p; value = 0 } ∷ [];
  read_flags = λ m d. refl;
  read_next = λ m d. refl;
  read_buffer = λ m d. refl;
  same_flags = λ m r d. refl;
  same_next = λ m r d. refl;
  same_buffer = λ m r d. refl;
  set_flags = λ m a v d. refl;
  kept_next = λ m a v d. refl;
  kept_buffer = λ m a v d. refl;
  acknowledged = λ m v d. refl;
  free = λ m p. (m, refl);
}
