-- ===== src/Tests/Hdkif.antt =====
-- The theorems on the Ethernet driver at a concrete EMAC.
use cannelloni_tms.Prelude.{ℕ, ◌+◌, ◌*◌, ◌<◌, ◌≡◌, refl, arith, [], ◌∷◌, ◌++◌}
use cannelloni_tms.Prelude.{ok}
use cannelloni_tms.Prelude.Masks.{without}
use cannelloni_tms.Mmio.Runs.{Ends}
use cannelloni_tms.Port.Hdkif.{
  bd_flags_pktlen, txcp, pbuf_next, machash1, txhdp, hdkif_swizzle_data,
}
use cannelloni_tms.Port.Hdkif.Start.{Txch, init_tx_ring, hdkif_hw_init}
use cannelloni_tms.Port.Hdkif.Start.Ring.{init_tx_ring-follow}
use cannelloni_tms.Port.Hdkif.Start.Whole.{Placed, hdkif_hw_init-Placed}
use cannelloni_tms.Port.Hdkif.Interrupts.{packet_sent}
use cannelloni_tms.Port.Hdkif.Interrupts.Sent.{after, last_flags, packet_sent-freed}
use cannelloni_tms.Port.Hdkif.Transmit.{hdkif_transmit}
use cannelloni_tms.Port.Hdkif.Transmit.Packet.{enqueued, start_dma-idle, hdkif_transmit-enqueued}
use cannelloni_tms.Tests.Ethernet.{
  Flags, done, freeing, done_memory, Links, emac, emac_links, emac_packets, one_segment,
  emac_chains, ctrl_reset_ends, reset_ends,
}

abbrev unlinked : Links
unlinked = record { to = λ a. 0; word = λ a. 0 }

init_tx_ring-follow_example : Ends (init_tx_ring emac (λ r. r) 0xFC52_0000) unlinked (λ r m.
    (r ≡ 0xFC52_0000 + 20 * 204)
    × ((i : ℕ)
        → i < 203
        → hdkif_swizzle_data (m.to (0xFC52_0000 + 20 * i)) ≡ 0xFC52_0000 + 20 * (i + 1))
    × (hdkif_swizzle_data (m.to (0xFC52_0000 + 20 * 203)) ≡ 0xFC52_0000))
init_tx_ring-follow_example =
    init_tx_ring-follow emac (λ r. r) emac_links 0xFC52_0000 unlinked (omega arith)

hdkif_hw_init-Placed_example :
    Ends
      (hdkif_hw_init emac (λ r. r) one_segment (λ r. machash1) 0x8000 0x9000 2)
      unlinked
      (λ c _. Placed c)
hdkif_hw_init-Placed_example =
    hdkif_hw_init-Placed emac (λ r. r) one_segment 2 emac_links emac_chains (λ r. machash1) 0x8000
      0x9000 unlinked ctrl_reset_ends reset_ends

abbrev idle_channel : Txch
idle_channel = record { free_head = 400; active_tail = 0; next_bd_to_process = 400 }

hdkif_transmit-enqueued_example :
    (m : Links) × (hdkif_transmit emac (λ r. r) 2 idle_channel 0x2000 unlinked
      ≡ ok (
        record { free_head = hdkif_swizzle_data 0; active_tail = 400; next_bd_to_process = 400 },
        m,
        enqueued emac (λ r. r) emac_links emac_packets 2 unlinked 1 0x2000 400 400 64
            ++ (record { reg = txhdp 0; value = 400 } ∷ []),
      ))
hdkif_transmit-enqueued_example =
    hdkif_transmit-enqueued emac (λ r. r) emac_links emac_packets 2 idle_channel 0x2000 1
      (record { reg = txhdp 0; value = 400 } ∷ []) unlinked (omega arith)
      ((λ e. ground arith), refl) (omega arith)
      (λ m. (m, start_dma-idle emac (λ r. r) emac_links emac_packets 2 400 m))

-- A packet of one descriptor, of which the EMAC has cleared the owner's flag.
abbrev sent : Flags
sent = record { word = λ a. 0xC0 }

packet_sent-freed_example :
    (m : Flags) × (packet_sent done (λ r. r) freeing 1 420 400 sent
      ≡ ok (
        after done (λ r. r) freeing 1 done_memory 420 sent 400,
        m,
        record { reg = bd_flags_pktlen 400; value = without 7 0xC0 }
            ∷ record {
              reg = bd_flags_pktlen 400;
              value = without 6 (last_flags done (λ r. r) freeing 1 done_memory sent 400 400);
            }
            ∷ record { reg = txcp 0; value = 400 }
            ∷ record { reg = pbuf_next 0x2000; value = 0 }
            ∷ [],
      ))
unfolding hdkif_swizzle_data
packet_sent-freed_example =
    packet_sent-freed done (λ r. r) freeing 1 done_memory 420 0 400 sent (omega arith) refl refl
