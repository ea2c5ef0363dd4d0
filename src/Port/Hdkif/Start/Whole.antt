-- ===== src/Port/Hdkif/Start/Whole.antt =====
-- `hdkif_hw_init` as a whole.
use cannelloni_tms.Prelude.{ℕ, ◌+◌, ◌*◌, ◌≡◌, ◌≤◌, refl, sym, subst, arith, bit_or}
use cannelloni_tms.Mmio.{Device, modify}
use cannelloni_tms.Mmio.Runs.{Ends, Ends-bind, Ends-weaken, Settles}
use cannelloni_tms.Mmio.Orders.{Orders-Ends}
use cannelloni_tms.Drivers.Vim as Vim
use cannelloni_tms.Drivers.Vim.{vim_register_irq}
use cannelloni_tms.Port.Hdkif.{
  Reg, rxmbpenable, ctrl_softreset, softreset, in_reset, emac_mac_src_addr_set, emac_duplex_set,
  emac_rmii_speed_set, emac_mii_enable, emac_tx_int_pulse_enable, emac_rx_int_pulse_enable,
}
use cannelloni_tms.Port.Hdkif.Emac.{emac_init-Orders}
use cannelloni_tms.Port.Hdkif.Start.{
  Pbufs, Txch, Rxch, mac_address, turn_on, hdkif_hw_init, emac_ctrl_ram_0_base, size_emac_ctrl_ram,
}
use cannelloni_tms.Port.Hdkif.Start.Ring.{LinkMemory, init_tx_ring-follow}
use cannelloni_tms.Port.Hdkif.Start.Reception.{Chains, init_rx_ring-bounded}

-- The two channels after the start: nothing is being transmitted, and the descriptors for reception
-- lie behind the ring for transmission and within the memory of the EMAC.
pub record Placed (c : Txch × Rxch) : Type 0 where
  pub tx_head : c.0.free_head ≡ emac_ctrl_ram_0_base
  pub tx_idle : c.0.active_tail ≡ 0
  pub tx_next : c.0.next_bd_to_process ≡ emac_ctrl_ram_0_base
  pub rx_behind : emac_ctrl_ram_0_base + 20 * 204 ≤ c.1.active_head
  pub rx_order : c.1.active_head ≤ c.1.active_tail
  pub rx_within : c.1.active_tail + 20 ≤ emac_ctrl_ram_0_base + size_emac_ctrl_ram

module _ {R W : Type 0} (dev : Device R W) (at : Reg → R) (lwip : Pbufs R W) (fuel : ℕ)
    (mem : LinkMemory dev at) (chains : Chains dev at lwip fuel) where
  mac_address-Ends : (w : W) → Ends (mac_address dev at) w (λ _ _. Unit {0})
  unfolding mac_address
  mac_address-Ends w = record { result = _; state = _; trace = _; run = refl; post = tt }

  turn_on-Ends :
      (vim_at : Vim.Reg → R) (tx_isr rx_isr : ℕ) (t : Txch) (r : Rxch) (w : W)
      → Ends (turn_on dev at vim_at tx_isr rx_isr t r) w (λ c _. c ≡ (t, r))
  unfolding turn_on emac_mii_enable emac_tx_int_pulse_enable emac_rx_int_pulse_enable
      vim_register_irq
  turn_on-Ends vim_at tx_isr rx_isr t r w = record {
    result = (t, r);
    state = _;
    trace = _;
    run = refl;
    post = refl;
  }

  set_address-Ends :
      (a b c d : ℕ) (w : W)
      → Ends (emac_mac_src_addr_set dev at 0x02 0x00 a b c d) w (λ _ _. Unit {0})
  unfolding emac_mac_src_addr_set
  set_address-Ends a b c d w = record { result = tt; state = _; trace = _; run = refl; post = tt }

  set_duplex-Ends : (w : W) → Ends (emac_duplex_set dev at 1) w (λ _ _. Unit {0})
  unfolding emac_duplex_set
  set_duplex-Ends w = record { result = tt; state = _; trace = _; run = refl; post = tt }

  set_speed-Ends : (w : W) → Ends (emac_rmii_speed_set dev at 0x8000) w (λ _ _. Unit {0})
  unfolding emac_rmii_speed_set
  set_speed-Ends w = record { result = tt; state = _; trace = _; run = refl; post = tt }

  take_all-Ends :
      (w : W) → Ends (modify dev (at rxmbpenable) (λ v. bit_or v 0x20_0000)) w (λ _ _. Unit {0})
  take_all-Ends w = record { result = tt; state = _; trace = _; run = refl; post = tt }

  -- If both resets of the EMAC end, the memory keeps the links, and the chains of packet buffers
  -- that lwIP gives out have fewer segments than the fuel, `hdkif_hw_init` returns, whatever the
  -- allocation of buffers gives, and the two channels are placed in the EMAC's memory side by side.
  pub hdkif_hw_init-Placed :
      (vim_at : Vim.Reg → R) (tx_isr rx_isr : ℕ) (w : W)
      → Settles dev fuel (at ctrl_softreset) in_reset
      → Settles dev fuel (at softreset) in_reset
      → Ends (hdkif_hw_init dev at lwip vim_at tx_isr rx_isr fuel) w (λ c _. Placed c)
  unfolding hdkif_hw_init
  hdkif_hw_init-Placed vim_at tx_isr rx_isr w ctrl_ends ends =
      Ends-bind _ (mac_address-Ends w) λ a w1 _.
        Ends-bind _ (Orders-Ends w1 (emac_init-Orders dev at fuel ctrl_ends ends)) λ _ w2 _.
          Ends-bind _ (set_address-Ends a.0 a.1 a.2 a.3 w2) λ _ w3 _.
            Ends-bind _ (set_duplex-Ends w3) λ _ w4 _. Ends-bind _ (set_speed-Ends w4) λ _ w5 _.
              Ends-bind _ (take_all-Ends w5) λ _ w6 _.
                Ends-bind _ (init_tx_ring-follow dev at mem emac_ctrl_ram_0_base w6 (omega arith))
                  λ curr w7 ring.
                    Ends-bind _
                      (init_rx_ring-bounded dev at lwip fuel mem chains (curr + 20) w7
                        (omega (arith, ring.0)))
                      λ rx w8 p. Ends-weaken (turn_on-Ends vim_at tx_isr rx_isr _ rx w8) λ c _ e.
                        subst Placed (sym e) (record {
                          tx_head = refl;
                          tx_idle = refl;
                          tx_next = refl;
                          rx_behind = omega (arith, p.0, ring.0);
                          rx_order = omega (arith, p.0, p.1);
                          rx_within = omega (arith, p.2, ring.0);
                        })
