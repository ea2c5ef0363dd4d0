-- ===== src/Drivers/Pinmux.antt =====
-- src/pinmux.c: the functions of the pins, behind the lock of the pin multiplexer.
pub mod Pins
pub mod Lock
use cannelloni_tms.Prelude.{ℕ, ◌*◌, ◌-◌, ◌^◌, bit_and, bit_or}
use cannelloni_tms.Mmio.{Device, Cmd, ◌>>=◌, ◌>>◌, put, modify}
use cannelloni_tms.Drivers.Pinmux.Pins.{
  ball_n19_mii_rx_er, ball_c1_gioa_2, ball_e1_gioa_3, ball_f2_dcan4tx, ball_w10_dcan4rx,
  ball_r2_mii_txd_2, ball_f3_mii_col, ball_g3_mdio, ball_g19_mii_rxd_2, ball_v5_mdclk,
  ball_h19_mii_txen, ball_h18_mii_rxd_3, ball_j19_mii_txd_1, ball_j18_mii_txd_0, ball_k18_n2het1_00,
  ball_e18_mii_txd_3, ball_d19_mii_tx_clk, ball_b4_mii_crs, ball_p1_mii_rxd_0, ball_a14_mii_rxd_1,
  ball_k19_mii_rxclk, ball_b11_mii_rx_dv, ball_d3_mibspi2ncs_1, ball_d2_mibspi2somi,
  ball_d1_mibspi2simo, ball_t4_mii_rx_avclk4, ball_u7_mii_tx_avclk4, ball_e2_mibspi2clk,
  ball_n3_mibspi2ncs_0, signal_gioa_0_a5, signal_gioa_1_c2, signal_gioa_2_c1, signal_gioa_3_e1,
  signal_gioa_4_a6, signal_mdio_g3, signal_mii_col_f3, signal_mii_crs_b4, signal_mii_rx_dv_b11,
  signal_mii_rx_er_n19, signal_mii_rxclk_k19, signal_mii_rxd_0_p1, signal_mii_rxd_1_a14,
  signal_mii_rxd_2_g19, signal_mii_rxd_3_h18, signal_mii_tx_clk_d19,
}

-- The registers of `pinMuxReg`
pub data Reg : Type 0 where
  kicker0 : Reg
  kicker1 : Reg
  pinmux : ℕ → Reg

abbrev pub pinmux_ethernet_mask : ℕ
pinmux_ethernet_mask = 2 ^ 32 - 1 - 0xFF * 2 ^ 24

-- `at` is where the registers are among those of the device.
module _ {R W : Type 0} (dev : Device R W) (at : Reg → R) where
  pub pinmux_init : Cmd R W (Unit {0})
  pinmux_init = do
    put dev (at kicker0) 0x83E7_0B13
    put dev (at kicker1) 0x95A4_F1E0
    put dev (at (pinmux 0)) ball_n19_mii_rx_er
    put dev (at (pinmux 19)) (bit_or ball_c1_gioa_2 ball_e1_gioa_3)
    put dev (at (pinmux 20)) (bit_or ball_f2_dcan4tx ball_w10_dcan4rx)
    put dev (at (pinmux 21)) (bit_or (bit_or ball_r2_mii_txd_2 ball_f3_mii_col) ball_g3_mdio)
    put dev (at (pinmux 22)) ball_g19_mii_rxd_2
    put dev (at (pinmux 23)) ball_v5_mdclk
    put dev (at (pinmux 24)) ball_h19_mii_txen
    put dev (at (pinmux 25)) ball_h18_mii_rxd_3
    put dev (at (pinmux 26)) ball_j19_mii_txd_1
    put dev (at (pinmux 27)) ball_j18_mii_txd_0
    put dev (at (pinmux 28)) ball_k18_n2het1_00
    put dev (at (pinmux 30)) (bit_or ball_e18_mii_txd_3 ball_d19_mii_tx_clk)
    put dev (at (pinmux 31)) ball_b4_mii_crs
    put dev (at (pinmux 33)) ball_p1_mii_rxd_0
    put dev (at (pinmux 34))
        (bit_or (bit_or ball_a14_mii_rxd_1 ball_k19_mii_rxclk) ball_b11_mii_rx_dv)
    put dev (at (pinmux 35))
        (bit_or (bit_or ball_d3_mibspi2ncs_1 ball_d2_mibspi2somi) ball_d1_mibspi2simo)
    put dev (at (pinmux 36)) (bit_or ball_t4_mii_rx_avclk4 ball_u7_mii_tx_avclk4)
    put dev (at (pinmux 37)) (bit_or ball_e2_mibspi2clk ball_n3_mibspi2ncs_0)
    put dev (at (pinmux 83)) signal_gioa_0_a5
    put dev (at (pinmux 84)) (
        bit_or (bit_or (bit_or signal_gioa_1_c2 signal_gioa_2_c1) signal_gioa_3_e1)
          signal_gioa_4_a6)
    put dev (at (pinmux 87)) signal_mdio_g3
    put dev (at (pinmux 89)) (bit_or signal_mii_col_f3 signal_mii_crs_b4)
    put dev (at (pinmux 90)) (
        bit_or (bit_or (bit_or signal_mii_rx_dv_b11 signal_mii_rx_er_n19) signal_mii_rxclk_k19)
          signal_mii_rxd_0_p1)
    put dev (at (pinmux 91)) (
        bit_or (bit_or (bit_or signal_mii_rxd_1_a14 signal_mii_rxd_2_g19) signal_mii_rxd_3_h18)
          signal_mii_tx_clk_d19)
    modify dev (at (pinmux 160)) (λ v. bit_and v pinmux_ethernet_mask)
    put dev (at kicker0) 0x0000_0000
    put dev (at kicker1) 0x0000_0000
