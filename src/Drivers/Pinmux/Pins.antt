-- ===== src/Drivers/Pinmux/Pins.antt =====
-- The functions that src/pinmux.c gives the pins, as the fields of src/TMS570LC435/HL_pinmux.h.
use cannelloni_tms.Prelude.{ℕ, ◌*◌, ◌^◌}

abbrev pub ball_n19_mii_rx_er : ℕ
ball_n19_mii_rx_er = 0x4 * 2 ^ 0

abbrev pub ball_c1_gioa_2 : ℕ
ball_c1_gioa_2 = 0x1 * 2 ^ 0

abbrev pub ball_e1_gioa_3 : ℕ
ball_e1_gioa_3 = 0x1 * 2 ^ 8

abbrev pub ball_f2_dcan4tx : ℕ
ball_f2_dcan4tx = 0x8 * 2 ^ 8

abbrev pub ball_w10_dcan4rx : ℕ
ball_w10_dcan4rx = 0x8 * 2 ^ 16

abbrev pub ball_r2_mii_txd_2 : ℕ
ball_r2_mii_txd_2 = 0x4 * 2 ^ 8

abbrev pub ball_f3_mii_col : ℕ
ball_f3_mii_col = 0x4 * 2 ^ 16

abbrev pub ball_g3_mdio : ℕ
ball_g3_mdio = 0x4 * 2 ^ 24

abbrev pub ball_g19_mii_rxd_2 : ℕ
ball_g19_mii_rxd_2 = 0x4 * 2 ^ 8

abbrev pub ball_v5_mdclk : ℕ
ball_v5_mdclk = 0x4 * 2 ^ 0

abbrev pub ball_h19_mii_txen : ℕ
ball_h19_mii_txen = 0x4 * 2 ^ 16

abbrev pub ball_h18_mii_rxd_3 : ℕ
ball_h18_mii_rxd_3 = 0x4 * 2 ^ 24

abbrev pub ball_j19_mii_txd_1 : ℕ
ball_j19_mii_txd_1 = 0x4 * 2 ^ 0

abbrev pub ball_j18_mii_txd_0 : ℕ
ball_j18_mii_txd_0 = 0x4 * 2 ^ 0

abbrev pub ball_k18_n2het1_00 : ℕ
ball_k18_n2het1_00 = 0x1 * 2 ^ 0

abbrev pub ball_e18_mii_txd_3 : ℕ
ball_e18_mii_txd_3 = 0x4 * 2 ^ 0

abbrev pub ball_d19_mii_tx_clk : ℕ
ball_d19_mii_tx_clk = 0x4 * 2 ^ 16

abbrev pub ball_b4_mii_crs : ℕ
ball_b4_mii_crs = 0x4 * 2 ^ 0

abbrev pub ball_p1_mii_rxd_0 : ℕ
ball_p1_mii_rxd_0 = 0x4 * 2 ^ 24

abbrev pub ball_a14_mii_rxd_1 : ℕ
ball_a14_mii_rxd_1 = 0x4 * 2 ^ 0

abbrev pub ball_k19_mii_rxclk : ℕ
ball_k19_mii_rxclk = 0x4 * 2 ^ 8

abbrev pub ball_b11_mii_rx_dv : ℕ
ball_b11_mii_rx_dv = 0x4 * 2 ^ 16

abbrev pub ball_d3_mibspi2ncs_1 : ℕ
ball_d3_mibspi2ncs_1 = 0x20 * 2 ^ 8

abbrev pub ball_d2_mibspi2somi : ℕ
ball_d2_mibspi2somi = 0x10 * 2 ^ 16

abbrev pub ball_d1_mibspi2simo : ℕ
ball_d1_mibspi2simo = 0x10 * 2 ^ 24

abbrev pub ball_t4_mii_rx_avclk4 : ℕ
ball_t4_mii_rx_avclk4 = 0x10 * 2 ^ 16

abbrev pub ball_u7_mii_tx_avclk4 : ℕ
ball_u7_mii_tx_avclk4 = 0x10 * 2 ^ 24

abbrev pub ball_e2_mibspi2clk : ℕ
ball_e2_mibspi2clk = 0x10 * 2 ^ 0

abbrev pub ball_n3_mibspi2ncs_0 : ℕ
ball_n3_mibspi2ncs_0 = 0x10 * 2 ^ 8

abbrev pub signal_gioa_0_a5 : ℕ
signal_gioa_0_a5 = 0x1 * 2 ^ 24

abbrev pub signal_gioa_1_c2 : ℕ
signal_gioa_1_c2 = 0x1 * 2 ^ 0

abbrev pub signal_gioa_2_c1 : ℕ
signal_gioa_2_c1 = 0x1 * 2 ^ 8

abbrev pub signal_gioa_3_e1 : ℕ
signal_gioa_3_e1 = 0x1 * 2 ^ 16

abbrev pub signal_gioa_4_a6 : ℕ
signal_gioa_4_a6 = 0x1 * 2 ^ 24

abbrev pub signal_mdio_g3 : ℕ
signal_mdio_g3 = 0x2 * 2 ^ 24

abbrev pub signal_mii_col_f3 : ℕ
signal_mii_col_f3 = 0x2 * 2 ^ 16

abbrev pub signal_mii_crs_b4 : ℕ
signal_mii_crs_b4 = 0x2 * 2 ^ 24

abbrev pub signal_mii_rx_dv_b11 : ℕ
signal_mii_rx_dv_b11 = 0x2 * 2 ^ 0

abbrev pub signal_mii_rx_er_n19 : ℕ
signal_mii_rx_er_n19 = 0x2 * 2 ^ 8

abbrev pub signal_mii_rxclk_k19 : ℕ
signal_mii_rxclk_k19 = 0x2 * 2 ^ 16

abbrev pub signal_mii_rxd_0_p1 : ℕ
signal_mii_rxd_0_p1 = 0x2 * 2 ^ 24

abbrev pub signal_mii_rxd_1_a14 : ℕ
signal_mii_rxd_1_a14 = 0x2 * 2 ^ 0

abbrev pub signal_mii_rxd_2_g19 : ℕ
signal_mii_rxd_2_g19 = 0x2 * 2 ^ 8

abbrev pub signal_mii_rxd_3_h18 : ℕ
signal_mii_rxd_3_h18 = 0x2 * 2 ^ 16

abbrev pub signal_mii_tx_clk_d19 : ℕ
signal_mii_tx_clk_d19 = 0x2 * 2 ^ 24
